-- ===== src/Bridge/Convoy/Defs.antt =====
-- What holds between any two steps of TEST3C.C.
use user_level_thread_librar.Base.{ℕ, ◌+◌, ◌≡◌, ℤ, pos, length, is_zero, true, List, []}
use user_level_thread_librar.Bridge.Cars.{Dir, open_road, north, south, AllAre, AllGo, count}
use user_level_thread_librar.Bridge.Convoy.{Convoy}

-- How many cars of direction `d` have arrived and not departed. `hand` is the car whose code runs, once
-- it is counted and while it is nowhere else.
abbrev pub present : Dir → (waiting woken crossing hand : List Dir) → ℕ
present d waiting woken crossing hand =
    count d waiting + count d woken + count d crossing + count d hand

-- Over the fields that it reads, so that a write to any other field keeps it for nothing.
pub record Safe (cur : Dir) (in_flight num_north num_south first_time : ℤ)
    (waiting woken crossing hand : List Dir) : Type 0 where
  pub one_way : AllAre cur crossing
  pub flight : in_flight ≡ pos (length crossing)
  pub empty : cur ≡ open_road → crossing ≡ []
  pub north_counted : num_north ≡ pos (present north waiting woken crossing hand)
  pub south_counted : num_south ≡ pos (present south waiting woken crossing hand)
  pub waiting_go : AllGo waiting
  pub woken_go : AllGo woken
  pub begun :
      is_zero first_time ≡ true → (crossing ≡ []) × (waiting ≡ []) × (woken ≡ []) × (hand ≡ [])

abbrev pub IsSafe : (hand : List Dir) → Convoy → Type 0
IsSafe hand c =
    Safe c.cur_dir c.in_flight c.num_cars_north c.num_cars_south c.first_time c.waiting c.woken
      c.crossing hand
