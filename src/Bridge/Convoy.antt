-- ===== src/Bridge/Convoy.antt =====
-- TEST3C.C: `Arrive` and `Depart` with groups of three cars that take turns.
-- As in Bridge/OneWay, the lock makes the code between two operations on it one step.
pub mod Steps
pub mod Defs
pub mod Parts
pub mod Safety
pub mod Reachable
pub mod Stranded
use user_level_thread_librar.Base.{
  ℕ, zero, suc, ◌%◌, ◌==◌, if◌then◌else◌, Bool, true, false, List, [], ◌∷◌, ◌++◌, ℤ, pos, negsuc,
  increment, decrement, is_zero, eq_ℤ, ltb_ℤ, not, ◌&&◌, ◌||◌, ◌+◌,
}
use user_level_thread_librar.Bridge.Cars.{Dir, open_road, north, south, same}

pub record Convoy : Type 0 where
  pub num_cars : ℤ
  pub num_cars_north : ℤ
  pub num_cars_south : ℤ
  pub cur_dir : Dir
  pub in_flight : ℤ
  pub toggle_dir : ℤ
  pub first_time : ℤ
  pub waiting : List Dir
  pub woken : List Dir
  pub crossing : List Dir

-- `z%2==0`
abbrev pub is_even : ℤ → Bool
is_even (pos n) = n % 2 == 0
is_even (negsuc n) = (n + 1) % 2 == 0

abbrev pub wake_first : List Dir → Convoy → Convoy
wake_first [] c = c
wake_first (x ∷ xs) c = record c { waiting = xs; woken = c.woken ++ x ∷ [] }

-- `t_sig(cond,NULL,my_lock);`
unfoldable pub signal : Convoy → Convoy
signal c = wake_first c.waiting c

-- `num_cars = num_cars_north;` or `num_cars = num_cars_south;`
abbrev pub own_count : Dir → Convoy → Convoy
own_count open_road c = c
own_count north c = record c { num_cars = c.num_cars_north }
own_count south c = record c { num_cars = c.num_cars_south }

-- `++num_cars_north` or `++num_cars_south`
abbrev pub count_in : Dir → Convoy → Convoy
count_in open_road c = c
count_in north c = record c { num_cars_north = increment c.num_cars_north }
count_in south c = record c { num_cars_south = increment c.num_cars_south }

-- `--num_cars_north` or `--num_cars_south`
abbrev pub count_out : Dir → Convoy → Convoy
count_out open_road c = c
count_out north c = record c { num_cars_north = decrement c.num_cars_north }
count_out south c = record c { num_cars_south = decrement c.num_cars_south }

-- North and south exchanged.
abbrev pub flip : Dir → Dir
flip open_road = open_road
flip north = south
flip south = north

-- What follows the loop.
unfoldable pub enter : Dir → Convoy → Convoy
enter my_dir c = record c {
  cur_dir = my_dir;
  in_flight = increment c.in_flight;
  toggle_dir = if eq_ℤ (increment c.in_flight) (pos 3) then pos 1 else c.toggle_dir;
  crossing = c.crossing ++ my_dir ∷ [];
}

-- The body of the loop up to `t_wait`.
unfoldable pub queue_up : Dir → Convoy → Convoy
unfolding signal
queue_up my_dir c = let s = signal c in record s { waiting = s.waiting ++ my_dir ∷ [] }

-- The test of the loop.
abbrev pub must_wait : Dir → Convoy → Bool
must_wait my_dir c =
    is_even c.num_cars
    || not (same c.cur_dir my_dir)
    || not (ltb_ℤ c.in_flight (pos 3))
    || eq_ℤ c.toggle_dir (pos 1)

unfoldable pub loop : Dir → Convoy → Convoy
loop my_dir c = if must_wait my_dir c then queue_up my_dir c else enter my_dir c

-- `Arrive`, up to its first wait.
unfoldable pub arrive : Dir → Convoy → Convoy
arrive my_dir c =
    let started =
      if is_zero c.first_time
      then record c { first_time = increment c.first_time; cur_dir = my_dir }
      else c in
    loop my_dir (own_count my_dir (count_in my_dir started))

-- The body of the loop from `t_wait` on, and the next rounds up to the next wait.
unfoldable pub resume : Dir → Convoy → Convoy
resume my_dir c =
    let counted = own_count my_dir c in
    if same counted.cur_dir my_dir && not (eq_ℤ counted.toggle_dir (pos 1))
    then enter my_dir counted
    else if is_zero counted.num_cars_north || is_zero counted.num_cars_south
    then enter my_dir (record counted { cur_dir = flip counted.cur_dir })
    else loop my_dir counted

-- `inFlight` has fallen to 0: the other direction has its turn.
abbrev pub next_group : Convoy → Convoy
next_group c = record c {
  cur_dir = flip c.cur_dir;
  toggle_dir = if same c.cur_dir open_road then c.toggle_dir else pos 0;
}

-- `Depart`, with the other cars that are crossing.
unfoldable pub depart : Dir → (others : List Dir) → Convoy → Convoy
depart my_dir others c =
    let left = record c { in_flight = decrement c.in_flight; crossing = others } in
    let turned = if is_zero left.in_flight then next_group left else left in
    own_count my_dir (count_out my_dir (signal turned))

abbrev pub empty_road : Convoy
empty_road = record {
  num_cars = pos 0;
  num_cars_north = pos 0;
  num_cars_south = pos 0;
  cur_dir = open_road;
  in_flight = pos 0;
  toggle_dir = pos 0;
  first_time = pos 0;
  waiting = [];
  woken = [];
  crossing = [];
}
