-- ===== src/Bridge/OneWay.antt =====
-- TEST3A.C and TEST3B.C: `Arrive` and `Depart`, which are the same in both.
-- The lock makes the code between two operations on it one step. A car is the direction that it goes
-- in; it waits on the condition, is woken and has to acquire the lock again, or crosses, which is to
-- say that its `Depart` has been forked.
pub mod Steps
pub mod Safety
pub mod Starvation
pub mod Effects
pub mod Progress
pub mod Signals
use user_level_thread_librar.Base.{
  ℕ, zero, suc, if◌then◌else◌, Bool, List, [], ◌∷◌, ◌++◌, ℤ, pos, increment, decrement, is_zero,
  not, ◌&&◌,
}
use user_level_thread_librar.Bridge.Cars.{Dir, open_road, north, south, same}

pub record Road : Type 0 where
  pub num_cars : ℤ
  pub cur_dir : Dir
  pub waiting : List Dir
  pub woken : List Dir
  pub crossing : List Dir

abbrev pub wake_first : List Dir → Road → Road
wake_first [] r = r
wake_first (x ∷ xs) r = record r { waiting = xs; woken = r.woken ++ x ∷ [] }

-- `t_sig(cond,NULL,my_lock);` wakes the car that has waited longest.
unfoldable pub signal : Road → Road
signal r = wake_first r.waiting r

-- `for(i=0;i<n;i++) t_sig(cond,NULL,my_lock);`
unfoldable pub broadcast : ℕ → Road → Road
unfolding signal
broadcast zero r = r
broadcast (suc n) r = broadcast n (signal r)

-- The test of the loop and, when it fails, the rest of `Arrive`.
unfoldable pub arrive : Dir → Road → Road
arrive my_dir r =
    if not (same r.cur_dir my_dir) && not (same r.cur_dir open_road)
    then record r { waiting = r.waiting ++ my_dir ∷ [] }
    else record r {
      num_cars = increment r.num_cars;
      cur_dir = my_dir;
      crossing = r.crossing ++ my_dir ∷ [];
    }

-- `Depart`, with the other cars that are crossing, in a time slice that does not end inside it: `t_sig`
-- lets the timer signal through while the lock is held.
unfoldable pub depart : (others : List Dir) → Road → Road
depart others r =
    let left = record r { num_cars = decrement r.num_cars; crossing = others } in
    if is_zero left.num_cars then broadcast 30 (record left { cur_dir = open_road }) else left

-- The globals as they are initialised.
abbrev pub empty_road : Road
empty_road = record {
  num_cars = pos 0;
  cur_dir = open_road;
  waiting = [];
  woken = [];
  crossing = [];
}
