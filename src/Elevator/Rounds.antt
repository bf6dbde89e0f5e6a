-- ===== src/Elevator/Rounds.antt =====
-- TEST5A.C: `ElevatorThread`, a round of its `while(1)` at a time.
use user_level_thread_librar.Base.{
  ℕ, zero, suc, ◌+◌, ◌-◌, leb, ◌==◌, if◌then◌else◌, Bool, ℤ, pos, negsuc, is_zero, eq_ℤ, ltb_ℤ, not,
  ◌&&◌, ◌||◌,
}
use user_level_thread_librar.Program.{◌>>=◌, ◌>>◌, skip, gets, when}
use user_level_thread_librar.Elevator.State.{
  stopped, Prog, elv_wait, wait, set_elv, call, dir_up, dir_down, max_riders,
}
use user_level_thread_librar.Elevator.Cabin.{
  here, is_opened, el_close_door, el_move_one_floor_up, el_move_one_floor_down,
}
use user_level_thread_librar.Elevator.Stops.{serve_president, serve_directors, serve_employees}

-- `m - z`
abbrev pub minus : ℕ → ℤ → ℤ
minus m (pos n) = if leb n m then pos (m - n) else negsuc (n - m - 1)
minus m (negsuc n) = pos (m + n + 1)

-- Which riders a visit is for: the President, the directors or the employees.
unfoldable pub serve :
    (ahead : ℤ → ℤ → Bool) (dir opposite : ℕ) (num_enter num_exit num_spaces : ℤ) → Prog (Unit {0})
serve ahead dir opposite num_enter num_exit num_spaces = do
  for_president ← gets (λ w.
      eq_ℤ w.bld.set_president (pos 1)
      && is_zero w.elv.director_riders
      && is_zero w.elv.employee_riders)
  for_directors ← gets (λ w.
      is_zero w.bld.set_president
      && ltb_ℤ (pos 0) w.bld.set_directors
      && is_zero w.elv.employee_riders)
  for_employees ← gets (λ w.
      is_zero w.bld.set_president
      && is_zero w.bld.set_directors
      && (ltb_ℤ (pos 0) num_enter || ltb_ℤ (pos 0) num_exit))
  if for_president
      then serve_president ahead dir opposite
      else if for_directors
      then serve_directors ahead dir
      else when for_employees (serve_employees num_enter num_exit num_spaces dir)

-- With nobody inside and nobody waiting, the elevator stops until it is called.
unfoldable pub rest_if_idle : Prog (Unit {0})
rest_if_idle = do
  idle ← gets (λ w. is_zero w.elv.num_riders && is_zero w.bld.waiters)
  when idle (do set_elv (λ e. record e { state = stopped }); call (wait elv_wait))

unfoldable pub up_branch : (num_spaces : ℤ) → Prog (Unit {0})
up_branch num_spaces = do
  f ← here
  num_enter ← gets (λ w. (w.bld.floors f).num_up)
  num_exit ← gets (λ w. w.elv.num_waiters f)
  serve (λ x y. ltb_ℤ y x) dir_up dir_down num_enter num_exit num_spaces
  rest_if_idle

unfoldable pub down_branch : (num_spaces : ℤ) → Prog (Unit {0})
down_branch num_spaces = do
  f ← here
  num_enter ← gets (λ w. (w.bld.floors f).num_down)
  num_exit ← gets (λ w. w.elv.num_waiters f)
  serve ltb_ℤ dir_down dir_up num_enter num_exit num_spaces
  rest_if_idle

-- One floor in the present direction.
unfoldable pub drive : Prog (Unit {0})
drive = do
  rising ← gets (λ w. w.elv.direction == dir_up)
  if rising then el_move_one_floor_up else el_move_one_floor_down

-- `bld.waiters | elv.numRiders != 0` is nonzero when either of them is.
unfoldable pub travel : Prog (Unit {0})
travel = do
  opened ← gets (λ w. is_opened w.elv.state)
  when opened el_close_door
  wanted ← gets (λ w. not (is_zero w.bld.waiters) || not (is_zero w.elv.num_riders))
  when wanted drive

unfoldable pub round : Prog (Unit {0})
round = do
  riders ← gets (λ w. w.elv.num_riders)
  rising ← gets (λ w. w.elv.direction == dir_up)
  if rising then up_branch (minus max_riders riders) else down_branch (minus max_riders riders)
  travel

-- The first `n` rounds.
unfoldable pub rounds : (n : ℕ) → Prog (Unit {0})
rounds zero = skip
rounds (suc n) = round >> rounds n

unfoldable pub elevator_thread : (n : ℕ) → Prog (Unit {0})
elevator_thread n = do
  set_elv (λ e. record e {
    state = stopped;
    direction = dir_up;
    current_floor = pos 1;
    num_riders = pos 0;
  })
  call (wait elv_wait)
  rounds n
