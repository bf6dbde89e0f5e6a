-- ===== src/Elevator/Cabin.antt =====
-- TEST5A.C: the elevator's doors, its visits and its moves.
use user_level_thread_librar.Base.{
  ℕ, ◌==◌, if◌then◌else◌, Bool, true, false, ℤ, pos, increment, decrement, eq_ℤ,
}
use user_level_thread_librar.Program.{◌>>=◌, ◌>>◌, skip, gets, slot, for_below, when}
use user_level_thread_librar.Elevator.State.{
  ElevatorState, moving, door_closed, door_opened, stopped, Prog, going_up, going_down, elv_wait,
  requests, sig, wait, yields, set_elv, call, dir_up, dir_down, max_floors,
}

-- `elv.state == DOOR_OPENED`
abbrev pub is_opened : ElevatorState → Bool
is_opened moving = false
is_opened door_closed = false
is_opened door_opened = true
is_opened stopped = false

-- `elv.currentFloor`, as an index of an array of floors.
unfoldable pub here : Prog ℕ
here = do f ← gets (λ w. w.elv.current_floor); slot max_floors f

unfoldable pub el_let_one_enter : (dir : ℕ) → Prog (Unit {0})
unfolding here
el_let_one_enter dir = do
  f ← here
  call (sig (if dir == dir_up then going_up f else going_down f))
  call (wait elv_wait)

unfoldable pub el_let_one_exit : Prog (Unit {0})
unfolding here
el_let_one_exit = do f ← here; call (sig (requests f)); call (wait elv_wait)

unfoldable pub el_open_door : Prog (Unit {0})
el_open_door = set_elv (λ e. record e { state = door_opened })

unfoldable pub el_close_door : Prog (Unit {0})
el_close_door = set_elv (λ e. record e { state = door_closed })

unfoldable pub el_visit_floor : (num_enter num_exit : ℤ) (dir : ℕ) → Prog (Unit {0})
el_visit_floor num_enter num_exit dir = do
  for_below num_enter (el_let_one_enter dir)
  for_below num_exit el_let_one_exit

-- The doors open around each visit.
unfoldable pub stop_at_floor : (num_enter num_exit : ℤ) (dir : ℕ) → Prog (Unit {0})
stop_at_floor num_enter num_exit dir = do
  el_open_door
  el_visit_floor num_enter num_exit dir
  el_close_door

-- `elv.currentFloor++;` and `elv.currentFloor--;`
abbrev pub rise : Prog (Unit {0})
rise = set_elv (λ e. record e { current_floor = increment e.current_floor })

abbrev pub sink : Prog (Unit {0})
sink = set_elv (λ e. record e { current_floor = decrement e.current_floor })

-- `if(elv.direction == from) elv.direction = to;`
unfoldable pub turn : (from to : ℕ) → Prog (Unit {0})
turn from to = do
  same ← gets (λ w. w.elv.direction == from)
  when same (set_elv (λ e. record e { direction = to }))

-- While the other threads run at the three yields, `currentFloor` can be `MAX_FLOORS`.
unfoldable pub climb : Prog (Unit {0})
unfolding turn
climb = do
  rise
  call yields
  call yields
  call yields
  top ← gets (λ w. eq_ℤ w.elv.current_floor (pos max_floors))
  when top (sink >> turn dir_up dir_down)

unfoldable pub descend : Prog (Unit {0})
unfolding turn
descend = do
  sink
  call yields
  call yields
  call yields
  bottom ← gets (λ w. eq_ℤ w.elv.current_floor (pos 1))
  when bottom (turn dir_down dir_up)

-- Nothing moves while the door is open.
unfoldable pub el_move_one_floor_up : Prog (Unit {0})
unfolding climb
el_move_one_floor_up = do opened ← gets (λ w. is_opened w.elv.state); if opened then skip else climb

unfoldable pub el_move_one_floor_down : Prog (Unit {0})
unfolding descend
el_move_one_floor_down = do
  opened ← gets (λ w. is_opened w.elv.state)
  if opened then skip else descend
