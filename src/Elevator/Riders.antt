-- ===== src/Elevator/Riders.antt =====
-- TEST5A.C: what a rider does. `t_priority()` is the argument `priority`.
use user_level_thread_librar.Base.{
  ℕ, ◌/◌, ◌%◌, ◌^◌, ltb, update, ℤ, pos, negsuc, increment, decrement, is_zero, eq_ℤ, not, ◌&&◌,
  ◌||◌, Bool, true, false,
}
use user_level_thread_librar.Program.{◌>>=◌, ◌>>◌, gets, slot, repeat, when}
use user_level_thread_librar.Elevator.State.{
  Floor, ElevatorState, stopped, moving, door_closed, door_opened, Prog, going_up, going_down,
  elv_wait, empty_elevator, requests, sig, wait, leaves, set_elv, set_bld, call, max_floors,
}

-- `elv.state == STOPPED`
abbrev is_stopped : ElevatorState → Bool
is_stopped moving = false
is_stopped door_closed = false
is_stopped door_opened = false
is_stopped stopped = true

unfoldable pub elevator_enter : (priority : ℤ) → Prog (Unit {0})
elevator_enter priority = do
  set_elv (λ e. record e { num_riders = increment e.num_riders })
  when (eq_ℤ priority (pos 30))
      (set_elv (λ e. record e { president_riders = increment e.president_riders }))
  when (eq_ℤ priority (pos 20))
      (set_elv (λ e. record e { director_riders = increment e.director_riders }))
  when (eq_ℤ priority (pos 10))
      (set_elv (λ e. record e { employee_riders = increment e.employee_riders }))
  set_bld (λ b. record b { waiters = decrement b.waiters })

-- `reqSFE` and `reqEFE` are cleared at the new count, not at the place of the rider who leaves.
unfoldable pub leave_as : (priority : ℤ) → Prog (Unit {0})
leave_as priority = do
  when (eq_ℤ priority (pos 30)) (do
    set_elv (λ e. record e { president_riders = decrement e.president_riders })
    set_bld (λ b. record b { set_president = decrement b.set_president })
    set_bld (λ b. record b { req_sfp = negsuc 0 })
    set_bld (λ b. record b { req_efp = negsuc 0 }))
  when (eq_ℤ priority (pos 20)) (do
    set_elv (λ e. record e { director_riders = decrement e.director_riders })
    set_bld (λ b. record b { set_directors = decrement b.set_directors }))
  when (eq_ℤ priority (pos 10)) (do
    set_elv (λ e. record e { employee_riders = decrement e.employee_riders })
    set_bld (λ b. record b { set_employee = decrement b.set_employee })
    count ← gets (λ w. w.bld.set_employee)
    i ← slot 10 count
    set_bld (λ b. record b { req_sfe = update b.req_sfe i (negsuc 0) })
    set_bld (λ b. record b { req_efe = update b.req_efe i (negsuc 0) }))

-- The broadcast signals five times.
unfoldable pub elevator_exit : (priority : ℤ) → Prog (Unit {0})
elevator_exit priority = do
  here ← gets (λ w. w.elv.current_floor)
  f ← slot max_floors here
  set_elv (λ e. record e { num_waiters = update e.num_waiters f (decrement (e.num_waiters f)) })
  set_elv (λ e. record e { num_riders = decrement e.num_riders })
  leave_as priority
  empty ← gets (λ w. is_zero w.elv.employee_riders && is_zero w.elv.director_riders)
  when empty (repeat 5 (call (sig empty_elevator)))
  call (sig elv_wait)

unfoldable pub elevator_request_floor : (floor : ℤ) → Prog (Unit {0})
elevator_request_floor floor = do
  f ← slot max_floors floor
  set_elv (λ e. record e { num_waiters = update e.num_waiters f (increment (e.num_waiters f)) })
  call (sig elv_wait)
  call (wait (requests f))

unfoldable pub wait_for_empty : Prog (Unit {0})
wait_for_empty = do
  set_bld (λ b. record b { waiting_for_empty = increment b.waiting_for_empty })
  call (wait empty_elevator)
  set_bld (λ b. record b { waiting_for_empty = decrement b.waiting_for_empty })

-- The part that both calls share.
unfoldable pub request_as : (priority floor_s floor_e : ℤ) → Prog (Unit {0})
request_as priority floor_s floor_e = do
  when (eq_ℤ priority (pos 30)) (do
    busy ← gets (λ w. not (is_zero w.elv.employee_riders) || not (is_zero w.elv.director_riders))
    when busy wait_for_empty
    set_bld (λ b. record b { set_president = increment b.set_president })
    set_bld (λ b. record b { req_sfp = floor_s })
    set_bld (λ b. record b { req_efp = floor_e }))
  when (eq_ℤ priority (pos 20)) (do
    busy ← gets (λ w. not (is_zero w.elv.employee_riders))
    when busy wait_for_empty
    count ← gets (λ w. w.bld.set_directors)
    i ← slot 3 count
    set_bld (λ b. record b { req_sfd = update b.req_sfd i floor_s })
    set_bld (λ b. record b { req_efd = update b.req_efd i floor_e })
    set_bld (λ b. record b { set_directors = increment b.set_directors }))
  when (eq_ℤ priority (pos 10)) (do
    count ← gets (λ w. w.bld.set_employee)
    i ← slot 10 count
    set_bld (λ b. record b { req_sfe = update b.req_sfe i floor_s })
    set_bld (λ b. record b { req_efe = update b.req_efe i floor_e })
    set_bld (λ b. record b { set_employee = increment b.set_employee }))

-- A change of the counters of a floor.
abbrev set_floor : ℕ → (Floor → Floor) → Prog (Unit {0})
set_floor f g = set_bld (λ b. record b { floors = update b.floors f (g (b.floors f)) })

unfoldable pub elevator_call_up : (priority floor_s floor_e : ℤ) → Prog (Unit {0})
elevator_call_up priority floor_s floor_e = do
  idle ← gets (λ w. is_stopped w.elv.state)
  when idle (call (sig elv_wait))
  f ← slot max_floors floor_s
  set_floor f (λ x. record x { num_up = increment x.num_up })
  set_bld (λ b. record b { waiters = increment b.waiters })
  request_as priority floor_s floor_e
  call (wait (going_up f))
  set_floor f (λ x. record x { num_up = decrement x.num_up })

unfoldable pub elevator_call_down : (priority floor_s floor_e : ℤ) → Prog (Unit {0})
elevator_call_down priority floor_s floor_e = do
  idle ← gets (λ w. is_stopped w.elv.state)
  when idle (call (sig elv_wait))
  f ← slot max_floors floor_s
  set_floor f (λ x. record x { num_down = increment x.num_down })
  set_bld (λ b. record b { waiters = increment b.waiters })
  request_as priority floor_s floor_e
  call (wait (going_down f))
  set_floor f (λ x. record x { num_down = decrement x.num_down })

-- The ride from floor `start` to floor `end`.
unfoldable pub ride : (priority : ℤ) (start end : ℕ) → Prog (Unit {0})
ride priority start end = do
  when (ltb start end) (elevator_call_up priority (pos start) (pos end))
  when (ltb end start) (elevator_call_down priority (pos start) (pos end))
  elevator_enter priority
  elevator_request_floor (pos end)
  elevator_exit priority
  call leaves

-- `start & 0xffff` and `end >> 16` of an argument of 32 bits.
unfoldable pub rider : (priority : ℤ) (arg : ℕ) → Prog (Unit {0})
unfolding ride
rider priority arg = ride priority (arg % 2 ^ 16) (arg / 2 ^ 16)
