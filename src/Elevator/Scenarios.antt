-- ===== src/Elevator/Scenarios.antt =====
-- `firstThread` of TEST5A.C, TEST5B.C and TEST5C.C: the threads that each scenario forks.
use user_level_thread_librar.Base.{
  ℕ, zero, suc, ◌+◌, ◌*◌, ◌/◌, ◌%◌, ◌^◌, ltb, if◌then◌else◌, pos, negsuc,
}
use user_level_thread_librar.Program.{◌>>◌}
use user_level_thread_librar.Elevator.State.{
  Prog, Title, president, director, employee, yields, forks_elevator, forks_rider, set_elv, set_bld,
  call, max_floors,
}

-- Bitwise `a | b`, on the low `width` bits.
unfoldable pub bit_or : (width : ℕ) → ℕ → ℕ → ℕ
bit_or zero a b = 0
bit_or (suc width) a b =
    let rest = bit_or width (a / 2) (b / 2) in (if ltb 0 (a % 2 + b % 2) then 1 else 0) + 2 * rest

-- `startFloor |= (endFloor << 16);`, in the 32 bits of an `int`. The shift overflows from 2 ^ 15 on.
abbrev pub pack : (start_floor end_floor : ℕ) → ℕ
pack start_floor end_floor = bit_or 32 start_floor (end_floor * 2 ^ 16 % 2 ^ 32)

-- The loops and assignments before the first `t_fork`; `reqSFD` to `reqEFE` are left alone.
unfoldable pub initialise : Prog (Unit {0})
initialise = do
  set_bld (λ b. record b {
    floors =
        λ i. if ltb i max_floors then record { num_up = pos 0; num_down = pos 0 } else b.floors i;
    waiters = pos 0;
    set_directors = pos 0;
    set_president = pos 0;
    set_employee = pos 0;
    req_sfp = negsuc 0;
    req_efp = negsuc 0;
    waiting_for_empty = pos 0;
  })
  set_elv (λ e. record e {
    num_waiters = λ i. if ltb i max_floors then pos 0 else e.num_waiters i;
    president_riders = pos 0;
    director_riders = pos 0;
    employee_riders = pos 0;
    num_riders = pos 0;
  })

abbrev pub launch : (start_floor end_floor : ℕ) → Title → (priority : ℕ) → Prog (Unit {0})
launch start_floor end_floor title priority =
    call (forks_rider (pack start_floor end_floor) title (pos priority))

unfoldable pub first_thread_a : Prog (Unit {0})
unfolding initialise bit_or
first_thread_a = do
  initialise
  call (forks_elevator (pos 5))
  launch 4 8 president 30
  launch 1 4 (employee 1) 10
  launch 3 7 (employee 2) 10
  call yields
  launch 3 7 (director 1) 20
  launch 6 9 (director 2) 20
  launch 10 5 (director 3) 20
  launch 4 8 (employee 3) 10
  launch 5 1 (employee 4) 10
  launch 2 6 (employee 5) 10
  launch 7 1 (employee 6) 10
  launch 5 9 (employee 7) 10
  launch 3 1 (employee 8) 10
  launch 6 10 (employee 9) 10
  launch 5 3 (employee 10) 10

unfoldable pub first_thread_b : Prog (Unit {0})
unfolding initialise bit_or
first_thread_b = do
  initialise
  call (forks_elevator (pos 5))
  launch 1 4 (employee 1) 10
  launch 3 7 (employee 2) 10
  call yields
  launch 4 8 president 30
  launch 3 7 (director 1) 20
  launch 6 9 (director 2) 20
  launch 10 5 (director 3) 20
  launch 4 8 (employee 3) 10
  launch 5 1 (employee 4) 10
  launch 2 6 (employee 5) 10
  launch 7 1 (employee 6) 10
  launch 5 9 (employee 7) 10
  launch 3 1 (employee 8) 10
  launch 6 10 (employee 9) 10
  launch 5 3 (employee 10) 10

unfoldable pub first_thread_c : Prog (Unit {0})
unfolding initialise bit_or
first_thread_c = do
  initialise
  call (forks_elevator (pos 5))
  launch 1 4 (employee 1) 10
  launch 3 7 (employee 2) 10
  call yields
  launch 3 9 (director 2) 20
  launch 3 8 president 30
  launch 4 8 (employee 3) 10
  launch 5 1 (employee 4) 10
  launch 2 6 (employee 5) 10
  launch 7 1 (employee 6) 10
  launch 3 7 (director 1) 20
  launch 5 9 (employee 7) 10
  launch 3 1 (employee 8) 10
  launch 10 5 (director 3) 20
  launch 6 10 (employee 9) 10
  launch 5 3 (employee 10) 10
