-- ===== src/Examples/Elevators.antt =====
-- The theorems on TEST5A.C at small states.
use user_level_thread_librar.Base.{◌≡◌, refl, arith, pos, negsuc, inl, inr, ◌<◌}
use user_level_thread_librar.Program.Rely.{Ensures, Guarantees}
use user_level_thread_librar.Elevator.State.{World, stopped}
use user_level_thread_librar.Elevator.Position.{Others, InRange}
use user_level_thread_librar.Elevator.Rounds.{elevator_thread}
use user_level_thread_librar.Elevator.Thread.{elevator_thread-InRange}
use user_level_thread_librar.Elevator.Rounds.{rounds}
use user_level_thread_librar.Elevator.Sweep.{elevator_comes}
use user_level_thread_librar.Elevator.Sweep.Served.{Calm}
use user_level_thread_librar.Base.{false, ltb_ℤ}
use user_level_thread_librar.Elevator.Rounds.{serve}
use user_level_thread_librar.Elevator.Handshake.{Alternates, serve-Alternates}
use user_level_thread_librar.Elevator.Riders.{rider, ride}
use user_level_thread_librar.Elevator.Guarantee.{Polite, rider-Guarantees}
use user_level_thread_librar.Elevator.Scenarios.{pack}
use user_level_thread_librar.Elevator.Packing.{rider-pack}
use user_level_thread_librar.Base.{ℕ, update}

abbrev parked : World
parked = record {
  elv = record {
    direction = 1;
    current_floor = pos 1;
    state = stopped;
    num_riders = pos 0;
    president_riders = pos 0;
    director_riders = pos 0;
    employee_riders = pos 0;
    num_waiters = λ f. pos 0;
  };
  bld = record {
    floors = λ f. record { num_up = pos 0; num_down = pos 0 };
    waiters = pos 0;
    set_president = pos 0;
    set_directors = pos 0;
    set_employee = pos 0;
    req_sfp = negsuc 0;
    req_efp = negsuc 0;
    req_sfd = λ i. pos 0;
    req_efd = λ i. pos 0;
    req_sfe = λ i. pos 0;
    req_efe = λ i. pos 0;
    waiting_for_empty = pos 0;
  };
}

elevator_thread-InRange_example : Ensures Others (elevator_thread 2) (λ _. InRange) parked
elevator_thread-InRange_example = elevator_thread-InRange 2 parked refl

-- Somebody waits at floor 3.
abbrev called : World
called = record parked {
  bld = record parked.bld {
    floors = update parked.bld.floors 3 (record { num_up = pos 1; num_down = pos 0 });
    waiters = pos 1;
  };
}

-- From floor 1 to floor 8, heading down.
elevator_comes_example :
    (k : ℕ) × (k < 19)
    × Ensures Calm (rounds k) (λ _ v. (v.elv.current_floor ≡ pos 8) × (v.elv.direction ≡ 2)) called
elevator_comes_example =
    elevator_comes called 8 2 (1, refl, omega arith, omega arith, inl refl)
      (8, refl, omega arith, omega arith, inr (refl, omega arith))

-- The President's ride from floor 4 to floor 8.
rider-Guarantees_example : Guarantees (Polite (pos 30)) (rider (pos 30) 524292)
rider-Guarantees_example =
    rider-Guarantees (pos 30) 524292 (4, refl, omega arith, omega arith)
      (8, refl, omega arith, omega arith)

rider-pack_example : rider (pos 10) (pack 4 8) ≡ ride (pos 10) 4 8
rider-pack_example = rider-pack (pos 10) 4 8 (omega arith) (omega arith)

-- One rider gets in on the way up.
serve-Alternates_example : Alternates false (serve (λ x y. ltb_ℤ y x) 1 2 (pos 1) (pos 0) (pos 6))
serve-Alternates_example = serve-Alternates (λ x y. ltb_ℤ y x) 1 2 (pos 1) (pos 0) (pos 6)
