-- ===== src/Elevator/State.antt =====
-- ELEVATOR.H: the shared records, and the language of the threads that work on them.
-- A condition is named by the field that holds it; `firstThread` creates one for each field.
use user_level_thread_librar.Program.{Program, modifies, calls, skip}
use user_level_thread_librar.Base.{ℕ, ℤ}

-- `UP` and `DOWN`
abbrev pub dir_up : ℕ
dir_up = 1

abbrev pub dir_down : ℕ
dir_down = 2

abbrev pub max_riders : ℕ
max_riders = 5

abbrev pub max_floors : ℕ
max_floors = 11

-- `enum elevatorState`
pub data ElevatorState : Type 0 where
  moving door_closed door_opened stopped : ElevatorState

-- `struct floor`, the counters.
pub record Floor : Type 0 where
  pub num_up : ℤ
  pub num_down : ℤ

-- `struct building`
pub record Building : Type 0 where
  pub floors : ℕ → Floor
  pub waiters : ℤ
  pub set_president : ℤ
  pub set_directors : ℤ
  pub set_employee : ℤ
  pub req_sfp : ℤ
  pub req_efp : ℤ
  pub req_sfd : ℕ → ℤ
  pub req_efd : ℕ → ℤ
  pub req_sfe : ℕ → ℤ
  pub req_efe : ℕ → ℤ
  pub waiting_for_empty : ℤ

-- `struct elevator`; `num_waiters` is the counter of each `struct elvFloor`.
pub record Elevator : Type 0 where
  pub direction : ℕ
  pub current_floor : ℤ
  pub state : ElevatorState
  pub num_riders : ℤ
  pub president_riders : ℤ
  pub director_riders : ℤ
  pub employee_riders : ℤ
  pub num_waiters : ℕ → ℤ

-- The globals `elv` and `bld`.
pub record World : Type 0 where
  pub elv : Elevator
  pub bld : Building

-- The fields of type `Condition`.
pub data Cond : Type 0 where
  going_up going_down requests : ℕ → Cond
  elv_wait empty_elevator : Cond

-- A rider's name.
pub data Title : Type 0 where
  president : Title
  director employee : ℕ → Title

-- A call of the thread library.
pub data Request : Type 0 where
  sig wait : Cond → Request
  yields leaves : Request
  forks_elevator : (priority : ℤ) → Request
  forks_rider : (arg : ℕ) → Title → (priority : ℤ) → Request

-- A thread's code.
abbrev pub Prog : Type 0 → Type 0
Prog A = Program World Request A

abbrev pub set_elv : (Elevator → Elevator) → Prog (Unit {0})
set_elv f = modifies (λ w. record w { elv = f w.elv }) skip

abbrev pub set_bld : (Building → Building) → Prog (Unit {0})
set_bld f = modifies (λ w. record w { bld = f w.bld }) skip

abbrev pub call : Request → Prog (Unit {0})
call r = calls r skip
