-- ===== src/Scripts/Nesting.antt =====
-- Programs whose threads fork threads of higher priorities only, and what holds of their runs.
use user_level_thread_librar.Base.{
  ℕ, ◌+◌, ◌<◌, ◌≡◌, ◌⊎◌, Bool, true, false, List, [], ◌∷◌, ◌++◌, length, ◌==◌, if◌then◌else◌, pos,
}
use user_level_thread_librar.System.State.{
  Ptr, Tcb, in_timer, in_fork, levels, max_waiting, max_thread_name,
}
use user_level_thread_librar.System.Join.{has_exited}
use user_level_thread_librar.Scripts.{
  Code, function_end, prints, prints_forever, forks_thread, joins_thread,
}

-- Each thread forks threads of higher priorities only, joins after it has forked, and comes to an end.
abbrev pub Nested : (level : ℕ) (has_forked : Bool) → Code → Type 0
Nested level b function_end = Unit {0}
Nested level b (prints word c) = Nested level b c
Nested level b (prints_forever word) = ⊥
Nested level b (forks_thread priority name body c) =
    (level < priority)
    × (priority < levels)
    × (length name < max_thread_name)
    × Nested priority false body
    × Nested level true c
Nested level b (joins_thread c) = (b ≡ true) × Nested level b c

-- What the program prints when a fork is taken for a call.
abbrev pub output : Code → List ℕ
output function_end = []
output (prints word c) = word ∷ output c
output (prints_forever word) = []
output (forks_thread priority name body c) = output body ++ output c
output (joins_thread c) = output c

-- How many threads it forks.
abbrev pub forks_of : Code → ℕ
forks_of function_end = 0
forks_of (prints word c) = forks_of c
forks_of (prints_forever word) = 0
forks_of (forks_thread priority name body c) = 1 + (forks_of body + forks_of c)
forks_of (joins_thread c) = forks_of c

-- How many moves it takes.
abbrev pub cost : Code → ℕ
cost function_end = 3
cost (prints word c) = 1 + cost c
cost (prints_forever word) = 0
cost (forks_thread priority name body c) = 2 + (cost body + cost c)
cost (joins_thread c) = 1 + cost c

-- A thread that has not ended.
pub record Frame : Type 0 where
  pub id : ℕ
  pub level : ℕ

-- Younger threads have higher priorities. The frames are listed with the youngest first.
abbrev pub Ordered : (id level : ℕ) → List Frame → Type 0
Ordered id level [] = Unit {0}
Ordered id level (f ∷ fs) = (f.id < id) × (f.level < level) × Ordered f.id f.level fs

-- A thread that has never run starts, and another goes on after an interrupt or in `t_fork`.
abbrev pub Resumable : Tcb → Type 0
Resumable b =
    (b.flag ≡ 1) ⊎ ((b.flag ≡ 0) × ((b.context ≡ in_timer) ⊎ ((n : ℕ) × (b.context ≡ in_fork n))))

abbrev pub Is : Frame → Tcb → Type 0
Is f b = (b.priority ≡ pos f.level) × (b.tid ≡ f.id)

module _ (malloc : ℕ → Ptr) where
  abbrev pub at_level : ℕ → List Frame → List Ptr
  at_level z [] = []
  at_level z (f ∷ fs) = if f.level == z then malloc f.id ∷ at_level z fs else at_level z fs

  abbrev pub Ready : (Ptr → Tcb) → List Frame → Type 0
  Ready tcbs [] = Unit {0}
  Ready tcbs (f ∷ fs) = (Is f (tcbs (malloc f.id)) × Resumable (tcbs (malloc f.id))) × Ready tcbs fs

  -- The threads of `fs` are ready, no others are, and nobody waits for a thread.
  pub record Waiting (tcbs : Ptr → Tcb) (queue : ℕ → List Ptr) (tcb_waiting : ℕ → Ptr)
      (fs : List Frame) : Type 0 where
    pub queued : (z : ℕ) → queue z ≡ at_level z fs
    pub ready : Ready tcbs fs
    pub nobody : (i : ℕ) → i < max_waiting → (tcbs (tcb_waiting i)).waiting_for_tid ≡ 0

  -- Thread `f` runs.
  pub record Runs (tcbs : Ptr → Tcb) (current : Ptr) (f : Frame) : Type 0 where
    pub place : current ≡ malloc f.id
    pub is : Is f (tcbs (malloc f.id))
    pub flag : (tcbs (malloc f.id)).flag ≡ 0

-- Each thread waits in `t_fork`, or has been interrupted, while those that it forked have not ended:
-- the last of them is `child`.
abbrev pub Parents : (ℕ → Code) → (ℕ → ℕ) → (child : ℕ) → List Frame → Type 0
Parents code tid child [] = Unit {0}
Parents code tid child (f ∷ fs) =
    Nested f.level true (code f.id) × (tid f.id ≡ child) × Parents code tid f.id fs

-- The youngest thread's last child, if it has forked, has ended.
abbrev pub Top : (ℕ → Code) → (ℕ → ℕ) → (exited : ℕ → ℕ) (n : ℕ) → Frame → Type 0
Top code tid exited n f =
    (b : Bool) × Nested f.level b (code f.id) × (b ≡ true → has_exited exited n (tid f.id) ≡ true)

abbrev pub Chain : (ℕ → Code) → (ℕ → ℕ) → (exited : ℕ → ℕ) (n : ℕ) → List Frame → Type 0
Chain code tid exited n [] = Unit {0}
Chain code tid exited n (f ∷ fs) = Top code tid exited n f × Parents code tid f.id fs

-- What the threads have left to print, to fork and to do.
abbrev pub remaining : (ℕ → Code) → List Frame → List ℕ
remaining code [] = []
remaining code (f ∷ fs) = output (code f.id) ++ remaining code fs

abbrev pub to_end : (ℕ → Code) → List Frame → ℕ
to_end code [] = 0
to_end code (f ∷ fs) = 1 + (forks_of (code f.id) + to_end code fs)

abbrev pub work : (ℕ → Code) → List Frame → ℕ
work code [] = 0
work code (f ∷ fs) = cost (code f.id) + work code fs
