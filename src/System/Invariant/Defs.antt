-- ===== src/System/Invariant/Defs.antt =====
-- What holds of the state between any two steps.
use user_level_thread_librar.Base.{
  ℕ, ◌≤◌, ◌<◌, ◌≡◌, Option, some, none, length, List, [], ◌∷◌, ◌⊎◌, ltb_ℤ, pos, false, true, Bool,
  refl, arith, if◌then◌else◌,
}
use user_level_thread_librar.System.State.{
  Sys, Ptr, M, Outcome, returns, jumps, spins, exits, faults, Condition, Semaphore, max_exited,
  max_conditions, bind, or_fault, assert, on_found, at, q_remove,
}

-- `threadLevelCount` counts the ready threads of each level.
abbrev pub ReadyCounted : (ℕ → ℕ) → (ℕ → List Ptr) → Type 0
ReadyCounted count queue = (p : ℕ) → count p ≡ length (queue p)

-- `conditionWaiters` counts the waiters of each condition at each level. Conditions have distinct
-- identifiers, and those not yet given out have no waiters.
pub record ConditionsCounted (conditions : Ptr → Option Condition) (next_id : ℕ) (count : ℕ → ℕ → ℕ)
    : Type 0 where
  pub counted :
      (c : Ptr) (k : Condition)
      → conditions c ≡ some k
      → (p : ℕ) → count k.cond_id p ≡ length (k.waiters p)
  pub given : (c : Ptr) (k : Condition) → conditions c ≡ some k → k.cond_id < next_id
  pub distinct :
      (c d : Ptr) (k l : Condition)
      → conditions c ≡ some k
      → conditions d ≡ some l
      → k.cond_id ≡ l.cond_id
      → c ≡ d
  pub fresh : (i p : ℕ) → next_id ≤ i → count i p ≡ 0

-- The same for semaphores, whose identifiers begin at 1. While threads wait, the value is not
-- positive.
pub record SemaphoresCounted (semaphores : Ptr → Option Semaphore) (last_id : ℕ) (count : ℕ → ℕ)
    : Type 0 where
  pub counted :
      (c : Ptr) (m : Semaphore) → semaphores c ≡ some m → count m.sem_id ≡ length m.waiters
  pub given : (c : Ptr) (m : Semaphore) → semaphores c ≡ some m → m.sem_id ≤ last_id
  pub distinct :
      (c d : Ptr) (m n : Semaphore)
      → semaphores c ≡ some m
      → semaphores d ≡ some n
      → m.sem_id ≡ n.sem_id
      → c ≡ d
  pub fresh : (i : ℕ) → last_id < i → count i ≡ 0
  pub blocked :
      (c : Ptr) (m : Semaphore)
      → semaphores c ≡ some m
      → (m.waiters ≡ []) ⊎ (ltb_ℤ (pos 0) m.value ≡ false)

-- Over the fields that it reads, so that a write to any other field keeps it for nothing.
pub record Counts (ready_count : ℕ → ℕ) (ready_queue : ℕ → List Ptr)
    (conditions_at : Ptr → Option Condition) (condition_id : ℕ) (condition_count : ℕ → ℕ → ℕ)
    (semaphores_at : Ptr → Option Semaphore) (semaphore_id : ℕ) (semaphore_count : ℕ → ℕ)
    (exit_index : ℕ) : Type 0 where
  pub ready : ReadyCounted ready_count ready_queue
  pub conditions : ConditionsCounted conditions_at condition_id condition_count
  pub semaphores : SemaphoresCounted semaphores_at semaphore_id semaphore_count
  pub few_conditions : condition_id ≤ max_conditions
  pub few_exited : exit_index ≤ max_exited

abbrev pub IsWf : Sys → Type 0
IsWf s =
    Counts s.thread_level_count s.p_queue s.conditions s.condition_id s.condition_waiters
      s.semaphores s.semaphore_id s.semaphore_waiters s.exit_thread_index

-- Wherever a run ends in a state, that state satisfies `P`.
abbrev pub Keeps : {A : Type 0} → (Sys → Type 0) → Outcome A → Type 0
Keeps P (returns a s) = P s
Keeps P (jumps t s) = P s
Keeps P (spins l s) = P s
Keeps P exits = Unit {0}
Keeps P faults = Unit {0}

pub Keeps-bind :
    {A B : Type 0} (P : Sys → Type 0) (m : Outcome A) (k : A → M B)
    → Keeps P m
    → ((a : A) (s : Sys) → P s → Keeps P (k a s))
    → Keeps P (bind m k)
Keeps-bind P (returns a s) k h next = next a s h
Keeps-bind P (jumps t s) k h next = h
Keeps-bind P (spins l s) k h next = h
Keeps-bind P exits k h next = tt
Keeps-bind P faults k h next = tt

-- Steps that only test and read.
module _ {A B : Type 0} (P : Sys → Type 0) where
  pub or_fault-bind :
      (o : Option A) (k : A → M B) (s : Sys)
      → ((a : A) → o ≡ some a → Keeps P (k a s))
      → Keeps P (bind (or_fault o s) k)
  or_fault-bind none k s next = tt
  or_fault-bind (some a) k s next = next a refl

  pub on_found-Keeps :
      (o : Option A) (m : M B) (f : A → M B) (s : Sys)
      → Keeps P (m s)
      → ((a : A) → o ≡ some a → Keeps P (f a s))
      → Keeps P (on_found o m f s)
  on_found-Keeps none m f s h next = h
  on_found-Keeps (some a) m f s h next = next a refl

module _ {B : Type 0} (P : Sys → Type 0) where
  pub assert-bind :
      (b : Bool) (k : Unit {0} → M B) (s : Sys)
      → (b ≡ true → Keeps P (k tt s))
      → Keeps P (bind (assert b s) k)
  assert-bind true k s next = next refl
  assert-bind false k s next = tt

  pub if-Keeps :
      (b : Bool) (m n : M B) (s : Sys)
      → (b ≡ true → Keeps P (m s))
      → (b ≡ false → Keeps P (n s))
      → Keeps P ((if b then m else n) s)
  if-Keeps true m n s yes_case no_case = yes_case refl
  if-Keeps false m n s yes_case no_case = no_case refl

  pub q_remove-bind :
      (q : List Ptr) (k : Ptr × List Ptr → M B) (s : Sys)
      → ((t : Ptr) (rest : List Ptr) → q ≡ t ∷ rest → Keeps P (k (t, rest) s))
      → Keeps P (bind (q_remove q s) k)
  q_remove-bind [] k s next = tt
  q_remove-bind (t ∷ rest) k s next = next t rest refl

pub at-some : {A : Type 0} (m : Ptr → Option A) (p : Ptr) (a : A) → at m p ≡ some a → m p ≡ some a
at-some m p a e = ground arith
