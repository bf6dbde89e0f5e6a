-- ===== src/System/Exclusion.antt =====
-- A taken lock stays taken until it is released.
use mathlib.Core.Path.{subst}
use user_level_thread_librar.Base.{
  ℕ, ◌≡◌, ◌≢◌, Option, none, some, Bool, true, false, if◌then◌else◌, ==-refl, refl, ◌==◌, ◌∙◌,
  arith, update,
}
use user_level_thread_librar.System.State.{
  Sys, Ptr, Lock, Condition, returns, spins, bind, or_fault, modify, ◌>>◌, null,
}
use user_level_thread_librar.System.Timer.{block}
use user_level_thread_librar.System.Lock.{set_lock, lock_acquire, take_lock}
use user_level_thread_librar.System.Machine.{Call, in_user, Config, Event, calls, step}
use user_level_thread_librar.System.Invariant.Defs.{Keeps}
use user_level_thread_librar.System.Lasting.{Spares, SparesEvent, step-Lasting}
use user_level_thread_librar.System.Lasting.Calls.{Lasts}

-- The call neither releases the lock nor frees it, and `malloc` gives its memory to no other lock.
abbrev pub LeavesLock : Ptr → Sys → Call → Type 0
LeavesLock l s (Call.releases x) = x ≢ l
LeavesLock l s (Call.waits c x) = x ≢ l
LeavesLock l s (Call.creates_lock fresh) = fresh ≢ l
LeavesLock l s (Call.destroys_cond c) = (k : Condition) → s.conditions c ≡ some k → k.lock ≢ l
LeavesLock l s c = Unit {0}

abbrev pub Leaves : Ptr → Sys → Event → Type 0
Leaves l s (calls c) = LeavesLock l s c
Leaves l s e = Unit {0}

-- Histories in which the lock is not released.
pub data Unreleased (l : Ptr) (k : Config) : Config → Type 0 where
  at_once : Unreleased l k k
  and_then :
      {m n : Config}
      → Unreleased l k m
      → (e : Event) → Leaves l m.sys e
      → step e m ≡ some n
      → Unreleased l k n

module _ (l : Ptr) where
  abbrev IsTaken : (Ptr → Option Lock) → (ℕ → ℕ) → ℕ → Type 0
  IsTaken locks ids n = locks l ≡ some (record { shared = 1 })

  abbrev Held : Sys → Type 0
  Held s = s.locks l ≡ some (record { shared = 1 })

  lasts : Lasts IsTaken
  lasts = record { takes = λ locks ids n x w. ground (arith, w); records = λ locks ids n tid w. w }

  written :
      (locks : Ptr → Option Lock) (x : Ptr) (o : Option Lock) → x ≢ l → update locks x o l ≡ locks l
  written locks x o ne = ground arith

  spared : (s : Sys) (c : Call) → Held s → LeavesLock l s c → Spares IsTaken lasts s c
  spared s (Call.releases x) w ne = written s.locks x _ ne ∙ w
  spared s (Call.waits c x) w ne = written s.locks x _ ne ∙ w
  spared s (Call.creates_lock fresh) w ne = written s.locks fresh _ ne ∙ w
  spared s (Call.destroys_cond c) w ne = λ k e. written s.locks k.lock _ (ne k e) ∙ w
  spared s c w ne = tt

  spared_event : (s : Sys) (e : Event) → Held s → Leaves l s e → SparesEvent IsTaken lasts s e
  spared_event s (calls c) w a = spared s c w a
  spared_event s e w a = tt

  Unreleased-Held : (k m : Config) → Held k.sys → Unreleased l k m → Held m.sys
  Unreleased-Held k _ w at_once = w
  Unreleased-Held k n w (and_then {m = m} r e a q) =
      let held = Unreleased-Held k m w r in
      step-Lasting IsTaken lasts e m n (spared_event m.sys e held a) held q

  -- A thread that has acquired the lock has taken it.
  tested :
      (b : Bool) (s s' : Sys)
      → (if b then (modify block >> modify (set_lock l 1)) else spins l) s ≡ returns tt s'
      → Held s'
  tested true s s' e = subst (Keeps Held) e (rw (==-refl l) refl)
  tested false s s' e = cc

  found :
      (b : Bool) (o : Option Lock) (s s' : Sys)
      → bind
          (or_fault (if b then none else o) s)
          (λ lock. if lock.shared == 0 then (modify block >> modify (set_lock l 1)) else spins l)
        ≡ returns tt s'
      → (b ≡ false) × Held s'
  found true o s s' e = cc
  found false none s s' e = cc
  found false (some k) s s' e = (refl, tested (k.shared == 0) s s' e)

  taken_by : (s s' : Sys) → lock_acquire l s ≡ returns tt s' → ((l == null) ≡ false) × Held s'
  unfolding lock_acquire
  taken_by s s' e = found (l == null) (s.locks l) s s' e

-- After a thread has acquired a lock, and after any history of calls, timer interrupts and dispatches
-- that neither releases the lock nor frees it or its memory, a call of `lock_acquire` on it turns in
-- its loop and changes nothing; but a thread that goes on after the loop, because it was interrupted
-- there before the lock was taken, takes it as well, without a test.
pub acquired_stays_taken :
    (l : Ptr) (s s' : Sys) (m : Config)
    → lock_acquire l s ≡ returns tt s'
    → Unreleased l (record { sys = s'; control = in_user }) m
    → (lock_acquire l m.sys ≡ spins l m.sys)
      × (take_lock l m.sys ≡ returns tt (set_lock l 1 (block m.sys)))
unfolding lock_acquire take_lock
acquired_stays_taken l s s' m e r =
    let (real, held) = taken_by l s s' e in
    let still = Unreleased-Held l _ m held r in (rw (real, still), rw (real, still))
