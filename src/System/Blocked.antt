-- ===== src/System/Blocked.antt =====
-- Locks, and threads that never go on.
use mathlib.Core.Path.{subst}
use mathlib.Core.Option.{some-injective}
use user_level_thread_librar.Base.{
  ℕ, suc, ◌≡◌, refl, ◌==◌, if◌then◌else◌, true, false, none, some, arith, Bool-cases, inl, inr, ◌⊎◌,
  sym, ==-refl,
}
use user_level_thread_librar.System.State.{Sys, Ptr, Lock, null, at, returns, spins, in_wait, pure}
use user_level_thread_librar.System.Timer.{block, unblock}
use user_level_thread_librar.System.Lock.{lock_acquire, lock_release, set_lock}
use user_level_thread_librar.System.Condition.{after_wait}
use user_level_thread_librar.System.Machine.{
  Config, spinning, Event, calls, ticks, goes_on, step, Reach, here, next, resume, user_call,
  interrupt, proceed,
}

at-set_lock :
    (s : Sys) (l : Ptr) (v : ℕ) {k : Lock}
    → at s.locks l ≡ some k
    → at (set_lock l v s).locks l ≡ some (record { shared = v })
at-set_lock s l v e = elim (Bool-cases (l == null)) [
  | inl n ↦ ground arith
  | inr n ↦ rw (n, ==-refl l)
]

-- A free lock is acquired, with the timer signal blocked; its release leaves it free and lets the
-- signal through.
acquire-release :
    (s : Sys) (l : Ptr)
    → at s.locks l ≡ some (record { shared = 0 })
    → s.alarm_in_blocksigs ≡ true
    → (s' : Sys) × (s'' : Sys) × (lock_acquire l s ≡ returns tt s')
      × (at s'.locks l ≡ some (record { shared = 1 }))
      × (s'.alarm_blocked ≡ true)
      × (lock_release l s' ≡ returns tt s'')
      × (at s''.locks l ≡ some (record { shared = 0 }))
      × (s''.alarm_blocked ≡ false)
unfolding lock_acquire lock_release
acquire-release s l e b = (
  taken,
  unblock (unblock (set_lock l 0 (block taken))),
  rw e,
  at-set_lock (block s) l 1 e,
  rw b,
  rw (at-set_lock (block s) l 1 e),
  at-set_lock (block taken) l 0 (at-set_lock (block s) l 1 e),
  rw b,
)
  where
    taken : Sys
    taken = set_lock l 1 (block s)

taken_lock :
    (s : Sys) (l : Ptr) (n : ℕ)
    → at s.locks l ≡ some (record { shared = suc n })
    → lock_acquire l s ≡ spins l s
unfolding lock_acquire
taken_lock s l n e = let ne : (suc n == 0) ≡ false = ground arith in rw (e, ne)

abbrev pub turning : Sys → Ptr → Config
turning s l = record { sys = s; control = spinning l }

stuck :
    (s : Sys) (l : Ptr) (n : ℕ) (e : Event) (m : Config)
    → s.alarm_blocked ≡ true
    → at s.locks l ≡ some (record { shared = suc n })
    → step e (turning s l) ≡ some m
    → m ≡ turning s l
unfolding step user_call interrupt proceed
stuck s l n (calls c) m b e q = cc
stuck s l n ticks m b e q = absurd (none_is_some (rw b at q))
  where
    none_is_some : none ≡ some m → ⊥
    none_is_some h = cc
stuck s l n goes_on m b e q = some-injective m (turning s l) (sym (rw (taken_lock s l n e) at q))

-- A thread that turns in `lock_acquire` while the lock is taken and the timer signal is blocked turns
-- there for ever: no call, interrupt or dispatch leads to another configuration.
pub spin_blocked_forever :
    (s : Sys) (l : Ptr) (n : ℕ) (m : Config)
    → s.alarm_blocked ≡ true
    → at s.locks l ≡ some (record { shared = suc n })
    → Reach (record { sys = s; control = spinning l }) m
    → m ≡ record { sys = s; control = spinning l }
spin_blocked_forever s l n m b e here = refl
spin_blocked_forever s l n m b e (next {l = k} r v q) =
    let same : k ≡ turning s l = spin_blocked_forever s l n k b e r in
    stuck s l n v m b e (subst (λ c. step v c ≡ some m) same q)

-- A thread that goes on in `t_wait`, woken with a lock that another thread holds, with the timer signal
-- blocked as the scheduler leaves it: it starts to turn in `lock_acquire`, and turns there for ever.
pub woken_waiter_hangs :
    (s : Sys) (l : Ptr) (n : ℕ)
    → (s.tcbs s.current).arg ≡ l
    → s.alarm_blocked ≡ true
    → at s.locks l ≡ some (record { shared = suc n })
    → (resume in_wait s ≡ spins l s)
      × ((m : Config)
          → Reach (record { sys = s; control = spinning l }) m
          → m ≡ record { sys = s; control = spinning l })
unfolding resume after_wait
woken_waiter_hangs s l n a b e =
    (rw a (hang (Bool-cases (l == null))), λ m r. spin_blocked_forever s l n m b e r)
  where
    hang :
        ((l == null) ≡ true) ⊎ ((l == null) ≡ false)
        → (if l == null then pure tt else lock_acquire l) s ≡ spins l s
    hang (inl z) = ground (arith, z, e)
    hang (inr z) = rw z (taken_lock s l n e)
