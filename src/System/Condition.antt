-- ===== src/System/Condition.antt =====
-- Condition variables: `cond_create`, `cond_destroy`, `t_wait`, `t_sig`.
use user_level_thread_librar.Base.{
  ℕ, ◌+◌, ◌-◌, none, some, [], ◌∷◌, ◌++◌, ◌==◌, if◌then◌else◌, update, ℤ,
}
use user_level_thread_librar.System.State.{
  Sys, Ptr, M, null, Condition, in_wait, levels, max_conditions, modify, gets, pure, on_found,
  deref, indexed, in_bounds, ◌>>=◌, ◌>>◌, set_tcb, put_ready, save_context, longjmp, sched_context,
  q_remove, q_is_empty,
}
use user_level_thread_librar.System.Timer.{disable_timer, enable_timer}
use user_level_thread_librar.System.Scheduler.{scan}
use user_level_thread_librar.System.Lock.{lock_release, lock_acquire}

abbrev pub set_condition : Ptr → Condition → Sys → Sys
set_condition c k s = record s { conditions = update s.conditions c (some k) }

-- `conditionWaiters[id][p] = n;`
abbrev pub set_waiters : ℕ → ℕ → ℕ → Sys → Sys
set_waiters id p n s = record s {
  condition_waiters = update s.condition_waiters id (update (s.condition_waiters id) p n);
}

-- When `malloc` fails the timer stays disabled. `conditionRecord` has room for 50.
unfoldable pub cond_create : (fresh : Ptr) → Ptr → M Ptr
unfolding disable_timer enable_timer
cond_create fresh lock = do
  disable_timer
  if fresh == null then pure null else do
    id ← gets (λ s. s.condition_id)
    modify (set_condition fresh (record { cond_id = id; waiters = λ i. []; lock = lock }))
    in_bounds max_conditions id
    modify (λ s. record s {
      condition_record = update s.condition_record id fresh;
      condition_id = id + 1;
    })
    enable_timer
    pure fresh

-- The associated lock is freed with the condition.
unfoldable pub cond_destroy : Ptr → M (Unit {0})
cond_destroy c = do
  k ← deref (λ s. s.conditions) c
  modify (λ s. record s {
    locks = if k.lock == null then s.locks else update s.locks k.lock none;
    conditions = update s.conditions c none;
  })

-- Behind the other waiters of its level.
unfoldable pub add_waiter : Ptr → Condition → ℤ → Ptr → M (Unit {0})
add_waiter c k priority t = do
  p ← indexed levels priority
  modify (set_condition c (record k { waiters = update k.waiters p (k.waiters p ++ t ∷ []) }))
  modify (λ s. set_waiters k.cond_id p (s.condition_waiters k.cond_id p + 1) s)

-- From `disableTimer` up to the `longjmp`.
unfoldable pub wait_on : Ptr → M (Unit {0})
unfolding disable_timer
wait_on c = do
  disable_timer
  save_context in_wait
  cur ← gets (λ s. s.current)
  priority ← gets (λ s. (s.tcbs cur).priority)
  k ← deref (λ s. s.conditions) c
  add_waiter c k priority cur
  longjmp sched_context

-- Without an interrupt between `lock_release`, which lets the timer signal through, and the rest.
unfoldable pub t_wait : Ptr → Ptr → M (Unit {0})
unfolding lock_release wait_on
t_wait c lock = do if lock == null then pure tt else lock_release lock; wait_on c

-- What follows the `setjmp` of `t_wait` in a thread that a signal has woken.
unfoldable pub after_wait : M (Unit {0})
unfolding lock_acquire
after_wait = do
  lock ← gets (λ s. (s.tcbs s.current).arg)
  if lock == null then pure tt else lock_acquire lock

-- The first waiter of level `p` gets the lock as its argument and becomes ready.
unfoldable pub wake_waiter : Ptr → Condition → ℕ → Ptr → M (Unit {0})
wake_waiter c k p lock = do
  (t, rest) ← q_remove (k.waiters p)
  modify (set_condition c (record k { waiters = update k.waiters p rest }))
  modify (λ s. set_waiters k.cond_id p (s.condition_waiters k.cond_id p - 1) s)
  modify (set_tcb t (λ b. record b { arg = lock }))
  priority ← gets (λ s. (s.tcbs t).priority)
  put_ready priority t

-- A signal with no waiter is lost; `val` is not used.
unfoldable pub t_sig : Ptr → ℕ → Ptr → M (Unit {0})
unfolding disable_timer enable_timer scan wake_waiter
t_sig c val lock = do
  disable_timer
  k ← deref (λ s. s.conditions) c
  count ← gets (λ s. s.condition_waiters k.cond_id)
  on_found (scan count levels) (pure tt)
      (λ p. if q_is_empty (k.waiters p) then pure tt else wake_waiter c k p lock)
  enable_timer
