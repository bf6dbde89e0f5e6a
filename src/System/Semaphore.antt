-- ===== src/System/Semaphore.antt =====
-- Counting semaphores.
use user_level_thread_librar.Base.{
  ℕ, ◌+◌, ◌-◌, none, some, [], ◌∷◌, ◌++◌, ◌==◌, ltb, if◌then◌else◌, update, ℤ, pos, ltb_ℤ,
  increment, decrement, List, length,
}
use user_level_thread_librar.System.State.{
  Sys, Ptr, M, null, Semaphore, in_p, max_semaphores, modify, gets, pure, deref, in_bounds, ◌>>=◌,
  ◌>>◌, put_ready, save_context, longjmp, sched_context, q_remove,
}
use user_level_thread_librar.System.Timer.{disable_timer, enable_timer}

abbrev pub set_semaphore : Ptr → Semaphore → Sys → Sys
set_semaphore p m s = record s { semaphores = update s.semaphores p (some m) }

-- `semaphoreWaiters[id] = n;`
abbrev pub set_sem_waiters : ℕ → ℕ → Sys → Sys
set_sem_waiters id n s = record s { semaphore_waiters = update s.semaphore_waiters id n }

-- When `malloc` fails the timer stays disabled. The name goes to the queue's 20 characters.
unfoldable pub semaphore_create : (fresh : Ptr) → ℤ → List ℕ → M Ptr
unfolding disable_timer enable_timer
semaphore_create fresh count sem_name = do
  disable_timer
  if fresh == null then pure null else do
    in_bounds 20 (length sem_name)
    modify (λ s. record s { semaphore_id = s.semaphore_id + 1 })
    id ← gets (λ s. s.semaphore_id)
    modify (set_semaphore fresh (record { value = count; sem_id = id; waiters = [] }))
    enable_timer
    pure fresh

-- Up to the `longjmp`, where there is one.
unfoldable pub semaphore_p : Ptr → M (Unit {0})
unfolding disable_timer enable_timer
semaphore_p p = do
  disable_timer
  m ← deref (λ s. s.semaphores) p
  if ltb_ℤ (pos 0) m.value
      then (do modify (set_semaphore p (record m { value = decrement m.value })); enable_timer)
      else (do
        save_context in_p
        cur ← gets (λ s. s.current)
        modify (set_semaphore p (record m { waiters = m.waiters ++ cur ∷ [] }))
        in_bounds max_semaphores m.sem_id
        modify (λ s. set_sem_waiters m.sem_id (s.semaphore_waiters m.sem_id + 1) s)
        longjmp sched_context)

-- A waiter is put at the level of the running thread, not at its own.
unfoldable pub semaphore_v : Ptr → M (Unit {0})
unfolding disable_timer enable_timer
semaphore_v p = do
  disable_timer
  m ← deref (λ s. s.semaphores) p
  in_bounds max_semaphores m.sem_id
  waiting ← gets (λ s. s.semaphore_waiters m.sem_id)
  if ltb 0 waiting
      then (do
        (t, rest) ← q_remove m.waiters
        modify (set_semaphore p (record m { waiters = rest }))
        modify (set_sem_waiters m.sem_id (waiting - 1))
        priority ← gets (λ s. (s.tcbs s.current).priority)
        put_ready priority t)
      else modify (set_semaphore p (record m { value = increment m.value }))
  enable_timer

-- For NULL the call returns with the timer disabled.
unfoldable pub semaphore_destroy : Ptr → M (Unit {0})
unfolding disable_timer enable_timer
semaphore_destroy p = do
  disable_timer
  if p == null then pure tt else do
    _ ← deref (λ s. s.semaphores) p
    modify (λ s. record s { semaphores = update s.semaphores p none })
    enable_timer
