-- ===== src/System/Lock.antt =====
-- Locks: `lock_create`, `lock_acquire`, `lock_release`.
use user_level_thread_librar.Base.{ℕ, some, ◌==◌, if◌then◌else◌, update}
use user_level_thread_librar.System.State.{
  Sys, Ptr, M, null, spins, modify, pure, deref, ◌>>=◌, ◌>>◌,
}
use user_level_thread_librar.System.Timer.{block, unblock, disable_timer, enable_timer}

abbrev pub set_lock : Ptr → ℕ → Sys → Sys
set_lock l shared s = record s { locks = update s.locks l (some (record { shared = shared })) }

-- When `malloc` fails the timer stays disabled.
unfoldable pub lock_create : (fresh : Ptr) → M Ptr
unfolding disable_timer enable_timer
lock_create fresh = do
  disable_timer
  if fresh == null then pure null else do modify (set_lock fresh 0); enable_timer; pure fresh

-- `while(lock->shared);` turns for as long as another thread leaves the lock taken. This is the call
-- without an interrupt between the loop and what follows it.
unfoldable pub lock_acquire : Ptr → M (Unit {0})
lock_acquire l = do
  lock ← deref (λ s. s.locks) l
  if lock.shared == 0 then (modify block >> modify (set_lock l 1)) else spins l

-- The part after the loop, of a thread that the timer has interrupted between the two: it does not test
-- the lock again.
unfoldable pub take_lock : Ptr → M (Unit {0})
take_lock l = do modify block; _ ← deref (λ s. s.locks) l; modify (set_lock l 1)

unfoldable pub lock_release : Ptr → M (Unit {0})
unfolding disable_timer enable_timer
lock_release l = do
  disable_timer
  _ ← deref (λ s. s.locks) l
  modify (set_lock l 0)
  modify unblock
  enable_timer
