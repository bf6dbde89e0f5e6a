-- ===== src/System/Failures.antt =====
-- The early returns of `lock_create`, `cond_create`, `semaphore_create` and `Semaphore_destroy`.
use user_level_thread_librar.Base.{ℕ, ℤ, ◌≡◌, refl, true, none, some, List}
use user_level_thread_librar.System.State.{Sys, Ptr, null}
use user_level_thread_librar.System.Timer.{block}
use user_level_thread_librar.System.Lock.{lock_create}
use user_level_thread_librar.System.Condition.{cond_create}
use user_level_thread_librar.System.Semaphore.{semaphore_create, semaphore_destroy}
use user_level_thread_librar.System.Machine.{
  Call, creates_lock, creates_cond, creates_semaphore, destroys_semaphore, exec, Config, in_user,
  calls, ticks, step, user_call, interrupt,
}

-- `malloc` gives no memory to the call, or the call gets NULL to destroy.
pub data Fails : Call → Type 0 where
  no_lock : Fails (creates_lock null)
  no_cond : (l : Ptr) → Fails (creates_cond null l)
  no_semaphore : (count : ℤ) (name : List ℕ) → Fails (creates_semaphore null count name)
  nothing_to_destroy : Fails (destroys_semaphore null)

failed_call :
    (c : Call) (s : Sys)
    → Fails c
    → step (calls c) (record { sys = s; control = in_user })
      ≡ some (record { sys = block s; control = in_user })
unfolding step user_call exec lock_create cond_create semaphore_create semaphore_destroy
failed_call _ s no_lock = refl
failed_call _ s (no_cond l) = refl
failed_call _ s (no_semaphore count name) = refl
failed_call _ s nothing_to_destroy = refl

-- A call that fails so returns to its caller, and the timer can no longer interrupt the caller.
pub failed_call_blocks_timer :
    (c : Call) (s : Sys)
    → Fails c
    → s.alarm_in_blocksigs ≡ true
    → (k : Config) × (step (calls c) (record { sys = s; control = in_user }) ≡ some k)
      × (k.control ≡ in_user)
      × (step ticks k ≡ none)
unfolding step interrupt
failed_call_blocks_timer c s f b =
    (record { sys = block s; control = in_user }, failed_call c s f, refl, rw b)
