-- ===== src/System/Timer.antt =====
-- Blocking the timer signal, the quanta, and the identity of the running thread.
use user_level_thread_librar.Base.{ℕ, ℤ, ◌*◌, true, false, if◌then◌else◌, List}
use user_level_thread_librar.System.State.{
  Sys, M, modify, gets, put_ready, save_context, longjmp, in_timer, ◌>>=◌, ◌>>◌, sit_bottom_context,
  sched_context,
}

-- `sigprocmask(SIG_BLOCK, &blocksigs, NULL)`
abbrev pub block : Sys → Sys
block s = record s { alarm_blocked = if s.alarm_in_blocksigs then true else s.alarm_blocked }

-- `sigprocmask(SIG_UNBLOCK, &blocksigs, NULL)`
abbrev pub unblock : Sys → Sys
unblock s = record s { alarm_blocked = if s.alarm_in_blocksigs then false else s.alarm_blocked }

unfoldable pub disable_timer : M (Unit {0})
disable_timer = modify block

unfoldable pub enable_timer : M (Unit {0})
enable_timer = modify unblock

-- Up to the `longjmp`; a resumed thread goes on as `resume` says.
unfoldable pub timer_handler : M (Unit {0})
unfolding disable_timer
timer_handler = do
  disable_timer
  save_context in_timer
  cur ← gets (λ s. s.current)
  priority ← gets (λ s. (s.tcbs cur).priority)
  put_ready priority cur
  longjmp sit_bottom_context

-- What follows the `setjmp` of `sitBottom`, each time.
unfoldable pub sit_bottom : M (Unit {0})
unfolding disable_timer
sit_bottom = disable_timer >> longjmp sched_context

unfoldable pub get_thread_name : M (List ℕ)
get_thread_name = gets (λ s. (s.tcbs s.current).name)

unfoldable pub t_priority : M ℤ
t_priority = gets (λ s. (s.tcbs s.current).priority)

unfoldable pub t_set_system_quantum : ℕ → M (Unit {0})
t_set_system_quantum quantum =
    modify (λ s. record s { timer = record { it_value = quantum; it_interval = quantum } })

-- Milliseconds are stored as microseconds.
unfoldable pub t_set_quantum : ℕ → M (Unit {0})
t_set_quantum msec =
    modify (λ s. record s { timer = record { it_value = msec * 1000; it_interval = msec * 1000 } })
