-- ===== src/System/Join.antt =====
-- Waiting for a thread to end: `t_join`, `t_exit`, and the end of `incrementStack`.
use user_level_thread_librar.Base.{
  ℕ, zero, suc, ◌+◌, Bool, true, false, ◌&&◌, ◌||◌, not, ◌==◌, ltb, if◌then◌else◌, update,
}
use user_level_thread_librar.System.State.{
  Sys, M, in_join, max_waiting, max_exited, modify, gets, pure, in_bounds, ◌>>=◌, ◌>>◌, set_tcb,
  put_ready, save_context, longjmp, sched_context, sit_bottom_context,
}
use user_level_thread_librar.System.Timer.{disable_timer, enable_timer}

-- `tid` is among the first `n` entries of `exitedThreadIDs`.
unfoldable pub has_exited : (ℕ → ℕ) → ℕ → ℕ → Bool
has_exited ids zero tid = false
has_exited ids (suc n) tid = (tid == ids n) || has_exited ids n tid

-- `REPEAT`: the next entry of `tcbWaiting`, the first again after the last.
abbrev pub next_slot : ℕ → ℕ
next_slot i = if ltb i max_waiting then i else 0

unfoldable pub t_join : (tid : ℕ) → M (Unit {0})
unfolding disable_timer enable_timer has_exited
t_join tid = do
  disable_timer
  exited ← gets (λ s. has_exited s.exited_thread_ids s.exit_thread_index tid)
  if exited then enable_timer else do
    save_context in_join
    modify (λ s. set_tcb s.current (λ t. record t { flag = 0 }) s)
    modify (λ s. set_tcb s.current (λ t. record t { waiting_for_tid = tid }) s)
    modify (λ s. record s {
      tcb_waiting = update s.tcb_waiting (next_slot s.waiting_index) s.current;
      waiting_index = next_slot s.waiting_index + 1;
    })
    longjmp sched_context

unfoldable pub t_exit : ℕ → M (Unit {0})
t_exit val = longjmp sched_context

-- The thread in entry `i` of `tcbWaiting` waits for the running one.
unfoldable pub waits_for_current : Sys → ℕ → Bool
waits_for_current s i =
    let waiting = (s.tcbs (s.tcb_waiting i)).waiting_for_tid in
    not (waiting == 0) && ((s.tcbs s.current).tid == waiting)

-- The turn of the loop for entry `i`; `waked` before and after it.
unfoldable pub wake_joiner : ℕ → Bool → M Bool
unfolding waits_for_current
wake_joiner i waked = do
  waits ← gets (λ s. waits_for_current s i)
  if waits
      then (do
        t ← gets (λ s. s.tcb_waiting i)
        priority ← gets (λ s. (s.tcbs t).priority)
        put_ready priority t
        pure true)
      else pure waked

-- The loop over the first `n` entries; the result is `waked`.
unfoldable pub wake_joiners : ℕ → M Bool
unfolding wake_joiner
wake_joiners zero = pure false
wake_joiners (suc i) = do waked ← wake_joiners i; wake_joiner i waked

-- What follows the loop.
unfoldable pub record_end : Bool → M (Unit {0})
record_end waked = do
  (if waked then pure tt else do
    i ← gets (λ s. s.exit_thread_index)
    in_bounds max_exited i
    modify (λ s. record s {
      exited_thread_ids = update s.exited_thread_ids i (s.tcbs s.current).tid;
      exit_thread_index = i + 1;
    }))
  longjmp sit_bottom_context

-- `incrementStack` after the thread's function has returned, without an interrupt: the timer signal is
-- not blocked here.
unfoldable pub finish_thread : M (Unit {0})
unfolding wake_joiners record_end
finish_thread = do waked ← wake_joiners max_waiting; record_end waked
