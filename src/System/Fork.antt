-- ===== src/System/Fork.antt =====
-- Creating threads: `t_fork`, `allocateMemory` and `t_start`.
use user_level_thread_librar.Base.{
  ℕ, zero, suc, ◌+◌, true, ◌&&◌, not, List, [], ◌==◌, ltb, length, if◌then◌else◌, ℤ, negsuc, ltb_ℤ,
  eq_ℤ,
}
use user_level_thread_librar.System.State.{
  Sys, Ptr, M, exits, null, Tcb, unset, in_fork, levels, max_waiting, max_semaphores,
  max_conditions, max_thread_name, modify, gets, pure, in_bounds, ◌>>=◌, ◌>>◌, set_tcb, put_ready,
}
use user_level_thread_librar.System.Timer.{disable_timer, enable_timer}
use user_level_thread_librar.System.Scheduler.{yield_from, Next, scheduler}

abbrev pub new_tcb : ℕ → ℕ → List ℕ → ℤ → ℕ → Tcb
new_tcb f v name priority tid = record {
  name = name;
  context = unset;
  func = f;
  arg = v;
  priority = priority;
  flag = 1;
  tid = tid;
  waiting_for_tid = 0;
}

-- `fresh` is what `malloc` returns. The result is read when the call, or a later resumption of its
-- `t_yield`, returns.
unfoldable pub t_fork : (fresh : Ptr) (f v : ℕ) (name : List ℕ) (priority : ℤ) → M ℕ
unfolding disable_timer enable_timer yield_from
t_fork fresh f v name priority = do
  disable_timer
  if fresh == null then (λ s. exits) else do
    in_bounds max_thread_name (length name)
    modify (λ s. record s { g_thread_id = s.g_thread_id + 1 })
    tid ← gets (λ s. s.g_thread_id)
    modify (set_tcb fresh (λ _. new_tcb f v name priority tid))
    put_ready priority fresh
    running ← gets (λ s. (s.tcbs s.current).priority)
    if not (eq_ℤ running (negsuc 0)) && ltb_ℤ running priority
        then (yield_from (in_fork tid) >> pure tid)
        else (enable_timer >> pure tid)

-- `tcbWaiting[i]->waitingForTid=0;` for `i` below `n`
unfoldable pub clear_waiting : ℕ → Sys → Sys
clear_waiting zero s = s
clear_waiting (suc i) s =
    let s' = clear_waiting i s in
    set_tcb (s'.tcb_waiting i) (λ t. record t { waiting_for_tid = 0 }) s'

-- The memory that `malloc` gives: a TCB for the pointer `currentThread`, one for each entry of
-- `tcbWaiting`.
unfoldable pub allocate_memory : (current_tcb : Ptr) (waiting_tcb : ℕ → Ptr) → M (Unit {0})
unfolding clear_waiting
allocate_memory current_tcb waiting_tcb = if current_tcb == null then (λ s. exits) else do
  modify (λ s. record s { current = current_tcb })
  modify (set_tcb current_tcb (λ t. record t { priority = negsuc 0 }))
  modify (λ s. record s { tcb_waiting = waiting_tcb })
  modify (clear_waiting max_waiting)
  modify (λ s. record s {
    semaphore_waiters = λ i. if ltb i max_semaphores then 0 else s.semaphore_waiters i;
  })
  modify (λ s. record s {
    condition_waiters =
        λ i j. if ltb i max_conditions && ltb j levels then 0 else s.condition_waiters i j;
  })

-- Up to the return of `Scheduler`, which stands for `t_start`'s own return.
unfoldable pub t_start :
    (current_tcb : Ptr) (waiting_tcb : ℕ → Ptr) (first : Ptr) (f v : ℕ) (name : List ℕ)
    (priority : ℤ)
    → M Next
unfolding allocate_memory t_fork disable_timer scheduler
t_start current_tcb waiting_tcb first f v name priority = do
  modify (λ s. record s {
    p_queue = λ i. if ltb i levels then [] else s.p_queue i;
    thread_level_count = λ i. if ltb i levels then 0 else s.thread_level_count i;
  })
  allocate_memory current_tcb waiting_tcb
  modify (λ s. record s { first_run = 0 })
  _ ← t_fork first f v name priority
  modify (λ s. record s { timer = record { it_value = 10000; it_interval = 10000 } })
  modify (λ s. record s { alarm_in_blocksigs = true })
  disable_timer
  scheduler
