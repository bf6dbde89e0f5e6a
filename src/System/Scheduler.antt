-- ===== src/System/Scheduler.antt =====
-- The scheduler, and what a resumed thread does first.
use user_level_thread_librar.Base.{
  ℕ, zero, suc, ◌+◌, ◌-◌, true, false, Option, none, some, ◌==◌, if◌then◌else◌, update,
}
use user_level_thread_librar.System.State.{
  M, Context, in_yield, levels, modify, gets, pure, on_found, q_remove, ◌>>=◌, ◌>>◌, set_tcb,
  put_ready, save_context, longjmp, sched_context,
}
use user_level_thread_librar.System.Timer.{disable_timer, enable_timer}

-- `for(y=127;y>-1;y--) if(count[y]!=0) break;`, from `n - 1` down
unfoldable pub scan : (ℕ → ℕ) → ℕ → Option ℕ
scan count zero = none
scan count (suc y) = elim (count y == 0) [ true ↦ scan count y | false ↦ some y ]

-- What the scheduler does with the processor.
pub data Next : Type 0 where
  -- `incrementStack` calls the thread's function
  starts : (func arg : ℕ) → Next
  -- `longjmp(currentRunningThread->context,1)`
  restores : Context → Next
  -- it returns to `t_start`
  no_threads : Next

-- The chosen thread starts or goes on.
unfoldable pub dispatch : M Next
unfolding enable_timer
dispatch = do
  cur ← gets (λ s. s.current)
  t ← gets (λ s. s.tcbs cur)
  if t.flag == 1
      then (do
        modify (λ s. record s { thread_count = s.thread_count + 1 })
        modify (set_tcb cur (λ t. record t { flag = 0 }))
        enable_timer
        pure (starts t.func t.arg))
      else pure (restores t.context)

-- Take the first thread of level `y`.
unfoldable pub take_level : ℕ → M (Unit {0})
take_level y = do
  level ← gets (λ s. s.p_queue y)
  (t, rest) ← q_remove level
  modify (λ s. record s {
    current = t;
    p_queue = update s.p_queue y rest;
    thread_level_count = update s.thread_level_count y (s.thread_level_count y - 1);
  })

-- The first call passes through `sitBottom`, and comes back to the same place as every later one.
unfoldable pub scheduler : M Next
unfolding disable_timer scan dispatch take_level
scheduler = do
  modify (λ s. record s { first_run = 1 })
  disable_timer
  count ← gets (λ s. s.thread_level_count)
  on_found (scan count levels) (pure no_threads) (λ y. take_level y >> dispatch)

unfoldable pub yield_from : Context → M (Unit {0})
unfolding disable_timer
yield_from context = do
  disable_timer
  save_context context
  cur ← gets (λ s. s.current)
  priority ← gets (λ s. (s.tcbs cur).priority)
  put_ready priority cur
  longjmp sched_context

unfoldable pub t_yield : M (Unit {0})
unfolding yield_from
t_yield = yield_from in_yield
