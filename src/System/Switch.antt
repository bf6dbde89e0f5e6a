-- ===== src/System/Switch.antt =====
-- Who runs next: after `t_yield`, after a timer interrupt, after `t_fork`.
use user_level_thread_librar.Base.{
  ℕ, ◌+◌, ◌<◌, ◌≡◌, List, [], ◌∷◌, ◌++◌, arith, update, pos, ℤ, lt→ltb, ==-refl,
}
use user_level_thread_librar.System.State.{
  Sys, Ptr, Context, in_yield, in_timer, returns, jumps, levels, set_tcb, put_ready, sched_context,
  sit_bottom_context,
}
use user_level_thread_librar.System.Timer.{block, timer_handler}
use user_level_thread_librar.System.Scheduler.{t_yield, yield_from, scheduler}
use user_level_thread_librar.System.Priority.{Dispatched, scheduler_highest}
use user_level_thread_librar.System.Invariant.Defs.{ReadyCounted}
use user_level_thread_librar.System.Invariant.Ready.{snoc_counted}

-- `t` stands behind the other threads of level `p`.
abbrev pub readied : Sys → ℕ → Ptr → Sys
readied s p t = record s {
  p_queue = update s.p_queue p (s.p_queue p ++ t ∷ []);
  thread_level_count = update s.thread_level_count p (s.thread_level_count p + 1);
}

pub put_ready-readied :
    (s : Sys) (z : ℤ) (p : ℕ) (t : Ptr)
    → z ≡ pos p
    → p < levels
    → put_ready z t s ≡ returns tt (readied s p t)
unfolding put_ready
put_ready-readied s z p t e l = rw (e, lt→ltb p levels l)

-- The running thread has saved its context and joined its level.
abbrev pub left : Sys → Context → ℕ → Sys
left s c p = readied (set_tcb s.current (λ t. record t { context = c }) (block s)) p s.current

own_priority :
    (s : Sys) (c : Context) (p : ℕ)
    → (s.tcbs s.current).priority ≡ pos p
    → (update s.tcbs s.current (record (s.tcbs s.current) { context = c }) s.current).priority
      ≡ pos p
own_priority s c p e = rw (==-refl s.current) e

pub yield_from-left :
    (s : Sys) (c : Context) (p : ℕ)
    → (s.tcbs s.current).priority ≡ pos p
    → p < levels
    → yield_from c s ≡ jumps sched_context (left s c p)
unfolding yield_from
yield_from-left s c p e l = rw (
    put_ready-readied (set_tcb s.current (λ t. record t { context = c }) (block s)) _ p s.current
      (own_priority s c p e) l)

pub timer_handler-left :
    (s : Sys) (p : ℕ)
    → (s.tcbs s.current).priority ≡ pos p
    → p < levels
    → timer_handler s ≡ jumps sit_bottom_context (left s in_timer p)
unfolding timer_handler
timer_handler-left s p e l = rw (
    put_ready-readied (set_tcb s.current (λ t. record t { context = in_timer }) (block s)) _ p
      s.current (own_priority s in_timer p e) l)

-- The scheduler after thread `q` has joined level `p`, with nothing ready above.
pub readied-Dispatched :
    (s : Sys) (p : ℕ) (q t : Ptr) (rest : List Ptr)
    → ReadyCounted s.thread_level_count s.p_queue
    → p < levels
    → ((z : ℕ) → p < z → z < levels → s.p_queue z ≡ [])
    → s.p_queue p ++ q ∷ [] ≡ t ∷ rest
    → Dispatched (readied s p q) p t rest (scheduler (readied s p q))
readied-Dispatched s p q t rest w l above e =
    scheduler_highest (readied s p q) p t rest (snoc_counted s.p_queue s.thread_level_count p q w) l
      (rw (==-refl p) e) (λ z a b. ground (arith, above z a b))

module _ (s : Sys) (p : ℕ) (t : Ptr) (rest : List Ptr)
    (w : ReadyCounted s.thread_level_count s.p_queue) (e : (s.tcbs s.current).priority ≡ pos p)
    (l : p < levels) (above : (z : ℕ) → p < z → z < levels → s.p_queue z ≡ [])
    (front : s.p_queue p ++ s.current ∷ [] ≡ t ∷ rest) where
  -- Round robin: with no ready thread of a higher level, a thread that yields goes behind the others of
  -- its level, and the first of that level runs.
  pub yield_round_robin :
      (t_yield s ≡ jumps sched_context (left s in_yield p))
      × Dispatched (left s in_yield p) p t rest (scheduler (left s in_yield p))
  unfolding t_yield
  yield_round_robin = (
    yield_from-left s in_yield p e l,
    readied-Dispatched (set_tcb s.current (λ t. record t { context = in_yield }) (block s)) p
        s.current t rest w l above front,
  )
