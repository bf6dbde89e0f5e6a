-- ===== src/System/Invariant/Start.antt =====
-- `t_start` sets up the counters, and with them the invariant.
use user_level_thread_librar.Base.{
  ℕ, zero, suc, ◌≡◌, arith, ltb, ◌==◌, ◌&&◌, if◌then◌else◌, Option, some, List, [], ℤ, negsuc, true,
}
use user_level_thread_librar.System.State.{
  Sys, Ptr, Condition, Semaphore, levels, max_waiting, max_semaphores, max_conditions, null,
  set_tcb, ◌>>=◌,
}
use user_level_thread_librar.System.Fork.{clear_waiting, allocate_memory, t_start}
use user_level_thread_librar.System.Timer.{block, disable_timer}
use user_level_thread_librar.System.Machine.{Config, settle, enter, Reach}
use user_level_thread_librar.System.Invariant.Defs.{IsWf, Keeps, Keeps-bind, if-Keeps}
use user_level_thread_librar.System.Invariant.Ready.{t_fork-IsWf, scheduler-IsWf}
use user_level_thread_librar.System.Invariant.Reachable.{Reach-IsWf, enter-IsWf, settle-IsWf}

-- `main` may have created conditions and semaphores, but no thread runs yet that could wait.
pub record NoneWait (conditions : Ptr → Option Condition) (semaphores : Ptr → Option Semaphore)
    : Type 0 where
  pub on_conditions : (c : Ptr) (k : Condition) → conditions c ≡ some k → (p : ℕ) → k.waiters p ≡ []
  pub on_semaphores : (c : Ptr) (m : Semaphore) → semaphores c ≡ some m → m.waiters ≡ []

abbrev pub Unstarted : Sys → Type 0
Unstarted s = IsWf s × NoneWait s.conditions s.semaphores

clear_waiting-Unstarted : (n : ℕ) (s : Sys) → Unstarted s → Unstarted (clear_waiting n s)
unfolding clear_waiting
clear_waiting-Unstarted zero s u = u
clear_waiting-Unstarted (suc n) s u = clear_waiting-Unstarted n s u

abbrev pub reset_ready : Sys → Sys
reset_ready s = record s {
  p_queue = λ i. if ltb i levels then [] else s.p_queue i;
  thread_level_count = λ i. if ltb i levels then 0 else s.thread_level_count i;
}

reset_ready-Unstarted : (s : Sys) → Unstarted s → Unstarted (reset_ready s)
reset_ready-Unstarted s (w, n) = (
  record {
    ready = λ p. ground (arith, w.ready p);
    conditions = w.conditions;
    semaphores = w.semaphores;
    few_conditions = w.few_conditions;
    few_exited = w.few_exited;
  },
  n,
)

-- Nobody waits on a semaphore or on a condition, as the cleared counters say.
abbrev pub reset_waiters : Sys → Sys
reset_waiters s = record s {
  semaphore_waiters = λ i. if ltb i max_semaphores then 0 else s.semaphore_waiters i;
  condition_waiters =
      λ i j. if ltb i max_conditions && ltb j levels then 0 else s.condition_waiters i j;
}

reset_waiters-IsWf : (s : Sys) → Unstarted s → IsWf (reset_waiters s)
reset_waiters-IsWf s (w, n) = record {
  ready = w.ready;
  conditions = record {
    counted = λ c k e p. ground (arith, w.conditions.counted c k e p, n.on_conditions c k e p);
    given = w.conditions.given;
    distinct = w.conditions.distinct;
    fresh = λ i p h. ground (arith, w.conditions.fresh i p h);
  };
  semaphores = record {
    counted = λ c m e. ground (arith, w.semaphores.counted c m e, n.on_semaphores c m e);
    given = w.semaphores.given;
    distinct = w.semaphores.distinct;
    fresh = λ i h. ground (arith, w.semaphores.fresh i h);
    blocked = w.semaphores.blocked;
  };
  few_conditions = w.few_conditions;
  few_exited = w.few_exited;
}

abbrev pub with_tcbs : Ptr → (ℕ → Ptr) → Sys → Sys
with_tcbs current_tcb waiting_tcb s =
    record (set_tcb current_tcb (λ t. record t { priority = negsuc 0 })
      (record s { current = current_tcb })) { tcb_waiting = waiting_tcb }

allocate_memory-IsWf :
    (current_tcb : Ptr) (waiting_tcb : ℕ → Ptr) (s : Sys)
    → Unstarted s
    → Keeps IsWf (allocate_memory current_tcb waiting_tcb s)
unfolding allocate_memory
allocate_memory-IsWf current_tcb waiting_tcb s u =
    if-Keeps IsWf (current_tcb == null) _ _ s (λ _. tt)
      λ _.
        reset_waiters-IsWf (clear_waiting max_waiting (with_tcbs current_tcb waiting_tcb s))
          (clear_waiting-Unstarted max_waiting (with_tcbs current_tcb waiting_tcb s) u)

pub t_start-IsWf :
    (current_tcb : Ptr) (waiting_tcb : ℕ → Ptr) (first : Ptr) (f v : ℕ) (name : List ℕ)
    (priority : ℤ) (s : Sys)
    → Unstarted s
    → Keeps IsWf (t_start current_tcb waiting_tcb first f v name priority s)
unfolding t_start disable_timer
t_start-IsWf current_tcb waiting_tcb first f v name priority s u =
    Keeps-bind IsWf _ _
      (allocate_memory-IsWf current_tcb waiting_tcb (reset_ready s) (reset_ready-Unstarted s u))
      λ _ t w. Keeps-bind IsWf _ _ (t_fork-IsWf first f v name priority _ w) λ _ t w.
        scheduler-IsWf
          (block (record t {
            timer = record { it_value = 10000; it_interval = 10000 };
            alarm_in_blocksigs = true;
          }))
          w

-- If what `main` did before `t_start` left the counters and the queues in agreement, and nobody waits,
-- then they agree in every configuration that a history of calls, timer interrupts and dispatches
-- reaches after `t_start`, as long as `q_insert` gets its memory and no interrupt comes between the
-- `q_insert` and the increment of one turn of the loop at the end of a thread.
pub started-IsWf :
    (s : Sys) (current_tcb : Ptr) (waiting_tcb : ℕ → Ptr) (first : Ptr) (f v : ℕ) (name : List ℕ)
    (priority : ℤ) (k l : Config)
    → IsWf s
    → NoneWait s.conditions s.semaphores
    → settle (λ c. c) ((t_start current_tcb waiting_tcb first f v name priority >>= enter) s)
      ≡ some k
    → Reach k l
    → IsWf l.sys
started-IsWf s current_tcb waiting_tcb first f v name priority k l w n e r =
    Reach-IsWf k l
      (settle-IsWf (λ c. c) _ k
        (Keeps-bind IsWf (t_start current_tcb waiting_tcb first f v name priority s) enter
          (t_start-IsWf current_tcb waiting_tcb first f v name priority s (w, n)) enter-IsWf)
        e)
      r
