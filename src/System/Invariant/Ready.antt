-- ===== src/System/Invariant/Ready.antt =====
-- Threads that become ready, run, fork, join and end.
use user_level_thread_librar.Base.{
  ℕ, ◌+◌, ◌-◌, ◌≡◌, ◌==◌, ltb, [], ◌∷◌, ◌++◌, arith, ℤ, length, length-snoc, update, index, List,
}
use user_level_thread_librar.Base.{Bool, zero, suc, negsuc, not, ◌&&◌, eq_ℤ, ltb_ℤ}
use user_level_thread_librar.System.State.{
  Sys, Ptr, null, levels, max_waiting, max_exited, max_thread_name, Target, Context, put_ready,
  longjmp, sched_context, sit_bottom_context, ◌>>◌,
}
use user_level_thread_librar.System.Timer.{timer_handler}
use user_level_thread_librar.System.Scheduler.{take_level, dispatch, scheduler, scan, yield_from}
use user_level_thread_librar.System.Fork.{t_fork}
use user_level_thread_librar.System.Join.{
  t_join, finish_thread, wake_joiners, wake_joiner, record_end, has_exited, waits_for_current,
}
use user_level_thread_librar.System.Invariant.Defs.{
  IsWf, Keeps, Keeps-bind, or_fault-bind, q_remove-bind, on_found-Keeps, assert-bind, if-Keeps,
}

pub snoc_counted :
    (f : ℕ → List Ptr) (n : ℕ → ℕ) (p : ℕ) (t : Ptr)
    → ((i : ℕ) → n i ≡ length (f i))
    → (i : ℕ) → update n p (n p + 1) i ≡ length (update f p (f p ++ t ∷ []) i)
snoc_counted f n p t h i = ground (arith, h i, h p, length-snoc (f p) t)

pub put_ready-IsWf : (z : ℤ) (t : Ptr) (s : Sys) → IsWf s → Keeps IsWf (put_ready z t s)
unfolding put_ready
put_ready-IsWf z t s w = or_fault-bind IsWf (index levels z) _ s λ p _. record {
  ready = snoc_counted s.p_queue s.thread_level_count p t w.ready;
  conditions = w.conditions;
  semaphores = w.semaphores;
  few_conditions = w.few_conditions;
  few_exited = w.few_exited;
}

rest_counted :
    (f : ℕ → List Ptr) (n : ℕ → ℕ) (p : ℕ) (t : Ptr) (rest : List Ptr)
    → f p ≡ t ∷ rest
    → ((i : ℕ) → n i ≡ length (f i))
    → (i : ℕ) → update n p (n p - 1) i ≡ length (update f p rest i)
rest_counted f n p t rest e h i = ground (arith, h i, h p, e)

pub take_level-IsWf : (y : ℕ) (s : Sys) → IsWf s → Keeps IsWf (take_level y s)
unfolding take_level
take_level-IsWf y s w = q_remove-bind IsWf (s.p_queue y) _ s λ t rest e. record {
  ready = rest_counted s.p_queue s.thread_level_count y t rest e w.ready;
  conditions = w.conditions;
  semaphores = w.semaphores;
  few_conditions = w.few_conditions;
  few_exited = w.few_exited;
}

pub dispatch-IsWf : (s : Sys) → IsWf s → Keeps IsWf (dispatch s)
unfolding dispatch
dispatch-IsWf s w = if-Keeps IsWf ((s.tcbs s.current).flag == 1) _ _ s (λ _. w) (λ _. w)

pub scheduler-IsWf : (s : Sys) → IsWf s → Keeps IsWf (scheduler s)
unfolding scheduler
scheduler-IsWf s w =
    on_found-Keeps IsWf (scan s.thread_level_count levels) _ _ _ w
      λ y _. Keeps-bind IsWf _ _ (take_level-IsWf y _ w) λ _ s' w'. dispatch-IsWf s' w'

-- A thread that gives up the processor and stays ready.
pub requeue-IsWf :
    (t : Target) (z : ℤ) (q : Ptr) (s : Sys)
    → IsWf s
    → Keeps IsWf ((put_ready z q >> longjmp {A = Unit {0}} t) s)
requeue-IsWf t z q s w = Keeps-bind IsWf (put_ready z q s) _ (put_ready-IsWf z q s w) λ _ s' w'. w'

pub timer_handler-IsWf : (s : Sys) → IsWf s → Keeps IsWf (timer_handler s)
unfolding timer_handler
timer_handler-IsWf s w = requeue-IsWf sit_bottom_context _ s.current _ w

pub yield_from-IsWf : (c : Context) (s : Sys) → IsWf s → Keeps IsWf (yield_from c s)
unfolding yield_from
yield_from-IsWf c s w = requeue-IsWf sched_context _ s.current _ w

pub t_fork-IsWf :
    (fresh : Ptr) (f v : ℕ) (name : List ℕ) (z : ℤ) (s : Sys)
    → IsWf s
    → Keeps IsWf (t_fork fresh f v name z s)
unfolding t_fork
t_fork-IsWf fresh f v name z s w =
    if-Keeps IsWf (fresh == null) _ _ _ (λ _. tt)
      λ _. assert-bind IsWf (ltb (length name) max_thread_name) _ _ λ _.
        Keeps-bind IsWf _ _ (put_ready-IsWf z fresh _ w) λ _ s' w'.
          if-Keeps IsWf
            (not (eq_ℤ (s'.tcbs s'.current).priority (negsuc 0))
              && ltb_ℤ (s'.tcbs s'.current).priority z)
            _ _ s' (λ _. Keeps-bind IsWf _ _ (yield_from-IsWf _ s' w') λ _ t x. x) (λ _. w')

pub t_join-IsWf : (tid : ℕ) (s : Sys) → IsWf s → Keeps IsWf (t_join tid s)
unfolding t_join
t_join-IsWf tid s w =
    if-Keeps IsWf (has_exited s.exited_thread_ids s.exit_thread_index tid) _ _ _ (λ _. w) (λ _. w)

pub wake_joiner-IsWf :
    (i : ℕ) (waked : Bool) (s : Sys) → IsWf s → Keeps IsWf (wake_joiner i waked s)
unfolding wake_joiner
wake_joiner-IsWf i waked s w =
    if-Keeps IsWf (waits_for_current s i) _ _ s
      (λ _. Keeps-bind IsWf _ _ (put_ready-IsWf _ _ s w) λ _ t x. x) (λ _. w)

wake_joiners-IsWf : (n : ℕ) (s : Sys) → IsWf s → Keeps IsWf (wake_joiners n s)
unfolding wake_joiners
wake_joiners-IsWf zero s w = w
wake_joiners-IsWf (suc i) s w =
    Keeps-bind IsWf _ _ (wake_joiners-IsWf i s w) λ waked s' w'. wake_joiner-IsWf i waked s' w'

pub record_end-IsWf : (waked : Bool) (s : Sys) → IsWf s → Keeps IsWf (record_end waked s)
unfolding record_end
record_end-IsWf waked s w =
    Keeps-bind IsWf _ _
      (if-Keeps IsWf waked _ _ s (λ _. w)
        λ _. assert-bind IsWf (ltb s.exit_thread_index max_exited) _ s λ e. record {
          ready = w.ready;
          conditions = w.conditions;
          semaphores = w.semaphores;
          few_conditions = w.few_conditions;
          few_exited = ground arith;
        })
      λ _ t x. x

pub finish_thread-IsWf : (s : Sys) → IsWf s → Keeps IsWf (finish_thread s)
unfolding finish_thread
finish_thread-IsWf s w =
    Keeps-bind IsWf _ _ (wake_joiners-IsWf max_waiting s w)
      λ waked s' w'. record_end-IsWf waked s' w'
