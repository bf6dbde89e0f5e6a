-- ===== src/System/Invariant/Reachable.antt =====
-- Every call, interrupt and dispatch keeps the invariant, so every reachable state satisfies it.
use mathlib.Core.Path.{subst}
use mathlib.Core.Option.{some-injective}
use user_level_thread_librar.Base.{◌≡◌, Option, none, some, Bool, true, false, ltb, if◌then◌else◌}
use user_level_thread_librar.System.State.{
  Sys, Outcome, returns, jumps, spins, exits, faults, Context, unset, in_join, in_timer, in_yield,
  in_wait, max_waiting, in_p, in_fork, bind, pure,
}
use user_level_thread_librar.System.Timer.{
  timer_handler, sit_bottom, t_set_quantum, t_set_system_quantum,
}
use user_level_thread_librar.System.Join.{t_exit}
use user_level_thread_librar.System.Lock.{lock_acquire}
use user_level_thread_librar.System.Scheduler.{t_yield, Next, starts, restores, no_threads}
use user_level_thread_librar.System.Machine.{
  Call, exec, resume, Control, in_user, at_scheduler, at_sit_bottom, ended, spinning, Config,
  settle, enter, proceed, interrupt, user_call, Event, calls, ticks, goes_on, step, Reach, here,
  next,
}
use user_level_thread_librar.System.Invariant.Defs.{IsWf, Keeps, Keeps-bind, assert-bind}
use user_level_thread_librar.System.Invariant.Ready.{
  yield_from-IsWf, scheduler-IsWf, timer_handler-IsWf, t_fork-IsWf, t_join-IsWf, finish_thread-IsWf,
  wake_joiner-IsWf, record_end-IsWf,
}
use user_level_thread_librar.System.Invariant.Conditions.{
  lock_create-IsWf, lock_acquire-IsWf, lock_release-IsWf, cond_create-IsWf, cond_destroy-IsWf,
  t_wait-IsWf, wait_on-IsWf, take_lock-IsWf, t_sig-IsWf, after_wait-IsWf,
}
use user_level_thread_librar.System.Invariant.Semaphores.{
  semaphore_create-IsWf, semaphore_p-IsWf, semaphore_v-IsWf, semaphore_destroy-IsWf,
}

void-IsWf : {A : Type 0} (m : Outcome A) → Keeps IsWf m → Keeps IsWf (bind m (λ _. pure tt))
void-IsWf m h = Keeps-bind IsWf m _ h λ _ s w. w

exec-IsWf : (c : Call) (s : Sys) → IsWf s → Keeps IsWf (exec c s)
unfolding exec t_exit t_set_quantum t_set_system_quantum t_yield
exec-IsWf Call.yields s w = yield_from-IsWf in_yield s w
exec-IsWf Call.ends s w = finish_thread-IsWf s w
exec-IsWf (Call.forks fresh f v name z) s w = void-IsWf _ (t_fork-IsWf fresh f v name z s w)
exec-IsWf (Call.joins tid) s w = t_join-IsWf tid s w
exec-IsWf (Call.thread_exits val) s w = w
exec-IsWf (Call.creates_lock fresh) s w = void-IsWf _ (lock_create-IsWf fresh s w)
exec-IsWf (Call.acquires l) s w = lock_acquire-IsWf l s w
exec-IsWf (Call.releases l) s w = lock_release-IsWf l s w
exec-IsWf (Call.creates_cond fresh l) s w = void-IsWf _ (cond_create-IsWf fresh l s w)
exec-IsWf (Call.waits c l) s w = t_wait-IsWf c l s w
exec-IsWf (Call.destroys_cond c) s w = cond_destroy-IsWf c s w
exec-IsWf (Call.signals c val l) s w = t_sig-IsWf c val l s w
exec-IsWf (Call.creates_semaphore fresh z name) s w =
    void-IsWf _ (semaphore_create-IsWf fresh z name s w)
exec-IsWf (Call.ps p) s w = semaphore_p-IsWf p s w
exec-IsWf (Call.vs p) s w = semaphore_v-IsWf p s w
exec-IsWf (Call.destroys_semaphore p) s w = semaphore_destroy-IsWf p s w
exec-IsWf (Call.sets_quantum q) s w = w
exec-IsWf (Call.sets_system_quantum q) s w = w
exec-IsWf (Call.takes l) s w = take_lock-IsWf l s w
exec-IsWf (Call.sleeps_on c) s w = wait_on-IsWf c s w
exec-IsWf (Call.wakes_joiner i) s w =
    assert-bind IsWf (ltb i max_waiting) _ s λ e. void-IsWf _ (wake_joiner-IsWf i false s w)
exec-IsWf (Call.ends_with waked) s w = record_end-IsWf waked s w

resume-IsWf : (c : Context) (s : Sys) → IsWf s → Keeps IsWf (resume c s)
unfolding resume
resume-IsWf unset s w = tt
resume-IsWf in_join s w = w
resume-IsWf in_timer s w = w
resume-IsWf in_yield s w = w
resume-IsWf in_wait s w = after_wait-IsWf s w
resume-IsWf in_p s w = w
resume-IsWf (in_fork tid) s w = w

pub enter-IsWf : (n : Next) (s : Sys) → IsWf s → Keeps IsWf (enter n s)
enter-IsWf (starts f v) s w = w
enter-IsWf (restores c) s w = Keeps-bind IsWf _ _ (resume-IsWf c s w) λ _ t x. x
enter-IsWf no_threads s w = w

pub settle-Keeps :
    {A : Type 0} (P : Sys → Type 0) (f : A → Control) (m : Outcome A) (k : Config)
    → Keeps P m
    → settle f m ≡ some k
    → P k.sys
settle-Keeps P f (returns a s) k w e = subst (λ c. P c.sys) (some-injective _ k e) w
settle-Keeps P f (jumps t s) k w e = subst (λ c. P c.sys) (some-injective _ k e) w
settle-Keeps P f (spins l s) k w e = subst (λ c. P c.sys) (some-injective _ k e) w
settle-Keeps P f exits k w e = cc
settle-Keeps P f faults k w e = cc

pub settle-IsWf :
    {A : Type 0} (f : A → Control) (m : Outcome A) (k : Config)
    → Keeps IsWf m
    → settle f m ≡ some k
    → IsWf k.sys
settle-IsWf f m k = settle-Keeps IsWf f m k

proceed-IsWf : (c : Control) (s : Sys) (k : Config) → IsWf s → proceed c s ≡ some k → IsWf k.sys
unfolding proceed sit_bottom
proceed-IsWf in_user s k w e = cc
proceed-IsWf ended s k w e = cc
proceed-IsWf at_sit_bottom s k w e = settle-IsWf (λ _. in_user) (sit_bottom s) k w e
proceed-IsWf at_scheduler s k w e =
    settle-IsWf (λ c. c) _ k (Keeps-bind IsWf _ _ (scheduler-IsWf s w) enter-IsWf) e
proceed-IsWf (spinning l) s k w e =
    settle-IsWf (λ _. in_user) (lock_acquire l s) k (lock_acquire-IsWf l s w) e

ticked :
    (s : Sys) (k : Config)
    → IsWf s
    → (if s.alarm_blocked then none else settle (λ _. in_user) (timer_handler s)) ≡ some k
    → IsWf k.sys
ticked s k w e =
    settle-IsWf (λ _. in_user) (timer_handler s) k (timer_handler-IsWf s w)
      (unblocked s.alarm_blocked e)
  where
    unblocked : {o : Option Config} (b : Bool) → (if b then none else o) ≡ some k → o ≡ some k
    unblocked true h = cc
    unblocked false h = h

interrupt-IsWf : (c : Control) (s : Sys) (k : Config) → IsWf s → interrupt c s ≡ some k → IsWf k.sys
unfolding interrupt
interrupt-IsWf in_user s k w e = ticked s k w e
interrupt-IsWf (spinning l) s k w e = ticked s k w e
interrupt-IsWf c s k w e = cc

user_call-IsWf :
    (a : Call) (c : Control) (s : Sys) (k : Config) → IsWf s → user_call a c s ≡ some k → IsWf k.sys
unfolding user_call
user_call-IsWf a in_user s k w e = settle-IsWf (λ _. in_user) (exec a s) k (exec-IsWf a s w) e
user_call-IsWf a c s k w e = cc

-- One step, whatever it is.
pub step-IsWf : (e : Event) (k l : Config) → IsWf k.sys → step e k ≡ some l → IsWf l.sys
unfolding step
step-IsWf (calls a) k l w e = user_call-IsWf a k.control k.sys l w e
step-IsWf ticks k l w e = interrupt-IsWf k.control k.sys l w e
step-IsWf goes_on k l w e = proceed-IsWf k.control k.sys l w e

-- From a well-formed state no history of calls, interrupts and dispatches leads to another kind, as
-- long as `q_insert` gets its memory and no interrupt comes between the `q_insert` and the increment of
-- one turn of the loop at the end of a thread.
pub Reach-IsWf : (k l : Config) → IsWf k.sys → Reach k l → IsWf l.sys
Reach-IsWf k _ w here = w
Reach-IsWf k l w (next {l = m} r e q) = step-IsWf e m l (Reach-IsWf k m w r) q
