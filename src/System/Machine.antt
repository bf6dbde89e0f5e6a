-- ===== src/System/Machine.antt =====
-- The processor: which code runs, and what can happen next. A user program may make any call that it
-- likes between two interrupts, so what holds of every history holds of every program.
use user_level_thread_librar.Base.{ℕ, ◌≡◌, Option, none, some, List, Bool, false, if◌then◌else◌, ℤ}
use user_level_thread_librar.System.State.{
  Sys, Ptr, M, Outcome, returns, jumps, spins, exits, faults, Target, sched_context,
  sit_bottom_context, Context, unset, in_join, in_timer, in_yield, in_wait, in_p, in_fork, pure,
  undefined, in_bounds, max_waiting, ◌>>=◌, ◌>>◌,
}
use user_level_thread_librar.System.Timer.{
  disable_timer, enable_timer, timer_handler, sit_bottom, t_set_quantum, t_set_system_quantum,
}
use user_level_thread_librar.System.Scheduler.{
  t_yield, scheduler, Next, starts, restores, no_threads,
}
use user_level_thread_librar.System.Fork.{t_fork}
use user_level_thread_librar.System.Join.{t_join, t_exit, finish_thread, wake_joiner, record_end}
use user_level_thread_librar.System.Lock.{lock_create, lock_acquire, lock_release, take_lock}
use user_level_thread_librar.System.Condition.{
  cond_create, cond_destroy, t_wait, t_sig, after_wait, wait_on,
}
use user_level_thread_librar.System.Semaphore.{
  semaphore_create, semaphore_p, semaphore_v, semaphore_destroy,
}

-- What the running thread's code can do next; `ends` is the return of its function. The argument
-- `fresh` is what `malloc` returns. Where the library lets the timer signal through in the middle of a
-- call, what follows is a call as well, so that an interrupt can come before it: `takes` is
-- `lock_acquire` after its loop, `sleeps_on` is `t_wait` after `lock_release`, and at the end of a
-- thread `wakes_joiner` is one turn of the loop and `ends_with` what follows it.
pub data Call : Type 0 where
  yields ends : Call
  forks : (fresh : Ptr) (f v : ℕ) (name : List ℕ) (priority : ℤ) → Call
  joins thread_exits : ℕ → Call
  creates_lock acquires releases : Ptr → Call
  creates_cond waits : Ptr → Ptr → Call
  destroys_cond : Ptr → Call
  signals : Ptr → ℕ → Ptr → Call
  creates_semaphore : (fresh : Ptr) → ℤ → List ℕ → Call
  ps vs destroys_semaphore : Ptr → Call
  sets_quantum sets_system_quantum : ℕ → Call
  takes sleeps_on : Ptr → Call
  wakes_joiner : ℕ → Call
  ends_with : Bool → Call

abbrev pub void : {A : Type 0} → M A → M (Unit {0})
void m = m >>= λ _. pure tt

-- Results of calls go to the user's code, which is not modelled.
unfoldable pub exec : Call → M (Unit {0})
exec yields = t_yield
exec ends = finish_thread
exec (forks fresh f v name priority) = void (t_fork fresh f v name priority)
exec (joins tid) = t_join tid
exec (thread_exits val) = t_exit val
exec (creates_lock fresh) = void (lock_create fresh)
exec (acquires l) = lock_acquire l
exec (releases l) = lock_release l
exec (creates_cond fresh l) = void (cond_create fresh l)
exec (waits c l) = t_wait c l
exec (destroys_cond c) = cond_destroy c
exec (signals c val l) = t_sig c val l
exec (creates_semaphore fresh count name) = void (semaphore_create fresh count name)
exec (ps p) = semaphore_p p
exec (vs p) = semaphore_v p
exec (destroys_semaphore p) = semaphore_destroy p
exec (sets_quantum msec) = t_set_quantum msec
exec (sets_system_quantum q) = t_set_system_quantum q
exec (takes l) = take_lock l
exec (sleeps_on c) = wait_on c
exec (wakes_joiner i) = in_bounds max_waiting i >> void (wake_joiner i false)
exec (ends_with waked) = record_end waked

-- What each function does after its `setjmp` has returned 1.
unfoldable pub resume : Context → M (Unit {0})
unfolding disable_timer enable_timer after_wait
resume unset = undefined
resume in_join = enable_timer
resume in_timer = disable_timer >> enable_timer
resume in_yield = disable_timer >> enable_timer
resume in_wait = after_wait
resume in_p = disable_timer >> enable_timer
resume (in_fork tid) = disable_timer >> enable_timer >> enable_timer

-- Where the processor is. `spinning` is the loop of `lock_acquire`, `ended` the end of `t_start`.
pub data Control : Type 0 where
  in_user at_scheduler at_sit_bottom ended : Control
  spinning : Ptr → Control

pub record Config : Type 0 where
  pub sys : Sys
  pub control : Control

abbrev pub target : Target → Control
target sched_context = at_scheduler
target sit_bottom_context = at_sit_bottom

-- `none` is the end of the process, by `exit` or by undefined behaviour.
abbrev pub settle : {A : Type 0} → (A → Control) → Outcome A → Option Config
settle f (returns a s) = some (record { sys = s; control = f a })
settle f (jumps t s) = some (record { sys = s; control = target t })
settle f (spins l s) = some (record { sys = s; control = spinning l })
settle f exits = none
settle f faults = none

abbrev pub enter : Next → M Control
enter (starts f v) = pure in_user
enter (restores c) = resume c >> pure in_user
enter no_threads = pure ended

-- The library's own code goes on.
unfoldable pub proceed : Control → Sys → Option Config
unfolding resume
proceed in_user s = none
proceed ended s = none
proceed at_sit_bottom s = settle (λ _. in_user) (sit_bottom s)
proceed at_scheduler s = settle (λ c. c) ((scheduler >>= enter) s)
proceed (spinning l) s = settle (λ _. in_user) (lock_acquire l s)

-- The timer can interrupt code of the user, and the loop of `lock_acquire`, which is left with a
-- thread that may try again.
unfoldable pub interrupt : Control → Sys → Option Config
interrupt in_user s = if s.alarm_blocked then none else settle (λ _. in_user) (timer_handler s)
interrupt (spinning l) s = if s.alarm_blocked then none else settle (λ _. in_user) (timer_handler s)
interrupt c s = none

unfoldable pub user_call : Call → Control → Sys → Option Config
user_call c in_user s = settle (λ _. in_user) (exec c s)
user_call c k s = none

pub data Event : Type 0 where
  calls : Call → Event
  ticks goes_on : Event

unfoldable pub step : Event → Config → Option Config
unfolding user_call interrupt proceed
step (calls c) k = user_call c k.control k.sys
step ticks k = interrupt k.control k.sys
step goes_on k = proceed k.control k.sys

pub data Reach (k : Config) : Config → Type 0 where
  here : Reach k k
  next : {l m : Config} → Reach k l → (e : Event) → step e l ≡ some m → Reach k m
