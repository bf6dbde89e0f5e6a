-- ===== src/System/Lasting.antt =====
-- Facts that hold in every history of calls, interrupts and dispatches that does not release their
-- locks.
pub mod Calls
use mathlib.Core.Path.{subst}
use user_level_thread_librar.Base.{
  ltb, ℕ, ◌≡◌, ◌≢◌, Option, none, some, Bool, true, false, if◌then◌else◌, ==-refl, refl, ◌==◌, ◌∙◌,
  Bool-cases, inl, inr, arith,
}
use user_level_thread_librar.System.State.{
  max_waiting, Sys, Ptr, Lock, Condition, Outcome, returns, spins, faults, Context, unset, in_join,
  in_timer, in_yield, in_wait, in_p, in_fork, bind, pure, or_fault, modify, ◌>>◌, null,
}
use user_level_thread_librar.System.Timer.{
  block, timer_handler, sit_bottom, t_set_quantum, t_set_system_quantum,
}
use user_level_thread_librar.System.Scheduler.{t_yield, Next, starts, restores, no_threads}
use user_level_thread_librar.System.Join.{t_exit}
use user_level_thread_librar.System.Lock.{set_lock, lock_acquire}
use user_level_thread_librar.System.Machine.{
  Call, exec, resume, Control, in_user, at_scheduler, at_sit_bottom, ended, spinning, Config,
  settle, enter, proceed, interrupt, user_call, Event, calls, ticks, goes_on, step,
}
use user_level_thread_librar.System.Invariant.Defs.{Keeps, Keeps-bind, assert-bind}
use user_level_thread_librar.System.Invariant.Reachable.{settle-Keeps}
use user_level_thread_librar.System.Lasting.Calls.{
  Lasts, Survives, free, take_lock-Lasting, wait_on-Lasting, wake_joiner-Lasting,
  record_end-Lasting, timer_handler-Lasting, yield_from-Lasting, scheduler-Lasting, t_fork-Lasting,
  t_join-Lasting, finish_thread-Lasting, lock_acquire-Lasting, lock_release-Lasting,
  lock_create-Lasting, cond_create-Lasting, cond_destroy-Lasting, t_wait-Lasting,
  after_wait-Lasting, t_sig-Lasting, semaphore_create-Lasting, semaphore_p-Lasting,
  semaphore_v-Lasting, semaphore_destroy-Lasting,
}

module _ (Fact : (Ptr → Option Lock) → (ℕ → ℕ) → ℕ → Type 0) (lasts : Lasts Fact) where
  abbrev Holds : Sys → Type 0
  Holds s = Fact s.locks s.exited_thread_ids s.exit_thread_index

  -- The locks that the call releases, frees or creates do not matter to the fact.
  abbrev pub Spares : Sys → Call → Type 0
  Spares s (Call.releases x) = Survives Fact s x free
  Spares s (Call.waits c x) = Survives Fact s x free
  Spares s (Call.creates_lock fresh) = Survives Fact s fresh free
  Spares s (Call.destroys_cond c) =
      (k : Condition) → s.conditions c ≡ some k → Survives Fact s k.lock none
  Spares s c = Unit {0}

  abbrev pub SparesEvent : Sys → Event → Type 0
  SparesEvent s (calls c) = Spares s c
  SparesEvent s e = Unit {0}

  void-Lasting : {A : Type 0} (m : Outcome A) → Keeps Holds m → Keeps Holds (bind m (λ _. pure tt))
  void-Lasting m h = Keeps-bind Holds m _ h λ _ s w. w

  exec-Lasting : (c : Call) (s : Sys) → Spares s c → Holds s → Keeps Holds (exec c s)
  unfolding exec t_exit t_set_quantum t_set_system_quantum t_yield
  exec-Lasting Call.yields s a w = yield_from-Lasting Fact lasts in_yield s w
  exec-Lasting Call.ends s a w = finish_thread-Lasting Fact lasts s w
  exec-Lasting (Call.forks fresh f v name z) s a w =
      void-Lasting _ (t_fork-Lasting Fact lasts fresh f v name z s w)
  exec-Lasting (Call.joins tid) s a w = t_join-Lasting Fact lasts tid s w
  exec-Lasting (Call.thread_exits val) s a w = w
  exec-Lasting (Call.creates_lock fresh) s a w =
      void-Lasting _ (lock_create-Lasting Fact lasts fresh s a w)
  exec-Lasting (Call.acquires x) s a w = lock_acquire-Lasting Fact lasts x s w
  exec-Lasting (Call.releases x) s a w = lock_release-Lasting Fact lasts x s a w
  exec-Lasting (Call.creates_cond fresh x) s a w =
      void-Lasting _ (cond_create-Lasting Fact lasts fresh x s w)
  exec-Lasting (Call.waits c x) s a w = t_wait-Lasting Fact lasts c x s a w
  exec-Lasting (Call.destroys_cond c) s a w = cond_destroy-Lasting Fact lasts c s a w
  exec-Lasting (Call.signals c val x) s a w = t_sig-Lasting Fact lasts c val x s w
  exec-Lasting (Call.creates_semaphore fresh z name) s a w =
      void-Lasting _ (semaphore_create-Lasting Fact lasts fresh z name s w)
  exec-Lasting (Call.ps p) s a w = semaphore_p-Lasting Fact lasts p s w
  exec-Lasting (Call.vs p) s a w = semaphore_v-Lasting Fact lasts p s w
  exec-Lasting (Call.destroys_semaphore p) s a w = semaphore_destroy-Lasting Fact lasts p s w
  exec-Lasting (Call.sets_quantum q) s a w = w
  exec-Lasting (Call.sets_system_quantum q) s a w = w
  exec-Lasting (Call.takes x) s a w = take_lock-Lasting Fact lasts x s w
  exec-Lasting (Call.sleeps_on c) s a w = wait_on-Lasting Fact lasts c s w
  exec-Lasting (Call.wakes_joiner i) s a w =
      assert-bind Holds (ltb i max_waiting) _ s
        λ e. void-Lasting _ (wake_joiner-Lasting Fact lasts i false s w)
  exec-Lasting (Call.ends_with waked) s a w = record_end-Lasting Fact lasts waked s w

  resume-Lasting : (c : Context) (s : Sys) → Holds s → Keeps Holds (resume c s)
  unfolding resume
  resume-Lasting unset s w = tt
  resume-Lasting in_join s w = w
  resume-Lasting in_timer s w = w
  resume-Lasting in_yield s w = w
  resume-Lasting in_wait s w = after_wait-Lasting Fact lasts s w
  resume-Lasting in_p s w = w
  resume-Lasting (in_fork tid) s w = w

  enter-Lasting : (n : Next) (s : Sys) → Holds s → Keeps Holds (enter n s)
  enter-Lasting (starts f v) s w = w
  enter-Lasting (restores c) s w = Keeps-bind Holds _ _ (resume-Lasting c s w) λ _ t x. x
  enter-Lasting no_threads s w = w

  proceed-Lasting :
      (c : Control) (s : Sys) (k : Config) → Holds s → proceed c s ≡ some k → Holds k.sys
  unfolding proceed sit_bottom
  proceed-Lasting in_user s k w e = cc
  proceed-Lasting ended s k w e = cc
  proceed-Lasting at_sit_bottom s k w e = settle-Keeps Holds (λ _. in_user) (sit_bottom s) k w e
  proceed-Lasting at_scheduler s k w e =
      settle-Keeps Holds (λ c. c) _ k
        (Keeps-bind Holds _ _ (scheduler-Lasting Fact lasts s w) enter-Lasting) e
  proceed-Lasting (spinning x) s k w e =
      settle-Keeps Holds (λ _. in_user) (lock_acquire x s) k (lock_acquire-Lasting Fact lasts x s w)
        e

  ticked :
      (b : Bool) (s : Sys) (k : Config)
      → Holds s
      → (if b then none else settle (λ _. in_user) (timer_handler s)) ≡ some k
      → Holds k.sys
  ticked true s k w e = cc
  ticked false s k w e =
      settle-Keeps Holds (λ _. in_user) (timer_handler s) k (timer_handler-Lasting Fact lasts s w) e

  interrupt-Lasting :
      (c : Control) (s : Sys) (k : Config) → Holds s → interrupt c s ≡ some k → Holds k.sys
  unfolding interrupt
  interrupt-Lasting in_user s k w e = ticked s.alarm_blocked s k w e
  interrupt-Lasting (spinning x) s k w e = ticked s.alarm_blocked s k w e
  interrupt-Lasting c s k w e = cc

  user_call-Lasting :
      (a : Call) (c : Control) (s : Sys) (k : Config)
      → Spares s a
      → Holds s
      → user_call a c s ≡ some k
      → Holds k.sys
  unfolding user_call
  user_call-Lasting a in_user s k h w e =
      settle-Keeps Holds (λ _. in_user) (exec a s) k (exec-Lasting a s h w) e
  user_call-Lasting a c s k h w e = cc

  -- One step, whatever it is.
  pub step-Lasting :
      (e : Event) (k m : Config)
      → SparesEvent k.sys e
      → Holds k.sys
      → step e k ≡ some m
      → Holds m.sys
  unfolding step
  step-Lasting (calls a) k m h w e = user_call-Lasting a k.control k.sys m h w e
  step-Lasting ticks k m h w e = interrupt-Lasting k.control k.sys m w e
  step-Lasting goes_on k m h w e = proceed-Lasting k.control k.sys m w e
