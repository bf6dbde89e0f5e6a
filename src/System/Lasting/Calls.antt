-- ===== src/System/Lasting/Calls.antt =====
-- What no operation of THREAD.C undoes, but those that release a lock, or free or create one.
use user_level_thread_librar.Base.{
  Bool, ◌+◌, ℕ, zero, suc, ◌≡◌, Option, none, some, if◌then◌else◌, ◌==◌, ltb, length, List, update,
  index, inl, inr, not, ◌&&◌, ℤ, pos, negsuc, eq_ℤ, ltb_ℤ, Bool-cases,
}
use user_level_thread_librar.System.State.{
  Sys, Ptr, Lock, Condition, Context, Target, levels, max_waiting, max_exited, max_conditions,
  max_semaphores, max_thread_name, null, put_ready, longjmp, ◌>>◌, at, q_is_empty, sched_context,
  sit_bottom_context,
}
use user_level_thread_librar.System.Timer.{timer_handler}
use user_level_thread_librar.System.Scheduler.{scheduler, scan, take_level, dispatch, yield_from}
use user_level_thread_librar.System.Fork.{t_fork}
use user_level_thread_librar.System.Join.{
  t_join, finish_thread, wake_joiners, wake_joiner, record_end, has_exited, waits_for_current,
}
use user_level_thread_librar.System.Lock.{lock_create, lock_acquire, lock_release, take_lock}
use user_level_thread_librar.System.Condition.{
  cond_create, cond_destroy, t_wait, wait_on, t_sig, after_wait, add_waiter, wake_waiter,
}
use user_level_thread_librar.System.Semaphore.{
  semaphore_create, semaphore_p, semaphore_v, semaphore_destroy,
}
use user_level_thread_librar.System.Invariant.Defs.{
  Keeps, Keeps-bind, or_fault-bind, on_found-Keeps, assert-bind, if-Keeps, q_remove-bind, at-some,
}

-- A fact on the locks and on `exitedThreadIDs`, which a lock that is taken and an end that is
-- recorded leave true.
pub record Lasts (Fact : (Ptr → Option Lock) → (ℕ → ℕ) → ℕ → Type 0) : Type 0 where
  pub takes :
      (locks : Ptr → Option Lock) (ids : ℕ → ℕ) (n : ℕ) (x : Ptr)
      → Fact locks ids n
      → Fact (update locks x (some (record { shared = 1 }))) ids n
  pub records :
      (locks : Ptr → Option Lock) (ids : ℕ → ℕ) (n tid : ℕ)
      → Fact locks ids n
      → Fact locks (update ids n tid) (n + 1)

abbrev pub free : Option Lock
free = some (record { shared = 0 })

-- The fact survives that lock `x` gets the value `o`.
abbrev pub Survives :
    ((Ptr → Option Lock) → (ℕ → ℕ) → ℕ → Type 0) → Sys → Ptr → Option Lock → Type 0
Survives Fact s x o = Fact (update s.locks x o) s.exited_thread_ids s.exit_thread_index

module _ (Fact : (Ptr → Option Lock) → (ℕ → ℕ) → ℕ → Type 0) (lasts : Lasts Fact) where
  abbrev pub Now : Sys → Type 0
  Now s = Fact s.locks s.exited_thread_ids s.exit_thread_index

  put_ready-Lasting : (z : ℤ) (q : Ptr) (s : Sys) → Now s → Keeps Now (put_ready z q s)
  unfolding put_ready
  put_ready-Lasting z q s w = or_fault-bind {B = Unit {0}} Now (index levels z) _ s λ p e. w

  requeue-Lasting :
      (t : Target) (z : ℤ) (q : Ptr) (s : Sys)
      → Now s
      → Keeps Now ((put_ready z q >> longjmp {A = Unit {0}} t) s)
  requeue-Lasting t z q s w =
      Keeps-bind Now (put_ready z q s) _ (put_ready-Lasting z q s w) λ _ s' w'. w'

  pub timer_handler-Lasting : (s : Sys) → Now s → Keeps Now (timer_handler s)
  unfolding timer_handler
  timer_handler-Lasting s w = requeue-Lasting sit_bottom_context _ s.current _ w

  pub yield_from-Lasting : (c : Context) (s : Sys) → Now s → Keeps Now (yield_from c s)
  unfolding yield_from
  yield_from-Lasting c s w = requeue-Lasting sched_context _ s.current _ w

  pub scheduler-Lasting : (s : Sys) → Now s → Keeps Now (scheduler s)
  unfolding scheduler take_level dispatch
  scheduler-Lasting s w = on_found-Keeps Now (scan s.thread_level_count levels) _ _ _ w λ y _.
      Keeps-bind Now _ _ (q_remove-bind Now (s.p_queue y) _ _ λ t rest e. w)
        λ _ s' w'. if-Keeps Now ((s'.tcbs s'.current).flag == 1) _ _ s' (λ _. w') (λ _. w')

  pub t_fork-Lasting :
      (fresh : Ptr) (f v : ℕ) (name : List ℕ) (z : ℤ) (s : Sys)
      → Now s
      → Keeps Now (t_fork fresh f v name z s)
  unfolding t_fork
  t_fork-Lasting fresh f v name z s w =
      if-Keeps Now (fresh == null) _ _ _ (λ _. tt)
        λ _. assert-bind Now (ltb (length name) max_thread_name) _ _ λ _.
          Keeps-bind Now _ _ (put_ready-Lasting z fresh _ w) λ _ s' w'.
            if-Keeps Now
              (not (eq_ℤ (s'.tcbs s'.current).priority (negsuc 0))
                && ltb_ℤ (s'.tcbs s'.current).priority z)
              _ _ s' (λ _. Keeps-bind Now _ _ (yield_from-Lasting _ s' w') λ _ t x. x) (λ _. w')

  pub t_join-Lasting : (tid : ℕ) (s : Sys) → Now s → Keeps Now (t_join tid s)
  unfolding t_join
  t_join-Lasting tid s w =
      if-Keeps Now (has_exited s.exited_thread_ids s.exit_thread_index tid) _ _ _ (λ _. w) (λ _. w)

  pub wake_joiner-Lasting :
      (i : ℕ) (waked : Bool) (s : Sys) → Now s → Keeps Now (wake_joiner i waked s)
  unfolding wake_joiner
  wake_joiner-Lasting i waked s w =
      if-Keeps Now (waits_for_current s i) _ _ s
        (λ _. Keeps-bind Now _ _ (put_ready-Lasting _ _ s w) λ _ t x. x) (λ _. w)

  wake_joiners-Lasting : (n : ℕ) (s : Sys) → Now s → Keeps Now (wake_joiners n s)
  unfolding wake_joiners
  wake_joiners-Lasting zero s w = w
  wake_joiners-Lasting (suc i) s w =
      Keeps-bind Now _ _ (wake_joiners-Lasting i s w)
        λ waked s' w'. wake_joiner-Lasting i waked s' w'

  pub record_end-Lasting : (waked : Bool) (s : Sys) → Now s → Keeps Now (record_end waked s)
  unfolding record_end
  record_end-Lasting waked s w =
      Keeps-bind Now _ _
        (if-Keeps Now waked _ _ s (λ _. w)
          λ _. assert-bind Now (ltb s.exit_thread_index max_exited) _ s λ e.
            lasts.records s.locks s.exited_thread_ids s.exit_thread_index (s.tcbs s.current).tid w)
        λ _ t x. x

  pub finish_thread-Lasting : (s : Sys) → Now s → Keeps Now (finish_thread s)
  unfolding finish_thread
  finish_thread-Lasting s w =
      Keeps-bind Now _ _ (wake_joiners-Lasting max_waiting s w)
        λ waked s' w'. record_end-Lasting waked s' w'

  pub lock_acquire-Lasting : (x : Ptr) (s : Sys) → Now s → Keeps Now (lock_acquire x s)
  unfolding lock_acquire
  lock_acquire-Lasting x s w = or_fault-bind Now (at s.locks x) _ _ λ k e.
      if-Keeps Now (k.shared == 0) _ _ s
        (λ _. lasts.takes s.locks s.exited_thread_ids s.exit_thread_index x w) (λ _. w)

  pub take_lock-Lasting : (x : Ptr) (s : Sys) → Now s → Keeps Now (take_lock x s)
  unfolding take_lock
  take_lock-Lasting x s w =
      or_fault-bind Now (at s.locks x) _ _
        λ k e. lasts.takes s.locks s.exited_thread_ids s.exit_thread_index x w

  pub lock_release-Lasting :
      (x : Ptr) (s : Sys) → Survives Fact s x free → Now s → Keeps Now (lock_release x s)
  unfolding lock_release
  lock_release-Lasting x s ne w = or_fault-bind Now (at s.locks x) _ _ λ k e. ne

  pub lock_create-Lasting :
      (fresh : Ptr) (s : Sys) → Survives Fact s fresh free → Now s → Keeps Now (lock_create fresh s)
  unfolding lock_create
  lock_create-Lasting fresh s ne w = if-Keeps Now (fresh == null) _ _ _ (λ _. w) (λ _. ne)

  pub cond_create-Lasting : (fresh x : Ptr) (s : Sys) → Now s → Keeps Now (cond_create fresh x s)
  unfolding cond_create
  cond_create-Lasting fresh x s w =
      if-Keeps Now (fresh == null) _ _ _ (λ _. w)
        (λ _. assert-bind Now (ltb s.condition_id max_conditions) _ _ λ e. w)

  pub cond_destroy-Lasting :
      (c : Ptr) (s : Sys)
      → ((k : Condition) → s.conditions c ≡ some k → Survives Fact s k.lock none)
      → Now s
      → Keeps Now (cond_destroy c s)
  unfolding cond_destroy
  cond_destroy-Lasting c s ne w =
      or_fault-bind Now (at s.conditions c) _ _
        λ k e. freed k.lock (ne k (at-some s.conditions c k e))
    where
      freed :
          (x : Ptr)
          → Survives Fact s x none
          → Fact
              (if x == null then s.locks else update s.locks x none)
              s.exited_thread_ids
              s.exit_thread_index
      freed x other = elim (Bool-cases (x == null)) [ inl e ↦ rw e w | inr e ↦ rw e other ]

  add_waiter-Lasting :
      (c : Ptr) (k : Condition) (z : ℤ) (q : Ptr) (s : Sys)
      → Now s
      → Keeps Now (add_waiter c k z q s)
  unfolding add_waiter
  add_waiter-Lasting c k z q s w = or_fault-bind {B = Unit {0}} Now (index levels z) _ s λ p e. w

  leave_waiting-Lasting :
      (c : Ptr) (k : Condition) (z : ℤ) (q : Ptr) (s : Sys)
      → Now s
      → Keeps Now ((add_waiter c k z q >> longjmp {A = Unit {0}} sched_context) s)
  leave_waiting-Lasting c k z q s w =
      Keeps-bind Now (add_waiter c k z q s) _ (add_waiter-Lasting c k z q s w) λ _ t x. x

  pub wait_on-Lasting : (c : Ptr) (s : Sys) → Now s → Keeps Now (wait_on c s)
  unfolding wait_on
  wait_on-Lasting c s w =
      or_fault-bind Now (at s.conditions c) _ _ λ k e. leave_waiting-Lasting c k _ s.current _ w

  pub t_wait-Lasting :
      (c x : Ptr) (s : Sys) → Survives Fact s x free → Now s → Keeps Now (t_wait c x s)
  unfolding t_wait
  t_wait-Lasting c x s ne w =
      Keeps-bind Now _ _
        (if-Keeps Now (x == null) _ _ s (λ _. w) (λ _. lock_release-Lasting x s ne w))
        λ _ s' w'. wait_on-Lasting c s' w'

  pub after_wait-Lasting : (s : Sys) → Now s → Keeps Now (after_wait s)
  unfolding after_wait
  after_wait-Lasting s w =
      if-Keeps Now ((s.tcbs s.current).arg == null) _ _ s (λ _. w)
        (λ _. lock_acquire-Lasting (s.tcbs s.current).arg s w)

  pub t_sig-Lasting : (c : Ptr) (val : ℕ) (x : Ptr) (s : Sys) → Now s → Keeps Now (t_sig c val x s)
  unfolding t_sig wake_waiter
  t_sig-Lasting c val x s w = or_fault-bind Now (at s.conditions c) _ _ λ k e.
      Keeps-bind Now _ _
        (on_found-Keeps Now (scan (s.condition_waiters k.cond_id) levels) _ _ _ w λ p _.
          if-Keeps Now (q_is_empty (k.waiters p)) _ _ _ (λ _. w)
            (λ _. q_remove-bind Now (k.waiters p) _ _ λ t rest q. put_ready-Lasting _ t _ w))
        λ _ t x. x

  pub semaphore_create-Lasting :
      (fresh : Ptr) (z : ℤ) (name : List ℕ) (s : Sys)
      → Now s
      → Keeps Now (semaphore_create fresh z name s)
  unfolding semaphore_create
  semaphore_create-Lasting fresh z name s w =
      if-Keeps Now (fresh == null) _ _ _ (λ _. w)
        λ _. assert-bind Now (ltb (length name) 20) _ _ λ _. w

  pub semaphore_p-Lasting : (p : Ptr) (s : Sys) → Now s → Keeps Now (semaphore_p p s)
  unfolding semaphore_p
  semaphore_p-Lasting p s w = or_fault-bind Now (at s.semaphores p) _ _ λ m e.
      if-Keeps Now (ltb_ℤ (pos 0) m.value) _ _ _ (λ _. w)
        (λ _. assert-bind Now (ltb m.sem_id max_semaphores) _ _ λ _. w)

  pub semaphore_v-Lasting : (p : Ptr) (s : Sys) → Now s → Keeps Now (semaphore_v p s)
  unfolding semaphore_v
  semaphore_v-Lasting p s w = or_fault-bind Now (at s.semaphores p) _ _ λ m e.
      assert-bind Now (ltb m.sem_id max_semaphores) _ _ λ room.
        Keeps-bind Now _ _
          (if-Keeps Now (ltb 0 (s.semaphore_waiters m.sem_id)) _ _ _
            (λ _. q_remove-bind Now m.waiters _ _ λ t rest q. put_ready-Lasting _ t _ w) (λ _. w))
          λ _ t x. x

  pub semaphore_destroy-Lasting : (p : Ptr) (s : Sys) → Now s → Keeps Now (semaphore_destroy p s)
  unfolding semaphore_destroy
  semaphore_destroy-Lasting p s w =
      if-Keeps Now (p == null) _ _ _ (λ _. w)
        λ _. or_fault-bind Now (at s.semaphores p) _ _ λ m e. w
