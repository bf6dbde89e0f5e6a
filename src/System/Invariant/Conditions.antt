-- ===== src/System/Invariant/Conditions.antt =====
-- Condition variables and locks.
use mathlib.Core.Path.{subst}
use user_level_thread_librar.Base.{
  ℕ, ◌+◌, ◌-◌, ◌≤◌, ◌<◌, ◌≡◌, ◌≢◌, refl, ◌==◌, ltb, inl, inr, Option, none, some, List, [], ◌∷◌,
  ◌++◌, arith, length, length-snoc, update, index, sym, ap, ◌∙◌, update_cases, ℤ,
}
use user_level_thread_librar.System.State.{
  Sys, Ptr, null, levels, max_conditions, Condition, at, longjmp, sched_context, ◌>>◌, q_is_empty,
}
use user_level_thread_librar.System.Scheduler.{scan}
use user_level_thread_librar.System.Lock.{lock_create, lock_acquire, lock_release, take_lock}
use user_level_thread_librar.System.Condition.{
  cond_create, cond_destroy, t_wait, wait_on, t_sig, after_wait, wake_waiter, add_waiter,
  set_condition, set_waiters,
}
use user_level_thread_librar.System.Invariant.Defs.{
  ConditionsCounted, IsWf, Keeps, Keeps-bind, or_fault-bind, q_remove-bind, on_found-Keeps,
  assert-bind, if-Keeps, at-some,
}
use user_level_thread_librar.System.Invariant.Ready.{put_ready-IsWf}

module _ {conds : Ptr → Option Condition} {id : ℕ} {count : ℕ → ℕ → ℕ}
    (w : ConditionsCounted conds id count) where
  -- A condition is written whose identifier no other condition has.
  condition_written :
      (c : Ptr) (k : Condition) (id' : ℕ) (count' : ℕ → ℕ → ℕ)
      → ((d : Ptr) (j : Condition) → conds d ≡ some j → c ≢ d → j.cond_id ≢ k.cond_id)
      → k.cond_id < id'
      → id ≤ id'
      → ((p : ℕ) → count' k.cond_id p ≡ length (k.waiters p))
      → ((i p : ℕ) → i ≢ k.cond_id → count' i p ≡ count i p)
      → ConditionsCounted (update conds c (some k)) id' count'
  condition_written c k id' count' alone given le here there = record {
    counted = λ d j h p. elim (update_cases conds c k d j h) [
      | inl (_, e) ↦ subst (λ j. count' j.cond_id p ≡ length (j.waiters p)) e (here p)
      | inr (ne, e) ↦ there j.cond_id p (alone d j e ne) ∙ w.counted d j e p
    ];
    given = λ d j h. elim (update_cases conds c k d j h) [
      | inl (_, e) ↦ subst (λ j. j.cond_id < id') e given
      | inr (ne, e) ↦ omega (arith, w.given d j e)
    ];
    distinct = λ a b j i ha hb same. elim (update_cases conds c k a j ha) [
      | inl (ea, ej) ↦ elim (update_cases conds c k b i hb) [
        | inl (eb, _) ↦ sym ea ∙ eb
        | inr (nb, eb) ↦ absurd (alone b i eb nb (ground arith))
      ]
      | inr (na, ea) ↦ elim (update_cases conds c k b i hb) [
        | inl (_, ei) ↦ absurd (alone a j ea na (ground arith))
        | inr (nb, eb) ↦ w.distinct a b j i ea eb same
      ]
    ];
    fresh = λ i p h. there i p (omega arith) ∙ w.fresh i p (omega arith);
  }

  -- The waiters of one level change with their counter.
  waiters_changed :
      (c : Ptr) (k : Condition) (p : ℕ) (ws : List Ptr) (n : ℕ)
      → conds c ≡ some k
      → n ≡ length ws
      → ConditionsCounted
          (update conds c (some (record k { waiters = update k.waiters p ws })))
          id
          (update count k.cond_id (update (count k.cond_id) p n))
  waiters_changed c k p ws n e l =
      condition_written c (record k { waiters = update k.waiters p ws }) id _
        (λ d j h ne same. ne (w.distinct c d k j e h (sym same))) (w.given c k e) (omega arith)
        (λ q. ground (arith, w.counted c k e q)) (λ i q ne. ground arith)

  -- A new condition, with the next identifier.
  condition_created :
      (c lock : Ptr)
      → ConditionsCounted
          (update conds c (some (record { cond_id = id; waiters = λ i. []; lock = lock })))
          (id + 1)
          count
  condition_created c lock =
      condition_written c (record { cond_id = id; waiters = λ i. []; lock = lock }) (id + 1) count
        (λ d j h ne same. absurd (omega (arith, w.given d j h))) (omega arith) (omega arith)
        (λ p. w.fresh id p (omega arith)) (λ i p ne. refl)

  -- A condition is freed.
  condition_destroyed : (c : Ptr) → ConditionsCounted (update conds c none) id count
  condition_destroyed c = record {
    counted = λ d j h. w.counted d j (kept d j h);
    given = λ d j h. w.given d j (kept d j h);
    distinct = λ a b j i ha hb. w.distinct a b j i (kept a j ha) (kept b i hb);
    fresh = w.fresh;
  }
    where
      kept : (d : Ptr) (j : Condition) → update conds c none d ≡ some j → conds d ≡ some j
      kept d j h = ground arith

pub lock_create-IsWf : (fresh : Ptr) (s : Sys) → IsWf s → Keeps IsWf (lock_create fresh s)
unfolding lock_create
lock_create-IsWf fresh s w = if-Keeps IsWf (fresh == null) _ _ _ (λ _. w) (λ _. w)

pub lock_acquire-IsWf : (l : Ptr) (s : Sys) → IsWf s → Keeps IsWf (lock_acquire l s)
unfolding lock_acquire
lock_acquire-IsWf l s w =
    or_fault-bind IsWf (at s.locks l) _ s
      λ lock _. if-Keeps IsWf (lock.shared == 0) _ _ s (λ _. w) (λ _. w)

pub take_lock-IsWf : (l : Ptr) (s : Sys) → IsWf s → Keeps IsWf (take_lock l s)
unfolding take_lock
take_lock-IsWf l s w = or_fault-bind IsWf (at s.locks l) _ _ λ k e. w

pub lock_release-IsWf : (l : Ptr) (s : Sys) → IsWf s → Keeps IsWf (lock_release l s)
unfolding lock_release
lock_release-IsWf l s w = or_fault-bind IsWf (at s.locks l) _ _ λ lock _. w

pub cond_create-IsWf : (fresh lock : Ptr) (s : Sys) → IsWf s → Keeps IsWf (cond_create fresh lock s)
unfolding cond_create
cond_create-IsWf fresh lock s w =
    if-Keeps IsWf (fresh == null) _ _ _ (λ _. w)
      λ _. assert-bind IsWf (ltb s.condition_id max_conditions) _ _ λ room. record {
        ready = w.ready;
        conditions = condition_created w.conditions fresh lock;
        semaphores = w.semaphores;
        few_conditions = ground arith;
        few_exited = w.few_exited;
      }

pub cond_destroy-IsWf : (c : Ptr) (s : Sys) → IsWf s → Keeps IsWf (cond_destroy c s)
unfolding cond_destroy
cond_destroy-IsWf c s w = or_fault-bind IsWf (at s.conditions c) _ s λ k _. record {
  ready = w.ready;
  conditions = condition_destroyed w.conditions c;
  semaphores = w.semaphores;
  few_conditions = w.few_conditions;
  few_exited = w.few_exited;
}

waiters_changed-IsWf :
    (s : Sys) (c : Ptr) (k : Condition) (p : ℕ) (ws : List Ptr) (n : ℕ)
    → IsWf s
    → at s.conditions c ≡ some k
    → n ≡ length ws
    → IsWf (
        set_waiters k.cond_id p n
          (set_condition c (record k { waiters = update k.waiters p ws }) s))
waiters_changed-IsWf s c k p ws n w e l = record {
  ready = w.ready;
  conditions = waiters_changed w.conditions c k p ws n (at-some s.conditions c k e) l;
  semaphores = w.semaphores;
  few_conditions = w.few_conditions;
  few_exited = w.few_exited;
}

add_waiter-IsWf :
    (c : Ptr) (k : Condition) (z : ℤ) (t : Ptr) (s : Sys)
    → IsWf s
    → at s.conditions c ≡ some k
    → Keeps IsWf (add_waiter c k z t s)
unfolding add_waiter
add_waiter-IsWf c k z t s w e = or_fault-bind IsWf (index levels z) _ s λ p _.
    waiters_changed-IsWf s c k p (k.waiters p ++ t ∷ []) (s.condition_waiters k.cond_id p + 1) w e (
      omega (
        arith,
        length-snoc (k.waiters p) t,
        w.conditions.counted c k (at-some s.conditions c k e) p,
      ))

leave_waiting-IsWf :
    (c : Ptr) (k : Condition) (z : ℤ) (t : Ptr) (s : Sys)
    → IsWf s
    → at s.conditions c ≡ some k
    → Keeps IsWf ((add_waiter c k z t >> longjmp {A = Unit {0}} sched_context) s)
leave_waiting-IsWf c k z t s w e =
    Keeps-bind IsWf (add_waiter c k z t s) _ (add_waiter-IsWf c k z t s w e) λ _ s' w'. w'

pub wait_on-IsWf : (c : Ptr) (s : Sys) → IsWf s → Keeps IsWf (wait_on c s)
unfolding wait_on
wait_on-IsWf c s w =
    or_fault-bind IsWf (at s.conditions c) _ _ λ k e. leave_waiting-IsWf c k _ s.current _ w e

pub t_wait-IsWf : (c lock : Ptr) (s : Sys) → IsWf s → Keeps IsWf (t_wait c lock s)
unfolding t_wait
t_wait-IsWf c lock s w =
    Keeps-bind IsWf _ _
      (if-Keeps IsWf (lock == null) _ _ s (λ _. w) (λ _. lock_release-IsWf lock s w))
      λ _ s' w'. wait_on-IsWf c s' w'

pub after_wait-IsWf : (s : Sys) → IsWf s → Keeps IsWf (after_wait s)
unfolding after_wait
after_wait-IsWf s w =
    if-Keeps IsWf ((s.tcbs s.current).arg == null) _ _ s (λ _. w)
      (λ _. lock_acquire-IsWf (s.tcbs s.current).arg s w)

wake_waiter-IsWf :
    (c : Ptr) (k : Condition) (p : ℕ) (lock : Ptr) (s : Sys)
    → IsWf s
    → at s.conditions c ≡ some k
    → Keeps IsWf (wake_waiter c k p lock s)
unfolding wake_waiter
wake_waiter-IsWf c k p lock s w e = q_remove-bind IsWf (k.waiters p) _ s λ t rest q.
    put_ready-IsWf _ t _ (
      waiters_changed-IsWf s c k p rest (s.condition_waiters k.cond_id p - 1) w e
        (omega (arith, ap length q, w.conditions.counted c k (at-some s.conditions c k e) p)))

pub t_sig-IsWf :
    (c : Ptr) (val : ℕ) (lock : Ptr) (s : Sys) → IsWf s → Keeps IsWf (t_sig c val lock s)
unfolding t_sig
t_sig-IsWf c val lock s w = or_fault-bind IsWf (at s.conditions c) _ _ λ k e.
    Keeps-bind IsWf _ _
      (on_found-Keeps IsWf (scan (s.condition_waiters k.cond_id) levels) _ _ _ w λ p _.
        if-Keeps IsWf (q_is_empty (k.waiters p)) _ _ _ (λ _. w)
          (λ _. wake_waiter-IsWf c k p lock _ w e))
      λ _ t x. x
