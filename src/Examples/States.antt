-- ===== src/Examples/States.antt =====
-- Small states of the thread system, and that they are well-formed.
use mathlib.Core.Path.{subst}
use user_level_thread_librar.Base.{
  update_cases, Bool-cases, if◌then◌else◌, ltb, ◌+◌, ◌/◌, ◌%◌, ltb_ℤ, ◌≤◌, inl, inr, sym, ◌∙◌,
}
use user_level_thread_librar.Base.{
  ℕ, ◌<◌, ◌≡◌, refl, true, false, none, some, [], List, ◌∷◌, length, pos, arith, update,
}
use user_level_thread_librar.System.State.{
  Sys, Tcb, Interval, Condition, Semaphore, unset, in_wait, levels, put_ready,
}
use user_level_thread_librar.System.Timer.{timer_handler}
use user_level_thread_librar.System.Machine.{Config, in_user, Reach, here, next, ticks, step}
use user_level_thread_librar.System.Invariant.Defs.{IsWf}
use user_level_thread_librar.System.Invariant.Semaphores.{semaphore_create-IsWf}
use user_level_thread_librar.System.Semaphore.{semaphore_create}

abbrev pub plain : Tcb
plain = record {
  name = [];
  context = unset;
  func = 7;
  arg = 0;
  priority = pos 3;
  flag = 0;
  tid = 1;
  waiting_for_tid = 0;
}

-- Thread 1, of priority 3, runs alone.
abbrev pub alone : Sys
alone = record {
  p_queue = λ p. [];
  thread_level_count = λ p. 0;
  tcbs = λ t. plain;
  current = 1;
  tcb_waiting = λ i. 0;
  waiting_index = 0;
  exited_thread_ids = λ i. 0;
  exit_thread_index = 0;
  g_thread_id = 1;
  semaphore_id = 0;
  condition_id = 0;
  condition_record = λ i. 0;
  condition_waiters = λ i p. 0;
  semaphore_waiters = λ i. 0;
  first_run = 1;
  thread_count = 0;
  conditions = λ c. none;
  semaphores = λ c. none;
  locks = λ c. none;
  alarm_in_blocksigs = true;
  alarm_blocked = false;
  timer = record { it_value = 0; it_interval = 0 };
}

pub alone-IsWf : IsWf alone
alone-IsWf = record {
  ready = λ p. refl;
  conditions = record {
    counted = λ c k e p. cc;
    given = λ c k e. cc;
    distinct = λ c d k l e f g. cc;
    fresh = λ i p h. refl;
  };
  semaphores = record {
    counted = λ c m e. cc;
    given = λ c m e. cc;
    distinct = λ c d m n e f g. cc;
    fresh = λ i h. refl;
    blocked = λ c m e. cc;
  };
  few_conditions = omega arith;
  few_exited = omega arith;
}

abbrev pub started : Config
started = record { control = in_user; sys = alone }

pub after_tick : (l : Config) × Reach started l
unfolding step timer_handler put_ready
after_tick = (_, next here ticks refl)

abbrev pub two_ready : Sys
two_ready = record alone {
  p_queue = update (λ p. []) 3 (2 ∷ 4 ∷ []);
  thread_level_count = update (λ p. 0) 3 2;
}

pub two_ready-counted : (p : ℕ) → two_ready.thread_level_count p ≡ length (two_ready.p_queue p)
two_ready-counted p = ground arith

pub two_ready-above : (z : ℕ) → 3 < z → z < levels → two_ready.p_queue z ≡ []
two_ready-above z a b = ground arith

-- Thread 2 has a level of its own and waits, by two entries, for thread 1 to end.
abbrev pub waited : Sys
waited = record alone {
  tcbs = update alone.tcbs 2 (record plain { tid = 2; priority = pos 4; waiting_for_tid = 1 });
  tcb_waiting = update (update (λ i. 0) 0 2) 1 2;
}

-- Lock 5 is free, and taken.
abbrev pub holding : Sys
holding = record alone { locks = update (λ l. none) 5 (some (record { shared = 0 })) }

abbrev pub contended : Sys
contended = record alone {
  locks = update (λ l. none) 5 (some (record { shared = 1 }));
  alarm_blocked = true;
  tcbs = update alone.tcbs 1 (record plain { arg = 5 });
}

-- The first condition that is created.
abbrev pub first_cond : (waiters : ℕ → List ℕ) → Condition
first_cond waiters = record { cond_id = 0; waiters = waiters; lock = 0 }

module _ (tcbs : ℕ → Tcb) (waiters : ℕ → List ℕ) (count : ℕ → ℕ) where
  -- Thread 1 runs, and others wait on the condition at 6.
  abbrev pub with_cond : Sys
  with_cond = record alone {
    tcbs = tcbs;
    conditions = update (λ c. none) 6 (some (first_cond waiters));
    condition_id = 1;
    condition_waiters = update (λ i p. 0) 0 count;
  }

  only :
      (c : ℕ) (k : Condition) → with_cond.conditions c ≡ some k → (6 ≡ c) × (first_cond waiters ≡ k)
  only c k e = elim (update_cases (λ j. none) 6 (first_cond waiters) c k e) [
    | inl h ↦ h
    | inr (_, n) ↦ cc
  ]

  with_cond-IsWf : ((p : ℕ) → count p ≡ length (waiters p)) → IsWf with_cond
  with_cond-IsWf counted = record {
    ready = λ p. refl;
    conditions = record {
      counted = λ c k e p.
          let (_, same) = only c k e in
          subst (λ (j : Condition). with_cond.condition_waiters j.cond_id p ≡ length (j.waiters p))
            same (counted p);
      given = λ c k e.
          let (_, same) = only c k e in subst (λ (j : Condition). j.cond_id < 1) same (omega arith);
      distinct = λ c d k l e f g. sym (only c k e).0 ∙ (only d l f).0;
      fresh = λ i p h. ground arith;
    };
    semaphores = alone-IsWf.semaphores;
    few_conditions = omega arith;
    few_exited = omega arith;
  }

-- Threads 2 and 4 wait on condition 6, of priorities 3 and 4.
abbrev pub queue_of_two : Condition
queue_of_two = first_cond (update (update (λ p. []) 3 (2 ∷ [])) 4 (4 ∷ []))

abbrev pub pair_waits : Sys
pair_waits =
    with_cond (update alone.tcbs 4 (record plain { priority = pos 4; tid = 4 }))
      queue_of_two.waiters (update (update (λ p. 0) 3 1) 4 1)

pub pair_waits-IsWf : IsWf pair_waits
pair_waits-IsWf = with_cond-IsWf pair_waits.tcbs queue_of_two.waiters _ (λ p. ground arith)

-- Thread 1, of priority 3, runs with lock 5 taken, and thread 4, of priority 4, waits on the condition at 6.
abbrev pub signals_with_lock : Sys
signals_with_lock =
    record (with_cond
      (update alone.tcbs 4 (record plain { priority = pos 4; tid = 4; context = in_wait }))
      (update (λ p. []) 4 (4 ∷ [])) (update (λ p. 0) 4 1)) {
        locks = update (λ l. none) 5 (some (record { shared = 1 }));
      }

pub signals_with_lock-IsWf : IsWf signals_with_lock
signals_with_lock-IsWf =
    with_cond-IsWf signals_with_lock.tcbs (update (λ p. []) 4 (4 ∷ [])) _ (λ p. ground arith)

-- Threads 2 and 3, of priority 10, wait on the condition at 6.
abbrev pub cars_wait : Sys
cars_wait =
    with_cond (λ t. record plain { priority = pos 10 }) (update (λ p. []) 10 (2 ∷ 3 ∷ []))
      (update (λ p. 0) 10 2)

pub cars_wait-IsWf : IsWf cars_wait
cars_wait-IsWf =
    with_cond-IsWf cars_wait.tcbs (update (λ p. []) 10 (2 ∷ 3 ∷ [])) _ (λ p. ground arith)

-- Thread 2, of priority 3, waits on semaphore 8; thread 1, of priority 5, runs.
abbrev pub one_waiter : Semaphore
one_waiter = record { value = pos 0; sem_id = 1; waiters = 2 ∷ [] }

abbrev pub sem_waits : Sys
sem_waits = record alone {
  tcbs = update alone.tcbs 1 (record plain { priority = pos 5 });
  semaphores = update (λ c. none) 8 (some one_waiter);
  semaphore_id = 1;
  semaphore_waiters = update (λ i. 0) 1 1;
}

only_sem : (c : ℕ) (m : Semaphore) → sem_waits.semaphores c ≡ some m → (8 ≡ c) × (one_waiter ≡ m)
only_sem c m e = elim (update_cases (λ j. none) 8 one_waiter c m e) [ inl h ↦ h | inr (_, n) ↦ cc ]

pub sem_waits-IsWf : IsWf sem_waits
sem_waits-IsWf = record {
  ready = λ p. refl;
  conditions = alone-IsWf.conditions;
  semaphores = record {
    counted = λ c m e.
        subst (λ (j : Semaphore). sem_waits.semaphore_waiters j.sem_id ≡ length j.waiters)
          (only_sem c m e).1 refl;
    given = λ c m e. subst (λ (j : Semaphore). j.sem_id ≤ 1) (only_sem c m e).1 (omega arith);
    distinct = λ c d m n e f g. sym (only_sem c m e).0 ∙ (only_sem d n f).0;
    fresh = λ i h. ground arith;
    blocked = λ c m e.
        inr (subst (λ (j : Semaphore). ltb_ℤ (pos 0) j.value ≡ false) (only_sem c m e).1 refl);
  };
  few_conditions = omega arith;
  few_exited = omega arith;
}

-- A thread waits on the semaphore at 8, and the semaphore at 9 has been created since.
abbrev pub two_sems : Sys
two_sems = record sem_waits {
  semaphores =
      update sem_waits.semaphores 9 (some (record { value = pos 6; sem_id = 2; waiters = [] }));
  semaphore_id = 2;
}

pub two_sems-IsWf : IsWf two_sems
unfolding semaphore_create
two_sems-IsWf = semaphore_create-IsWf 9 (pos 6) [] sem_waits sem_waits-IsWf

-- For a program that has not started.
abbrev pub no_memory : ℕ → Tcb
no_memory t = plain

abbrev pub no_timer : Interval
no_timer = record { it_value = 0; it_interval = 0 }

-- `%d` for numbers of at most two digits.
abbrev pub two_digits : ℕ → List ℕ
two_digits i = if ltb i 10 then (48 + i) ∷ [] else (48 + i / 10) ∷ (48 + i % 10) ∷ []

pub two_digits-short : (i : ℕ) → length (two_digits i) ≤ 11
two_digits-short i = elim (Bool-cases (ltb i 10)) [
  | inl e ↦ rw e (omega arith)
  | inr e ↦ rw e (omega arith)
]
