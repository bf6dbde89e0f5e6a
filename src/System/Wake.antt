-- ===== src/System/Wake.antt =====
-- `t_sig` and `Semaphore_V`: which thread a wake-up chooses and where it is put.
use user_level_thread_librar.Base.{
  ℕ, ◌-◌, ◌<◌, ◌≡◌, ◌≢◌, ltb, true, false, List, [], ◌∷◌, ◌++◌, arith, length, update, pos, some,
  lt→ltb, ==-refl, increment,
}
use user_level_thread_librar.System.State.{
  Sys, Ptr, returns, levels, set_tcb, Condition, Semaphore, at, max_semaphores,
}
use user_level_thread_librar.System.Timer.{block, unblock}
use user_level_thread_librar.System.Scheduler.{scan}
use user_level_thread_librar.System.Condition.{t_sig, wake_waiter, set_condition, set_waiters}
use user_level_thread_librar.System.Semaphore.{semaphore_v, set_semaphore, set_sem_waiters}
use user_level_thread_librar.System.Priority.{scan_highest, scan_empty}
use user_level_thread_librar.System.Invariant.Defs.{IsWf, at-some}
use user_level_thread_librar.System.Switch.{readied, put_ready-readied}

-- The state in which waiter `t` of level `p` has been woken: it has the signaller's lock as its
-- argument and stands behind the ready threads of its priority `q`.
abbrev pub signalled : Sys → Ptr → Condition → ℕ → Ptr → List Ptr → Ptr → ℕ → Sys
signalled s c k p t rest lock q =
    readied
      (set_tcb t (λ b. record b { arg = lock })
        (set_waiters k.cond_id p (s.condition_waiters k.cond_id p - 1)
          (set_condition c (record k { waiters = update k.waiters p rest }) s)))
      q t

module _ (s : Sys) (c lock : Ptr) (val : ℕ) (k : Condition) (w : IsWf s)
    (e : at s.conditions c ≡ some k) where
  counted : (p : ℕ) → s.condition_waiters k.cond_id p ≡ length (k.waiters p)
  counted p = w.conditions.counted c k (at-some s.conditions c k e) p

  -- The oldest waiter of the highest level that has one becomes ready at its own priority.
  pub sig_wakes_highest :
      (p q : ℕ) (t : Ptr) (rest : List Ptr)
      → p < levels
      → k.waiters p ≡ t ∷ rest
      → ((z : ℕ) → p < z → z < levels → k.waiters z ≡ [])
      → (s.tcbs t).priority ≡ pos q
      → q < levels
      → t_sig c val lock s ≡ returns tt (unblock (signalled (block s) c k p t rest lock q))
  unfolding t_sig wake_waiter
  sig_wakes_highest p q t rest l here above pr lq =
      rw (e, found, here) (rw (put_ready-readied woken ((woken.tcbs t).priority) q t own lq))
    where
      woken : Sys
      woken =
          set_tcb t (λ b. record b { arg = lock })
            (set_waiters k.cond_id p (s.condition_waiters k.cond_id p - 1)
              (set_condition c (record k { waiters = update k.waiters p rest }) (block s)))

      own : (woken.tcbs t).priority ≡ pos q
      own = rw (==-refl t) pr

      found : scan (s.condition_waiters k.cond_id) levels ≡ some p
      found =
          scan_highest (s.condition_waiters k.cond_id) levels p l (ground (arith, counted p, here))
            (λ z a b. ground (arith, counted z, above z a b))

  -- With no waiter the signal is lost: only the timer signal is let through.
  pub sig_lost :
      ((z : ℕ) → z < levels → k.waiters z ≡ [])
      → t_sig c val lock s ≡ returns tt (unblock (block s))
  unfolding t_sig
  sig_lost none_wait = rw (
    e,
    scan_empty (s.condition_waiters k.cond_id) levels
        (λ z l. ground (arith, counted z, none_wait z l)),
  )

module _ (s : Sys) (p : Ptr) (m : Semaphore) (w : IsWf s) (e : at s.semaphores p ≡ some m)
    (few : m.sem_id < max_semaphores) where
  sem_counted : s.semaphore_waiters m.sem_id ≡ length m.waiters
  sem_counted = w.semaphores.counted p m (at-some s.semaphores p m e)

  -- The oldest waiter of a semaphore becomes ready at the level of the thread that calls `Semaphore_V`,
  -- whatever its own priority is: the queue of any other level stays as it was. The value does not
  -- change, and no other semaphore does.
  pub v_wakes_at_caller_level :
      (q : ℕ) (t : Ptr) (rest : List Ptr)
      → m.waiters ≡ t ∷ rest
      → (s.tcbs s.current).priority ≡ pos q
      → q < levels
      → (s' : Sys) × (semaphore_v p s ≡ returns tt s')
        × (s'.p_queue q ≡ s.p_queue q ++ t ∷ [])
        × ((r : ℕ) → r ≢ q → s'.p_queue r ≡ s.p_queue r)
        × (s'.semaphores p ≡ some (record m { waiters = rest }))
        × ((c : Ptr) → c ≢ p → s'.semaphores c ≡ s.semaphores c)
  unfolding semaphore_v
  v_wakes_at_caller_level q t rest here pr l = (
    unblock (readied woken q t),
    (let room : ltb m.sem_id max_semaphores ≡ true = lt→ltb _ _ few in
        let some_wait : ltb 0 (s.semaphore_waiters m.sem_id) ≡ true =
          ground (arith, sem_counted, here) in
        rw (e, room, some_wait, here) (rw (put_ready-readied woken _ q t pr l))),
    ground arith,
    (λ r ne. ground arith),
    ground arith,
    (λ c ne. ground arith),
  )
    where
      woken : Sys
      woken =
          set_sem_waiters m.sem_id (s.semaphore_waiters m.sem_id - 1)
            (set_semaphore p (record m { waiters = rest }) (block s))

  -- With no waiter the value grows by one.
  pub v_increments :
      m.waiters ≡ []
      → semaphore_v p s
        ≡ returns tt (unblock (set_semaphore p (record m { value = increment m.value }) (block s)))
  unfolding semaphore_v
  v_increments none_wait =
      let room : ltb m.sem_id max_semaphores ≡ true = lt→ltb _ _ few in
      let nobody : ltb 0 (s.semaphore_waiters m.sem_id) ≡ false =
        ground (arith, sem_counted, none_wait) in
      rw (e, room, nobody)
