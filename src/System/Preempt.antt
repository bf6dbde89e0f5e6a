-- ===== src/System/Preempt.antt =====
-- `t_fork`: who runs after it.
use user_level_thread_librar.Base.{
  ℕ, ◌+◌, ◌≤◌, ◌<◌, ◌≡◌, ◌≢◌, refl, ◌==◌, ltb, true, false, List, [], ◌∷◌, ◌++◌, arith, length, pos,
  negsuc, not, ◌&&◌, eq_ℤ, ltb_ℤ, lt→ltb, ap, ◌∙◌,
}
use user_level_thread_librar.System.State.{
  Sys, Ptr, null, in_fork, returns, jumps, levels, set_tcb, sched_context, max_thread_name, if-true,
  bind, pure, ◌>>◌,
}
use user_level_thread_librar.System.Timer.{block, unblock, enable_timer}
use user_level_thread_librar.System.Scheduler.{yield_from, scheduler}
use user_level_thread_librar.System.Fork.{t_fork, new_tcb}
use user_level_thread_librar.System.Priority.{Dispatched, scheduler_highest}
use user_level_thread_librar.System.Invariant.Defs.{ReadyCounted}
use user_level_thread_librar.System.Invariant.Ready.{snoc_counted}
use user_level_thread_librar.System.Switch.{readied, left, put_ready-readied, yield_from-left}

-- The new thread stands ready; its identifier is one more than the last.
abbrev pub forked : Sys → Ptr → ℕ → ℕ → List ℕ → ℕ → Sys
forked s fresh f v name p =
    let s' = record (block s) { g_thread_id = s.g_thread_id + 1 } in
    readied (set_tcb fresh (λ _. new_tcb f v name (pos p) (s.g_thread_id + 1)) s') p fresh

module _ (s : Sys) (fresh f v : ℕ) (name : List ℕ) (r p : ℕ) (allocated : fresh ≢ null)
    (unused : fresh ≢ s.current) (fits : length name < max_thread_name)
    (e : (s.tcbs s.current).priority ≡ pos r) (l : p < levels) where
  running : ((forked s fresh f v name p).tcbs s.current).priority ≡ pos r
  running = ground arith

  -- A thread of no higher priority waits behind the others of its level, and the caller goes on with
  -- its identifier.
  pub fork_waits :
      p ≤ r
      → t_fork fresh f v name (pos p) s
        ≡ returns (s.g_thread_id + 1) (unblock (forked s fresh f v name p))
  unfolding t_fork
  fork_waits h =
      let a : (fresh == null) ≡ false = ground arith in
      let low : ltb r p ≡ false = ground arith in
      rw
        (
          a,
          lt→ltb (length name) max_thread_name fits,
          put_ready-readied
              (set_tcb fresh (λ _. new_tcb f v name (pos p) (s.g_thread_id + 1))
                (record (block s) { g_thread_id = s.g_thread_id + 1 }))
              (pos p) p fresh refl l,
        )
        (rw (running, low))

  -- A thread of a higher priority preempts its creator, which goes behind the others of its own level:
  -- with no ready thread of a still higher level, the first of the new thread's level runs.
  pub fork_preempts :
      (t : Ptr) (rest : List Ptr)
      → ReadyCounted s.thread_level_count s.p_queue
      → r < p
      → ((z : ℕ) → p < z → z < levels → s.p_queue z ≡ [])
      → s.p_queue p ++ fresh ∷ [] ≡ t ∷ rest
      → let s' = left (forked s fresh f v name p) (in_fork (s.g_thread_id + 1)) r in
        (t_fork fresh f v name (pos p) s ≡ jumps sched_context s')
        × Dispatched s' p t rest (scheduler s')
  unfolding t_fork
  fork_preempts t rest w h above front = (
    (let a : (fresh == null) ≡ false = ground arith in
        let tid = s.g_thread_id + 1 in
        let higher : (not (eq_ℤ ((forked s fresh f v name p).tcbs s.current).priority (negsuc 0))
              && ltb_ℤ ((forked s fresh f v name p).tcbs s.current).priority (pos p))
            ≡ true =
          rw (running, lt→ltb r p h) in
        rw
          (
            a,
            lt→ltb (length name) max_thread_name fits,
            put_ready-readied
                (set_tcb fresh (λ _. new_tcb f v name (pos p) (s.g_thread_id + 1))
                  (record (block s) { g_thread_id = s.g_thread_id + 1 }))
                (pos p) p fresh refl l,
          )
          (if-true _ (yield_from (in_fork tid) >> pure tid) (enable_timer >> pure tid)
              (forked s fresh f v name p) higher
            ∙ ap (λ o. bind o (λ _. pure tid))
                (yield_from-left (forked s fresh f v name p) (in_fork tid) r running
                  (omega arith)))),
    scheduler_highest (left (forked s fresh f v name p) (in_fork (s.g_thread_id + 1)) r) p t rest
        (snoc_counted (forked s fresh f v name p).p_queue
          (forked s fresh f v name p).thread_level_count r s.current
          (snoc_counted s.p_queue s.thread_level_count p fresh w))
        l (ground arith) (λ z a b. ground (arith, above z a b)),
  )
