-- ===== src/System/Start.antt =====
-- `t_start`, up to its call of the scheduler.
use user_level_thread_librar.Base.{
  ℕ, zero, suc, ◌+◌, ◌<◌, ◌≡◌, ◌≢◌, refl, ◌∙◌, ap, ◌==◌, List, arith, length, pos, negsuc, lt→ltb,
  ==-refl, Bool-cases, inl, inr, true, false,
}
use native.Mathlib.Decide.{dec_lt}
use user_level_thread_librar.System.State.{
  Sys, Ptr, null, returns, levels, max_waiting, max_thread_name, set_tcb,
}
use user_level_thread_librar.System.Timer.{block, unblock, disable_timer}
use user_level_thread_librar.System.Scheduler.{scheduler}
use user_level_thread_librar.System.Fork.{clear_waiting, allocate_memory, t_fork, t_start, new_tcb}
use user_level_thread_librar.System.Switch.{put_ready-readied}
use user_level_thread_librar.System.Preempt.{forked}
use user_level_thread_librar.System.Invariant.Start.{reset_ready, reset_waiters, with_tcbs}

-- Only the field `waiting_for_tid` of TCBs changes.
pub record Cleared (n : ℕ) (s t : Sys) : Type 0 where
  pub same : t ≡ record s { tcbs = t.tcbs }
  pub priority : (p : Ptr) → (t.tcbs p).priority ≡ (s.tcbs p).priority
  pub waiting : (i : ℕ) → i < n → (t.tcbs (s.tcb_waiting i)).waiting_for_tid ≡ 0

earlier : (n i : ℕ) (w w' : ℕ → Ptr) → w n ≡ w' n → (w n == w' i) ≡ false → i < suc n → i < n
earlier n i w w' e ne l = elim (dec_lt i n) [
  | yes h ↦ h
  | no h ↦
      (let same : n ≡ i = omega arith in
        let at_i : w' n ≡ w' i = ap w' same in absurd (ground arith))
]

clear_waiting-Cleared : (n : ℕ) (s : Sys) → Cleared n s (clear_waiting n s)
unfolding clear_waiting
clear_waiting-Cleared zero s = record {
  same = refl;
  priority = λ p. refl;
  waiting = λ i l. absurd (omega arith);
}
clear_waiting-Cleared (suc n) s =
    let c = clear_waiting-Cleared n s in
    let t = clear_waiting n s in
    record {
      same =
          ap
            (λ (u : Sys). record u {
              tcbs = (set_tcb (t.tcb_waiting n) (λ b. record b { waiting_for_tid = 0 }) t).tcbs;
            })
            c.same;
      priority = λ p. ground (arith, c.priority p);
      waiting = λ i l. elim (Bool-cases (t.tcb_waiting n == s.tcb_waiting i)) [
        | inl e ↦ rw e
        | inr e ↦ rw e (
            c.waiting i
              (earlier n i t.tcb_waiting s.tcb_waiting (ap (λ u. u.tcb_waiting n) c.same) e l))
      ];
    }

module _ (s : Sys) (current_tcb : Ptr) (waiting_tcb : ℕ → Ptr) where
  abbrev pub cleared : Sys
  cleared = clear_waiting max_waiting (with_tcbs current_tcb waiting_tcb (reset_ready s))

  -- When memory has been allocated.
  abbrev pub initial : Sys
  initial = record (reset_waiters cleared) { first_run = 0 }

  pub facts : Cleared max_waiting (with_tcbs current_tcb waiting_tcb (reset_ready s)) cleared
  facts = clear_waiting-Cleared max_waiting (with_tcbs current_tcb waiting_tcb (reset_ready s))

  at_current : initial.current ≡ current_tcb
  at_current = ap (λ t. t.current) facts.same

  module _ (fresh : Ptr) (f v : ℕ) (name : List ℕ) (p : ℕ) where
    -- When the first thread has been forked and the timer has been set.
    abbrev pub prepared : Sys
    prepared = block (record (unblock (forked initial fresh f v name p)) {
      timer = record { it_value = 10000; it_interval = 10000 };
      alarm_in_blocksigs = true;
    })

    module _ (current_allocated : current_tcb ≢ null) (allocated : fresh ≢ null)
        (unused : fresh ≢ current_tcb) (fits : length name < max_thread_name) (l : p < levels) where
      idle : ((forked initial fresh f v name p).tcbs initial.current).priority ≡ negsuc 0
      idle =
          let other : (fresh == current_tcb) ≡ false = ground arith in
          rw (at_current, other) (facts.priority current_tcb ∙ rw (==-refl current_tcb))

      -- `main` runs with priority -1, and no fork preempts it.
      fork-prepared :
          t_fork fresh f v name (pos p) initial
          ≡ returns (initial.g_thread_id + 1) (unblock (forked initial fresh f v name p))
      unfolding t_fork
      fork-prepared =
          let a : (fresh == null) ≡ false = ground arith in
          rw (
            a,
            lt→ltb (length name) max_thread_name fits,
            put_ready-readied
                (set_tcb fresh (λ _. new_tcb f v name (pos p) (initial.g_thread_id + 1))
                  (record (block initial) { g_thread_id = initial.g_thread_id + 1 }))
                (pos p) p fresh refl l,
            idle,
          )

      pub t_start-prepared :
          t_start current_tcb waiting_tcb fresh f v name (pos p) s ≡ scheduler prepared
      unfolding t_start allocate_memory disable_timer
      t_start-prepared =
          let a : (current_tcb == null) ≡ false = ground arith in rw (a, fork-prepared)
