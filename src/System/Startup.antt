-- ===== src/System/Startup.antt =====
-- What the `main` of a program does: the globals, its creations, and `t_start` up to the first thread.
use user_level_thread_librar.Base.{
  ℕ, ◌+◌, ◌≤◌, ◌<◌, ◌≡◌, ◌≢◌, refl, ap, ◌∙◌, false, none, some, List, [], arith, length, ◌==◌, pos,
  update, ==-refl, Bool-cases, inl, inr,
}
use user_level_thread_librar.System.State.{
  Sys, Ptr, Tcb, Interval, null, returns, levels, max_thread_name, max_exited, at, bind, ◌>>=◌,
  set_tcb,
}
use user_level_thread_librar.System.Timer.{unblock}
use user_level_thread_librar.System.Scheduler.{scheduler, dispatch}
use user_level_thread_librar.System.Fork.{t_start}
use user_level_thread_librar.System.Machine.{in_user, enter}
use user_level_thread_librar.System.Priority.{taken, scheduler-taken}
use user_level_thread_librar.System.Start.{prepared, cleared, t_start-prepared, facts}
use user_level_thread_librar.System.Handover.{new_enters, Unjoined}
use user_level_thread_librar.System.Invariant.Defs.{ReadyCounted}
use user_level_thread_librar.System.Invariant.Ready.{snoc_counted}
use user_level_thread_librar.System.Invariant.Start.{with_tcbs, reset_ready, Unstarted}

-- `first`, of level `p`, runs alone, in `f`, and what had been created in `s` is as it was.
pub record Running (s s' : Sys) (first f p : ℕ) : Type 0 where
  pub current : s'.current ≡ first
  pub func : (s'.tcbs first).func ≡ f
  pub priority : (s'.tcbs first).priority ≡ pos p
  pub idle : (z : ℕ) → s'.p_queue z ≡ []
  pub unjoined : Unjoined s'
  pub locks : s'.locks ≡ s.locks
  pub conditions : s'.conditions ≡ s.conditions
  pub semaphores : s'.semaphores ≡ s.semaphores

module _ (s : Sys) (current_tcb : Ptr) (waiting_tcb : ℕ → Ptr)
    (counted : ReadyCounted s.thread_level_count s.p_queue)
    (no_level : (z : ℕ) → levels ≤ z → s.p_queue z ≡ []) where
  abbrev clear : Sys
  clear = cleared s current_tcb waiting_tcb

  same : clear ≡ record (with_tcbs current_tcb waiting_tcb (reset_ready s)) { tcbs = clear.tcbs }
  same = (facts s current_tcb waiting_tcb).same

  -- No thread is ready.
  pub no_ready : (z : ℕ) → clear.p_queue z ≡ []
  no_ready z = ap (λ t. t.p_queue z) same ∙ ground (arith, no_level z)

  pub clear-ReadyCounted : ReadyCounted clear.thread_level_count clear.p_queue
  clear-ReadyCounted z =
      ap (λ t. t.thread_level_count z) same ∙ ground (arith, no_level z, counted z, no_ready z)

  module _ (fresh : Ptr) (f v : ℕ) (name : List ℕ) (p : ℕ) (current_allocated : current_tcb ≢ null)
      (allocated : fresh ≢ null) (unused : fresh ≢ current_tcb)
      (fits : length name < max_thread_name) (l : p < levels) where
    abbrev ready_state : Sys
    ready_state = prepared s current_tcb waiting_tcb fresh f v name p

    abbrev chosen : Sys
    chosen = taken ready_state p fresh []

    first_taken : scheduler ready_state ≡ dispatch chosen
    first_taken =
        scheduler-taken ready_state p fresh []
          (snoc_counted clear.p_queue clear.thread_level_count p fresh clear-ReadyCounted) l
          (rw (==-refl p, no_ready p))
          (λ z a b. let low : (p == z) ≡ false = ground arith in rw low (no_ready z))

    abbrev running : Sys
    running = unblock (
        set_tcb fresh (λ b. record b { flag = 0 })
          (record chosen { thread_count = chosen.thread_count + 1 }))

    first_enters : bind (dispatch chosen) enter ≡ returns in_user running
    first_enters = new_enters chosen (rw (==-refl fresh))

    running-Unjoined : s.exit_thread_index < max_exited → Unjoined running
    running-Unjoined room = record {
      waiting = λ i b.
          let c = (facts s current_tcb waiting_tcb).waiting i b in
          let there : clear.tcb_waiting i ≡ waiting_tcb i = ap (λ t. t.tcb_waiting i) same in
          elim (Bool-cases (fresh == waiting_tcb i)) [
            | inl e ↦ rw (there, e, ==-refl fresh)
            | inr e ↦ rw (there, e) c
          ];
      room = rw (ap (λ t. t.exit_thread_index) same) room;
    }

    -- `t_start` leaves the locks, the conditions and the semaphores as they were, and calls `f` in the first
    -- thread, with no other one ready.
    pub t_start-runs :
        s.exit_thread_index < max_exited
        → (s' : Sys) × ((t_start current_tcb waiting_tcb fresh f v name (pos p) >>= enter) s
            ≡ returns in_user s')
          × Running s s' fresh f p
    t_start-runs room = (
      running,
      ap (λ o. bind o enter)
            (t_start-prepared s current_tcb waiting_tcb fresh f v name p current_allocated allocated
              unused fits l)
          ∙ ap (λ o. bind o enter) first_taken
          ∙ first_enters,
      record {
        current = refl;
        func = rw (==-refl fresh);
        priority = rw (==-refl fresh);
        idle = λ z. ground (arith, no_ready z);
        unjoined = running-Unjoined room;
        locks = ap (λ t. t.locks) same;
        conditions = ap (λ t. t.conditions) same;
        semaphores = ap (λ t. t.semaphores) same;
      },
    )

pub allocated-at :
    {A : Type 0} (p : Ptr) (a : A) → p ≢ null → at (update (λ q. none) p (some a)) p ≡ some a
allocated-at p a ne = let e : (p == null) ≡ false = ground arith in rw (e, ==-refl p)

-- The variables of THREAD.C before `main`, in a memory of unspecified contents.
abbrev pub globals : (memory : Ptr → Tcb) → Interval → Sys
globals memory t = record {
  p_queue = λ p. [];
  thread_level_count = λ p. 0;
  tcbs = memory;
  current = null;
  tcb_waiting = λ i. null;
  waiting_index = 0;
  exited_thread_ids = λ i. 0;
  exit_thread_index = 0;
  g_thread_id = 0;
  semaphore_id = 0;
  condition_id = 0;
  condition_record = λ i. null;
  condition_waiters = λ i p. 0;
  semaphore_waiters = λ i. 0;
  first_run = 0;
  thread_count = 0;
  conditions = λ c. none;
  semaphores = λ c. none;
  locks = λ c. none;
  alarm_in_blocksigs = false;
  alarm_blocked = false;
  timer = t;
}

pub globals-Unstarted : (memory : Ptr → Tcb) (t : Interval) → Unstarted (globals memory t)
globals-Unstarted memory t = (
  record {
    ready = λ p. refl;
    conditions = record {
      counted = λ c k e p. cc;
      given = λ c k e. cc;
      distinct = λ c d k l e f g. cc;
      fresh = λ i p h. refl;
    };
    semaphores = record {
      counted = λ c m e. cc;
      given = λ c m e. cc;
      distinct = λ c d m n e f g. cc;
      fresh = λ i h. refl;
      blocked = λ c m e. cc;
    };
    few_conditions = omega arith;
    few_exited = omega arith;
  },
  record { on_conditions = λ c k e. cc; on_semaphores = λ c m e. cc },
)
