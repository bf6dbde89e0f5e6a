-- ===== src/Scripts/Dispatch.antt =====
-- The scheduler's choice among threads of falling priorities.
use user_level_thread_librar.Base.{
  ℕ, ◌+◌, ◌<◌, ◌≡◌, ◌⊎◌, inl, inr, refl, sym, ◌∙◌, true, false, List, [], ◌∷◌, ◌==◌, arith, update,
  ==-refl, Bool-cases, ap,
}
use user_level_thread_librar.System.State.{
  Sys, Ptr, levels, Outcome, returns, set_tcb, in_timer, in_fork, ◌>>=◌, bind, Context,
}
use user_level_thread_librar.System.Timer.{block, unblock}
use user_level_thread_librar.System.Scheduler.{scheduler, dispatch}
use user_level_thread_librar.System.Machine.{Control, in_user, ended, enter, resume}
use user_level_thread_librar.System.Priority.{taken, scheduler-taken, scan_empty}
use user_level_thread_librar.System.Invariant.Defs.{ReadyCounted}
use user_level_thread_librar.Scripts.Nesting.{Frame, Ordered, at_level, Waiting, Runs}
use user_level_thread_librar.Scripts.Threads.{none_above, Ready-update, nobody_update}

-- What the scheduler leaves alone.
abbrev pub SameRecords : Sys → Sys → Type 0
SameRecords s s' =
    (s'.g_thread_id ≡ s.g_thread_id)
    × (s'.exited_thread_ids ≡ s.exited_thread_ids)
    × (s'.exit_thread_index ≡ s.exit_thread_index)

module _ (malloc : ℕ → Ptr) (distinct : (i j : ℕ) → malloc i ≡ malloc j → i ≡ j) where
  -- `o` is the run of `f`, with the threads of `fs` ready.
  pub record Resumed (s : Sys) (f : Frame) (fs : List Frame) (o : Outcome Control) : Type 0 where
    pub after : Sys
    pub goes : o ≡ returns in_user after
    pub runs : Runs malloc after.tcbs after.current f
    pub waiting : Waiting malloc after.tcbs after.p_queue after.tcb_waiting fs
    pub same : SameRecords s after

  module _ (s : Sys) (f : Frame) (fs : List Frame)
      (w : Waiting malloc s.tcbs s.p_queue s.tcb_waiting (f ∷ fs))
      (o : Ordered f.id f.level fs) where
    alone_there : at_level malloc f.level (f ∷ fs) ≡ malloc f.id ∷ []
    alone_there =
        rw (==-refl f.level, none_above malloc distinct f.id f.level f.level fs o (omega arith))

    rest_queued : (z : ℕ) → update s.p_queue f.level [] z ≡ at_level malloc z fs
    rest_queued z = elim (Bool-cases (f.level == z)) [
      | inl e ↦
          (let here : f.level ≡ z = ground arith in
            rw e (sym (none_above malloc distinct f.id f.level z fs o (omega arith))))
      | inr e ↦ (let q = w.queued z in rw e (rw e at q))
    ]

    -- A thread that goes on does so at once.
    resumed_running :
        (c : Context)
        → (c ≡ in_timer) ⊎ ((n : ℕ) × (c ≡ in_fork n))
        → (s' : Sys)
        → (after : Sys) × (bind (resume c s') (λ _ t. returns in_user t) ≡ returns in_user after)
          × (after ≡ record s' { alarm_blocked = after.alarm_blocked })
    unfolding resume
    resumed_running c (inl e) s' = (unblock (block s'), rw e, refl)
    resumed_running c (inr (n, e)) s' = (unblock (unblock (block s')), rw e, refl)

    -- The scheduler has chosen `f`.
    abbrev chosen : Sys
    chosen = taken s f.level (malloc f.id) []

    abbrev started : Sys
    started = unblock (
        set_tcb (malloc f.id) (λ b. record b { flag = 0 })
          (record chosen { thread_count = chosen.thread_count + 1 }))

    dispatch-Resumed : Resumed s f fs ((dispatch >>= enter) chosen)
    unfolding dispatch
    dispatch-Resumed = elim w.ready.0.1 [
      | inl new ↦ record {
        after = started;
        goes =
            (let yes_new : ((s.tcbs (malloc f.id)).flag == 1) ≡ true = ground arith in rw yes_new);
        runs = record {
          place = refl;
          is = rw (==-refl (malloc f.id)) w.ready.0.0;
          flag = rw (==-refl (malloc f.id));
        };
        waiting = record {
          queued = rest_queued;
          ready =
              Ready-update malloc distinct s.tcbs (malloc f.id) f.id f.level _ fs refl o w.ready.1;
          nobody =
              nobody_update malloc distinct s.tcbs s.tcb_waiting (malloc f.id) _ w.nobody
                (inr refl);
        };
        same = (refl, refl, refl);
      }
      | inr (old, c) ↦
          (let not_new : ((s.tcbs (malloc f.id)).flag == 1) ≡ false = ground arith in
            let (after, goes, e) = resumed_running (s.tcbs (malloc f.id)).context c chosen in
            record {
              after = record chosen { alarm_blocked = after.alarm_blocked };
              goes = rw not_new (goes ∙ ap (λ t. returns in_user t) e);
              runs = record { place = refl; is = w.ready.0.0; flag = old };
              waiting = record { queued = rest_queued; ready = w.ready.1; nobody = w.nobody };
              same = (refl, refl, refl);
            })
    ]

    -- The youngest thread runs next.
    pub scheduler-Resumed :
        ReadyCounted s.thread_level_count s.p_queue
        → f.level < levels
        → Resumed s f fs ((scheduler >>= enter) s)
    scheduler-Resumed counted l =
        rw
          (scheduler-taken s f.level (malloc f.id) [] counted l (w.queued f.level ∙ alone_there)
            (λ z a b.
              w.queued z
              ∙ none_above malloc distinct (f.id + 1) (f.level + 1) z (f ∷ fs)
                  (omega arith, omega arith, o) (omega arith)))
          dispatch-Resumed

  -- With no thread left, `t_start` returns.
  pub scheduler_empty :
      (s : Sys)
      → ReadyCounted s.thread_level_count s.p_queue
      → Waiting malloc s.tcbs s.p_queue s.tcb_waiting []
      → (s' : Sys) × ((scheduler >>= enter) s ≡ returns ended s')
  unfolding scheduler
  scheduler_empty s counted w = (
    block (record s { first_run = 1 }),
    rw (scan_empty s.thread_level_count levels (λ z l. ground (arith, counted z, w.queued z))),
  )
