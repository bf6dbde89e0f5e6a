-- ===== src/Scripts/Launch.antt =====
-- `t_start` brings the first thread to its start.
use mathlib.Core.Path.{subst}
use mathlib.Core.List.{append-nil}
use mathlib.Core.Option.{some-injective}
use user_level_thread_librar.Base.{
  ℕ, ◌+◌, ◌≤◌, ◌<◌, ◌≡◌, ◌≢◌, refl, sym, ap, ◌∙◌, List, [], ◌∷◌, arith, some, true, false, pos,
  length, update, ==-refl, Bool-cases, inl, inr, ◌==◌,
}
use user_level_thread_librar.System.State.{
  Sys, Ptr, levels, max_exited, max_thread_name, returns, ◌>>=◌, bind,
}
use user_level_thread_librar.System.Scheduler.{scheduler}
use user_level_thread_librar.System.Fork.{t_start}
use user_level_thread_librar.System.Machine.{Config, in_user, ended, settle, enter, here}
use user_level_thread_librar.System.Startup.{no_ready, clear-ReadyCounted}
use user_level_thread_librar.System.Start.{prepared, cleared, t_start-prepared, facts}
use user_level_thread_librar.System.Invariant.Defs.{IsWf, ReadyCounted}
use user_level_thread_librar.System.Invariant.Ready.{snoc_counted}
use user_level_thread_librar.Scripts.Threads.{nobody_update}
use user_level_thread_librar.System.Invariant.Start.{with_tcbs, reset_ready, NoneWait, started-IsWf}
use user_level_thread_librar.Scripts.{Code, function_end, Run, launch, finish}
use user_level_thread_librar.Scripts.Termination.{Reach, finish_ends, reached_finishes}
use user_level_thread_librar.Scripts.Nesting.{Frame, Nested, Waiting, output, forks_of, cost}
use user_level_thread_librar.Scripts.Dispatch.{Resumed, scheduler-Resumed}
use user_level_thread_librar.Scripts.Invariant.{run_of, Invariant, measure}

-- What `main` leaves when it calls `t_start`.
pub record Fresh (s : Sys) : Type 0 where
  pub counted : IsWf s
  pub none_wait : NoneWait s.conditions s.semaphores
  -- the array of ready queues has no other levels
  pub no_level : (z : ℕ) → levels ≤ z → s.p_queue z ≡ []

module _ (malloc : ℕ → Ptr) (distinct : (i j : ℕ) → malloc i ≡ malloc j → i ≡ j)
    (allocated : (i : ℕ) → malloc i ≢ 0) (s : Sys) (current_tcb : Ptr) (waiting_tcb : ℕ → Ptr)
    (name : List ℕ) (p : ℕ) (body : Code) (clean : Fresh s) (current_allocated : current_tcb ≢ 0)
    (unused : malloc (s.g_thread_id + 1) ≢ current_tcb) (fits : length name < max_thread_name)
    (l : p < levels) (nested : Nested p false body)
    (few : s.exit_thread_index + (1 + forks_of body) ≤ max_exited) where
  abbrev first : Frame
  first = record { id = s.g_thread_id + 1; level = p }

  ready_state : Sys
  ready_state = prepared s current_tcb waiting_tcb (malloc (s.g_thread_id + 1)) 0 0 name p

  abbrev clear : Sys
  clear = cleared s current_tcb waiting_tcb

  same : clear ≡ record (with_tcbs current_tcb waiting_tcb (reset_ready s)) { tcbs = clear.tcbs }
  same = (facts s current_tcb waiting_tcb).same

  none_ready : (z : ℕ) → clear.p_queue z ≡ []
  none_ready = no_ready s current_tcb waiting_tcb clean.counted.ready clean.no_level

  ready_state-Waiting :
      Waiting malloc ready_state.tcbs ready_state.p_queue ready_state.tcb_waiting (first ∷ [])
  unfolding ready_state
  ready_state-Waiting = record {
    queued = λ z. elim (Bool-cases (p == z)) [
      | inl e ↦ rw (e, none_ready p)
      | inr e ↦ rw (e, none_ready z)
    ];
    ready = (
      (
        rw (==-refl (malloc (s.g_thread_id + 1))) (refl, ap (λ t. t.g_thread_id + 1) same),
        rw (==-refl (malloc (s.g_thread_id + 1))) (inl refl),
      ),
      tt,
    );
    nobody =
        nobody_update malloc distinct clear.tcbs clear.tcb_waiting (malloc (s.g_thread_id + 1)) _
          (λ i h.
            rw (ap (λ t. t.tcb_waiting i) same) ((facts s current_tcb waiting_tcb).waiting i h))
          (inl refl);
  }

  ready_state-ReadyCounted : ReadyCounted ready_state.thread_level_count ready_state.p_queue
  unfolding ready_state
  ready_state-ReadyCounted =
      snoc_counted clear.p_queue clear.thread_level_count p (malloc (s.g_thread_id + 1))
        (clear-ReadyCounted s current_tcb waiting_tcb clean.counted.ready clean.no_level)

  -- The first thread runs.
  starting : Resumed malloc distinct ready_state first [] ((scheduler >>= enter) ready_state)
  starting =
      scheduler-Resumed malloc distinct ready_state first [] ready_state-Waiting tt
        ready_state-ReadyCounted l

  goes :
      (t_start current_tcb waiting_tcb (malloc (s.g_thread_id + 1)) 0 0 name (pos p) >>= enter) s
      ≡ returns in_user starting.after
  unfolding ready_state
  goes =
      ap (λ o. bind o enter)
        (t_start-prepared s current_tcb waiting_tcb (malloc (s.g_thread_id + 1)) 0 0 name p
          current_allocated (allocated (s.g_thread_id + 1)) unused fits l)
      ∙ starting.goes

  launched_run : Run
  launched_run =
      run_of starting.after in_user (update (λ i. function_end) (s.g_thread_id + 1) body) (λ i. 0)
        []

  known : starting.after.g_thread_id ≡ s.g_thread_id + 1
  unfolding ready_state
  known = starting.same.0 ∙ ap (λ t. t.g_thread_id + 1) same

  exited : starting.after.exit_thread_index ≡ s.exit_thread_index
  unfolding ready_state
  exited = starting.same.2 ∙ ap (λ t. t.exit_thread_index) same

  launched-Invariant : Invariant malloc launched_run (output body) (first ∷ [])
  unfolding launched_run
  launched-Invariant = record {
    threads = (starting.runs, starting.waiting);
    counted =
        let k : Config = record { sys = starting.after; control = in_user } in
        started-IsWf s current_tcb waiting_tcb (malloc (s.g_thread_id + 1)) 0 0 name (pos p) k k
          clean.counted clean.none_wait (ap (settle (λ c. c)) goes) here;
    ordered = (omega (arith, known), l, tt);
    chain = ((false, rw (==-refl (s.g_thread_id + 1)) nested, λ (e : false ≡ true). cc), tt);
    printed = rw (==-refl (s.g_thread_id + 1)) (append-nil (output body));
    room = rw (==-refl (s.g_thread_id + 1), exited) (omega (arith, few));
  }

  -- `t_start` runs the first thread.
  pub launched :
      (r : Run) × (launch malloc current_tcb waiting_tcb name (pos p) body s ≡ some r)
      × Invariant malloc r (output body) (first ∷ [])
      × (measure malloc r (first ∷ []) ≡ cost body)
  unfolding launch launched_run
  launched =
      (launched_run, rw goes, launched-Invariant, rw (==-refl (s.g_thread_id + 1)) (omega arith))

-- For a program whose threads only fork threads of higher priorities and only join after they have
-- forked, with names and priorities in range, counters right and nobody waiting at the start,
-- distinct memory for each thread and room in `exitedThreadIDs` for all of them: from each
-- configuration that it reaches after `t_start`, however the timer has interrupted it, it ends once
-- the timer is quiet, and has printed what it would print if each fork were a call.
pub interrupted_run_ends :
    (malloc : ℕ → Ptr) (distinct : (i j : ℕ) → malloc i ≡ malloc j → i ≡ j)
    (allocated : (i : ℕ) → malloc i ≢ 0) (s : Sys) (current_tcb : Ptr) (waiting_tcb : ℕ → Ptr)
    (name : List ℕ) (p : ℕ) (body : Code) (r t : Run)
    → Fresh s
    → current_tcb ≢ 0
    → malloc (s.g_thread_id + 1) ≢ current_tcb
    → length name < max_thread_name
    → p < levels
    → Nested p false body
    → s.exit_thread_index + (1 + forks_of body) ≤ max_exited
    → launch malloc current_tcb waiting_tcb name (pos p) body s ≡ some r
    → Reach malloc r t
    → (fuel : ℕ) × (u : Run) × (finish malloc fuel t ≡ some u)
      × (u.config.control ≡ ended)
      × (u.out ≡ output body)
interrupted_run_ends malloc distinct allocated s current_tcb waiting_tcb name p body r t clean c n
      fits l nested few e h =
    let (q, e', inv, _) =
      launched malloc distinct allocated s current_tcb waiting_tcb name p body clean c n fits l
        nested few in
    let same_run : q ≡ r = some-injective q r (sym e' ∙ e) in
    reached_finishes malloc distinct allocated (output body) r t
      (record { id = s.g_thread_id + 1; level = p } ∷ [])
      (subst
        (λ q. Invariant malloc q (output body) (record { id = s.g_thread_id + 1; level = p } ∷ []))
        same_run inv)
      h

-- Under the same conditions `t_start` starts such a program, and when no interrupt comes, fuel
-- `cost body + 1` brings it to its end, where it has printed the same.
pub quiet_run_ends :
    (malloc : ℕ → Ptr) (distinct : (i j : ℕ) → malloc i ≡ malloc j → i ≡ j)
    (allocated : (i : ℕ) → malloc i ≢ 0) (s : Sys) (current_tcb : Ptr) (waiting_tcb : ℕ → Ptr)
    (name : List ℕ) (p : ℕ) (body : Code)
    → Fresh s
    → current_tcb ≢ 0
    → malloc (s.g_thread_id + 1) ≢ current_tcb
    → length name < max_thread_name
    → p < levels
    → Nested p false body
    → s.exit_thread_index + (1 + forks_of body) ≤ max_exited
    → (r : Run) × (u : Run) × (launch malloc current_tcb waiting_tcb name (pos p) body s ≡ some r)
      × (finish malloc (cost body + 1) r ≡ some u)
      × (u.config.control ≡ ended)
      × (u.out ≡ output body)
quiet_run_ends malloc distinct allocated s current_tcb waiting_tcb name p body clean c n fits l
      nested few =
    let (r, e, inv, m) =
      launched malloc distinct allocated s current_tcb waiting_tcb name p body clean c n fits l
        nested few in
    let (u, goes, k, o) =
      finish_ends malloc distinct allocated (output body) (cost body + 1) r.config.sys
        r.config.control r.code r.tid r.out (record { id = s.g_thread_id + 1; level = p } ∷ []) inv
        (omega (arith, m)) in
    (r, u, e, goes, k, o)
