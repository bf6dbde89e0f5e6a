-- ===== src/Scripts/Threads.antt =====
-- What the calls of the thread library do to threads of falling priorities.
use user_level_thread_librar.Base.{
  ℕ, ◌+◌, ◌≤◌, ◌<◌, ◌≡◌, ◌≢◌, ◌⊎◌, inl, inr, refl, ◌∙◌, false, List, [], ◌∷◌, ◌++◌, length, ◌==◌,
  pos, arith, update, ==-refl, Bool-cases,
}
use user_level_thread_librar.System.State.{
  Sys, Ptr, Tcb, Context, in_timer, in_fork, levels, max_waiting, max_thread_name, jumps,
  sched_context, sit_bottom_context,
}
use user_level_thread_librar.System.Timer.{timer_handler}
use user_level_thread_librar.System.Fork.{t_fork, new_tcb}
use user_level_thread_librar.System.Switch.{left, timer_handler-left}
use user_level_thread_librar.System.Preempt.{forked, fork_preempts}
use user_level_thread_librar.System.Invariant.Defs.{ReadyCounted}
use user_level_thread_librar.Scripts.Nesting.{Frame, Ordered, at_level, Ready, Waiting, Runs}

-- The state after a fork of a thread of a higher priority.
abbrev pub after_fork : Sys → (fresh : Ptr) (f : Frame) (name : List ℕ) (priority : ℕ) → Sys
after_fork s fresh f name priority =
    left (forked s fresh 0 0 name priority) (in_fork (s.g_thread_id + 1)) f.level

module _ (malloc : ℕ → Ptr) (distinct : (i j : ℕ) → malloc i ≡ malloc j → i ≡ j) where
  -- No thread of `fs` has a level as high as `z`.
  pub none_above :
      (id level z : ℕ) (fs : List Frame)
      → Ordered id level fs
      → level ≤ z
      → at_level malloc z fs ≡ []
  none_above id level z [] o h = refl
  none_above id level z (f ∷ fs) (_, l, o) h =
      let ne : (f.level == z) ≡ false = ground arith in
      rw ne (none_above f.id f.level z fs o (omega arith))

  pub elsewhere : (i j : ℕ) → j < i → (malloc i == malloc j) ≡ false
  elsewhere i j h = elim (Bool-cases (malloc i == malloc j)) [
    | inl e ↦ let same : i ≡ j = distinct i j (ground arith) in absurd (omega arith)
    | inr ne ↦ ne
  ]

  -- A write to a younger thread's TCB.
  pub Ready-update :
      (tcbs : Ptr → Tcb) (p : Ptr) (i level : ℕ) (b : Tcb) (fs : List Frame)
      → p ≡ malloc i
      → Ordered i level fs
      → Ready malloc tcbs fs
      → Ready malloc (update tcbs p b) fs
  Ready-update tcbs p i level b [] e o r = tt
  Ready-update tcbs p i level b (f ∷ fs) e (lt, l, o) (here, r) =
      (rw (e, elsewhere i f.id lt) here, Ready-update tcbs p i f.level b fs e (weaken fs o) r)
    where
      weaken : (gs : List Frame) → Ordered f.id f.level gs → Ordered i f.level gs
      weaken [] h = tt
      weaken (g ∷ gs) (a, b, h) = (omega arith, b, h)

  -- A thread of a higher level joins its level.
  pub queued-cons :
      (queue : ℕ → List Ptr) (f : Frame) (fs : List Frame) (z : ℕ)
      → Ordered f.id f.level fs
      → ((y : ℕ) → queue y ≡ at_level malloc y fs)
      → update queue f.level (queue f.level ++ malloc f.id ∷ []) z ≡ at_level malloc z (f ∷ fs)
  queued-cons queue f fs z o q = elim (Bool-cases (f.level == z)) [
    | inl e ↦
        (let here : f.level ≡ z = ground arith in
          let empty : queue f.level ≡ [] =
            q f.level ∙ none_above f.id f.level f.level fs o (omega arith) in
          let rest : at_level malloc z fs ≡ [] = none_above f.id f.level z fs o (omega arith) in
          rw (e, empty, rest))
    | inr e ↦ rw e (q z)
  ]

  -- A thread of a still higher level joins its level first.
  queued-fork :
      (queue : ℕ → List Ptr) (g f : Frame) (fs : List Frame) (z : ℕ)
      → f.level < g.level
      → Ordered f.id f.level fs
      → ((y : ℕ) → queue y ≡ at_level malloc y fs)
      → let queue' = update queue g.level (queue g.level ++ malloc g.id ∷ []) in
        update queue' f.level (queue' f.level ++ malloc f.id ∷ []) z
        ≡ at_level malloc z (g ∷ f ∷ fs)
  queued-fork queue g f fs z h o q = elim (Bool-cases (g.level == z)) [
    | inl e ↦
        (let here : g.level ≡ z = ground arith in
          let low : (f.level == z) ≡ false = ground arith in
          let empty : queue g.level ≡ [] =
            q g.level ∙ none_above f.id f.level g.level fs o (omega arith) in
          let rest : at_level malloc z fs ≡ [] = none_above f.id f.level z fs o (omega arith) in
          rw (low, e, empty, rest))
    | inr e ↦
        (let low : (g.level == f.level) ≡ false = ground arith in
          rw (e, low) (queued-cons queue f fs z o q))
  ]

  -- The threads that a joiner could wait for stay none.
  pub nobody_update :
      (tcbs : Ptr → Tcb) (tcb_waiting : ℕ → Ptr) (p : Ptr) (b : Tcb)
      → ((i : ℕ) → i < max_waiting → (tcbs (tcb_waiting i)).waiting_for_tid ≡ 0)
      → (b.waiting_for_tid ≡ 0) ⊎ (b.waiting_for_tid ≡ (tcbs p).waiting_for_tid)
      → (i : ℕ) → i < max_waiting
      → (update tcbs p b (tcb_waiting i)).waiting_for_tid ≡ 0
  nobody_update tcbs tcb_waiting p b h (inl e) i l = ground (arith, h i l)
  nobody_update tcbs tcb_waiting p b h (inr e) i l = elim (Bool-cases (p == tcb_waiting i)) [
    | inl same ↦ let at_p : p ≡ tcb_waiting i = ground arith in rw (same, e, at_p) (h i l)
    | inr other ↦ rw other (h i l)
  ]

  -- The running thread `f` is suspended.
  pub suspended :
      (s : Sys) (f : Frame) (fs : List Frame) (c : Context)
      → Runs malloc s.tcbs s.current f
      → Waiting malloc s.tcbs s.p_queue s.tcb_waiting fs
      → Ordered f.id f.level fs
      → (c ≡ in_timer) ⊎ ((n : ℕ) × (c ≡ in_fork n))
      → Waiting malloc (left s c f.level).tcbs (left s c f.level).p_queue s.tcb_waiting (f ∷ fs)
  suspended s f fs c r w o h = record {
    queued = λ z. rw r.place (queued-cons s.p_queue f fs z o w.queued);
    ready = (
      (
        rw (r.place, ==-refl (malloc f.id)) r.is,
        rw (r.place, ==-refl (malloc f.id)) (inr (r.flag, h)),
      ),
      Ready-update s.tcbs s.current f.id f.level _ fs r.place o w.ready,
    );
    nobody = nobody_update s.tcbs s.tcb_waiting s.current _ w.nobody (inr refl);
  }

  -- A timer interrupt suspends the running thread.
  pub timer-Waiting :
      (s : Sys) (f : Frame) (fs : List Frame)
      → Runs malloc s.tcbs s.current f
      → Waiting malloc s.tcbs s.p_queue s.tcb_waiting fs
      → Ordered f.id f.level fs
      → f.level < levels
      → (timer_handler s ≡ jumps sit_bottom_context (left s in_timer f.level))
        × Waiting malloc
            (left s in_timer f.level).tcbs
            (left s in_timer f.level).p_queue
            s.tcb_waiting
            (f ∷ fs)
  timer-Waiting s f fs r w o l = (
    timer_handler-left s f.level (rw r.place r.is.0) l,
    suspended s f fs in_timer r w o (inl refl),
  )

  -- A fork of a thread of a higher priority suspends the running thread, with the new one ready.
  module _ (allocated : (i : ℕ) → malloc i ≢ 0) (s : Sys) (f : Frame) (fs : List Frame)
      (name : List ℕ) (priority : ℕ) (r : Runs malloc s.tcbs s.current f)
      (w : Waiting malloc s.tcbs s.p_queue s.tcb_waiting fs) (o : Ordered f.id f.level fs)
      (known : f.id ≤ s.g_thread_id) (h : f.level < priority) (l : priority < levels)
      (fits : length name < max_thread_name)
      (counted : ReadyCounted s.thread_level_count s.p_queue) where
    abbrev after : Sys
    after = after_fork s (malloc (s.g_thread_id + 1)) f name priority

    abbrev child : Frame
    child = record { id = s.g_thread_id + 1; level = priority }

    abbrev fresh_tcb : Tcb
    fresh_tcb = new_tcb 0 0 name (pos priority) child.id

    unused : malloc (s.g_thread_id + 1) ≢ s.current
    unused e =
        let same : s.g_thread_id + 1 ≡ f.id = distinct _ _ (e ∙ r.place) in absurd (omega arith)

    empty : at_level malloc priority fs ≡ []
    empty = none_above f.id f.level priority fs o (omega arith)

    pub fork-jumps :
        t_fork (malloc (s.g_thread_id + 1)) 0 0 name (pos priority) s ≡ jumps sched_context after
    fork-jumps =
        (fork_preempts s (malloc (s.g_thread_id + 1)) 0 0 name f.level priority (allocated _) unused
          fits (rw r.place r.is.0) l (malloc (s.g_thread_id + 1)) [] counted h
          (λ z a b. w.queued z ∙ none_above f.id f.level z fs o (omega arith))
          (rw (w.queued priority, empty))).0

    pub fork-Waiting : Waiting malloc after.tcbs after.p_queue after.tcb_waiting (child ∷ f ∷ fs)
    fork-Waiting = record {
      queued = λ z. rw r.place (queued-fork s.p_queue child f fs z h o w.queued);
      ready = (
        (
          rw (r.place, other, ==-refl (malloc child.id)) (refl, refl),
          rw (r.place, other, ==-refl (malloc child.id)) (inl refl),
        ),
        (
          (
            rw (r.place, ==-refl (malloc f.id), older) r.is,
            rw (r.place, ==-refl (malloc f.id), older) (inr (r.flag, inr (_, refl))),
          ),
          Ready-update (update s.tcbs (malloc child.id) fresh_tcb) s.current f.id f.level _ fs
              r.place o
              (Ready-update s.tcbs (malloc child.id) child.id f.level fresh_tcb fs refl
                (weaken fs o) w.ready),
        ),
      );
      nobody =
          nobody_update (update s.tcbs (malloc child.id) fresh_tcb) s.tcb_waiting s.current _
            (nobody_update s.tcbs s.tcb_waiting (malloc child.id) fresh_tcb w.nobody (inl refl))
            (inr refl);
    }
      where
        older : (malloc child.id == malloc f.id) ≡ false
        older = elsewhere child.id f.id (omega arith)

        other : (malloc f.id == malloc child.id) ≡ false
        other = ground (arith, older)

        weaken : (gs : List Frame) → Ordered f.id f.level gs → Ordered child.id f.level gs
        weaken [] h = tt
        weaken (g ∷ gs) (a, b, h) = (omega arith, b, h)
