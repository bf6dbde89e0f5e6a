-- ===== src/System/Turns.antt =====
-- Time slices: the threads of the highest level take turns.
mod Ready
use mathlib.Core.Option
use mathlib.Core.Path.{subst}
use mathlib.Core.List.{append_assoc}
use user_level_thread_librar.Base.{
  ℕ, zero, suc, ◌+◌, ◌<◌, ◌≡◌, ◌≢◌, refl, sym, ap, ◌∙◌, ◌⊎◌, inl, inr, true, false, Option, none,
  some, Bool, List, [], ◌∷◌, ◌++◌, length, ◌==◌, if◌then◌else◌, pos, arith, update, ==-refl,
  Bool-cases,
}
use user_level_thread_librar.System.State.{
  Sys, Ptr, Tcb, Context, in_join, in_timer, in_yield, in_p, in_fork, levels, returns, bind, ◌>>=◌,
}
use user_level_thread_librar.System.Timer.{block, timer_handler, sit_bottom}
use user_level_thread_librar.System.Scheduler.{scheduler, dispatch}
use user_level_thread_librar.System.Machine.{
  Config, in_user, at_sit_bottom, enter, resume, settle, ticks, goes_on, step, interrupt, proceed,
}
use user_level_thread_librar.System.Switch.{left, timer_handler-left}
use user_level_thread_librar.System.Priority.{taken, scheduler-taken}
use user_level_thread_librar.System.Invariant.Defs.{ReadyCounted}
use user_level_thread_librar.System.Invariant.Ready.{snoc_counted}
use user_level_thread_librar.System.Turns.Ready.{
  Immediate, CanRun, AllCanRun, Apart, Distinct, Apart-snoc, Distinct-snoc, AllCanRun-update,
  AllCanRun-started,
}

-- The timer interrupts the running thread, and the library's code goes on until a thread runs.
unfoldable pub slice : Config → Option Config
slice k = Option.bind (step ticks k) (λ l. Option.bind (step goes_on l) (step goes_on))

unfoldable pub slices : ℕ → Config → Option Config
slices zero k = some k
slices (suc n) k = Option.bind (slice k) (slices n)

-- Thread `c` runs, the threads of `ts` are ready at its level `p`, and no thread of a higher level is.
pub record TakesTurns (s : Sys) (p : ℕ) (c : Ptr) (ts : List Ptr) : Type 0 where
  pub runs : s.current ≡ c
  pub priority : (s.tcbs c).priority ≡ pos p
  pub started : (s.tcbs c).flag ≡ 0
  pub queue : s.p_queue p ≡ ts
  pub above : (z : ℕ) → p < z → z < levels → s.p_queue z ≡ []
  pub counted : ReadyCounted s.thread_level_count s.p_queue
  pub can_run : AllCanRun p s.tcbs ts
  pub distinct : Distinct (c ∷ ts)
  pub signal : s.alarm_in_blocksigs ≡ true
  pub open_signal : s.alarm_blocked ≡ false

if-false : {A : Type 0} (b : Bool) (x y : A) → b ≡ false → (if b then x else y) ≡ y
if-false true x y e = cc
if-false false x y e = refl

-- The timer interrupts the user's code of a thread of level `p`.
pub interrupted-left :
    (s : Sys) (p : ℕ)
    → s.alarm_blocked ≡ false
    → (s.tcbs s.current).priority ≡ pos p
    → p < levels
    → step ticks (record { sys = s; control = in_user })
      ≡ some (record { sys = left s in_timer p; control = at_sit_bottom })
unfolding step interrupt
interrupted-left s p b e l =
    if-false s.alarm_blocked none (settle (λ _. in_user) (timer_handler s)) b
    ∙ ap (settle (λ _. in_user)) (timer_handler-left s p e l)

-- The resumed thread runs with the timer signal let through.
resumed :
    (c : Context) (s : Sys)
    → Immediate c
    → s.alarm_in_blocksigs ≡ true
    → bind (resume c s) (λ _ t. returns in_user t)
      ≡ returns in_user (record s { alarm_blocked = false })
unfolding resume
resumed c s (inl e) b = rw (e, b)
resumed c s (inr (inl e)) b = rw (e, b)
resumed c s (inr (inr (inl e))) b = rw (e, b)
resumed c s (inr (inr (inr (inl e)))) b = rw (e, b)
resumed c s (inr (inr (inr (inr (n, e))))) b = rw (e, b)

-- `sitBottom`, and the scheduler after it.
library_goes :
    (s s' : Sys)
    → (scheduler >>= enter) (block s) ≡ returns in_user s'
    → Option.bind (step goes_on (record { sys = s; control = at_sit_bottom })) (step goes_on)
      ≡ some (record { sys = s'; control = in_user })
unfolding step proceed sit_bottom Option.bind
library_goes s s' goes = ap (settle (λ k. k)) goes

module _ (s : Sys) (p : ℕ) (c t : Ptr) (ts : List Ptr) (w : TakesTurns s p c (t ∷ ts))
    (l : p < levels) where
  -- The running thread has been interrupted, and the scheduler has taken the next one.
  abbrev interrupted : Sys
  interrupted = block (left s in_timer p)

  abbrev chosen : Sys
  chosen = taken interrupted p t (ts ++ c ∷ [])

  ticked :
      step ticks (record { sys = s; control = in_user })
      ≡ some (record { sys = left s in_timer p; control = at_sit_bottom })
  ticked = interrupted-left s p w.open_signal (rw w.runs w.priority) l

  requeued : interrupted.p_queue p ≡ t ∷ (ts ++ c ∷ [])
  requeued = rw (==-refl p, w.queue, w.runs)

  scheduled : scheduler interrupted ≡ dispatch chosen
  scheduled =
      scheduler-taken interrupted p t (ts ++ c ∷ [])
        (snoc_counted s.p_queue s.thread_level_count p s.current w.counted) l requeued
        (λ z a b. let low : (p == z) ≡ false = ground arith in rw low (w.above z a b))

  chosen-CanRun : AllCanRun p chosen.tcbs (t ∷ (ts ++ c ∷ []))
  chosen-CanRun =
      subst
        (λ q.
          AllCanRun p (update s.tcbs q (record (s.tcbs q) { context = in_timer }))
            (t ∷ (ts ++ c ∷ [])))
        (sym w.runs) (AllCanRun-update p s.tcbs c (t ∷ ts) w.priority w.started w.can_run)

  rotated : Distinct (t ∷ (ts ++ c ∷ []))
  rotated =
      let ((ne, a), (b, d)) = w.distinct in
      (Apart-snoc t c ts (λ e. ne (sym e)) b, Distinct-snoc c ts a d)

  chosen-ReadyCounted : ReadyCounted chosen.thread_level_count chosen.p_queue
  chosen-ReadyCounted z =
      let before = snoc_counted s.p_queue s.thread_level_count p s.current w.counted in
      ground (arith, before z, before p, requeued)

  abbrev after_with : (Ptr → Tcb) → ℕ → Sys
  after_with tcbs n = record chosen { tcbs = tcbs; thread_count = n; alarm_blocked = false }

  after-TakesTurns :
      (tcbs : Ptr → Tcb) (n : ℕ)
      → (tcbs t).priority ≡ pos p
      → (tcbs t).flag ≡ 0
      → AllCanRun p tcbs (ts ++ c ∷ [])
      → TakesTurns (after_with tcbs n) p t (ts ++ c ∷ [])
  after-TakesTurns tcbs n e f r = record {
    runs = refl;
    priority = e;
    started = f;
    queue = rw (==-refl p);
    above = λ z a b. let low : (p == z) ≡ false = ground arith in rw low (w.above z a b);
    counted = chosen-ReadyCounted;
    can_run = r;
    distinct = rotated;
    signal = w.signal;
    open_signal = refl;
  }

  -- The thread starts, or goes on.
  turned :
      (s' : Sys) × ((scheduler >>= enter) interrupted ≡ returns in_user s')
      × TakesTurns s' p t (ts ++ c ∷ [])
  unfolding dispatch
  turned = elim chosen-CanRun.0.1 [
    | inl new ↦
        (let yes_new : ((chosen.tcbs t).flag == 1) ≡ true = rw new in
          (
            after_with (update chosen.tcbs t (record (chosen.tcbs t) { flag = 0 }))
                (s.thread_count + 1),
            ap (λ o. bind o enter) scheduled ∙ rw (yes_new, w.signal),
            after-TakesTurns (update chosen.tcbs t (record (chosen.tcbs t) { flag = 0 }))
                (s.thread_count + 1) (rw (==-refl t) chosen-CanRun.0.0) (rw (==-refl t))
                (AllCanRun-started p chosen.tcbs t (ts ++ c ∷ []) rotated.0 chosen-CanRun.1),
          ))
    | inr (old, goes) ↦
        (let not_new : ((chosen.tcbs t).flag == 1) ≡ false = rw old in
          (
            after_with chosen.tcbs s.thread_count,
            ap (λ o. bind o enter) scheduled
                ∙ rw not_new (resumed (chosen.tcbs t).context chosen goes w.signal),
            after-TakesTurns chosen.tcbs s.thread_count chosen-CanRun.0.0 old chosen-CanRun.1,
          ))
  ]

  slice-TakesTurns :
      (s' : Sys) × (slice (record { sys = s; control = in_user })
        ≡ some (record { sys = s'; control = in_user }))
      × TakesTurns s' p t (ts ++ c ∷ [])
  unfolding slice Option.bind
  slice-TakesTurns =
      let (s', goes, turns) = turned in
      (
        s',
        ap (λ o. Option.bind o (λ l. Option.bind (step goes_on l) (step goes_on))) ticked
            ∙ library_goes (left s in_timer p) s' goes,
        turns,
      )

-- Each ready thread of the highest level gets its turn: while the running thread and those of its level
-- that stand before `x` use up their time slices, and no thread makes a call, `x` runs after as many
-- slices as there are threads before it, with the running one. Those are then behind it, in their
-- order.
pub every_thread_runs :
    (before after : List Ptr) (s : Sys) (p : ℕ) (c x : Ptr)
    → p < levels
    → TakesTurns s p c (before ++ x ∷ after)
    → (s' : Sys) × (slices (suc (length before)) (record { sys = s; control = in_user })
        ≡ some (record { sys = s'; control = in_user }))
      × TakesTurns s' p x (after ++ c ∷ before)
unfolding slices Option.bind
every_thread_runs [] after s p c x l w =
    let (s', goes, turns) = slice-TakesTurns s p c x after w l in (s', rw goes, turns)
every_thread_runs (b ∷ before) after s p c x l w =
    let (s1, goes, turns) = slice-TakesTurns s p c b (before ++ x ∷ after) w l in
    let (s2, more, last) =
      every_thread_runs before (after ++ c ∷ []) s1 p b x l
        (subst (TakesTurns s1 p b) (append_assoc before (x ∷ after) (c ∷ [])) turns) in
    (s2, rw goes more, subst (TakesTurns s2 p x) (append_assoc after (c ∷ []) (b ∷ before)) last)
