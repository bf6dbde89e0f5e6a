-- ===== src/System/Hang.antt =====
-- A time slice that ends between `t_sig` and `lock_release`.
use mathlib.Core.Option
use mathlib.Core.Path.{subst}
use user_level_thread_librar.Base.{
  ℕ, suc, ◌≤◌, ◌<◌, ◌≡◌, ◌≢◌, refl, ap, ◌∙◌, inl, inr, true, false, Option, some, List, [], ◌∷◌,
  ◌==◌, if◌then◌else◌, pos, arith, ==-refl, Bool-cases,
}
use user_level_thread_librar.System.State.{
  Sys, Ptr, Condition, in_timer, in_wait, levels, returns, jumps, sit_bottom_context, spins, at,
  bind, ◌>>=◌,
}
use user_level_thread_librar.System.Timer.{block, unblock, timer_handler, sit_bottom}
use user_level_thread_librar.System.Scheduler.{scheduler, dispatch}
use user_level_thread_librar.System.Condition.{t_sig}
use user_level_thread_librar.System.Machine.{
  Config, in_user, at_sit_bottom, spinning, enter, resume, settle, calls, signals, ticks, goes_on,
  step, proceed, user_call, exec, Reach,
}
use user_level_thread_librar.System.Switch.{left, timer_handler-left}
use user_level_thread_librar.System.Priority.{taken, scheduler-taken}
use user_level_thread_librar.System.Wake.{signalled, sig_wakes_highest}
use user_level_thread_librar.System.Blocked.{woken_waiter_hangs}
use user_level_thread_librar.System.Turns.{slice, interrupted-left}
use user_level_thread_librar.System.Invariant.Defs.{IsWf, Keeps}
use user_level_thread_librar.System.Invariant.Conditions.{t_sig-IsWf}
use user_level_thread_librar.System.Invariant.Ready.{timer_handler-IsWf}

-- The running thread signals, and its time slice ends.
unfoldable pub signal_and_tick : (c : Ptr) (val : ℕ) (lock : Ptr) → Config → Option Config
signal_and_tick c val lock k = Option.bind (step (calls (signals c val lock)) k) slice

-- The running thread, of level `p`, holds lock `l`, and `t` waits on condition `c` of value `k`, in
-- level `q`. Nobody else of that level or a higher one is ready, or waits on the condition above it.
pub record HoldsAndWaits (s : Sys) (l : Ptr) (n : ℕ) (p : ℕ) (c : Ptr) (k : Condition) (q : ℕ)
    (t : Ptr) (rest : List Ptr) : Type 0 where
  pub counted : IsWf s
  pub held : at s.locks l ≡ some (record { shared = suc n })
  pub mine : (s.tcbs s.current).priority ≡ pos p
  pub level : p < levels
  pub condition : at s.conditions c ≡ some k
  pub waits : k.waiters q ≡ t ∷ rest
  pub first : (z : ℕ) → q < z → z < levels → k.waiters z ≡ []
  pub priority : (s.tcbs t).priority ≡ pos q
  pub waits_level : q < levels
  pub goes_before : p ≤ q
  pub flag : (s.tcbs t).flag ≡ 0
  pub context : (s.tcbs t).context ≡ in_wait
  pub other : t ≢ s.current
  pub idle : (z : ℕ) → q ≤ z → z < levels → s.p_queue z ≡ []
  pub signal : s.alarm_in_blocksigs ≡ true

module _ (s : Sys) (l : Ptr) (n p : ℕ) (c : Ptr) (k : Condition) (q : ℕ) (t : Ptr) (rest : List Ptr)
    (val : ℕ) (h : HoldsAndWaits s l n p c k q t rest) where
  abbrev woken : Sys
  woken = unblock (signalled (block s) c k q t rest l q)

  sig-woken : t_sig c val l s ≡ returns tt woken
  sig-woken =
      sig_wakes_highest s c l val k h.counted h.condition q q t rest h.waits_level h.waits h.first
        h.priority h.waits_level

  woken-IsWf : IsWf woken
  woken-IsWf = subst (Keeps IsWf) sig-woken (t_sig-IsWf c val l s h.counted)

  apart : (t == s.current) ≡ false
  apart = let ne = h.other in ground arith

  apart' : (s.current == t) ≡ false
  apart' = let ne = h.other in ground arith

  tick-left : timer_handler woken ≡ jumps sit_bottom_context (left woken in_timer p)
  tick-left = timer_handler-left woken p (rw apart h.mine) h.level

  -- `sitBottom` has run.
  abbrev ready : Sys
  ready = block (left woken in_timer p)

  ready-IsWf : IsWf ready
  ready-IsWf = subst (Keeps IsWf) tick-left (timer_handler-IsWf woken woken-IsWf)

  abbrev behind : List Ptr
  behind = if p == q then s.current ∷ [] else []

  front : ready.p_queue q ≡ t ∷ behind
  front =
      let none_here = h.idle q (omega arith) h.waits_level in
      elim (Bool-cases (p == q)) [
        | inl same ↦ ground (arith, none_here)
        | inr lower ↦ ground (arith, none_here)
      ]

  above : (z : ℕ) → q < z → z < levels → ready.p_queue z ≡ []
  above z a b =
      let none_here = h.idle z (omega arith) b in
      let lower = h.goes_before in ground (arith, none_here)

  abbrev chosen : Sys
  chosen = taken ready q t behind

  scheduled : scheduler ready ≡ dispatch chosen
  scheduled = scheduler-taken ready q t behind ready-IsWf.ready h.waits_level front above

  ticked :
      step ticks (record { sys = woken; control = in_user })
      ≡ some (record { sys = left woken in_timer p; control = at_sit_bottom })
  ticked = interrupted-left woken p (rw h.signal) (rw apart h.mine) h.level

  goes_on_there :
      Option.bind
        (step goes_on (record { sys = left woken in_timer p; control = at_sit_bottom }))
        (step goes_on)
      ≡ settle (λ k. k) ((scheduler >>= enter) ready)
  unfolding step proceed sit_bottom Option.bind
  goes_on_there = refl

  old : ((chosen.tcbs t).flag == 1) ≡ false
  old = rw (==-refl t, apart', h.flag)

  resumed_in : (chosen.tcbs t).context ≡ in_wait
  resumed_in = rw (==-refl t, apart', h.context)

  given_lock : (chosen.tcbs chosen.current).arg ≡ l
  given_lock = rw (==-refl t, apart')

  hangs :
      (resume in_wait chosen ≡ spins l chosen)
      × ((m : Config)
          → Reach (record { sys = chosen; control = spinning l }) m
          → m ≡ record { sys = chosen; control = spinning l })
  hangs = woken_waiter_hangs chosen l n given_lock (rw h.signal) h.held

  dispatched : (scheduler >>= enter) ready ≡ spins l chosen
  unfolding dispatch
  dispatched = ap (λ o. bind o enter) scheduled ∙ rw (old, resumed_in, hangs.0)

-- A thread holds a lock and signals with it, and its time slice ends before it releases the lock: if
-- the waiter that the signal wakes is of its level or of a higher one, and no other thread of those levels is ready,
-- the waiter turns in `lock_acquire` with the timer signal blocked, and no call, interrupt or dispatch
-- leads anywhere else.
pub interrupted_signaller_hangs :
    (s : Sys) (l : Ptr) (n p : ℕ) (c : Ptr) (k : Condition) (q : ℕ) (t : Ptr) (rest : List Ptr)
    (val : ℕ)
    → HoldsAndWaits s l n p c k q t rest
    → (s' : Sys) × (signal_and_tick c val l (record { sys = s; control = in_user })
        ≡ some (record { sys = s'; control = spinning l }))
      × (s'.current ≡ t)
      × ((m : Config)
          → Reach (record { sys = s'; control = spinning l }) m
          → m ≡ record { sys = s'; control = spinning l })
unfolding signal_and_tick slice step user_call exec Option.bind
interrupted_signaller_hangs s l n p c k q t rest val h = (
  chosen s l n p c k q t rest val h,
  ap (λ o. Option.bind (settle (λ _. in_user) o) slice) (sig-woken s l n p c k q t rest val h)
      ∙ ap (λ o. Option.bind o (λ m. Option.bind (step goes_on m) (step goes_on)))
          (ticked s l n p c k q t rest val h)
      ∙ goes_on_there s l n p c k q t rest val h
      ∙ ap (settle (λ k. k)) (dispatched s l n p c k q t rest val h),
  refl,
  (hangs s l n p c k q t rest val h).1,
)
