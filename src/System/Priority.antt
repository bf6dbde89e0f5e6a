-- ===== src/System/Priority.antt =====
-- The scan of the levels finds the highest one in use, and the scheduler takes its oldest thread.
use user_level_thread_librar.Base.{
  ℕ, zero, suc, ◌+◌, ◌-◌, ◌≤◌, ◌<◌, ◌≡◌, ◌≢◌, refl, ◌==◌, if◌then◌else◌, true, false, inl, inr, ◌⊎◌,
  none, some, List, [], ◌∷◌, arith, length, update, sym, ap, ◌∙◌, Bool-cases, Option-cases,
}
use native.Mathlib.Decide.{dec_lt}
use user_level_thread_librar.System.State.{Sys, Ptr, Tcb, Outcome, returns, levels, set_tcb}
use user_level_thread_librar.System.Timer.{block, unblock}
use user_level_thread_librar.System.Scheduler.{
  scan, dispatch, take_level, scheduler, Next, starts, restores, no_threads,
}
use user_level_thread_librar.System.Invariant.Defs.{ReadyCounted}

length-zero : (xs : List Ptr) → length xs ≡ 0 → xs ≡ []
length-zero [] e = refl
length-zero (x ∷ xs) e = absurd (omega arith)

length-pos : (xs : List Ptr) → length xs ≢ 0 → (t : Ptr) × (rest : List Ptr) × (xs ≡ t ∷ rest)
length-pos [] ne = absurd (ne refl)
length-pos (x ∷ xs) ne = (x, xs, refl)

-- The scan returns the last level below `n` with a count.
pub scan-some :
    (count : ℕ → ℕ) (n y : ℕ)
    → scan count n ≡ some y
    → (y < n) × (count y ≢ 0) × ((z : ℕ) → y < z → z < n → count z ≡ 0)
unfolding scan
scan-some count zero y e = cc
scan-some count (suc n) y e = elim (Bool-cases (count n == 0)) [
  | inl none_here ↦
      let (lt, ne, above) = scan-some count n y (ground arith) in
      (omega arith, ne, λ z l h. ground (arith, above z))
  | inr here ↦
      let at_n : n ≡ y = ground arith in (omega arith, ground arith, λ z l h. absurd (omega arith))
]

pub scan-none : (count : ℕ → ℕ) (n : ℕ) → scan count n ≡ none → (z : ℕ) → z < n → count z ≡ 0
unfolding scan
scan-none count zero e z h = absurd (omega arith)
scan-none count (suc n) e z h = elim (Bool-cases (count n == 0)) [
  | inl none_here ↦ elim (dec_lt z n) [
    | yes below ↦ scan-none count n (ground arith) z below
    | no top ↦
        let at_n : n ≡ z = omega arith in
        let empty : count n ≡ 0 = ground arith in ap count (sym at_n) ∙ empty
  ]
  | inr here ↦ ground arith
]

pub scan_highest :
    (count : ℕ → ℕ) (n y : ℕ)
    → y < n
    → count y ≢ 0
    → ((z : ℕ) → y < z → z < n → count z ≡ 0)
    → scan count n ≡ some y
unfolding scan
scan_highest count zero y l ne above = absurd (omega arith)
scan_highest count (suc n) y l ne above = elim (Bool-cases (count n == 0)) [
  | inl e ↦ rw (e, scan) (scan_highest count n y (below e) ne (λ z a b. above z a (omega arith)))
  | inr e ↦ let at_n : n ≡ y = top e in rw (e, scan) (ap some at_n)
]
  where
    below : (count n == 0) ≡ true → y < n
    below e = elim (dec_lt y n) [
      | yes lt ↦ lt
      | no ge ↦
          let at_n : n ≡ y = omega arith in
          let here : count n ≡ 0 = ground arith in absurd (ne (ap count (sym at_n) ∙ here))
    ]

    top : (count n == 0) ≡ false → n ≡ y
    top e = elim (dec_lt y n) [
      | yes lt ↦ let here : count n ≡ 0 = above n lt (omega arith) in ground arith
      | no ge ↦ omega arith
    ]

-- The state in which the scheduler has taken `t` from level `y`.
abbrev pub taken : Sys → ℕ → Ptr → List Ptr → Sys
taken s y t rest = record (block (record s { first_run = 1 })) {
  current = t;
  p_queue = update s.p_queue y rest;
  thread_level_count = update s.thread_level_count y (s.thread_level_count y - 1);
}

take_level-taken :
    (s : Sys) (y : ℕ) (t : Ptr) (rest : List Ptr)
    → s.p_queue y ≡ t ∷ rest
    → take_level y (block (record s { first_run = 1 })) ≡ returns tt (taken s y t rest)
unfolding take_level
take_level-taken s y t rest e = rw e

-- What a thread with TCB `b` does when it is dispatched.
abbrev pub next_of : Tcb → Next
next_of b = if b.flag == 1 then starts b.func b.arg else restores b.context

-- The thread is dispatched: it runs, at the point where it left off or at its function's start, and
-- its flag says from then on that it has started.
pub record Dispatched (s : Sys) (y : ℕ) (t : Ptr) (rest : List Ptr) (o : Outcome Next)
    : Type 0 where
  pub after : Sys
  pub runs : o ≡ returns (next_of (s.tcbs t)) after
  pub current : after.current ≡ t
  pub level : after.p_queue y ≡ rest
  pub others : (z : ℕ) → z ≢ y → after.p_queue z ≡ s.p_queue z
  pub started : (s.tcbs t).flag ≤ 1 → (after.tcbs t).flag ≡ 0

module _ (s : Sys) (y : ℕ) (t : Ptr) (rest : List Ptr) where
  -- A new thread counts, and runs with the timer signal let through.
  first_run_of : Sys
  first_run_of =
      let s' = taken s y t rest in
      unblock
        (set_tcb t (λ b. record b { flag = 0 }) (record s' { thread_count = s'.thread_count + 1 }))

  dispatch-taken : Dispatched s y t rest (dispatch (taken s y t rest))
  unfolding dispatch first_run_of
  dispatch-taken = elim (Bool-cases ((s.tcbs t).flag == 1)) [
    | inl e ↦ record {
      after = first_run_of;
      runs = rw e;
      current = refl;
      level = ground arith;
      others = λ z ne. ground arith;
      started = λ small. ground arith;
    }
    | inr e ↦ record {
      after = taken s y t rest;
      runs = rw e;
      current = refl;
      level = ground arith;
      others = λ z ne. ground arith;
      started = λ small. ground arith;
    }
  ]

-- The scheduler takes the oldest thread of the highest level that holds one.
pub scheduler-taken :
    (s : Sys) (y : ℕ) (t : Ptr) (rest : List Ptr)
    → ReadyCounted s.thread_level_count s.p_queue
    → y < levels
    → s.p_queue y ≡ t ∷ rest
    → ((z : ℕ) → y < z → z < levels → s.p_queue z ≡ [])
    → scheduler s ≡ dispatch (taken s y t rest)
unfolding scheduler
scheduler-taken s y t rest w l e above =
    rw (scan_highest s.thread_level_count levels y l used empty, take_level-taken s y t rest e)
  where
    used : s.thread_level_count y ≢ 0
    used = ground (arith, w y, e)

    empty : (z : ℕ) → y < z → z < levels → s.thread_level_count z ≡ 0
    empty z a b = ground (arith, w z, above z a b)

-- With counters that agree with the queues, the scheduler dispatches the oldest thread of the highest
-- level that holds one.
pub scheduler_highest :
    (s : Sys) (y : ℕ) (t : Ptr) (rest : List Ptr)
    → ReadyCounted s.thread_level_count s.p_queue
    → y < levels
    → s.p_queue y ≡ t ∷ rest
    → ((z : ℕ) → y < z → z < levels → s.p_queue z ≡ [])
    → Dispatched s y t rest (scheduler s)
scheduler_highest s y t rest w l e above =
    rw (scheduler-taken s y t rest w l e above) (dispatch-taken s y t rest)

-- The scheduler never reads an empty queue: it dispatches a thread, or every level is empty and it
-- returns to `t_start`.
pub scheduler_total :
    (s : Sys)
    → ReadyCounted s.thread_level_count s.p_queue
    → ((y : ℕ) × (t : Ptr) × (rest : List Ptr) × (y < levels)
        × (s.p_queue y ≡ t ∷ rest)
        × ((z : ℕ) → y < z → z < levels → s.p_queue z ≡ [])
        × Dispatched s y t rest (scheduler s))
      ⊎ (((z : ℕ) → z < levels → s.p_queue z ≡ [])
          × (scheduler s ≡ returns no_threads (block (record s { first_run = 1 }))))
unfolding scheduler
scheduler_total s w = elim (Option-cases (scan s.thread_level_count levels)) [
  | inl e ↦ inr (λ z l. empty_of z (scan-none s.thread_level_count levels e z l), rw e)
  | inr (y, e) ↦
      let (l, ne, above) = scan-some s.thread_level_count levels y e in
      let (t, rest, q) = nonempty_of y ne in
      let clear : (z : ℕ) → y < z → z < levels → s.p_queue z ≡ [] =
        λ z a b. empty_of z (above z a b) in
      inl (y, t, rest, l, q, clear, scheduler_highest s y t rest w l q clear)
]
  where
    empty_of : (z : ℕ) → s.thread_level_count z ≡ 0 → s.p_queue z ≡ []
    empty_of z e = length-zero (s.p_queue z) (sym (w z) ∙ e)

    nonempty_of :
        (y : ℕ)
        → s.thread_level_count y ≢ 0
        → (t : Ptr) × (rest : List Ptr) × (s.p_queue y ≡ t ∷ rest)
    nonempty_of y ne = length-pos (s.p_queue y) (λ e. ne (w y ∙ e))

pub scan_empty : (count : ℕ → ℕ) (n : ℕ) → ((z : ℕ) → z < n → count z ≡ 0) → scan count n ≡ none
unfolding scan
scan_empty count zero none_here = refl
scan_empty count (suc n) none_here =
    rw (none_here n (omega arith), scan) (scan_empty count n λ z h. none_here z (omega arith))
