-- ===== src/System/Joining.antt =====
-- What `t_join` and the end of a thread do together.
use user_level_thread_librar.Base.{
  ◌==◌, Bool-cases, inl, inr, Option, ℕ, zero, suc, ◌+◌, ◌≤◌, ◌<◌, ◌≡◌, refl, ltb, true, false,
  arith, update, lt→ltb,
}
use user_level_thread_librar.System.State.{
  Sys, Ptr, Lock, returns, jumps, faults, sit_bottom_context, max_waiting, max_exited,
}
use user_level_thread_librar.System.Timer.{block, unblock}
use user_level_thread_librar.System.Join.{
  t_join, has_exited, finish_thread, wake_joiners, waits_for_current,
}
use user_level_thread_librar.System.Machine.{
  Call, Config, at_sit_bottom, Event, calls, Reach, here, next,
}
use user_level_thread_librar.System.Lasting.{SparesEvent, step-Lasting}
use user_level_thread_librar.System.Lasting.Calls.{Lasts}
use native.Mathlib.Numerals.{add-one}

pub has_exited-append : (ids : ℕ → ℕ) (n tid : ℕ) → has_exited (update ids n tid) (suc n) tid ≡ true
unfolding has_exited
has_exited-append ids n tid = ground arith

-- No entry below `n` waits for the running thread.
abbrev pub NobodyWaits : Sys → ℕ → Type 0
NobodyWaits s n = (i : ℕ) → i < n → waits_for_current s i ≡ false

wake_joiners-none : (s : Sys) (n : ℕ) → NobodyWaits s n → wake_joiners n s ≡ returns false s
unfolding wake_joiners
wake_joiners-none s zero none_wait = refl
wake_joiners-none s (suc i) none_wait =
    rw (wake_joiners-none s i (λ j h. none_wait j (omega arith)), none_wait i (omega arith))

-- The running thread's identifier has been recorded.
abbrev pub recorded : Sys → Sys
recorded s = record s {
  exited_thread_ids = update s.exited_thread_ids s.exit_thread_index (s.tcbs s.current).tid;
  exit_thread_index = s.exit_thread_index + 1;
}

module _ (tid : ℕ) where
  abbrev HasEnded : (Ptr → Option Lock) → (ℕ → ℕ) → ℕ → Type 0
  HasEnded locks ids n = has_exited ids n tid ≡ true

  has_exited-update :
      (ids : ℕ → ℕ) (n m t : ℕ)
      → m ≤ n
      → has_exited ids m tid ≡ true
      → has_exited (update ids n t) m tid ≡ true
  unfolding has_exited
  has_exited-update ids n zero t l h = cc
  has_exited-update ids n (suc m) t l h =
      let other : (n == m) ≡ false = ground arith in
      elim (Bool-cases (tid == ids m)) [
        | inl e ↦ rw (other, e) refl
        | inr e ↦ rw (other, e) (has_exited-update ids n m t (omega arith) (rw e at h))
      ]

  record_more :
      (ids : ℕ → ℕ) (n t : ℕ)
      → has_exited ids n tid ≡ true
      → has_exited (update ids n t) (suc n) tid ≡ true
  unfolding has_exited
  record_more ids n t h = ground (arith, has_exited-update ids n n t (omega arith) h)

  lasts : Lasts HasEnded
  lasts = record {
    takes = λ locks ids n x w. w;
    records = λ locks ids n t w. rw add-one (record_more ids n t w);
  }

  spared :
      (s : Sys) (e : Event)
      → HasEnded s.locks s.exited_thread_ids s.exit_thread_index
      → SparesEvent HasEnded lasts s e
  spared s (calls (Call.releases x)) w = w
  spared s (calls (Call.waits c x)) w = w
  spared s (calls (Call.creates_lock fresh)) w = w
  spared s (calls (Call.destroys_cond c)) w = λ k e. w
  spared s e w = tt

  Reach-HasEnded :
      (k m : Config)
      → HasEnded k.sys.locks k.sys.exited_thread_ids k.sys.exit_thread_index
      → Reach k m
      → HasEnded m.sys.locks m.sys.exited_thread_ids m.sys.exit_thread_index
  Reach-HasEnded k _ w here = w
  Reach-HasEnded k n w (next {l = m} r e q) =
      let ended = Reach-HasEnded k m w r in
      step-Lasting HasEnded lasts e m n (spared m.sys e ended) ended q

-- A thread that ends with nobody waiting for it is recorded, while fewer than 50 are, and after any
-- history of calls, timer interrupts and dispatches from then on, whichever thread runs, `t_join` on
-- its identifier returns at once.
pub finish-join :
    (s : Sys)
    → NobodyWaits s max_waiting
    → s.exit_thread_index < max_exited
    → (finish_thread s ≡ jumps sit_bottom_context (recorded s))
      × ((m : Config)
          → Reach (record { sys = recorded s; control = at_sit_bottom }) m
          → t_join (s.tcbs s.current).tid m.sys ≡ returns tt (unblock (block m.sys)))
unfolding finish_thread t_join
finish-join s none_wait room = (
  rw (wake_joiners-none s max_waiting none_wait, lt→ltb _ _ room),
  λ m r. rw (
      Reach-HasEnded (s.tcbs s.current).tid (record { sys = recorded s; control = at_sit_bottom }) m
        (rw add-one (has_exited-append s.exited_thread_ids s.exit_thread_index _)) r),
)

-- The 51st thread that ends unjoined writes past the end of `exitedThreadIDs`.
pub finish_overflows :
    (s : Sys)
    → NobodyWaits s max_waiting
    → max_exited ≤ s.exit_thread_index
    → finish_thread s ≡ faults
unfolding finish_thread
finish_overflows s none_wait full =
    let out : ltb s.exit_thread_index max_exited ≡ false = ground arith in
    rw (wake_joiners-none s max_waiting none_wait, out)
