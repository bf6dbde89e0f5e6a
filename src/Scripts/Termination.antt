-- ===== src/Scripts/Termination.antt =====
-- A program with nested priorities comes to its end and prints what its calls would print.
use mathlib.Core.Path.{subst}
use mathlib.Core.List.{append-nil}
use mathlib.Core.Option
use mathlib.Core.Option.{some-injective}
use user_level_thread_librar.Base.{
  ℕ, zero, suc, ◌+◌, ◌<◌, ◌≡◌, ◌≢◌, refl, sym, ◌∙◌, List, [], ◌∷◌, arith, some,
}
use user_level_thread_librar.System.State.{Sys, Ptr}
use user_level_thread_librar.System.Machine.{
  Control, in_user, at_scheduler, at_sit_bottom, ended, spinning, step, proceed,
}
use user_level_thread_librar.Scripts.{
  Code, Run, Move, acts, is_interrupted, proceeds, move, finish, next_move,
}
use user_level_thread_librar.Scripts.Nesting.{Frame}
use user_level_thread_librar.Scripts.Invariant.{run_of, Invariant, measure, Advances}
use user_level_thread_librar.Scripts.Acts.{advance_acts}
use user_level_thread_librar.Scripts.Library.{
  advance_sit_bottom, advance_scheduler, interrupted-Invariant,
}

-- Moves in any order, with as many interrupts as the timer makes.
pub data Reach (malloc : ℕ → Ptr) (r : Run) : Run → Type 0 where
  here : Reach malloc r r
  then_moves :
      {q t : Run} → Reach malloc r q → (m : Move) → move malloc m q ≡ some t → Reach malloc r t

module _ (malloc : ℕ → Ptr) (distinct : (i j : ℕ) → malloc i ≡ malloc j → i ≡ j)
    (allocated : (i : ℕ) → malloc i ≢ 0) (full : List ℕ) where
  -- While the program has not ended, its next move succeeds.
  advances :
      (s : Sys) (k : Control) (code : ℕ → Code) (tid : ℕ → ℕ) (out : List ℕ) (fs : List Frame)
      → k ≢ ended
      → Invariant malloc (run_of s k code tid out) full fs
      → Advances malloc (next_move k) (run_of s k code tid out) full fs
  advances s in_user code tid out [] ne inv = absurd inv.threads
  advances s in_user code tid out (f ∷ fs) ne inv =
      advance_acts malloc distinct allocated s code tid out full f fs inv
  advances s at_scheduler code tid out fs ne inv =
      advance_scheduler malloc distinct s code tid out full fs inv
  advances s at_sit_bottom code tid out fs ne inv =
      advance_sit_bottom malloc distinct s code tid out full fs inv
  advances s ended code tid out fs ne inv = absurd (ne refl)
  advances s (spinning l) code tid out fs ne inv = absurd inv.threads

  moved :
      (m : Move) (r : Run) (fs : List Frame) (t : Run)
      → Advances malloc m r full fs
      → move malloc m r ≡ some t
      → (gs : List Frame) × Invariant malloc t full gs
  moved m r fs t a e = (
    a.frames,
    subst (λ q. Invariant malloc q full a.frames) (some-injective a.next t (sym a.moves ∙ e))
        a.keeps,
  )

  -- No move but the next one and an interrupt is possible.
  move-Invariant :
      (m : Move) (s : Sys) (k : Control) (code : ℕ → Code) (tid : ℕ → ℕ) (out : List ℕ)
      (fs : List Frame) (t : Run)
      → Invariant malloc (run_of s k code tid out) full fs
      → move malloc m (run_of s k code tid out) ≡ some t
      → (gs : List Frame) × Invariant malloc t full gs
  unfolding move step proceed
  move-Invariant is_interrupted s k code tid out fs t inv e =
      (fs, interrupted-Invariant malloc distinct s code tid out full k fs t inv e)
  move-Invariant acts s in_user code tid out fs t inv e =
      moved acts (run_of s in_user code tid out) fs t
        (advances s in_user code tid out fs (λ q. cc) inv) e
  move-Invariant acts s at_scheduler code tid out fs t inv e = cc
  move-Invariant acts s at_sit_bottom code tid out fs t inv e = cc
  move-Invariant acts s ended code tid out fs t inv e = cc
  move-Invariant acts s (spinning l) code tid out fs t inv e = cc
  move-Invariant proceeds s in_user code tid out fs t inv e = cc
  move-Invariant proceeds s at_scheduler code tid out fs t inv e =
      moved proceeds (run_of s at_scheduler code tid out) fs t
        (advances s at_scheduler code tid out fs (λ q. cc) inv) e
  move-Invariant proceeds s at_sit_bottom code tid out fs t inv e =
      moved proceeds (run_of s at_sit_bottom code tid out) fs t
        (advances s at_sit_bottom code tid out fs (λ q. cc) inv) e
  move-Invariant proceeds s ended code tid out fs t inv e = cc
  move-Invariant proceeds s (spinning l) code tid out fs t inv e = absurd inv.threads

  Reach-Invariant :
      (r t : Run) (fs : List Frame)
      → Invariant malloc r full fs
      → Reach malloc r t
      → (gs : List Frame) × Invariant malloc t full gs
  Reach-Invariant r _ fs inv here = (fs, inv)
  Reach-Invariant r t fs inv (then_moves {q} h m e) =
      let (gs, keeps) = Reach-Invariant r q fs inv h in
      move-Invariant m q.config.sys q.config.control q.code q.tid q.out gs t keeps e

  -- Enough fuel.
  pub finish_ends :
      (fuel : ℕ) (s : Sys) (k : Control) (code : ℕ → Code) (tid : ℕ → ℕ) (out : List ℕ)
      (fs : List Frame)
      → Invariant malloc (run_of s k code tid out) full fs
      → measure malloc (run_of s k code tid out) fs < fuel
      → (t : Run) × (finish malloc fuel (run_of s k code tid out) ≡ some t)
        × (t.config.control ≡ ended)
        × (t.out ≡ full)
  unfolding finish Option.bind
  finish_ends zero s k code tid out fs inv l = absurd (omega arith)
  finish_ends (suc fuel) s ended code tid out fs inv l = (
    run_of s ended code tid out,
    refl,
    refl,
    sym (append-nil out) ∙ (rw inv.threads at inv.printed),
  )
  finish_ends (suc fuel) s (spinning p) code tid out fs inv l = absurd inv.threads
  finish_ends (suc fuel) s in_user code tid out fs inv l =
      let a = advances s in_user code tid out fs (λ q. cc) inv in
      let t = a.next in
      rw a.moves (
        finish_ends fuel t.config.sys t.config.control t.code t.tid t.out a.frames a.keeps
          (omega (arith, a.nearer)))
  finish_ends (suc fuel) s at_scheduler code tid out fs inv l =
      let a = advances s at_scheduler code tid out fs (λ q. cc) inv in
      let t = a.next in
      rw a.moves (
        finish_ends fuel t.config.sys t.config.control t.code t.tid t.out a.frames a.keeps
          (omega (arith, a.nearer)))
  finish_ends (suc fuel) s at_sit_bottom code tid out fs inv l =
      let a = advances s at_sit_bottom code tid out fs (λ q. cc) inv in
      let t = a.next in
      rw a.moves (
        finish_ends fuel t.config.sys t.config.control t.code t.tid t.out a.frames a.keeps
          (omega (arith, a.nearer)))

  -- From each configuration that is reached, whatever the timer has done, and from where it is quiet.
  pub reached_finishes :
      (r t : Run) (fs : List Frame)
      → Invariant malloc r full fs
      → Reach malloc r t
      → (fuel : ℕ) × (u : Run) × (finish malloc fuel t ≡ some u)
        × (u.config.control ≡ ended)
        × (u.out ≡ full)
  reached_finishes r t fs inv h =
      let (gs, keeps) = Reach-Invariant r t fs inv h in
      let (u, e, k, o) =
        finish_ends (measure malloc t gs + 1) t.config.sys t.config.control t.code t.tid t.out gs
          keeps (omega arith) in
      (measure malloc t gs + 1, u, e, k, o)
