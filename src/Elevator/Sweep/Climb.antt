-- ===== src/Elevator/Sweep/Climb.antt =====
-- Where a move of the elevator takes it.
use user_level_thread_librar.Base.{
  ℕ, suc, ◌≡◌, refl, ◌∙◌, inl, inr, arith, true, false, Bool, Bool-cases, ◌==◌, pos, eq_ℤ,
  if◌then◌else◌,
}
use user_level_thread_librar.Program.{◌>>=◌, ◌>>◌, when}
use user_level_thread_librar.Program.Rely.{Ensures}
use user_level_thread_librar.Elevator.State.{World, Prog, dir_up, dir_down, max_floors}
use user_level_thread_librar.Elevator.Cabin.{is_opened, climb, descend, turn, sink}
use user_level_thread_librar.Elevator.Sweep.Served.{Calm, At, stable}

-- A branch whose test is known.
pub if-known :
    {A : Type 0} (b : Bool) (p q : Prog A) (Q : A → World → Type 0) (w : World)
    → b ≡ true
    → Ensures Calm p Q w
    → Ensures Calm (if b then p else q) Q w
if-known true p q Q w e h = h
if-known false p q Q w e h = cc

pub if-not :
    {A : Type 0} (b : Bool) (p q : Prog A) (Q : A → World → Type 0) (w : World)
    → b ≡ false
    → Ensures Calm q Q w
    → Ensures Calm (if b then p else q) Q w
if-not true p q Q w e h = cc
if-not false p q Q w e h = h

abbrev pub ClosedAt : (floor direction : ℕ) → World → Type 0
ClosedAt n d w = At n d w × (is_opened w.elv.state ≡ false)

pub closed-stable : (n d : ℕ) (w v : World) → Calm w v → ClosedAt n d w → ClosedAt n d v
closed-stable n d w v o (i, c) = (stable n d w v o i, rw o.door c)

-- Where the elevator is after a move: it turns on the last floor, and on the first.
abbrev pub floor_above : ℕ → ℕ
floor_above n = if suc n == max_floors then n else suc n

abbrev pub turned_above : ℕ → ℕ
turned_above n = if suc n == max_floors then dir_down else dir_up

abbrev pub turned_below : ℕ → ℕ
turned_below n = if n == 1 then dir_up else dir_down

top-At :
    (n : ℕ) (w : World)
    → At (suc n) dir_up w
    → Ensures Calm
        (when (eq_ℤ w.elv.current_floor (pos max_floors)) (sink >> turn dir_up dir_down))
        (λ _. At (floor_above n) (turned_above n))
        w
unfolding turn ◌>>=◌
top-At n w (f, e) = elim (Bool-cases (suc n == max_floors)) [
  | inl top ↦ rw top (
      if-known (eq_ℤ w.elv.current_floor (pos max_floors)) _ _ _ w (rw f top) λ v o u p.
        if-known (u.elv.direction == dir_up) _ _ _ u (rw (p.direction, o.direction, e))
          λ x q. (rw (q.floor, p.floor, o.floor, f) (ground arith), refl))
  | inr below ↦
      rw below (if-not (eq_ℤ w.elv.current_floor (pos max_floors)) _ _ _ w (rw f below) (f, e))
]

pub climb-At :
    (n : ℕ) (w : World)
    → At n dir_up w
    → Ensures Calm climb (λ _. At (floor_above n) (turned_above n)) w
unfolding climb ◌>>=◌
climb-At n w (f, e) v o u p x q y r z s = top-At n z (
  rw (s.floor, r.floor, q.floor, p.floor, o.floor, f) (ground arith),
  s.direction ∙ r.direction ∙ q.direction ∙ p.direction ∙ o.direction ∙ e,
)

bottom-At :
    (n : ℕ) (w : World)
    → At n dir_down w
    → Ensures Calm
        (when (eq_ℤ w.elv.current_floor (pos 1)) (turn dir_down dir_up))
        (λ _. At n (turned_below n))
        w
unfolding turn ◌>>=◌
bottom-At n w (f, e) = elim (Bool-cases (n == 1)) [
  | inl bottom ↦ rw bottom (
      if-known (eq_ℤ w.elv.current_floor (pos 1)) _ _ _ w (rw f bottom) λ v o.
        if-known (v.elv.direction == dir_down) _ _ _ v (rw (o.direction, e))
          λ x q. (rw (q.floor, o.floor, f), refl))
  | inr above ↦ rw above (if-not (eq_ℤ w.elv.current_floor (pos 1)) _ _ _ w (rw f above) (f, e))
]

pub descend-At :
    (n : ℕ) (w : World)
    → At (suc n) dir_down w
    → Ensures Calm descend (λ _. At n (turned_below n)) w
unfolding descend ◌>>=◌
descend-At n w (f, e) v o u p x q y r z s = bottom-At n z (
  rw (s.floor, r.floor, q.floor, p.floor, o.floor, f),
  s.direction ∙ r.direction ∙ q.direction ∙ p.direction ∙ o.direction ∙ e,
)
