-- ===== src/Elevator/Position.antt =====
-- Where the elevator is, what the other threads leave alone, and the rules of `Program.Rely` for both.
use user_level_thread_librar.Base.{
  ℕ, ◌≤◌, ◌<◌, ◌≡◌, refl, ◌∙◌, ◌⊎◌, inl, inr, Bool, true, false, if◌then◌else◌, ℤ, pos,
}
use user_level_thread_librar.Program.Rely.{Ensures}
use user_level_thread_librar.Elevator.State.{World, Prog, dir_up, dir_down, max_floors}
use user_level_thread_librar.Elevator.Staying.{Stays, Keeps}

-- A floor number from 1 to 10.
abbrev pub IsFloor : ℤ → Type 0
IsFloor z = (n : ℕ) × (z ≡ pos n) × (1 ≤ n) × (n < max_floors)

-- The floor, the direction and the door belong to the elevator, and no President calls or leaves.
pub record Others (w v : World) : Type 0 where
  pub floor : v.elv.current_floor ≡ w.elv.current_floor
  pub direction : v.elv.direction ≡ w.elv.direction
  pub door : v.elv.state ≡ w.elv.state
  pub presidents : v.bld.set_president ≡ w.bld.set_president

-- The elevator is at a floor, and does not leave the lowest one downwards.
abbrev pub Position : ℤ → ℕ → Type 0
Position floor direction =
    (n : ℕ) × (floor ≡ pos n)
    × (1 ≤ n)
    × (n < max_floors)
    × ((direction ≡ dir_up) ⊎ ((direction ≡ dir_down) × (2 ≤ n)))

-- So it is, and no President has called.
abbrev pub InRange : World → Type 0
InRange w = (w.bld.set_president ≡ pos 0) × Position w.elv.current_floor w.elv.direction

pub InRange-stable : (w v : World) → Others w v → InRange w → InRange v
InRange-stable w v o (a, (n, f, low, high, d)) =
    (o.presidents ∙ a, (n, o.floor ∙ f, low, high, facing d))
  where
    facing :
        ((w.elv.direction ≡ dir_up) ⊎ ((w.elv.direction ≡ dir_down) × (2 ≤ n)))
        → ((v.elv.direction ≡ dir_up) ⊎ ((v.elv.direction ≡ dir_down) × (2 ≤ n)))
    facing (inl e) = inl (o.direction ∙ e)
    facing (inr (e, l)) = inr (o.direction ∙ e, l)

pub in_range : Stays Others InRange
in_range = record {
  stable = InRange-stable;
  at_floor = λ w (a, (n, e, low, high, d)). (n, e, high);
  any_state = λ w s i. i;
  any_bld = λ w b e (a, i). (e ∙ a, i);
}

pub Keeps-Ensures :
    {A : Type 0} (p : Prog A)
    → Keeps in_range p
    → (w : World) → InRange w
    → Ensures Others p (λ _. InRange) w
unfolding Keeps
Keeps-Ensures p k = k

-- A branch whose test is known.
pub if-Ensures :
    {A : Type 0} (b : Bool) (p q : Prog A) (Q : A → World → Type 0) (w : World)
    → (b ≡ true → Ensures Others p Q w)
    → (b ≡ false → Ensures Others q Q w)
    → Ensures Others (if b then p else q) Q w
if-Ensures true p q Q w yes_case no_case = yes_case refl
if-Ensures false p q Q w yes_case no_case = no_case refl

pub moved :
    (w v : World) (d : ℕ)
    → Others w v
    → Position w.elv.current_floor d
    → Position v.elv.current_floor d
moved w v d o (n, e, low, high, facing) = (n, o.floor ∙ e, low, high, facing)
