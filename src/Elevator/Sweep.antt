-- ===== src/Elevator/Sweep.antt =====
-- While no President calls, the elevator comes to every floor, in both directions.
pub mod Served
mod Climb
mod Round
use mathlib.Core.Path.{subst}
use user_level_thread_librar.Base.{
  ℕ, zero, suc, ◌+◌, ◌-◌, ◌≤◌, ◌<◌, ◌≡◌, refl, ◌∙◌, ◌⊎◌, inl, inr, arith, true, false, Bool,
  Bool-cases, ◌==◌, ltb, pos, if◌then◌else◌,
}
use user_level_thread_librar.Program.{◌>>=◌}
use user_level_thread_librar.Program.Rely.{Ensures, Ensures-bind, Ensures-mono}
use user_level_thread_librar.Elevator.State.{World, Prog, dir_up, dir_down, max_floors}
use user_level_thread_librar.Elevator.Rounds.{round, rounds}
use user_level_thread_librar.Elevator.Position.{Position, InRange}
use user_level_thread_librar.Elevator.Sweep.Served.{Calm, At}
use user_level_thread_librar.Elevator.Sweep.Climb.{floor_above, turned_above, turned_below}
use user_level_thread_librar.Elevator.Sweep.Round.{round_up-At, round_down-At}

-- The stops of one sweep up and down, from the first floor upwards.
abbrev stops : ℕ
stops = 19

abbrev floor_of : ℕ → ℕ
floor_of i = if ltb i 10 then i + 1 else 20 - i

abbrev direction_of : ℕ → ℕ
direction_of i = if ltb i 10 then dir_up else dir_down

abbrev next_stop : ℕ → ℕ
next_stop i = if i == 18 then 0 else i + 1

abbrev AtStop : ℕ → World → Type 0
AtStop i = At (floor_of i) (direction_of i)

At-eq : (m n d e : ℕ) (w : World) → m ≡ n → d ≡ e → At m d w → At n e w
At-eq m n d e w f g (a, b) = (rw (← f) a, b ∙ g)

round-AtStop :
    (i : ℕ) (w : World) → i < stops → AtStop i w → Ensures Calm round (λ _. AtStop (next_stop i)) w
round-AtStop i w l h = elim (Bool-cases (ltb i 10)) [
  | inl up ↦
      Ensures-mono Calm (λ _. At (floor_above (i + 1)) (turned_above (i + 1))) _ round w
        (λ _ v. At-eq _ _ _ _ v (ground arith) (ground arith))
        (round_up-At (i + 1) w (ground arith) (At-eq _ _ _ _ w (ground arith) (ground arith) h))
  | inr down ↦
      Ensures-mono Calm (λ _. At (19 - i) (turned_below (19 - i))) _ round w
        (λ _ v. At-eq _ _ _ _ v (ground arith) (ground arith))
        (round_down-At (19 - i) w (ground arith) (At-eq _ _ _ _ w (ground arith) (ground arith) h))
]

-- From stop `i` it takes `k` rounds to stop `j`.
rounds-AtStop :
    (k i j : ℕ) (w : World)
    → i < stops
    → j < stops
    → (i + k ≡ j) ⊎ (i + k ≡ j + stops)
    → AtStop i w
    → Ensures Calm (rounds k) (λ _. AtStop j) w
unfolding rounds
rounds-AtStop zero i j w l m d h = let same : i ≡ j = ground arith in subst (λ j. AtStop j w) same h
rounds-AtStop (suc k) i j w l m d h =
    Ensures-bind Calm (λ _. AtStop j) round _ w
      (Ensures-mono Calm (λ _. AtStop (next_stop i))
        (λ _ v. Ensures Calm (rounds k) (λ _. AtStop j) v) round w
        (λ _ v.
          rounds-AtStop k (next_stop i) j v (ground arith) m (left_over (Bool-cases (i == 18)) d))
        (round-AtStop i w l h))
  where
    left_over :
        ((i == 18) ≡ true) ⊎ ((i == 18) ≡ false)
        → (i + suc k ≡ j) ⊎ (i + suc k ≡ j + stops)
        → (next_stop i + k ≡ j) ⊎ (next_stop i + k ≡ j + stops)
    left_over (inl e) (inl s) = absurd (ground arith)
    left_over (inl e) (inr s) = inl (rw e (ground arith))
    left_over (inr e) (inl s) = inl (rw e (omega arith))
    left_over (inr e) (inr s) = inr (rw e (omega arith))

-- Which stop a floor and a direction are.
stop_at :
    (n d : ℕ)
    → 1 ≤ n
    → n < max_floors
    → (d ≡ dir_up) ⊎ ((d ≡ dir_down) × (2 ≤ n))
    → (i : ℕ) × (i < stops) × (floor_of i ≡ n) × (direction_of i ≡ d)
stop_at n d low high (inl e) = (n - 1, omega arith, ground arith, ground arith)
stop_at n d low high (inr (e, l)) = (20 - n, omega arith, ground arith, ground arith)

distance :
    (i j : ℕ) → i < stops → j < stops → (k : ℕ) × (k < stops) × ((i + k ≡ j) ⊎ (i + k ≡ j + stops))
distance i j l m = elim (Bool-cases (ltb j i)) [
  | inl back ↦ (j + stops - i, ground arith, inr (ground arith))
  | inr ahead ↦ (j - i, ground arith, inl (ground arith))
]

-- As long as the other threads leave the elevator's floor, direction and door alone, the President does not call
-- and somebody waits or rides, and provided that the elevator's calls of the thread library return: from
-- any floor and direction, there is a number of rounds, fewer than 19, after which the elevator is at
-- floor `m` heading in direction `e`, for each floor and each direction in which it can leave it.
pub elevator_comes :
    (w : World) (m e : ℕ)
    → Position w.elv.current_floor w.elv.direction
    → Position (pos m) e
    → (k : ℕ) × (k < 19)
      × Ensures Calm (rounds k) (λ _ v. (v.elv.current_floor ≡ pos m) × (v.elv.direction ≡ e)) w
elevator_comes w m e (n, f, low, high, d) (m', g, low', high', d') =
    let (i, l, at, facing) = stop_at n w.elv.direction low high d in
    let (j, l', at', facing') = stop_at m' e low' high' d' in
    let (k, few, apart) = distance i j l l' in
    let same : m' ≡ m = ground arith in
    (
      k,
      few,
      Ensures-mono Calm (λ _. AtStop j) _ (rounds k) w (λ _ v. At-eq _ _ _ _ v (at' ∙ same) facing')
          (rounds-AtStop k i j w l l' apart (rw (at, facing) (f, refl))),
    )
