-- ===== src/Elevator/Sweep/Round.antt =====
-- A round of the elevator takes it one stop further, while no President calls.
use user_level_thread_librar.Base.{
  ℕ, suc, ◌<◌, refl, inl, inr, Bool-cases, ◌==◌, is_zero, not, ◌||◌,
}
use user_level_thread_librar.Program.{◌>>=◌, skip, gets, when}
use user_level_thread_librar.Program.Rely.{Ensures, Ensures-bind, Ensures-mono}
use user_level_thread_librar.Elevator.State.{World, Prog, dir_up, dir_down, max_floors, max_riders}
use user_level_thread_librar.Elevator.Cabin.{
  is_opened, el_close_door, climb, descend, el_move_one_floor_up, el_move_one_floor_down,
}
use user_level_thread_librar.Elevator.Rounds.{drive, travel, round, minus}
use user_level_thread_librar.Elevator.Staying.{Keeps}
use user_level_thread_librar.Elevator.Sweep.Served.{Calm, At, stable, branch-Keeps}
use user_level_thread_librar.Elevator.Sweep.Climb.{
  if-known, if-not, ClosedAt, closed-stable, climb-At, descend-At, floor_above, turned_above,
  turned_below,
}

-- With the door closed, the elevator moves as `drive` does.
module _ (n m d e : ℕ) where
  abbrev Moves : Prog (Unit {0}) → Type 0
  Moves p = (w : World) → ClosedAt n d w → Ensures Calm p (λ _. At m e) w

  abbrev set_off : Prog (Unit {0})
  set_off = do
    wanted ← gets (λ w. not (is_zero w.bld.waiters) || not (is_zero w.elv.num_riders))
    when wanted drive

  set_off-Moves : Moves drive → Moves set_off
  unfolding ◌>>=◌
  set_off-Moves drives w c v o =
      if-known (not (is_zero v.bld.waiters) || not (is_zero v.elv.num_riders)) drive skip
        (λ _. At m e) v o.somebody (drives v (closed-stable n d w v o c))

  travel-At : Moves drive → (w : World) → At n d w → Ensures Calm travel (λ _. At m e) w
  unfolding travel el_close_door ◌>>=◌
  travel-At drives w i v o =
      Ensures-bind Calm (λ _. At m e) (when (is_opened v.elv.state) el_close_door) (λ _. set_off) v
        (elim (Bool-cases (is_opened v.elv.state)) [
          | inl opened ↦
              if-known (is_opened v.elv.state) el_close_door skip
                (λ _ u. Ensures Calm set_off (λ _. At m e) u) v opened
                (λ u p. set_off-Moves drives _ (stable n d v u p (stable n d w v o i), refl))
          | inr closed ↦
              if-not (is_opened v.elv.state) el_close_door skip
                (λ _ u. Ensures Calm set_off (λ _. At m e) u) v closed
                (set_off-Moves drives v (stable n d w v o i, closed))
        ])

  -- A round serves the floor and moves.
  round-At :
      n < max_floors → Moves drive → (w : World) → At n d w → Ensures Calm round (λ _. At m e) w
  unfolding round Keeps ◌>>=◌
  round-At high drives w i v o u p =
      Ensures-bind Calm (λ _. At m e) _ (λ _. travel) u
        (Ensures-mono Calm (λ _. At n d) (λ _ x. Ensures Calm travel (λ _. At m e) x) _ u
          (λ _ x j. travel-At drives x j)
          (branch-Keeps n d high (u.elv.direction == dir_up) (minus max_riders v.elv.num_riders) u
            (stable n d v u p (stable n d w v o i))))

drive_up-Moves : (n : ℕ) → Moves n (floor_above n) dir_up (turned_above n) drive
unfolding drive el_move_one_floor_up ◌>>=◌
drive_up-Moves n w c v o =
    let (i, shut) = closed-stable n dir_up w v o c in
    if-known (v.elv.direction == dir_up) el_move_one_floor_up el_move_one_floor_down _ v (rw i.1)
      λ u p.
        let (j, shut') = closed-stable n dir_up v u p (i, shut) in
        if-not (is_opened u.elv.state) skip climb _ u shut' (climb-At n u j)

drive_down-Moves : (n : ℕ) → Moves (suc n) n dir_down (turned_below n) drive
unfolding drive el_move_one_floor_down ◌>>=◌
drive_down-Moves n w c v o =
    let (i, shut) = closed-stable (suc n) dir_down w v o c in
    if-not (v.elv.direction == dir_up) el_move_one_floor_up el_move_one_floor_down _ v (rw i.1)
      λ u p.
        let (j, shut') = closed-stable (suc n) dir_down v u p (i, shut) in
        if-not (is_opened u.elv.state) skip descend _ u shut' (descend-At n u j)

pub round_up-At :
    (n : ℕ) (w : World)
    → n < max_floors
    → At n dir_up w
    → Ensures Calm round (λ _. At (floor_above n) (turned_above n)) w
round_up-At n w l = round-At n (floor_above n) dir_up (turned_above n) l (drive_up-Moves n) w

pub round_down-At :
    (n : ℕ) (w : World)
    → suc n < max_floors
    → At (suc n) dir_down w
    → Ensures Calm round (λ _. At n (turned_below n)) w
round_down-At n w l = round-At (suc n) n dir_down (turned_below n) l (drive_down-Moves n) w
