-- ===== src/Elevator/Moves.antt =====
-- The moves of the elevator end at floors of the building.
use user_level_thread_librar.Base.{
  ℕ, zero, suc, ◌≤◌, ◌<◌, ◌≡◌, refl, ◌∙◌, ◌⊎◌, inl, inr, arith, true, false, ◌==◌, pos, eq_ℤ,
  decrement,
}
use user_level_thread_librar.Program.{◌>>=◌, ◌>>◌, skip, when}
use user_level_thread_librar.Program.Rely.{Ensures}
use user_level_thread_librar.Elevator.State.{World, dir_up, dir_down, max_floors}
use user_level_thread_librar.Elevator.Cabin.{
  turn, climb, descend, el_move_one_floor_up, el_move_one_floor_down, is_opened, sink,
}
use user_level_thread_librar.Elevator.Stops.{set_direction}
use user_level_thread_librar.Elevator.Staying.{Keeps, bind, gets-Keeps, ret-Keeps, if-Keeps}
use user_level_thread_librar.Elevator.Position.{
  Others, Position, InRange, InRange-stable, if-Ensures, moved, in_range,
}

-- What a turn needs: `to` fits the floor, and any other direction than `from` does.
turn-Ensures :
    (from to : ℕ) (w : World)
    → w.bld.set_president ≡ pos 0
    → Position w.elv.current_floor to
    → ((w.elv.direction == from) ≡ false → InRange w)
    → Ensures Others (turn from to) (λ _. InRange) w
unfolding turn ◌>>=◌
turn-Ensures from to w a fits other v o =
    if-Ensures (v.elv.direction == from) (set_direction to) skip (λ _. InRange) v
      (λ _ x q. (q.presidents ∙ o.presidents ∙ a, moved v x to q (moved w v to o fits)))
      (λ e. InRange-stable w v o (other (rw o.direction at e)))

abbrev Facing : ℕ → ℕ → Type 0
Facing d n = (d ≡ dir_up) ⊎ ((d ≡ dir_down) × (2 ≤ n))

turned : (c d m n : ℕ) → c ≡ d → m ≤ n → Facing d m → Facing c n
turned c d m n e l (inl h) = inl (e ∙ h)
turned c d m n e l (inr (h, k)) = inr (e ∙ h, omega arith)

-- Above the last floor the elevator comes back to it and turns.
top-Ensures :
    (w : World) (n : ℕ)
    → w.bld.set_president ≡ pos 0
    → w.elv.current_floor ≡ pos (suc n)
    → 1 ≤ n
    → n < max_floors
    → Facing w.elv.direction n
    → Ensures Others
        (when (eq_ℤ w.elv.current_floor (pos max_floors)) (sink >> turn dir_up dir_down))
        (λ _. InRange)
        w
unfolding ◌>>=◌
top-Ensures w n a f low high d =
    if-Ensures (eq_ℤ w.elv.current_floor (pos max_floors)) (sink >> turn dir_up dir_down) skip
      (λ _. InRange) w
      (λ top v o.
        let back : decrement v.elv.current_floor ≡ pos n = rw (o.floor, f) in
        turn-Ensures dir_up dir_down
          (record v { elv = record v.elv { current_floor = decrement v.elv.current_floor } })
          (o.presidents ∙ a) (n, back, low, high, inr (refl, at_top (rw f at top)))
          (λ _.
            (o.presidents ∙ a, (n, back, low, high, turned _ _ n n o.direction (omega arith) d))))
      (λ below. (
        a,
        (
          suc n,
          f,
          omega arith,
          below_top (rw f at below),
          turned _ _ n (suc n) refl (omega arith) d,
        ),
      ))
  where
    at_top : (suc n == 11) ≡ true → 2 ≤ n
    at_top e = ground arith

    below_top : (suc n == 11) ≡ false → suc n < max_floors
    below_top e = ground arith

climb-Keeps : Keeps in_range climb
unfolding Keeps climb ◌>>=◌
climb-Keeps w (a, (n, f, low, high, d)) v o u p x q y r z s =
    top-Ensures z n (rw (s.presidents, r.presidents, q.presidents, p.presidents, o.presidents) a)
      (rw (s.floor, r.floor, q.floor, p.floor, o.floor, f) (ground arith)) low high
      (turned _ _ n n (s.direction ∙ r.direction ∙ q.direction ∙ p.direction ∙ o.direction)
        (omega arith) d)

pub el_move_one_floor_up-Keeps : Keeps in_range el_move_one_floor_up
unfolding el_move_one_floor_up
el_move_one_floor_up-Keeps =
    bind in_range _ _ (gets-Keeps in_range _)
      λ opened. if-Keeps in_range opened _ _ (ret-Keeps in_range tt) climb-Keeps

-- On the lowest floor the elevator turns.
bottom-Ensures :
    (w : World) (n : ℕ)
    → w.bld.set_president ≡ pos 0
    → w.elv.current_floor ≡ pos (suc n)
    → suc n < max_floors
    → (w.elv.direction ≡ dir_up) ⊎ (w.elv.direction ≡ dir_down)
    → Ensures Others
        (when (eq_ℤ w.elv.current_floor (pos 1)) (turn dir_down dir_up))
        (λ _. InRange)
        w
bottom-Ensures w n a f high d =
    if-Ensures (eq_ℤ w.elv.current_floor (pos 1)) (turn dir_down dir_up) skip (λ _. InRange) w
      (λ bottom.
        turn-Ensures dir_down dir_up w a (suc n, f, omega arith, high, inl refl)
          (λ other. (a, (suc n, f, omega arith, high, inl (up_only d other)))))
      (λ above. (a, (suc n, f, omega arith, high, facing d (rw f at above))))
  where
    up_only :
        (w.elv.direction ≡ dir_up) ⊎ (w.elv.direction ≡ dir_down)
        → (w.elv.direction == dir_down) ≡ false
        → w.elv.direction ≡ dir_up
    up_only (inl e) h = e
    up_only (inr e) h = ground arith

    facing :
        (w.elv.direction ≡ dir_up) ⊎ (w.elv.direction ≡ dir_down)
        → (suc n == 1) ≡ false
        → Facing w.elv.direction (suc n)
    facing (inl e) h = inl e
    facing (inr e) h = inr (e, ground arith)

-- Above the lowest floor a descent stays inside the building.
descend-Ensures :
    (w : World) (n : ℕ)
    → w.bld.set_president ≡ pos 0
    → w.elv.current_floor ≡ pos (suc (suc n))
    → suc (suc n) < max_floors
    → w.elv.direction ≡ dir_down
    → Ensures Others descend (λ _. InRange) w
unfolding descend ◌>>=◌
descend-Ensures w n a f high d v o u p x q y r z s =
    bottom-Ensures z n (rw (s.presidents, r.presidents, q.presidents, p.presidents, o.presidents) a)
      (rw (s.floor, r.floor, q.floor, p.floor, o.floor, f)) (omega arith)
      (inr (s.direction ∙ r.direction ∙ q.direction ∙ p.direction ∙ o.direction ∙ d))

descend_from :
    (w : World)
    → InRange w
    → (w.elv.direction == dir_up) ≡ false
    → Ensures Others descend (λ _. InRange) w
descend_from w (a, (n, f, low, high, inl e)) h = ground arith
descend_from w (a, (zero, f, low, high, inr (e, k))) h = absurd (omega arith)
descend_from w (a, (suc zero, f, low, high, inr (e, k))) h = absurd (omega arith)
descend_from w (a, (suc (suc n), f, low, high, inr (e, k))) h = descend-Ensures w n a f high e

pub el_move_one_floor_down-Ensures :
    (w : World)
    → InRange w
    → (w.elv.direction == dir_up) ≡ false
    → Ensures Others el_move_one_floor_down (λ _. InRange) w
unfolding el_move_one_floor_down ◌>>=◌
el_move_one_floor_down-Ensures w i h v o =
    if-Ensures (is_opened v.elv.state) skip descend (λ _. InRange) v (λ _. InRange-stable w v o i)
      (λ _. descend_from v (InRange-stable w v o i) (rw (← o.direction) at h))
