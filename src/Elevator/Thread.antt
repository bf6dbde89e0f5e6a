-- ===== src/Elevator/Thread.antt =====
-- The elevator's thread stays inside the building and never indexes out of bounds.
use user_level_thread_librar.Base.{pos, ◌∙◌, ℕ, zero, suc, ◌≡◌, refl, inl, arith, ◌==◌, ℤ}
use user_level_thread_librar.Program.{◌>>=◌}
use user_level_thread_librar.Program.Rely.{Ensures}
use user_level_thread_librar.Elevator.State.{stopped, World, dir_up, dir_down}
use user_level_thread_librar.Elevator.Cabin.{
  el_close_door, el_move_one_floor_up, el_move_one_floor_down,
}
use user_level_thread_librar.Elevator.Rounds.{
  rest_if_idle, up_branch, down_branch, drive, travel, round, rounds, elevator_thread,
}
use user_level_thread_librar.Elevator.Staying.{
  Keeps, bind, gets-Keeps, set_state-Keeps, call-Keeps, ret-Keeps, if-Keeps, when-Keeps, here-Keeps,
}
use user_level_thread_librar.Elevator.Position.{
  Others, InRange, InRange-stable, if-Ensures, Keeps-Ensures, in_range,
}
use user_level_thread_librar.Elevator.Visits.{serve-Keeps}
use user_level_thread_librar.Elevator.Moves.{
  el_move_one_floor_up-Keeps, el_move_one_floor_down-Ensures,
}

rest_if_idle-Keeps : Keeps in_range rest_if_idle
unfolding rest_if_idle
rest_if_idle-Keeps = bind in_range _ _ (gets-Keeps in_range _) λ idle.
    when-Keeps in_range idle _
      (bind in_range _ _ (set_state-Keeps in_range stopped) λ _. call-Keeps in_range _)

up_branch-Keeps : (num_spaces : ℤ) → Keeps in_range (up_branch num_spaces)
unfolding up_branch
up_branch-Keeps num_spaces = bind in_range _ _ (here-Keeps in_range) λ f.
    bind in_range _ _ (gets-Keeps in_range _) λ m.
      bind in_range _ _ (gets-Keeps in_range _) λ n.
        bind in_range _ _ (serve-Keeps _ dir_up dir_down m n num_spaces) λ _. rest_if_idle-Keeps

down_branch-Keeps : (num_spaces : ℤ) → Keeps in_range (down_branch num_spaces)
unfolding down_branch
down_branch-Keeps num_spaces = bind in_range _ _ (here-Keeps in_range) λ f.
    bind in_range _ _ (gets-Keeps in_range _) λ m.
      bind in_range _ _ (gets-Keeps in_range _) λ n.
        bind in_range _ _ (serve-Keeps _ dir_down dir_up m n num_spaces) λ _. rest_if_idle-Keeps

drive-Keeps : Keeps in_range drive
unfolding Keeps drive ◌>>=◌
drive-Keeps w i v o =
    let j = InRange-stable w v o i in
    if-Ensures (v.elv.direction == dir_up) el_move_one_floor_up el_move_one_floor_down
      (λ _. InRange) v (λ _. Keeps-Ensures _ el_move_one_floor_up-Keeps v j)
      (λ falling. el_move_one_floor_down-Ensures v j falling)

travel-Keeps : Keeps in_range travel
unfolding travel el_close_door
travel-Keeps = bind in_range _ _ (gets-Keeps in_range _) λ opened.
    bind in_range _ _ (when-Keeps in_range opened _ (set_state-Keeps in_range _)) λ _.
      bind in_range _ _ (gets-Keeps in_range _) λ wanted. when-Keeps in_range wanted _ drive-Keeps

round-Keeps : Keeps in_range round
unfolding round
round-Keeps = bind in_range _ _ (gets-Keeps in_range _) λ riders.
    bind in_range _ _ (gets-Keeps in_range _) λ rising.
      bind in_range _ _ (if-Keeps in_range rising _ _ (up_branch-Keeps _) (down_branch-Keeps _))
        λ _. travel-Keeps

rounds-Keeps : (n : ℕ) → Keeps in_range (rounds n)
unfolding rounds
rounds-Keeps zero = ret-Keeps in_range tt
rounds-Keeps (suc n) = bind in_range _ _ round-Keeps λ _. rounds-Keeps n

-- As long as the other threads leave the elevator's floor, direction and door alone, no President has called or calls,
-- and the calls of the thread library return: after any number of rounds, none of which reads outside an
-- array, the elevator is at a floor from 1 to 10, heading up or, above floor 1, down.
pub rounds-InRange : (n : ℕ) (w : World) → InRange w → Ensures Others (rounds n) (λ _. InRange) w
unfolding Keeps
rounds-InRange n = rounds-Keeps n

-- The same for the whole thread, from any state of the globals in which no President has called: it starts on
-- floor 1. The riders other than Presidents are such threads.
pub elevator_thread-InRange :
    (n : ℕ) (w : World)
    → w.bld.set_president ≡ pos 0
    → Ensures Others (elevator_thread n) (λ _. InRange) w
unfolding elevator_thread ◌>>=◌
elevator_thread-InRange n w a v o u p =
    rounds-InRange n u
      (InRange-stable _ u p (o.presidents ∙ a, (1, refl, omega arith, omega arith, inl refl)))
