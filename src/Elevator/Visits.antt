-- ===== src/Elevator/Visits.antt =====
-- The elevator stays where it is while it serves a floor.
use user_level_thread_librar.Base.{
  ℕ, ◌≡◌, refl, Bool, true, false, ℤ, pos, eq_ℤ, ltb_ℤ, is_zero, ◌&&◌, ◌||◌, if◌then◌else◌,
}
use user_level_thread_librar.Program.{◌>>=◌, when}
use user_level_thread_librar.Program.Rely.{Ensures}
use user_level_thread_librar.Elevator.State.{World, Prog}
use user_level_thread_librar.Elevator.Stops.{serve_president, serve_directors, serve_employees}
use user_level_thread_librar.Elevator.Rounds.{serve}
use user_level_thread_librar.Elevator.Staying.{
  Keeps, if-Keeps, when-Keeps, serve_directors-Keeps, serve_employees-Keeps,
}
use user_level_thread_librar.Elevator.Position.{Others, InRange, InRange-stable, in_range}

-- No President is served.
nobody : (z : ℤ) (a b : Bool) → z ≡ pos 0 → (eq_ℤ z (pos 1) && a && b) ≡ false
nobody z a b e = rw e refl

if-not :
    {A : Type 0} (b : Bool) (p q : Prog A) (w : World)
    → b ≡ false
    → Ensures Others q (λ _. InRange) w
    → Ensures Others (if b then p else q) (λ _. InRange) w
if-not true p q w e h = cc
if-not false p q w e h = h

others-Keeps :
    (for_directors for_employees : Bool) (ahead : ℤ → ℤ → Bool) (dir : ℕ)
    (num_enter num_exit num_spaces : ℤ)
    → Keeps in_range (
        if for_directors
        then serve_directors ahead dir
        else when for_employees (serve_employees num_enter num_exit num_spaces dir))
others-Keeps for_directors for_employees ahead dir num_enter num_exit num_spaces =
    if-Keeps in_range for_directors _ _ (serve_directors-Keeps in_range ahead dir) (
      when-Keeps in_range for_employees _
        (serve_employees-Keeps in_range num_enter num_exit num_spaces dir))

pub serve-Keeps :
    (ahead : ℤ → ℤ → Bool) (dir opposite : ℕ) (num_enter num_exit num_spaces : ℤ)
    → Keeps in_range (serve ahead dir opposite num_enter num_exit num_spaces)
unfolding Keeps serve ◌>>=◌
serve-Keeps ahead dir opposite num_enter num_exit num_spaces w i v o u p x q =
    let at_v = InRange-stable w v o i in
    let at_x = InRange-stable u x q (InRange-stable v u p at_v) in
    if-not
      (eq_ℤ v.bld.set_president (pos 1)
        && is_zero v.elv.director_riders
        && is_zero v.elv.employee_riders)
      (serve_president ahead dir opposite) _ x
      (nobody v.bld.set_president (is_zero v.elv.director_riders) (is_zero v.elv.employee_riders)
        at_v.0)
      (others-Keeps
        (is_zero u.bld.set_president
          && ltb_ℤ (pos 0) u.bld.set_directors
          && is_zero u.elv.employee_riders)
        (is_zero x.bld.set_president
          && is_zero x.bld.set_directors
          && (ltb_ℤ (pos 0) num_enter || ltb_ℤ (pos 0) num_exit))
        ahead dir num_enter num_exit num_spaces x at_x)
