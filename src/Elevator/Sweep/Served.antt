-- ===== src/Elevator/Sweep/Served.antt =====
-- The elevator stays at its floor while it serves who is there.
use user_level_thread_librar.Base.{
  ℕ, ◌<◌, ◌≡◌, ◌∙◌, true, false, Bool, ℤ, pos, ltb_ℤ, eq_ℤ, is_zero, not, ◌||◌, ◌&&◌, if◌then◌else◌,
}
use user_level_thread_librar.Program.{◌>>=◌, when}
use user_level_thread_librar.Elevator.State.{World, stopped, dir_up, dir_down, max_floors}
use user_level_thread_librar.Elevator.Stops.{serve_directors, serve_employees}
use user_level_thread_librar.Elevator.Rounds.{serve, rest_if_idle, up_branch, down_branch}
use user_level_thread_librar.Elevator.Staying.{
  Stays, Keeps, bind, gets-Keeps, set_state-Keeps, call-Keeps, if-Keeps, when-Keeps, here-Keeps,
  serve_directors-Keeps, serve_employees-Keeps,
}

-- The floor, the direction and the door belong to the elevator. The President does not call, and somebody waits or
-- rides.
pub record Calm (w v : World) : Type 0 where
  pub floor : v.elv.current_floor ≡ w.elv.current_floor
  pub direction : v.elv.direction ≡ w.elv.direction
  pub door : v.elv.state ≡ w.elv.state
  pub no_president : eq_ℤ v.bld.set_president (pos 1) ≡ false
  pub somebody : (not (is_zero v.bld.waiters) || not (is_zero v.elv.num_riders)) ≡ true

abbrev pub At : (floor direction : ℕ) → World → Type 0
At n d w = (w.elv.current_floor ≡ pos n) × (w.elv.direction ≡ d)

pub stable : (n d : ℕ) (w v : World) → Calm w v → At n d w → At n d v
stable n d w v o (f, e) = (o.floor ∙ f, o.direction ∙ e)

module _ (n d : ℕ) (high : n < max_floors) where
  pub calm : Stays Calm (At n d)
  calm = record {
    stable = stable n d;
    at_floor = λ w (f, e). (n, f, high);
    any_state = λ w s i. i;
    any_bld = λ w b e i. i;
  }

  -- Whoever is served, the elevator stays at its floor.
  serve_others-Keeps :
      (for_directors for_employees : Bool) (ahead : ℤ → ℤ → Bool) (dir : ℕ)
      (num_enter num_exit num_spaces : ℤ)
      → Keeps calm (
          if for_directors
          then serve_directors ahead dir
          else when for_employees (serve_employees num_enter num_exit num_spaces dir))
  serve_others-Keeps for_directors for_employees ahead dir num_enter num_exit num_spaces =
      if-Keeps calm for_directors _ _ (serve_directors-Keeps calm ahead dir) (
        when-Keeps calm for_employees _
          (serve_employees-Keeps calm num_enter num_exit num_spaces dir))

  serve-Keeps :
      (ahead : ℤ → ℤ → Bool) (dir opposite : ℕ) (num_enter num_exit num_spaces : ℤ)
      → Keeps calm (serve ahead dir opposite num_enter num_exit num_spaces)
  unfolding serve Keeps ◌>>=◌
  serve-Keeps ahead dir opposite num_enter num_exit num_spaces w i v o u p x q =
      let j = stable n d u x q (stable n d v u p (stable n d w v o i)) in
      rw o.no_president (
        serve_others-Keeps
          (is_zero u.bld.set_president
            && ltb_ℤ (pos 0) u.bld.set_directors
            && is_zero u.elv.employee_riders)
          (is_zero x.bld.set_president
            && is_zero x.bld.set_directors
            && (ltb_ℤ (pos 0) num_enter || ltb_ℤ (pos 0) num_exit))
          ahead dir num_enter num_exit num_spaces x j)

  rest_if_idle-Keeps : Keeps calm rest_if_idle
  unfolding rest_if_idle
  rest_if_idle-Keeps = bind calm _ _ (gets-Keeps calm _) λ idle.
      when-Keeps calm idle _ (bind calm _ _ (set_state-Keeps calm stopped) λ _. call-Keeps calm _)

  up_branch-Keeps : (num_spaces : ℤ) → Keeps calm (up_branch num_spaces)
  unfolding up_branch
  up_branch-Keeps num_spaces = bind calm _ _ (here-Keeps calm) λ f.
      bind calm _ _ (gets-Keeps calm _) λ m.
        bind calm _ _ (gets-Keeps calm _)
          λ n. bind calm _ _ (serve-Keeps _ dir_up dir_down m n num_spaces) λ _. rest_if_idle-Keeps

  down_branch-Keeps : (num_spaces : ℤ) → Keeps calm (down_branch num_spaces)
  unfolding down_branch
  down_branch-Keeps num_spaces = bind calm _ _ (here-Keeps calm) λ f.
      bind calm _ _ (gets-Keeps calm _) λ m.
        bind calm _ _ (gets-Keeps calm _)
          λ n. bind calm _ _ (serve-Keeps _ dir_down dir_up m n num_spaces) λ _. rest_if_idle-Keeps

  pub branch-Keeps :
      (rising : Bool) (num_spaces : ℤ)
      → Keeps calm (if rising then up_branch num_spaces else down_branch num_spaces)
  branch-Keeps rising num_spaces =
      if-Keeps calm rising _ _ (up_branch-Keeps num_spaces) (down_branch-Keeps num_spaces)
