-- ===== src/Elevator/Stops.antt =====
-- TEST5A.C: whom the elevator takes and leaves at a floor.
-- The branches for UP and DOWN of `ElevatorThread` are the same code with `<` and `>` exchanged:
-- `ahead x y` says that the floor `x` lies past `y` in the direction `dir`.
use user_level_thread_librar.Base.{
  ℕ, if◌then◌else◌, Bool, List, [], ◌∷◌, update, ℤ, pos, negsuc, increment, is_zero, eq_ℤ, ltb_ℤ,
  not, ◌&&◌, ◌||◌,
}
use user_level_thread_librar.Program.{ret, ◌>>=◌, ◌>>◌, gets, when}
use user_level_thread_librar.Elevator.State.{Prog, set_elv, set_bld}
use user_level_thread_librar.Elevator.Cabin.{stop_at_floor}

-- `-1`
abbrev pub nowhere : ℤ
nowhere = negsuc 0

-- `elv.direction = d;`
abbrev pub set_direction : ℕ → Prog (Unit {0})
set_direction d = set_elv (λ e. record e { direction = d })

unfoldable pub take_president : (dir : ℕ) → Prog (Unit {0})
take_president dir = do
  stop_at_floor (pos 1) (pos 0) dir
  set_bld (λ b. record b { req_sfp = nowhere })

unfoldable pub drop_president : (dir : ℕ) → Prog (Unit {0})
drop_president dir = do
  stop_at_floor (pos 0) (pos 1) dir
  set_bld (λ b. record b { req_efp = nowhere })

-- The President gets in, if this is the floor that the call came from.
unfoldable pub admit_president : (ahead : ℤ → ℤ → Bool) (dir opposite : ℕ) → Prog (Unit {0})
admit_president ahead dir opposite = do
  onward ←
      gets (λ w. eq_ℤ w.elv.current_floor w.bld.req_sfp && ahead w.bld.req_efp w.elv.current_floor)
  back ←
      gets (λ w. eq_ℤ w.elv.current_floor w.bld.req_sfp && ahead w.elv.current_floor w.bld.req_efp)
  if onward
      then take_president dir
      else when back (set_direction opposite >> take_president opposite)

-- The President gets out, if this is the floor that the call asked for.
unfoldable pub release_president : (dir : ℕ) → Prog (Unit {0})
release_president dir = do
  at_end ← gets (λ w. eq_ℤ w.bld.req_sfp nowhere && eq_ℤ w.elv.current_floor w.bld.req_efp)
  when at_end (drop_president dir)

unfoldable pub serve_president : (ahead : ℤ → ℤ → Bool) (dir opposite : ℕ) → Prog (Unit {0})
serve_president ahead dir opposite = do
  turns ← gets (λ w. not (eq_ℤ w.bld.req_sfp nowhere) && ahead w.elv.current_floor w.bld.req_sfp)
  when turns (set_direction opposite)
  admit_president ahead dir opposite
  release_president dir

-- The loop over the three directors, with `dEnter` and `dExit` so far.
unfoldable pub count_directors :
    (ahead : ℤ → ℤ → Bool) → List ℕ → (d_enter d_exit : ℤ) → Prog (ℤ × ℤ)
count_directors ahead [] d_enter d_exit = ret (d_enter, d_exit)
count_directors ahead (i ∷ is) d_enter d_exit = do
  enters ← gets (λ w.
      eq_ℤ w.elv.current_floor (w.bld.req_sfd i)
      && ahead (w.bld.req_efd i) (w.bld.req_sfd i)
      && is_zero w.bld.waiting_for_empty)
  when enters (set_bld (λ b. record b { req_sfd = update b.req_sfd i nowhere }))
  exits ← gets (λ w. eq_ℤ (w.bld.req_sfd i) nowhere && eq_ℤ w.elv.current_floor (w.bld.req_efd i))
  when exits (set_bld (λ b. record b { req_efd = update b.req_efd i nowhere }))
  count_directors ahead is (if enters then increment d_enter else d_enter)
      (if exits then increment d_exit else d_exit)

unfoldable pub serve_directors : (ahead : ℤ → ℤ → Bool) (dir : ℕ) → Prog (Unit {0})
serve_directors ahead dir = do
  counts ← count_directors ahead (0 ∷ 1 ∷ 2 ∷ []) (pos 0) (pos 0)
  when (ltb_ℤ (pos 0) counts.0 || ltb_ℤ (pos 0) counts.1) (stop_at_floor counts.0 counts.1 dir)

-- Nobody gets in while someone waits for an empty elevator, and no more than there is room for.
unfoldable pub serve_employees : (num_enter num_exit num_spaces : ℤ) (dir : ℕ) → Prog (Unit {0})
serve_employees num_enter num_exit num_spaces dir = do
  reserved ← gets (λ w. not (is_zero w.bld.waiting_for_empty))
  let entering = if reserved then pos 0 else num_enter
  when (not (is_zero entering) || not (is_zero num_exit))
      (stop_at_floor (if ltb_ℤ num_spaces entering then num_spaces else entering) num_exit dir)
