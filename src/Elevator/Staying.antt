-- ===== src/Elevator/Staying.antt =====
-- What holds while the elevator serves a floor, for any invariant that depends on where it is only.
use user_level_thread_librar.Base.{
  ℕ, ◌<◌, ◌≡◌, refl, arith, Bool, ℤ, pos, List, [], ◌∷◌, lt→ltb, if◌then◌else◌,
}
use user_level_thread_librar.Program.{ret, ◌>>=◌, slot, gets, for_below, when}
use user_level_thread_librar.Program.Rely.{Ensures, Keeps-bind, Keeps-if, Keeps-for_below}
use user_level_thread_librar.Elevator.State.{
  ElevatorState, World, Building, Request, Prog, set_elv, set_bld, call, max_floors,
}
use user_level_thread_librar.Elevator.Cabin.{
  here, el_let_one_enter, el_let_one_exit, el_open_door, el_close_door, el_visit_floor,
  stop_at_floor,
}
use user_level_thread_librar.Elevator.Stops.{count_directors, serve_directors, serve_employees}

-- The other threads keep the invariant, in which the elevator is at a floor of the arrays, and which
-- does not mention the door, or the building but for the Presidents that call.
pub record Stays (Others : World → World → Type 0) (I : World → Type 0) : Type 0 where
  pub stable : (w v : World) → Others w v → I w → I v
  pub at_floor : (w : World) → I w → (n : ℕ) × (w.elv.current_floor ≡ pos n) × (n < max_floors)
  pub any_state :
      (w : World) (s : ElevatorState) → I w → I (record w { elv = record w.elv { state = s } })
  pub any_bld :
      (w : World) (b : Building)
      → b.set_president ≡ w.bld.set_president
      → I w
      → I (record w { bld = b })

module _ {Others : World → World → Type 0} {I : World → Type 0} (st : Stays Others I) where
  unfoldable pub Keeps : {A : Type 0} → Prog A → Type 0
  Keeps p = (w : World) → I w → Ensures Others p (λ _. I) w

  pub bind :
      {A B : Type 0} (p : Prog A) (k : A → Prog B)
      → Keeps p
      → ((a : A) → Keeps (k a))
      → Keeps (p >>= k)
  unfolding Keeps
  bind = Keeps-bind Others I st.stable

  pub gets-Keeps : {A : Type 0} (f : World → A) → Keeps (gets f)
  unfolding Keeps
  gets-Keeps f w i v o = st.stable w v o i

  set_bld-Keeps :
      (f : Building → Building)
      → ((b : Building) → (f b).set_president ≡ b.set_president)
      → Keeps (set_bld f)
  unfolding Keeps
  set_bld-Keeps f same w i v o = st.any_bld v (f v.bld) (same v.bld) (st.stable w v o i)

  pub set_state-Keeps : (s : ElevatorState) → Keeps (set_elv (λ e. record e { state = s }))
  unfolding Keeps
  set_state-Keeps s w i v o = st.any_state v s (st.stable w v o i)

  pub call-Keeps : (r : Request) → Keeps (call r)
  unfolding Keeps
  call-Keeps r w i v o = st.stable w v o i

  pub ret-Keeps : {A : Type 0} (a : A) → Keeps (ret a)
  unfolding Keeps
  ret-Keeps a w i = i

  pub for_below-Keeps : (z : ℤ) (p : Prog (Unit {0})) → Keeps p → Keeps (for_below z p)
  unfolding Keeps
  for_below-Keeps = Keeps-for_below Others I st.stable

  pub if-Keeps :
      {A : Type 0} (b : Bool) (p q : Prog A) → Keeps p → Keeps q → Keeps (if b then p else q)
  unfolding Keeps
  if-Keeps = Keeps-if Others I st.stable

  pub when-Keeps : (b : Bool) (p : Prog (Unit {0})) → Keeps p → Keeps (when b p)
  when-Keeps b p k = if-Keeps b p (ret tt) k (ret-Keeps tt)

slot-floor :
    (z : ℤ) (n : ℕ)
    → z ≡ pos n
    → n < max_floors
    → slot {S = World} {R = Request} max_floors z ≡ ret n
unfolding slot
slot-floor z n e l = rw e (ground (arith, lt→ltb n 11))

module _ {Others : World → World → Type 0} {I : World → Type 0} (st : Stays Others I) where
  pub here-Keeps : Keeps st here
  unfolding Keeps here ◌>>=◌
  here-Keeps w i v o =
      let j = st.stable w v o i in
      let (n, e, high) = st.at_floor v j in rw (slot-floor v.elv.current_floor n e high) j

  el_let_one_enter-Keeps : (dir : ℕ) → Keeps st (el_let_one_enter dir)
  unfolding el_let_one_enter
  el_let_one_enter-Keeps dir =
      bind st _ _ here-Keeps λ f. bind st _ _ (call-Keeps st _) λ _. call-Keeps st _

  el_let_one_exit-Keeps : Keeps st el_let_one_exit
  unfolding el_let_one_exit
  el_let_one_exit-Keeps =
      bind st _ _ here-Keeps λ f. bind st _ _ (call-Keeps st _) λ _. call-Keeps st _

  el_visit_floor-Keeps : (m n : ℤ) (dir : ℕ) → Keeps st (el_visit_floor m n dir)
  unfolding el_visit_floor
  el_visit_floor-Keeps m n dir =
      bind st _ _ (for_below-Keeps st m _ (el_let_one_enter-Keeps dir))
        λ _. for_below-Keeps st n _ el_let_one_exit-Keeps

  pub stop_at_floor-Keeps : (m n : ℤ) (dir : ℕ) → Keeps st (stop_at_floor m n dir)
  unfolding stop_at_floor el_open_door el_close_door
  stop_at_floor-Keeps m n dir =
      bind st _ _ (set_state-Keeps st _)
        λ _. bind st _ _ (el_visit_floor-Keeps m n dir) λ _. set_state-Keeps st _

  count_directors-Keeps :
      (ahead : ℤ → ℤ → Bool) (is : List ℕ) (m n : ℤ) → Keeps st (count_directors ahead is m n)
  unfolding count_directors
  count_directors-Keeps ahead [] m n = ret-Keeps st _
  count_directors-Keeps ahead (j ∷ is) m n = bind st _ _ (gets-Keeps st _) λ enters.
      bind st _ _ (when-Keeps st enters _ (set_bld-Keeps st _ λ b. refl)) λ _.
        bind st _ _ (gets-Keeps st _) λ leaves.
          bind st _ _ (when-Keeps st leaves _ (set_bld-Keeps st _ λ b. refl))
            λ _. count_directors-Keeps ahead is _ _

  pub serve_directors-Keeps :
      (ahead : ℤ → ℤ → Bool) (dir : ℕ) → Keeps st (serve_directors ahead dir)
  unfolding serve_directors
  serve_directors-Keeps ahead dir =
      bind st _ _ (count_directors-Keeps ahead _ _ _)
        λ counts. when-Keeps st _ _ (stop_at_floor-Keeps _ _ dir)

  pub serve_employees-Keeps :
      (num_enter num_exit num_spaces : ℤ) (dir : ℕ)
      → Keeps st (serve_employees num_enter num_exit num_spaces dir)
  unfolding serve_employees
  serve_employees-Keeps num_enter num_exit num_spaces dir =
      bind st _ _ (gets-Keeps st _)
        λ reserved. when-Keeps st _ _ (stop_at_floor-Keeps _ num_exit dir)
