-- ===== src/Elevator/Guarantee.antt =====
-- A rider leaves alone what belongs to the elevator.
use user_level_thread_librar.Base.{
  eq_ℤ, true, false, sym, ◌⊎◌, increment, decrement, ℕ, ◌/◌, ◌%◌, ◌^◌, ◌≡◌, refl, inl, inr, Bool, ℤ,
  index, Option, none, some, pos,
}
use user_level_thread_librar.Program.{◌>>=◌, slot, or_faulty, repeat, when, gets}
use user_level_thread_librar.Program.Rely.{
  Guarantees, Guarantees-bind, Guarantees-when, Guarantees-repeat, Guarantees-mono,
}
use user_level_thread_librar.Elevator.State.{
  World, Elevator, Building, Request, Prog, set_elv, set_bld, call, max_floors,
}
use user_level_thread_librar.Elevator.Position.{IsFloor, Others}
use mathlib.Core.Path.{subst}
use user_level_thread_librar.Elevator.Stops.{nowhere}
use user_level_thread_librar.Elevator.Riders.{
  elevator_enter, leave_as, elevator_exit, elevator_request_floor, wait_for_empty, request_as,
  elevator_call_up, elevator_call_down, rider, ride,
}

-- No floor, or one of the building.
abbrev pub IsRequest : ℤ → Type 0
IsRequest z = (z ≡ nowhere) ⊎ IsFloor z

-- What a write of a rider of this priority leaves as it was: the elevator's floor, direction and door, that
-- each of the two floors of the President's request is one, if any, and, unless the rider is a
-- President, how many Presidents call.
pub record Polite (priority : ℤ) (w v : World) : Type 0 where
  pub floor : v.elv.current_floor ≡ w.elv.current_floor
  pub direction : v.elv.direction ≡ w.elv.direction
  pub door : v.elv.state ≡ w.elv.state
  pub start : IsRequest w.bld.req_sfp → IsRequest v.bld.req_sfp
  pub destination : IsRequest w.bld.req_efp → IsRequest v.bld.req_efp
  pub presidents : eq_ℤ priority (pos 30) ≡ false → v.bld.set_president ≡ w.bld.set_president

module _ (priority : ℤ) where
  unfoldable Good : {A : Type 0} → Prog A → Type 0
  Good p = Guarantees (Polite priority) p

  bind :
      {A B : Type 0} (p : Prog A) (k : A → Prog B)
      → Good p
      → ((a : A) → Good (k a))
      → Good (p >>= k)
  unfolding Good
  bind = Guarantees-bind (Polite priority)

  -- Writes to other fields.
  set_elv-Good :
      (f : Elevator → Elevator)
      → ((e : Elevator) → (f e).current_floor ≡ e.current_floor)
      → ((e : Elevator) → (f e).direction ≡ e.direction)
      → ((e : Elevator) → (f e).state ≡ e.state)
      → Good (set_elv f)
  unfolding Good
  set_elv-Good f a b c = (
    (λ w. record {
      floor = a w.elv;
      direction = b w.elv;
      door = c w.elv;
      start = λ r. r;
      destination = λ r. r;
      presidents = λ n. refl;
    }),
    tt,
  )

  -- A write to the building that does not touch the President's fields.
  set_bld-Good :
      (f : Building → Building)
      → ((b : Building) → (f b).set_president ≡ b.set_president)
      → ((b : Building) → (f b).req_sfp ≡ b.req_sfp)
      → ((b : Building) → (f b).req_efp ≡ b.req_efp)
      → Good (set_bld f)
  unfolding Good
  set_bld-Good f a b c = (
    (λ w. record {
      floor = refl;
      direction = refl;
      door = refl;
      start = subst IsRequest (sym (b w.bld));
      destination = subst IsRequest (sym (c w.bld));
      presidents = λ n. a w.bld;
    }),
    tt,
  )

  -- The writes of a President.
  count-Good :
      (g : ℤ → ℤ)
      → eq_ℤ priority (pos 30) ≡ true
      → Good (set_bld (λ b. record b { set_president = g b.set_president }))
  unfolding Good
  count-Good g e = (
    (λ w. record {
      floor = refl;
      direction = refl;
      door = refl;
      start = λ r. r;
      destination = λ r. r;
      presidents = λ n. cc;
    }),
    tt,
  )

  start-Good : (z : ℤ) → IsRequest z → Good (set_bld (λ b. record b { req_sfp = z }))
  unfolding Good
  start-Good z i = (
    (λ w. record {
      floor = refl;
      direction = refl;
      door = refl;
      start = λ r. i;
      destination = λ r. r;
      presidents = λ n. refl;
    }),
    tt,
  )

  destination-Good : (z : ℤ) → IsRequest z → Good (set_bld (λ b. record b { req_efp = z }))
  unfolding Good
  destination-Good z i = (
    (λ w. record {
      floor = refl;
      direction = refl;
      door = refl;
      start = λ r. r;
      destination = λ r. i;
      presidents = λ n. refl;
    }),
    tt,
  )

  if_so-Good : (b : Bool) (p : Prog (Unit {0})) → (b ≡ true → Good p) → Good (when b p)
  unfolding Good
  if_so-Good true p h = h refl
  if_so-Good false p h = tt

  call-Good : (r : Request) → Good (call r)
  unfolding Good
  call-Good r = tt

  gets-Good : {A : Type 0} (f : World → A) → Good (gets f)
  unfolding Good
  gets-Good f v = tt

  when-Good : (b : Bool) (p : Prog (Unit {0})) → Good p → Good (when b p)
  unfolding Good
  when-Good = Guarantees-when (Polite priority)

  repeat-Good : (n : ℕ) (p : Prog (Unit {0})) → Good p → Good (repeat n p)
  unfolding Good
  repeat-Good = Guarantees-repeat (Polite priority)

  or_faulty-Good : (o : Option ℕ) → Good (or_faulty o)
  unfolding Good
  or_faulty-Good none = tt
  or_faulty-Good (some n) = tt

  slot-Good : (size : ℕ) (z : ℤ) → Good (slot size z)
  unfolding slot
  slot-Good size z = or_faulty-Good (index size z)

  -- The riders' counters.
  elevator_enter-Good : Good (elevator_enter priority)
  unfolding elevator_enter
  elevator_enter-Good = bind _ _ (set_elv-Good _ (λ e. refl) (λ e. refl) (λ e. refl)) λ _.
      bind _ _ (when-Good _ _ (set_elv-Good _ (λ e. refl) (λ e. refl) (λ e. refl))) λ _.
        bind _ _ (when-Good _ _ (set_elv-Good _ (λ e. refl) (λ e. refl) (λ e. refl))) λ _.
          bind _ _ (when-Good _ _ (set_elv-Good _ (λ e. refl) (λ e. refl) (λ e. refl)))
            λ _. set_bld-Good _ (λ b. refl) (λ b. refl) (λ b. refl)

  leave_as-Good : Good (leave_as priority)
  unfolding leave_as
  leave_as-Good =
      bind _ _
        (if_so-Good _ _ λ is_president.
          bind _ _ (set_elv-Good _ (λ e. refl) (λ e. refl) (λ e. refl)) λ _.
            bind _ _ (count-Good decrement is_president)
              λ _. bind _ _ (start-Good _ (inl refl)) λ _. destination-Good _ (inl refl))
        λ _.
          bind _ _
            (when-Good _ _ (
              bind _ _ (set_elv-Good _ (λ e. refl) (λ e. refl) (λ e. refl))
                λ _. set_bld-Good _ (λ b. refl) (λ b. refl) (λ b. refl)))
            λ _. when-Good _ _ (
              bind _ _ (set_elv-Good _ (λ e. refl) (λ e. refl) (λ e. refl)) λ _.
                bind _ _ (set_bld-Good _ (λ b. refl) (λ b. refl) (λ b. refl)) λ _.
                  bind _ _ (gets-Good _) λ count. bind _ _ (slot-Good 10 count) λ i.
                    bind _ _ (set_bld-Good _ (λ b. refl) (λ b. refl) (λ b. refl))
                      λ _. set_bld-Good _ (λ b. refl) (λ b. refl) (λ b. refl))

  elevator_exit-Good : Good (elevator_exit priority)
  unfolding elevator_exit
  elevator_exit-Good = bind _ _ (gets-Good _) λ floor. bind _ _ (slot-Good max_floors floor) λ f.
      bind _ _ (set_elv-Good _ (λ e. refl) (λ e. refl) (λ e. refl)) λ _.
        bind _ _ (set_elv-Good _ (λ e. refl) (λ e. refl) (λ e. refl)) λ _.
          bind _ _ leave_as-Good λ _.
            bind _ _ (gets-Good _)
              λ empty. bind _ _ (when-Good empty _ (repeat-Good 5 _ (call-Good _))) λ _. call-Good _

  elevator_request_floor-Good : (floor : ℤ) → Good (elevator_request_floor floor)
  unfolding elevator_request_floor
  elevator_request_floor-Good floor = bind _ _ (slot-Good max_floors floor) λ f.
      bind _ _ (set_elv-Good _ (λ e. refl) (λ e. refl) (λ e. refl))
        λ _. bind _ _ (call-Good _) λ _. call-Good _

  wait_for_empty-Good : Good wait_for_empty
  unfolding wait_for_empty
  wait_for_empty-Good =
      bind _ _ (set_bld-Good _ (λ b. refl) (λ b. refl) (λ b. refl))
        λ _. bind _ _ (call-Good _) λ _. set_bld-Good _ (λ b. refl) (λ b. refl) (λ b. refl)

  module _ (floor_s floor_e : ℤ) (s : IsFloor floor_s) (e : IsFloor floor_e) where
    request_as-Good : Good (request_as priority floor_s floor_e)
    unfolding request_as
    request_as-Good =
        bind _ _
          (if_so-Good _ _ λ is_president. bind _ _ (gets-Good _) λ busy.
            bind _ _ (when-Good busy _ wait_for_empty-Good) λ _.
              bind _ _ (count-Good increment is_president)
                λ _. bind _ _ (start-Good _ (inr s)) λ _. destination-Good _ (inr e))
          λ _.
            bind _ _
              (when-Good _ _ (
                bind _ _ (gets-Good _) λ busy. bind _ _ (when-Good busy _ wait_for_empty-Good) λ _.
                  bind _ _ (gets-Good _) λ count. bind _ _ (slot-Good 3 count) λ i.
                    bind _ _ (set_bld-Good _ (λ b. refl) (λ b. refl) (λ b. refl)) λ _.
                      bind _ _ (set_bld-Good _ (λ b. refl) (λ b. refl) (λ b. refl))
                        λ _. set_bld-Good _ (λ b. refl) (λ b. refl) (λ b. refl)))
              λ _. when-Good _ _ (
                bind _ _ (gets-Good _) λ count. bind _ _ (slot-Good 10 count) λ i.
                  bind _ _ (set_bld-Good _ (λ b. refl) (λ b. refl) (λ b. refl)) λ _.
                    bind _ _ (set_bld-Good _ (λ b. refl) (λ b. refl) (λ b. refl))
                      λ _. set_bld-Good _ (λ b. refl) (λ b. refl) (λ b. refl))

    elevator_call_up-Good : Good (elevator_call_up priority floor_s floor_e)
    unfolding elevator_call_up
    elevator_call_up-Good = bind _ _ (gets-Good _) λ idle.
        bind _ _ (when-Good idle _ (call-Good _)) λ _. bind _ _ (slot-Good max_floors floor_s) λ f.
          bind _ _ (set_bld-Good _ (λ b. refl) (λ b. refl) (λ b. refl)) λ _.
            bind _ _ (set_bld-Good _ (λ b. refl) (λ b. refl) (λ b. refl)) λ _.
              bind _ _ request_as-Good
                λ _. bind _ _ (call-Good _) λ _. set_bld-Good _ (λ b. refl) (λ b. refl) (λ b. refl)

    elevator_call_down-Good : Good (elevator_call_down priority floor_s floor_e)
    unfolding elevator_call_down
    elevator_call_down-Good = bind _ _ (gets-Good _) λ idle.
        bind _ _ (when-Good idle _ (call-Good _)) λ _. bind _ _ (slot-Good max_floors floor_s) λ f.
          bind _ _ (set_bld-Good _ (λ b. refl) (λ b. refl) (λ b. refl)) λ _.
            bind _ _ (set_bld-Good _ (λ b. refl) (λ b. refl) (λ b. refl)) λ _.
              bind _ _ request_as-Good
                λ _. bind _ _ (call-Good _) λ _. set_bld-Good _ (λ b. refl) (λ b. refl) (λ b. refl)

  rider-Good :
      (arg : ℕ)
      → IsFloor (pos (arg % 2 ^ 16))
      → IsFloor (pos (arg / 2 ^ 16))
      → Good (rider priority arg)
  unfolding rider ride
  rider-Good arg s e = bind _ _ (when-Good _ _ (elevator_call_up-Good _ _ s e)) λ _.
      bind _ _ (when-Good _ _ (elevator_call_down-Good _ _ s e)) λ _.
        bind _ _ (elevator_enter-Good) λ _.
          bind _ _ (elevator_request_floor-Good _)
            λ _. bind _ _ (elevator_exit-Good) λ _. call-Good _

-- A rider who goes from a floor between 1 and 10 to another leaves the elevator's floor, direction and door
-- alone in each of its writes; each of them keeps the two floors of the President's request, if any,
-- between 1 and 10; and a rider that is not a President leaves alone how many Presidents call.
pub rider-Guarantees :
    (priority : ℤ) (arg : ℕ)
    → IsFloor (pos (arg % 2 ^ 16))
    → IsFloor (pos (arg / 2 ^ 16))
    → Guarantees (Polite priority) (rider priority arg)
unfolding Good
rider-Guarantees priority arg s e = rider-Good priority arg s e

-- The writes of a rider that is not a President are ones that the elevator's thread can rely on.
rider-Others :
    (priority : ℤ) (arg : ℕ)
    → eq_ℤ priority (pos 30) ≡ false
    → IsFloor (pos (arg % 2 ^ 16))
    → IsFloor (pos (arg / 2 ^ 16))
    → Guarantees Others (rider priority arg)
rider-Others priority arg other s e =
    Guarantees-mono (Polite priority) Others
      (λ w v k. record {
        floor = k.floor;
        direction = k.direction;
        door = k.door;
        presidents = k.presidents other;
      })
      (rider priority arg) (rider-Guarantees priority arg s e)
