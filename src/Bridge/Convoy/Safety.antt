-- ===== src/Bridge/Convoy/Safety.antt =====
-- `Arrive` of TEST3C.C keeps what holds between two steps.
use mathlib.Core.Path.{subst}
use user_level_thread_librar.Base.{
  ℕ, ◌≤◌, ◌==◌, ◌+◌, ◌≡◌, ◌≢◌, refl, sym, arith, ℤ, pos, negsuc, is_zero, increment, true, false,
  Bool, Bool-cases, List, [], ◌∷◌, ◌||◌, ◌&&◌, not, if◌then◌else◌, eq_ℤ, inl, inr,
}
use user_level_thread_librar.Bridge.Cars.{
  Dir, open_road, north, south, same, same-eq, AllAre, count, nil_ne_remove,
}
use user_level_thread_librar.Bridge.Convoy.{
  Convoy, own_count, count_in, enter, must_wait, loop, arrive, resume, flip,
}
use user_level_thread_librar.Bridge.Convoy.Defs.{present, Safe, IsSafe}
use user_level_thread_librar.Bridge.Convoy.Parts.{
  own_count-IsSafe, count_in-IsSafe, queue_up-IsSafe, enter-IsSafe,
}

-- A car that passes the test of the loop goes in the direction of the bridge.
passes : (a b c d : Bool) → (a || not b || c || d) ≡ false → b ≡ true
passes a true c d h = refl
passes a false c d h = ground arith

first_of : (a b : Bool) → (a && b) ≡ true → a ≡ true
first_of true b h = refl
first_of false b h = cc

loop-IsSafe : (d : Dir) (c : Convoy) → d ≢ open_road → IsSafe (d ∷ []) c → IsSafe [] (loop d c)
unfolding loop
loop-IsSafe d c g i = elim (Bool-cases (must_wait d c)) [
  | inl w ↦ rw w (queue_up-IsSafe d c g i)
  | inr p ↦ rw p (
      enter-IsSafe d c g
        (subst (λ x. AllAre x c.crossing) (same-eq c.cur_dir d (passes _ _ _ _ p)) i.one_way) i)
]

started_begun : (z : ℤ) → is_zero z ≡ true → is_zero (increment z) ≡ false
started_begun (pos n) h = ground arith
started_begun (negsuc n) h = cc

pub arrive-IsSafe : (d : Dir) (c : Convoy) → d ≢ open_road → IsSafe [] c → IsSafe [] (arrive d c)
unfolding arrive
arrive-IsSafe d c g i = elim (Bool-cases (is_zero c.first_time)) [
  | inl z ↦ rw z (
      counted (record c { first_time = increment c.first_time; cur_dir = d })
        (started_begun c.first_time z) (first z))
  | inr s ↦ rw s (counted c s i)
]
  where
    counted :
        (s : Convoy)
        → is_zero s.first_time ≡ false
        → IsSafe [] s
        → IsSafe [] (loop d (own_count d (count_in d s)))
    counted s f j = loop-IsSafe d _ g (own_count-IsSafe d (d ∷ []) _ (count_in-IsSafe d s f j))

    first :
        is_zero c.first_time ≡ true
        → Safe d c.in_flight c.num_cars_north c.num_cars_south
            (increment c.first_time)
            c.waiting
            c.woken
            c.crossing
            []
    first z = record {
      one_way = rw (i.begun z).0 tt;
      flight = i.flight;
      empty = λ e. absurd (g e);
      north_counted = i.north_counted;
      south_counted = i.south_counted;
      waiting_go = i.waiting_go;
      woken_go = i.woken_go;
      begun = λ y. i.begun z;
    }

-- With nobody present from one side, all the cars on the bridge come from the other.
other_absent :
    (d cur : Dir) (cs : List Dir) (m n : ℕ)
    → d ≢ open_road
    → (cur ≡ open_road → cs ≡ [])
    → AllAre cur cs
    → count north cs + count north (d ∷ []) ≤ m
    → count south cs + count south (d ∷ []) ≤ n
    → ((m == 0) || (n == 0)) ≡ true
    → AllAre d cs
other_absent d cur [] m n g empty one a b z = tt
other_absent open_road cur (x ∷ cs) m n g empty one a b z = absurd (g refl)
other_absent north north (x ∷ cs) m n g empty one a b z = one
other_absent south south (x ∷ cs) m n g empty one a b z = one
other_absent north open_road (x ∷ cs) m n g empty one a b z =
    absurd (nil_ne_remove x [] cs (sym (empty refl)))
other_absent south open_road (x ∷ cs) m n g empty one a b z =
    absurd (nil_ne_remove x [] cs (sym (empty refl)))
other_absent north south (x ∷ cs) m n g empty (e, one) a b z = ground arith
other_absent south north (x ∷ cs) m n g empty (e, one) a b z = ground arith

alone-AllAre :
    (d : Dir) (c : Convoy)
    → d ≢ open_road
    → IsSafe (d ∷ []) c
    → (is_zero c.num_cars_north || is_zero c.num_cars_south) ≡ true
    → AllAre d c.crossing
alone-AllAre d c g i z =
    other_absent d c.cur_dir c.crossing (present north c.waiting c.woken c.crossing (d ∷ []))
      (present south c.waiting c.woken c.crossing (d ∷ [])) g i.empty i.one_way (omega arith)
      (omega arith) (rw (i.north_counted, i.south_counted) at z)

pub resume-IsSafe :
    (d : Dir) (c : Convoy) → d ≢ open_road → IsSafe (d ∷ []) c → IsSafe [] (resume d c)
unfolding resume enter
resume-IsSafe d c g i = counted (own_count d c) (own_count-IsSafe d (d ∷ []) c i)
  where
    by_turn :
        (k : Convoy)
        → IsSafe (d ∷ []) k
        → IsSafe [] (
            if is_zero k.num_cars_north || is_zero k.num_cars_south
            then enter d (record k { cur_dir = flip k.cur_dir })
            else loop d k)
    by_turn k j = elim (Bool-cases (is_zero k.num_cars_north || is_zero k.num_cars_south)) [
      | inl z ↦ rw z (enter-IsSafe d k g (alone-AllAre d k g j z) j)
      | inr n ↦ rw n (loop-IsSafe d k g j)
    ]

    counted :
        (k : Convoy)
        → IsSafe (d ∷ []) k
        → IsSafe [] (
            if same k.cur_dir d && not (eq_ℤ k.toggle_dir (pos 1))
            then enter d k
            else if is_zero k.num_cars_north || is_zero k.num_cars_south
            then enter d (record k { cur_dir = flip k.cur_dir })
            else loop d k)
    counted k j = elim (Bool-cases (same k.cur_dir d && not (eq_ℤ k.toggle_dir (pos 1)))) [
      | inl t ↦ rw t (
          enter-IsSafe d k g
            (subst (λ x. AllAre x k.crossing) (same-eq k.cur_dir d (first_of _ _ t)) j.one_way) j)
      | inr n ↦ rw n (by_turn k j)
    ]
