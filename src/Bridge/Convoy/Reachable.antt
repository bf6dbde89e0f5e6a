-- ===== src/Bridge/Convoy/Reachable.antt =====
-- TEST3C.C: cars never cross in opposite directions.
use user_level_thread_librar.Base.{
  ◌≡◌, refl, sym, ◌∙◌, arith, pos, length, is_zero, decrement, Bool-cases, List, [], ◌∷◌, ◌++◌, inl,
  inr,
}
use user_level_thread_librar.Bridge.Cars.{
  Dir, north, south, AllAre, AllAre-remove, AllGo-remove, length-remove, length-nil, nil_ne_remove,
  count-remove,
}
use user_level_thread_librar.Bridge.Convoy.{
  Convoy, signal, own_count, count_out, next_group, depart, empty_road,
}
use user_level_thread_librar.Bridge.Convoy.Steps.{
  Step, arrives, resumes, departs, Reach, here, next,
}
use user_level_thread_librar.Bridge.Convoy.Defs.{present, IsSafe}
use user_level_thread_librar.Bridge.Convoy.Parts.{signal-IsSafe, own_count-IsSafe, count_out-IsSafe}
use user_level_thread_librar.Bridge.Convoy.Safety.{arrive-IsSafe, resume-IsSafe}

next_group-IsSafe :
    (hand : List Dir) (c : Convoy) → c.crossing ≡ [] → IsSafe hand c → IsSafe hand (next_group c)
next_group-IsSafe hand c e i = record {
  one_way = rw e tt;
  flight = i.flight;
  empty = λ _. e;
  north_counted = i.north_counted;
  south_counted = i.south_counted;
  waiting_go = i.waiting_go;
  woken_go = i.woken_go;
  begun = i.begun;
}

depart-IsSafe :
    (xs : List Dir) (d : Dir) (ys : List Dir) (c : Convoy)
    → c.crossing ≡ xs ++ d ∷ ys
    → IsSafe [] c
    → IsSafe [] (depart d (xs ++ ys) c)
unfolding depart
depart-IsSafe xs d ys c e i = elim (Bool-cases (is_zero (decrement c.in_flight))) [
  | inl z ↦ rw z (
      gone (next_group left)
        (next_group-IsSafe (d ∷ []) left (length-nil (xs ++ ys) (rw flying at z)) left-IsSafe))
  | inr n ↦ rw n (gone left left-IsSafe)
]
  where
    left : Convoy
    left = record c { in_flight = decrement c.in_flight; crossing = xs ++ ys }

    flying : decrement c.in_flight ≡ pos (length (xs ++ ys))
    flying = rw (i.flight, e, length-remove d xs ys)

    left-IsSafe : IsSafe (d ∷ []) left
    left-IsSafe = record {
      one_way = AllAre-remove c.cur_dir d xs ys (rw e at i.one_way);
      flight = flying;
      empty = λ o. absurd (nil_ne_remove d xs ys (sym (i.empty o) ∙ e));
      north_counted = rw (i.north_counted, e) (ground (arith, count-remove north d xs ys));
      south_counted = rw (i.south_counted, e) (ground (arith, count-remove south d xs ys));
      waiting_go = i.waiting_go;
      woken_go = i.woken_go;
      begun = λ z. absurd (nil_ne_remove d xs ys (sym (i.begun z).0 ∙ e));
    }

    gone : (k : Convoy) → IsSafe (d ∷ []) k → IsSafe [] (own_count d (count_out d (signal k)))
    gone k j = own_count-IsSafe d [] _ (count_out-IsSafe d (signal k) (signal-IsSafe (d ∷ []) k j))

taken-IsSafe :
    (xs : List Dir) (d : Dir) (ys : List Dir) (c : Convoy)
    → c.woken ≡ xs ++ d ∷ ys
    → IsSafe [] c
    → IsSafe (d ∷ []) (record c { woken = xs ++ ys })
taken-IsSafe xs d ys c e i = record {
  one_way = i.one_way;
  flight = i.flight;
  empty = i.empty;
  north_counted = rw (i.north_counted, e) (ground (arith, count-remove north d xs ys));
  south_counted = rw (i.south_counted, e) (ground (arith, count-remove south d xs ys));
  waiting_go = i.waiting_go;
  woken_go = (AllGo-remove d xs ys (rw e at i.woken_go)).1;
  begun = λ z. absurd (nil_ne_remove d xs ys (sym (i.begun z).2 ∙ e));
}

Step-IsSafe : (c e : Convoy) → Step c e → IsSafe [] c → IsSafe [] e
Step-IsSafe c e (arrives d g) i = arrive-IsSafe d c g i
Step-IsSafe c e (resumes xs d ys q) i =
    resume-IsSafe d (record c { woken = xs ++ ys }) (AllGo-remove d xs ys (rw q at i.woken_go)).0
      (taken-IsSafe xs d ys c q i)
Step-IsSafe c e (departs xs d ys q) i = depart-IsSafe xs d ys c q i

Reach-IsSafe : (c e : Convoy) → Reach c e → IsSafe [] c → IsSafe [] e
Reach-IsSafe c e here i = i
Reach-IsSafe c e (next {d = d} r s) i = Step-IsSafe d e s (Reach-IsSafe c d r i)

empty_road-IsSafe : IsSafe [] empty_road
empty_road-IsSafe = record {
  one_way = tt;
  flight = refl;
  empty = λ _. refl;
  north_counted = refl;
  south_counted = refl;
  waiting_go = tt;
  woken_go = tt;
  begun = λ _. (refl, refl, refl, refl);
}

-- After any history of arrivals, resumptions and departures, from the road as it is initialised, all the
-- cars on the bridge go in its direction, `inFlight` is their number, and the counters of each side are
-- the numbers of its cars that have arrived and not departed.
pub Reach-AllAre :
    (c : Convoy)
    → Reach empty_road c
    → AllAre c.cur_dir c.crossing
      × (c.in_flight ≡ pos (length c.crossing))
      × (c.num_cars_north ≡ pos (present north c.waiting c.woken c.crossing []))
      × (c.num_cars_south ≡ pos (present south c.waiting c.woken c.crossing []))
Reach-AllAre c r =
    let i = Reach-IsSafe empty_road c r empty_road-IsSafe in
    (i.one_way, i.flight, i.north_counted, i.south_counted)
