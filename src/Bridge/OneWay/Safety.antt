-- ===== src/Bridge/OneWay/Safety.antt =====
-- Cars never cross in opposite directions.
use mathlib.Core.Path.{subst}
use user_level_thread_librar.Base.{
  ℕ, zero, suc, ◌≡◌, ◌≢◌, refl, arith, List, [], ◌∷◌, ◌++◌, pos, increment, length, length-snoc,
  decrement, is_zero, sym, ◌∙◌, ◌⊎◌, inl, inr, Bool-cases,
}
use user_level_thread_librar.Bridge.Cars.{
  Dir, open_road, same, AllAre, AllAre-snoc, AllAre-remove, AllGo, AllGo-snoc, AllGo-remove,
  same-eq, length-remove, length-nil, nil_ne_remove,
}
use user_level_thread_librar.Bridge.OneWay.{
  Road, arrive, depart, wake_first, signal, broadcast, empty_road,
}
use user_level_thread_librar.Bridge.OneWay.Steps.{
  Step, arrives, resumes, departs, Steps, none_yet, then_one,
}

-- All cars on the bridge go in its direction, and the counter counts them.
pub record IsSafe (r : Road) : Type 0 where
  pub one_way : AllAre r.cur_dir r.crossing
  pub counted : r.num_cars ≡ pos (length r.crossing)
  pub empty : r.cur_dir ≡ open_road → r.crossing ≡ []
  pub waiting_go : AllGo r.waiting
  pub woken_go : AllGo r.woken

enter-IsSafe :
    (d : Dir) (r : Road)
    → d ≢ open_road
    → (r.cur_dir ≡ d) ⊎ (r.cur_dir ≡ open_road)
    → IsSafe r
    → IsSafe
        (record r { num_cars = increment r.num_cars; cur_dir = d; crossing = r.crossing ++ d ∷ [] })
enter-IsSafe d r g c i = record {
  one_way = AllAre-snoc d r.crossing (facing c);
  counted = rw i.counted (ground (arith, length-snoc r.crossing d));
  empty = λ e. absurd (g e);
  waiting_go = i.waiting_go;
  woken_go = i.woken_go;
}
  where
    facing : (r.cur_dir ≡ d) ⊎ (r.cur_dir ≡ open_road) → AllAre d r.crossing
    facing (inl e) = subst (λ c. AllAre c r.crossing) e i.one_way
    facing (inr e) = rw (i.empty e) tt

pub arrive-IsSafe : (d : Dir) (r : Road) → d ≢ open_road → IsSafe r → IsSafe (arrive d r)
unfolding arrive
arrive-IsSafe d r g i = elim (Bool-cases (same r.cur_dir d)) [
  | inl e ↦ rw e (enter-IsSafe d r g (inl (same-eq r.cur_dir d e)) i)
  | inr n ↦ elim (Bool-cases (same r.cur_dir open_road)) [
    | inl e ↦ rw (n, e) (enter-IsSafe d r g (inr (same-eq r.cur_dir open_road e)) i)
    | inr m ↦
        rw (n, m)
          (record {
            one_way = i.one_way;
            counted = i.counted;
            empty = i.empty;
            waiting_go = AllGo-snoc d r.waiting g i.waiting_go;
            woken_go = i.woken_go;
          })
  ]
]

wake_first-IsSafe :
    (r : Road) (ws : List Dir) → r.waiting ≡ ws → IsSafe r → IsSafe (wake_first ws r)
wake_first-IsSafe r [] e i = i
wake_first-IsSafe r (x ∷ xs) e i =
    let (go, rest) = AllGo-remove x [] xs (rw e at i.waiting_go) in
    record {
      one_way = i.one_way;
      counted = i.counted;
      empty = i.empty;
      waiting_go = rest;
      woken_go = AllGo-snoc x r.woken go i.woken_go;
    }

broadcast-IsSafe : (n : ℕ) (r : Road) → IsSafe r → IsSafe (broadcast n r)
unfolding broadcast signal
broadcast-IsSafe zero r i = i
broadcast-IsSafe (suc n) r i = broadcast-IsSafe n (signal r) (wake_first-IsSafe r r.waiting refl i)

pub depart-IsSafe :
    (xs : List Dir) (d : Dir) (ys : List Dir) (r : Road)
    → r.crossing ≡ xs ++ d ∷ ys
    → IsSafe r
    → IsSafe (depart (xs ++ ys) r)
unfolding depart
depart-IsSafe xs d ys r e i = elim (Bool-cases (is_zero (decrement r.num_cars))) [
  | inl last ↦ rw last (
      broadcast-IsSafe 30 _ (record {
        one_way = rw (length-nil (xs ++ ys) (rw left at last)) tt;
        counted = left;
        empty = λ _. length-nil (xs ++ ys) (rw left at last);
        waiting_go = i.waiting_go;
        woken_go = i.woken_go;
      }))
  | inr more ↦ rw more (record {
    one_way = one_way;
    counted = left;
    empty = λ o. absurd (nil_ne_remove d xs ys (sym (i.empty o) ∙ e));
    waiting_go = i.waiting_go;
    woken_go = i.woken_go;
  })
]
  where
    left : decrement r.num_cars ≡ pos (length (xs ++ ys))
    left = rw (i.counted, e, length-remove d xs ys)

    one_way : AllAre r.cur_dir (xs ++ ys)
    one_way = AllAre-remove r.cur_dir d xs ys (rw e at i.one_way)

pub Step-IsSafe : {r s : Road} → Step r s → IsSafe r → IsSafe s
Step-IsSafe {r} (arrives d g) i = arrive-IsSafe d r g i
Step-IsSafe {r} (resumes xs d ys e) i =
    let (go, rest) = AllGo-remove d xs ys (rw e at i.woken_go) in
    arrive-IsSafe d (record r { woken = xs ++ ys }) go
      (record {
        one_way = i.one_way;
        counted = i.counted;
        empty = i.empty;
        waiting_go = i.waiting_go;
        woken_go = rest;
      })
Step-IsSafe {r} (departs xs d ys e) i = depart-IsSafe xs d ys r e i

pub Steps-IsSafe : {r s : Road} {n : ℕ} → Steps r n s → IsSafe r → IsSafe s
Steps-IsSafe none_yet i = i
Steps-IsSafe (then_one k t) i = Step-IsSafe t (Steps-IsSafe k i)

pub empty_road-IsSafe : IsSafe empty_road
empty_road-IsSafe = record {
  one_way = tt;
  counted = refl;
  empty = λ _. refl;
  waiting_go = tt;
  woken_go = tt;
}

-- After any number of arrivals, resumptions and departures, from the road as it is initialised, all the
-- cars on the bridge go in its direction, `num_cars` is their number, and an open road has none.
pub Steps-AllAre :
    (r : Road) (n : ℕ)
    → Steps empty_road n r
    → AllAre r.cur_dir r.crossing
      × (r.num_cars ≡ pos (length r.crossing))
      × (r.cur_dir ≡ open_road → r.crossing ≡ [])
Steps-AllAre r n k = let i = Steps-IsSafe k empty_road-IsSafe in (i.one_way, i.counted, i.empty)
