-- ===== src/Bridge/OneWay/Starvation.antt =====
-- TEST3B.C: a car waits for ever while cars keep coming from the other side.
use mathlib.Core.Path.{subst}
use user_level_thread_librar.Base.{ℕ, zero, suc, ◌≡◌, ◌≢◌, refl, List, [], ◌∷◌, pos, true}
use user_level_thread_librar.Bridge.Cars.{Dir, open_road, north, south, same}
use user_level_thread_librar.Bridge.OneWay.{Road, arrive, depart}
use user_level_thread_librar.Bridge.OneWay.Steps.{arrives, departs, Steps, none_yet, then_one}

-- One car crosses in direction `d`, and the cars of `w` wait.
abbrev pub busy : Dir → List Dir → Road
busy d w = record { num_cars = pos 1; cur_dir = d; waiting = w; woken = []; crossing = d ∷ [] }

-- Another one has followed it.
abbrev followed : Dir → List Dir → Road
followed d w = record {
  num_cars = pos 2;
  cur_dir = d;
  waiting = w;
  woken = [];
  crossing = d ∷ d ∷ [];
}

same_refl : (d : Dir) → same d d ≡ true
same_refl open_road = refl
same_refl north = refl
same_refl south = refl

follow : (d : Dir) (w : List Dir) → arrive d (busy d w) ≡ followed d w
unfolding arrive
follow d w = rw (same_refl d)

leave : (d : Dir) (w : List Dir) → depart (d ∷ []) (followed d w) ≡ busy d w
unfolding depart
leave d w = refl

one_more :
    (r : Road) (d : Dir) (w : List Dir) (n : ℕ)
    → d ≢ open_road
    → Steps r n (busy d w)
    → Steps r (suc (suc n)) (busy d w)
one_more r d w n g k = subst (Steps r (suc (suc n))) (leave d w) (
    then_one (subst (Steps r (suc n)) (follow d w) (then_one k (arrives d g)))
      (departs [] d (d ∷ []) refl))

-- The number of steps in which `n` cars arrive and depart.
abbrev pub twice : ℕ → ℕ
twice zero = zero
twice (suc n) = suc (suc (twice n))

-- While a car crosses, `n` more cars can arrive in its direction and depart, one after the other, and
-- every car that waits is still where it was: so it is for each `n`, whichever cars wait.
pub starvation :
    (d : Dir) (w : List Dir) (n : ℕ) → d ≢ open_road → Steps (busy d w) (twice n) (busy d w)
starvation d w zero g = none_yet
starvation d w (suc n) g = one_more (busy d w) d w (twice n) g (starvation d w n g)
