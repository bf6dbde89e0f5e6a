-- ===== src/Bridge/OneWay/Effects.antt =====
-- What each step does to the cars that have come and have not left.
use mathlib.Core.Path.{subst}
use user_level_thread_librar.Base.{
  ℕ, zero, suc, ◌+◌, ◌≤◌, ◌≡◌, ◌≢◌, refl, arith, List, [], ◌∷◌, ◌++◌, pos, length, length-snoc,
  Bool, decrement, is_zero, ap, ◌∙◌, inl, inr, Bool-cases, true, false, not, ◌&&◌,
}
use user_level_thread_librar.Bridge.Cars.{Dir, open_road, same, length-remove, length-nil}
use user_level_thread_librar.Bridge.OneWay.{Road, arrive, depart, wake_first, signal, broadcast}
use user_level_thread_librar.Bridge.OneWay.Safety.{IsSafe}

-- The cars that have come and have not left.
abbrev pub load : Road → ℕ
load r = length r.waiting + length r.woken + length r.crossing

-- Whoever waits, waits for a car on the bridge.
pub record IsServed (r : Road) : Type 0 where
  pub open_when_empty : r.crossing ≡ [] → r.cur_dir ≡ open_road
  pub none_when_empty : r.crossing ≡ [] → r.waiting ≡ []

-- What `arrive` does, whichever way it goes.
pub record Arrived (r s : Road) : Type 0 where
  pub one_more : load s ≡ suc (load r)
  pub same_woken : s.woken ≡ r.woken
  pub served : IsServed r → IsServed s

not_both : (b : Bool) → (b && false) ≢ true
not_both true e = cc
not_both false e = cc

snoc_not_nil : (d : Dir) (xs : List Dir) → xs ++ d ∷ [] ≢ []
snoc_not_nil d [] e = cc
snoc_not_nil d (x ∷ xs) e = cc

pub arrive-Arrived : (d : Dir) (r : Road) → Arrived r (arrive d r)
unfolding arrive
arrive-Arrived d r = elim (Bool-cases (not (same r.cur_dir d) && not (same r.cur_dir open_road))) [
  | inl waits ↦ rw waits (record {
    one_more = omega (arith, length-snoc r.waiting d);
    same_woken = refl;
    served = λ w. record {
      open_when_empty = w.open_when_empty;
      none_when_empty = λ e. absurd (closed waits (w.open_when_empty e));
    };
  })
  | inr enters ↦ rw enters (record {
    one_more = omega (arith, length-snoc r.crossing d);
    same_woken = refl;
    served = λ w. record {
      open_when_empty = λ e. absurd (snoc_not_nil d r.crossing e);
      none_when_empty = λ e. absurd (snoc_not_nil d r.crossing e);
    };
  })
]
  where
    closed :
        (not (same r.cur_dir d) && not (same r.cur_dir open_road)) ≡ true → r.cur_dir ≢ open_road
    closed h e =
        not_both (not (same r.cur_dir d))
          (subst (λ c. (not (same r.cur_dir d) && not (same c open_road)) ≡ true) e h)

-- `n` signals wake all the cars when no more than `n` wait.
pub record Broadcast (n : ℕ) (r s : Road) : Type 0 where
  pub all_woken : length r.waiting ≤ n → s.waiting ≡ []
  pub same_load : load s ≡ load r
  pub same_crossing : s.crossing ≡ r.crossing
  pub same_dir : s.cur_dir ≡ r.cur_dir

wake_first-Broadcast :
    (ws : List Dir) (n : ℕ) (r s : Road)
    → r.waiting ≡ ws
    → Broadcast n (wake_first ws r) s
    → Broadcast (suc n) r s
wake_first-Broadcast [] n r s e b = record {
  all_woken = λ l. b.all_woken (rw e (omega arith));
  same_load = b.same_load;
  same_crossing = b.same_crossing;
  same_dir = b.same_dir;
}
wake_first-Broadcast (x ∷ xs) n r s e b = record {
  all_woken = λ l. b.all_woken (omega (arith, ap length e));
  same_load = omega (arith, ap length e, b.same_load, length-snoc r.woken x);
  same_crossing = b.same_crossing;
  same_dir = b.same_dir;
}

broadcast-Broadcast : (n : ℕ) (r : Road) → Broadcast n r (broadcast n r)
unfolding broadcast signal
broadcast-Broadcast zero r = record {
  all_woken = λ l. length-nil r.waiting (ground arith);
  same_load = refl;
  same_crossing = refl;
  same_dir = refl;
}
broadcast-Broadcast (suc n) r =
    wake_first-Broadcast r.waiting n r (broadcast n (signal r)) refl
      (broadcast-Broadcast n (signal r))

-- What the departure of one car does.
pub record Departed (r s : Road) : Type 0 where
  pub one_less : load r ≡ suc (load s)
  pub served : load r ≤ 30 → IsServed r → IsServed s

pub depart-Departed :
    (xs : List Dir) (d : Dir) (ys : List Dir) (r : Road)
    → r.crossing ≡ xs ++ d ∷ ys
    → IsSafe r
    → Departed r (depart (xs ++ ys) r)
unfolding depart
depart-Departed xs d ys r e i = elim (Bool-cases (is_zero (decrement r.num_cars))) [
  | inl last ↦
      (let b = broadcast-Broadcast 30 (record r {
        num_cars = decrement r.num_cars;
        crossing = xs ++ ys;
        cur_dir = open_road;
      }) in
        rw last (record {
          one_less = omega (arith, b.same_load, gone);
          served = λ few w. record {
            open_when_empty = λ _. b.same_dir;
            none_when_empty = λ _. b.all_woken (omega (arith, few));
          };
        }))
  | inr more ↦ rw more (record {
    one_less = omega (arith, gone);
    served = λ few w. record {
      open_when_empty = λ none_left. absurd (others_left more none_left);
      none_when_empty = λ none_left. absurd (others_left more none_left);
    };
  })
]
  where
    gone : length r.crossing ≡ suc (length (xs ++ ys))
    gone = ap length e ∙ length-remove d xs ys

    left : decrement r.num_cars ≡ pos (length (xs ++ ys))
    left = rw (i.counted, gone) refl

    others_left : is_zero (decrement r.num_cars) ≡ false → (xs ++ ys) ≢ []
    others_left more none_left = not_zero (rw (left, none_left) at more)
      where
        not_zero : true ≢ false
        not_zero h = cc
