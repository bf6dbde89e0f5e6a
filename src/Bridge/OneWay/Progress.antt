-- ===== src/Bridge/OneWay/Progress.antt =====
-- TEST3A.C: all the cars that have come get across.
use user_level_thread_librar.Base.{
  ℕ, zero, suc, ◌+◌, ◌≤◌, ◌<◌, ◌≡◌, refl, arith, List, [], ◌∷◌, ◌++◌, length, ap, ◌∙◌, ◌⊎◌, inl,
  inr,
}
use user_level_thread_librar.Bridge.Cars.{Dir, length-remove}
use user_level_thread_librar.Bridge.OneWay.{Road, arrive, depart, empty_road}
use user_level_thread_librar.Bridge.OneWay.Steps.{
  Step, arrives, resumes, departs, Steps, none_yet, then_one,
}
use user_level_thread_librar.Bridge.OneWay.Safety.{IsSafe, Steps-IsSafe, empty_road-IsSafe}
use user_level_thread_librar.Bridge.OneWay.Effects.{load, IsServed, arrive-Arrived, depart-Departed}

-- How long the cars that are there can go on.
abbrev pub budget : ℕ → ℕ
budget zero = zero
budget (suc n) = suc n + budget n

abbrev pub time_left : Road → ℕ
time_left r = budget (load r) + length r.woken

budget_grows : (m n w : ℕ) → m ≡ suc n → w ≤ n → budget n + w < budget m
budget_grows m n w e l = rw e (omega arith)

-- How many new cars a step, or a history, brings.
abbrev pub new_cars : {r s : Road} → Step r s → ℕ
new_cars (arrives d g) = 1
new_cars (resumes xs d ys e) = 0
new_cars (departs xs d ys e) = 0

abbrev pub arrivals : {r s : Road} {n : ℕ} → Steps r n s → ℕ
arrivals none_yet = 0
arrivals (then_one k t) = new_cars t + arrivals k

record Effect (a : ℕ) (r s : Road) : Type 0 where
  few : load s ≤ a + load r
  served : load r ≤ 30 → IsServed r → IsServed s
  nearer : a ≡ 0 → time_left s < time_left r

Step-Effect : {r s : Road} (t : Step r s) → IsSafe r → Effect (new_cars t) r s
Step-Effect {r} (arrives d g) i =
    let a = arrive-Arrived d r in
    record {
      few = omega (arith, a.one_more);
      served = λ _ w. a.served w;
      nearer = λ e. absurd (omega (arith, e));
    }
Step-Effect {r} (resumes xs d ys e) i =
    let a = arrive-Arrived d (record r { woken = xs ++ ys }) in
    let fewer : length r.woken ≡ suc (length (xs ++ ys)) = ap length e ∙ length-remove d xs ys in
    let same_load : load (arrive d (record r { woken = xs ++ ys })) ≡ load r =
      omega (arith, a.one_more, fewer) in
    record {
      few = omega (arith, same_load);
      served = λ _ w.
          a.served
            (record { open_when_empty = w.open_when_empty; none_when_empty = w.none_when_empty });
      nearer = λ _. omega (arith, ap budget same_load, ap length a.same_woken, fewer);
    }
Step-Effect {r} (departs xs d ys e) i =
    let b = depart-Departed xs d ys r e i in
    record {
      few = omega (arith, b.one_less);
      served = b.served;
      nearer = λ _. omega (
        arith,
        budget_grows (load r) (load (depart (xs ++ ys) r)) (length (depart (xs ++ ys) r).woken)
            b.one_less (omega arith),
      );
    }

Steps-IsServed :
    {r s : Road} {n : ℕ} (k : Steps r n s)
    → IsSafe r
    → load r + arrivals k ≤ 30
    → IsServed r
    → IsServed s × (load s ≤ load r + arrivals k)
Steps-IsServed none_yet i l w = (w, omega arith)
Steps-IsServed (then_one k t) i l w =
    let (v, few) = Steps-IsServed k i (omega arith) w in
    let f = Step-Effect t (Steps-IsSafe k i) in (f.served (omega arith) v, omega (arith, f.few))

Steps-budget :
    {r s : Road} {n : ℕ} (k : Steps r n s)
    → IsSafe r
    → arrivals k ≡ 0
    → n + time_left s ≤ time_left r
Steps-budget none_yet i e = omega arith
Steps-budget (then_one k t) i e =
    let f = Step-Effect t (Steps-IsSafe k i) in
    omega (arith, Steps-budget k i (omega arith), f.nearer (omega arith))

-- Nobody is left, or somebody can move.
abbrev pub AllGone : Road → Type 0
AllGone r = (r.waiting ≡ []) × (r.woken ≡ []) × (r.crossing ≡ [])

abbrev pub CanMove : Road → Type 0
CanMove r = (t : Road) × (p : Step r t) × (new_cars p ≡ 0)

moves_on : (r : Road) → IsServed r → AllGone r ⊎ CanMove r
moves_on r w = by_crossing r.crossing refl
  where
    by_woken : (ws : List Dir) → r.woken ≡ ws → r.crossing ≡ [] → AllGone r ⊎ CanMove r
    by_woken [] e h = inl (w.none_when_empty h, e, h)
    by_woken (d ∷ ws) e h = inr (_, resumes [] d ws e, refl)

    by_crossing : (cs : List Dir) → r.crossing ≡ cs → AllGone r ⊎ CanMove r
    by_crossing [] e = by_woken r.woken refl e
    by_crossing (d ∷ cs) e = inr (_, departs [] d cs e, refl)

empty_road-IsServed : IsServed empty_road
empty_road-IsServed = record { open_when_empty = λ _. refl; none_when_empty = λ _. refl }

-- As long as no time slice ends while a car holds the lock, or in `t_wait` before it has joined the waiters, all
-- the cars get across: after a history in which at most 30 cars have come, each further history in
-- which no more come has at most `time_left` steps, and until every car has left one of those that are
-- there can make a step, by acquiring the lock after a signal or by departing.
pub all_cars_cross :
    (r s : Road) (n m : ℕ) (k : Steps empty_road n r) (q : Steps r m s)
    → arrivals k ≤ 30
    → arrivals q ≡ 0
    → (m ≤ time_left r) × (AllGone s ⊎ CanMove s)
all_cars_cross r s n m k q few none_comes =
    let safe = Steps-IsSafe k empty_road-IsSafe in
    let (w, l) = Steps-IsServed k empty_road-IsSafe (omega arith) empty_road-IsServed in
    let (v, _) = Steps-IsServed q safe (omega arith) w in
    (omega (arith, Steps-budget q safe none_comes), moves_on s v)
