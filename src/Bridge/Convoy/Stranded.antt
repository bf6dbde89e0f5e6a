-- ===== src/Bridge/Convoy/Stranded.antt =====
-- TEST3C.C: a car that comes alone when it is not its side's turn.
use user_level_thread_librar.Base.{
  ◌≡◌, ◌≢◌, refl, sym, ◌∙◌, true, false, Bool, ◌||◌, List, [], ◌∷◌, is_zero,
}
use user_level_thread_librar.Bridge.Cars.{Dir, open_road, north, south, nil_ne_remove}
use user_level_thread_librar.Bridge.Convoy.{
  Convoy, arrive, loop, queue_up, signal, is_even, must_wait, flip, own_count, count_in,
}
use user_level_thread_librar.Bridge.Convoy.Steps.{Step, arrives, resumes, departs}

-- Nobody crosses, and nobody has been woken.
abbrev pub IsStill : List Dir → Convoy → Type 0
IsStill ds c = (c.waiting ≡ ds) × (c.woken ≡ []) × (c.crossing ≡ [])

waits_or : (b x y : Bool) → (((b || true) || x) || y) ≡ true
waits_or true x y = refl
waits_or false x y = refl

turn_of_others : (d : Dir) (c : Convoy) → d ≢ open_road → c.cur_dir ≡ flip d → must_wait d c ≡ true
turn_of_others open_road c g e = absurd (g refl)
turn_of_others north c g e = rw e (waits_or (is_even c.num_cars) _ _)
turn_of_others south c g e = rw e (waits_or (is_even c.num_cars) _ _)

loop-IsStill :
    (d : Dir) (c : Convoy)
    → d ≢ open_road
    → c.cur_dir ≡ flip d
    → IsStill [] c
    → IsStill (d ∷ []) (loop d c)
unfolding loop queue_up signal
loop-IsStill d c g e (w, k, x) = rw (turn_of_others d c g e, w) (refl, k, x)

arrive-IsStill :
    (d : Dir) (c : Convoy)
    → d ≢ open_road
    → c.cur_dir ≡ flip d
    → is_zero c.first_time ≡ false
    → IsStill [] c
    → IsStill (d ∷ []) (arrive d c)
unfolding arrive
arrive-IsStill open_road c g e f h = absurd (g refl)
arrive-IsStill north c g e f h =
    rw f (loop-IsStill north (own_count north (count_in north c)) g e h)
arrive-IsStill south c g e f h =
    rw f (loop-IsStill south (own_count south (count_in south c)) g e h)

only_arrivals :
    (d : Dir) (c e : Convoy) → IsStill (d ∷ []) c → Step c e → (x : Dir) × (e ≡ arrive x c)
only_arrivals d c e h (arrives x g) = (x, refl)
only_arrivals d c e (w, k, x) (resumes xs y ys q) = absurd (nil_ne_remove y xs ys (sym k ∙ q))
only_arrivals d c e (w, k, x) (departs xs y ys q) = absurd (nil_ne_remove y xs ys (sym x ∙ q))

-- A car that comes, not as the first, when no car waits, is woken or crosses and the direction is the
-- other one, waits although the bridge is empty, and nothing but the arrival of another car can happen
-- next.
pub lone_car_waits :
    (d : Dir) (c e : Convoy)
    → d ≢ open_road
    → c.cur_dir ≡ flip d
    → is_zero c.first_time ≡ false
    → IsStill [] c
    → Step (arrive d c) e
    → IsStill (d ∷ []) (arrive d c) × ((x : Dir) × (e ≡ arrive x (arrive d c)))
lone_car_waits d c e g turn f h t =
    let still = arrive-IsStill d c g turn f h in (still, only_arrivals d (arrive d c) e still t)
