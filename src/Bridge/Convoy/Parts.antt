-- ===== src/Bridge/Convoy/Parts.antt =====
-- The pieces of `Arrive` and `Depart` keep what holds between two steps.
use user_level_thread_librar.Base.{
  ◌≡◌, ◌≢◌, refl, arith, ℤ, pos, length-snoc, sym, ◌∙◌, is_zero, true, false, List, [], ◌∷◌,
}
use user_level_thread_librar.Bridge.Cars.{
  Dir, open_road, north, south, AllAre, AllAre-snoc, AllGo, AllGo-snoc, AllGo-remove, nil_ne_remove,
  count-append,
}
use user_level_thread_librar.Bridge.Convoy.{
  Convoy, wake_first, signal, own_count, count_in, count_out, enter, queue_up,
}
use user_level_thread_librar.Bridge.Convoy.Defs.{present, Safe, IsSafe}

-- The cars are the same, put in other places or counted in or out.
moved :
    {cur : Dir} {f n n' s s' first : ℤ} {w w' k k' x hand hand' : List Dir}
    → Safe cur f n s first w k x hand
    → n' ≡ pos (present north w' k' x hand')
    → s' ≡ pos (present south w' k' x hand')
    → AllGo w'
    → AllGo k'
    → (is_zero first ≡ true → (x ≡ []) × (w' ≡ []) × (k' ≡ []) × (hand' ≡ []))
    → Safe cur f n' s' first w' k' x hand'
moved i north_counted south_counted waiting_go woken_go begun = record {
  one_way = i.one_way;
  flight = i.flight;
  empty = i.empty;
  north_counted = north_counted;
  south_counted = south_counted;
  waiting_go = waiting_go;
  woken_go = woken_go;
  begun = begun;
}

wake_first-IsSafe :
    (hand : List Dir) (c : Convoy) (ws : List Dir)
    → c.waiting ≡ ws
    → IsSafe hand c
    → IsSafe hand (wake_first ws c)
wake_first-IsSafe hand c [] e i = i
wake_first-IsSafe hand c (x ∷ xs) e i =
    let (go, rest) = AllGo-remove x [] xs (rw e at i.waiting_go) in
    moved i (rw (i.north_counted, e) (ground (arith, count-append north c.woken (x ∷ []))))
      (rw (i.south_counted, e) (ground (arith, count-append south c.woken (x ∷ [])))) rest
      (AllGo-snoc x c.woken go i.woken_go)
      (λ z. absurd (nil_ne_remove x [] xs (sym (i.begun z).1 ∙ e)))

pub signal-IsSafe : (hand : List Dir) (c : Convoy) → IsSafe hand c → IsSafe hand (signal c)
unfolding signal
signal-IsSafe hand c i = wake_first-IsSafe hand c c.waiting refl i

pub own_count-IsSafe :
    (d : Dir) (hand : List Dir) (c : Convoy) → IsSafe hand c → IsSafe hand (own_count d c)
own_count-IsSafe open_road hand c i = i
own_count-IsSafe north hand c i = i
own_count-IsSafe south hand c i = i

-- A car that arrives is counted; that cars have begun to arrive has been noted before.
pub count_in-IsSafe :
    (d : Dir) (c : Convoy)
    → is_zero c.first_time ≡ false
    → IsSafe [] c
    → IsSafe (d ∷ []) (count_in d c)
count_in-IsSafe open_road c f i =
    moved i (rw i.north_counted (ground arith)) (rw i.south_counted (ground arith)) i.waiting_go
      i.woken_go (λ z. cc)
count_in-IsSafe north c f i =
    moved i (rw i.north_counted (ground arith)) (rw i.south_counted (ground arith)) i.waiting_go
      i.woken_go (λ z. cc)
count_in-IsSafe south c f i =
    moved i (rw i.north_counted (ground arith)) (rw i.south_counted (ground arith)) i.waiting_go
      i.woken_go (λ z. cc)

-- A car in hand has begun.
hand_begun :
    {A : Type 0} (d : Dir) (c : Convoy) → IsSafe (d ∷ []) c → is_zero c.first_time ≡ true → A
hand_begun d c i z = absurd (nil_ne_remove d [] [] (sym (i.begun z).3))

pub count_out-IsSafe : (d : Dir) (c : Convoy) → IsSafe (d ∷ []) c → IsSafe [] (count_out d c)
count_out-IsSafe open_road c i =
    moved i (rw i.north_counted (ground arith)) (rw i.south_counted (ground arith)) i.waiting_go
      i.woken_go (hand_begun open_road c i)
count_out-IsSafe north c i =
    moved i (rw i.north_counted (ground arith)) (rw i.south_counted (ground arith)) i.waiting_go
      i.woken_go (hand_begun north c i)
count_out-IsSafe south c i =
    moved i (rw i.north_counted (ground arith)) (rw i.south_counted (ground arith)) i.waiting_go
      i.woken_go (hand_begun south c i)

pub queue_up-IsSafe :
    (d : Dir) (c : Convoy) → d ≢ open_road → IsSafe (d ∷ []) c → IsSafe [] (queue_up d c)
unfolding queue_up
queue_up-IsSafe d c g i =
    let j = signal-IsSafe (d ∷ []) c i in
    moved j (rw j.north_counted (ground (arith, count-append north (signal c).waiting (d ∷ []))))
      (rw j.south_counted (ground (arith, count-append south (signal c).waiting (d ∷ []))))
      (AllGo-snoc d (signal c).waiting g j.waiting_go) j.woken_go (hand_begun d (signal c) j)

pub enter-IsSafe :
    (d : Dir) (c : Convoy)
    → d ≢ open_road
    → AllAre d c.crossing
    → IsSafe (d ∷ []) c
    → IsSafe [] (enter d c)
unfolding enter
enter-IsSafe d c g same_way i = record {
  one_way = AllAre-snoc d c.crossing same_way;
  flight = rw i.flight (ground (arith, length-snoc c.crossing d));
  empty = λ e. absurd (g e);
  north_counted = rw i.north_counted (ground (arith, count-append north c.crossing (d ∷ [])));
  south_counted = rw i.south_counted (ground (arith, count-append south c.crossing (d ∷ [])));
  waiting_go = i.waiting_go;
  woken_go = i.woken_go;
  begun = hand_begun d c i;
}
