-- ===== src/Bridge/Cars.antt =====
-- What the bridge programs share: directions, and lists of the cars in some state.
use user_level_thread_librar.Base.{
  ℕ, suc, ◌+◌, ◌≡◌, ◌≢◌, refl, Bool, true, false, List, [], ◌∷◌, ◌++◌, arith, length, ap, ◌==◌,
  if◌then◌else◌,
}

-- `enum dir`
pub data Dir : Type 0 where
  open_road north south : Dir

-- `a == b`
abbrev pub same : Dir → Dir → Bool
same open_road open_road = true
same north north = true
same south south = true
same _ _ = false

-- How many cars go in direction `d`.
abbrev pub count : Dir → List Dir → ℕ
count d [] = 0
count d (x ∷ xs) = (if same x d then 1 else 0) + count d xs

abbrev pub AllAre : Dir → List Dir → Type 0
AllAre d [] = Unit {0}
AllAre d (x ∷ xs) = (x ≡ d) × AllAre d xs

pub count-append : (d : Dir) (xs ys : List Dir) → count d (xs ++ ys) ≡ count d xs + count d ys
count-append d [] ys = omega arith
count-append d (x ∷ xs) ys = omega (arith, count-append d xs ys)

pub AllAre-snoc : (d : Dir) (xs : List Dir) → AllAre d xs → AllAre d (xs ++ d ∷ [])
AllAre-snoc d [] h = (refl, tt)
AllAre-snoc d (x ∷ xs) (e, h) = (e, AllAre-snoc d xs h)

-- Without one of the cars.
pub AllAre-remove : (d e : Dir) (xs ys : List Dir) → AllAre d (xs ++ e ∷ ys) → AllAre d (xs ++ ys)
AllAre-remove d e [] ys (_, h) = h
AllAre-remove d e (x ∷ xs) ys (q, h) = (q, AllAre-remove d e xs ys h)

-- Cars go north or south.
abbrev pub AllGo : List Dir → Type 0
AllGo [] = Unit {0}
AllGo (x ∷ xs) = (x ≢ open_road) × AllGo xs

pub AllGo-snoc : (d : Dir) (xs : List Dir) → d ≢ open_road → AllGo xs → AllGo (xs ++ d ∷ [])
AllGo-snoc d [] g h = (g, tt)
AllGo-snoc d (x ∷ xs) g (e, h) = (e, AllGo-snoc d xs g h)

pub AllGo-remove :
    (d : Dir) (xs ys : List Dir) → AllGo (xs ++ d ∷ ys) → (d ≢ open_road) × AllGo (xs ++ ys)
AllGo-remove d [] ys h = h
AllGo-remove d (x ∷ xs) ys (q, h) = let (a, b) = AllGo-remove d xs ys h in (a, (q, b))

pub same-eq : (a b : Dir) → same a b ≡ true → a ≡ b
same-eq open_road open_road h = refl
same-eq north north h = refl
same-eq south south h = refl
same-eq open_road north h = cc
same-eq open_road south h = cc
same-eq north open_road h = cc
same-eq north south h = cc
same-eq south open_road h = cc
same-eq south north h = cc

pub length-remove : (d : Dir) (xs ys : List Dir) → length (xs ++ d ∷ ys) ≡ suc (length (xs ++ ys))
length-remove d [] ys = refl
length-remove d (x ∷ xs) ys = ap suc (length-remove d xs ys)

pub length-nil : (xs : List Dir) → (length xs == 0) ≡ true → xs ≡ []
length-nil [] h = refl
length-nil (x ∷ xs) h = ground arith

pub nil_ne_remove : (d : Dir) (xs ys : List Dir) → [] ≢ xs ++ d ∷ ys
nil_ne_remove d [] ys e = cc
nil_ne_remove d (x ∷ xs) ys e = cc

pub count-remove :
    (d e : Dir) (xs ys : List Dir)
    → count d (xs ++ e ∷ ys) ≡ count d (xs ++ ys) + (if same e d then 1 else 0)
count-remove d e [] ys = omega arith
count-remove d e (x ∷ xs) ys = omega (arith, count-remove d e xs ys)
