-- ===== src/Scripts/Chain.antt =====
-- What the threads still have to do, when one of them has done something.
use user_level_thread_librar.Base.{
  ℕ, ◌+◌, ◌≤◌, ◌<◌, ◌≡◌, refl, false, List, [], ◌∷◌, ◌++◌, arith, update, ==-refl, ◌∙◌, ◌==◌,
}
use user_level_thread_librar.Scripts.{Code}
use user_level_thread_librar.Scripts.Nesting.{
  Frame, Ordered, Parents, remaining, to_end, work, output, forks_of, cost,
}

-- Bounds that are not the least ones.
pub weaken : (i j l m : ℕ) (fs : List Frame) → i ≤ j → l ≤ m → Ordered i l fs → Ordered j m fs
weaken i j l m [] h k o = tt
weaken i j l m (f ∷ fs) h k (a, b, o) = (omega arith, omega arith, o)

-- Two maps that agree below `i`.
abbrev pub Agree {ℓ} : {A : Type ℓ} → ℕ → (ℕ → A) → (ℕ → A) → Type ℓ
Agree i f g = (j : ℕ) → j < i → f j ≡ g j

pub update-Agree {ℓ} : {A : Type ℓ} (f : ℕ → A) (i : ℕ) (a : A) → Agree i (update f i a) f
update-Agree f i a j l = let ne : (i == j) ≡ false = ground arith in rw ne

module _ (code' code : ℕ → Code) where
  remaining-Agree :
      (i level : ℕ) (fs : List Frame)
      → Ordered i level fs
      → Agree i code' code
      → remaining code' fs ≡ remaining code fs
  remaining-Agree i level [] o a = refl
  remaining-Agree i level (f ∷ fs) (l, _, o) a =
      rw (a f.id l, remaining-Agree f.id f.level fs o (λ j h. a j (omega arith)))

  to_end-Agree :
      (i level : ℕ) (fs : List Frame)
      → Ordered i level fs
      → Agree i code' code
      → to_end code' fs ≡ to_end code fs
  to_end-Agree i level [] o a = refl
  to_end-Agree i level (f ∷ fs) (l, _, o) a =
      rw (a f.id l, to_end-Agree f.id f.level fs o (λ j h. a j (omega arith)))

  work-Agree :
      (i level : ℕ) (fs : List Frame)
      → Ordered i level fs
      → Agree i code' code
      → work code' fs ≡ work code fs
  work-Agree i level [] o a = refl
  work-Agree i level (f ∷ fs) (l, _, o) a =
      rw (a f.id l, work-Agree f.id f.level fs o (λ j h. a j (omega arith)))

  pub Parents-Agree :
      (tid' tid : ℕ → ℕ) (i level child : ℕ) (fs : List Frame)
      → Ordered i level fs
      → Agree i code' code
      → Agree i tid' tid
      → Parents code tid child fs
      → Parents code' tid' child fs
  Parents-Agree tid' tid i level child [] o a b p = tt
  Parents-Agree tid' tid i level child (f ∷ fs) (l, _, o) a b (n, e, p) = (
    rw (a f.id l) n,
    b f.id l ∙ e,
    Parents-Agree tid' tid f.id f.level f.id fs o (λ j h. a j (omega arith))
        (λ j h. b j (omega arith)) p,
  )

-- Thread `f` goes on with `c`.
module _ (code : ℕ → Code) (f : Frame) (c : Code) (fs : List Frame)
    (o : Ordered f.id f.level fs) where
  abbrev pub advanced : ℕ → Code
  advanced = update code f.id c

  pub remaining-advanced : remaining advanced (f ∷ fs) ≡ output c ++ remaining code fs
  remaining-advanced =
      rw (==-refl f.id, remaining-Agree advanced code f.id f.level fs o (update-Agree code f.id c))

  pub to_end-advanced : to_end advanced (f ∷ fs) ≡ 1 + (forks_of c + to_end code fs)
  to_end-advanced =
      rw (==-refl f.id, to_end-Agree advanced code f.id f.level fs o (update-Agree code f.id c))

  pub work-advanced : work advanced (f ∷ fs) ≡ cost c + work code fs
  work-advanced =
      rw (==-refl f.id, work-Agree advanced code f.id f.level fs o (update-Agree code f.id c))

  pub Parents-advanced : (tid : ℕ → ℕ) → Parents code tid f.id fs → Parents advanced tid f.id fs
  Parents-advanced tid p =
      Parents-Agree advanced code tid tid f.id f.level f.id fs o (update-Agree code f.id c)
        (λ j h. refl) p
