-- ===== src/Program/Rely.antt =====
-- Rely and guarantee for the test programs: a thread among others that may write the globals before
-- each of its own steps, as far as `Others` allows.
use user_level_thread_librar.Base.{ℕ, zero, suc, Bool, true, false, if◌then◌else◌, ℤ, pos, negsuc}
use user_level_thread_librar.Program.{
  Program, ret, faulty, reads, modifies, calls, ◌>>=◌, repeat, for_below, when,
}

module _ {S R : Type 0} (Others : S → S → Type 0) where
  -- Started at `w`, the code ends without a fault, and then `Q` holds of its result and the globals.
  abbrev pub Ensures : {A : Type 0} → Program S R A → (A → S → Type 0) → S → Type 0
  Ensures (ret a) Q w = Q a w
  Ensures faulty Q w = ⊥
  Ensures (reads k) Q w = (v : S) → Others w v → Ensures (k v) Q v
  Ensures (modifies f p) Q w = (v : S) → Others w v → Ensures p Q (f v)
  Ensures (calls r p) Q w = (v : S) → Others w v → Ensures p Q v

  pub Ensures-bind :
      {A B : Type 0} (Q : B → S → Type 0) (p : Program S R A) (k : A → Program S R B) (w : S)
      → Ensures p (λ a. Ensures (k a) Q) w
      → Ensures (p >>= k) Q w
  unfolding ◌>>=◌
  Ensures-bind Q (ret a) k w h = h
  Ensures-bind Q faulty k w h = h
  Ensures-bind Q (reads f) k w h = λ v o. Ensures-bind Q (f v) k v (h v o)
  Ensures-bind Q (modifies f p) k w h = λ v o. Ensures-bind Q p k (f v) (h v o)
  Ensures-bind Q (calls r p) k w h = λ v o. Ensures-bind Q p k v (h v o)

  pub Ensures-mono :
      {A : Type 0} (P Q : A → S → Type 0) (p : Program S R A) (w : S)
      → ((a : A) (v : S) → P a v → Q a v)
      → Ensures p P w
      → Ensures p Q w
  Ensures-mono P Q (ret a) w weaken h = weaken a w h
  Ensures-mono P Q faulty w weaken h = h
  Ensures-mono P Q (reads f) w weaken h = λ v o. Ensures-mono P Q (f v) v weaken (h v o)
  Ensures-mono P Q (modifies f p) w weaken h = λ v o. Ensures-mono P Q p (f v) weaken (h v o)
  Ensures-mono P Q (calls r p) w weaken h = λ v o. Ensures-mono P Q p v weaken (h v o)

-- An invariant that the others keep.
module _ {S R : Type 0} (Others : S → S → Type 0) (I : S → Type 0)
    (stable : (w v : S) → Others w v → I w → I v) where
  abbrev pub Keeps : {A : Type 0} → Program S R A → Type 0
  Keeps p = (w : S) → I w → Ensures Others p (λ _. I) w

  pub Keeps-bind :
      {A B : Type 0} (p : Program S R A) (k : A → Program S R B)
      → Keeps p
      → ((a : A) → Keeps (k a))
      → Keeps (p >>= k)
  Keeps-bind p k first next w i =
      Ensures-bind Others (λ _. I) p k w
        (Ensures-mono Others (λ _. I) _ p w (λ a v j. next a v j) (first w i))

  pub Keeps-reads : {A : Type 0} (k : S → Program S R A) → ((v : S) → Keeps (k v)) → Keeps (reads k)
  Keeps-reads k next w i = λ v o. next v v (stable w v o i)

  pub Keeps-modifies :
      {A : Type 0} (f : S → S) (p : Program S R A)
      → ((v : S) → I v → I (f v))
      → Keeps p
      → Keeps (modifies f p)
  Keeps-modifies f p keep next w i = λ v o. next (f v) (keep v (stable w v o i))

  pub Keeps-calls : {A : Type 0} (r : R) (p : Program S R A) → Keeps p → Keeps (calls r p)
  Keeps-calls r p next w i = λ v o. next v (stable w v o i)

  pub Keeps-if :
      {A : Type 0} (b : Bool) (p q : Program S R A) → Keeps p → Keeps q → Keeps (if b then p else q)
  Keeps-if true p q h k = h
  Keeps-if false p q h k = k

  pub Keeps-repeat : (n : ℕ) (p : Program S R (Unit {0})) → Keeps p → Keeps (repeat n p)
  unfolding repeat
  Keeps-repeat zero p h = λ w i. i
  Keeps-repeat (suc n) p h = Keeps-bind p _ h λ _. Keeps-repeat n p h

  pub Keeps-for_below : (z : ℤ) (p : Program S R (Unit {0})) → Keeps p → Keeps (for_below z p)
  unfolding for_below
  Keeps-for_below (pos n) p h = Keeps-repeat n p h
  Keeps-for_below (negsuc n) p h = λ w i. i

-- Every write of the code is one that `Allowed` relates.
module _ {S R : Type 0} (Allowed : S → S → Type 0) where
  abbrev pub Guarantees : {A : Type 0} → Program S R A → Type 0
  Guarantees (ret a) = Unit {0}
  Guarantees faulty = Unit {0}
  Guarantees (reads k) = (v : S) → Guarantees (k v)
  Guarantees (modifies f p) = ((v : S) → Allowed v (f v)) × Guarantees p
  Guarantees (calls r p) = Guarantees p

  pub Guarantees-bind :
      {A B : Type 0} (p : Program S R A) (k : A → Program S R B)
      → Guarantees p
      → ((a : A) → Guarantees (k a))
      → Guarantees (p >>= k)
  unfolding ◌>>=◌
  Guarantees-bind (ret a) k g h = h a
  Guarantees-bind faulty k g h = tt
  Guarantees-bind (reads f) k g h = λ v. Guarantees-bind (f v) k (g v) h
  Guarantees-bind (modifies f p) k g h = (g.0, Guarantees-bind p k g.1 h)
  Guarantees-bind (calls r p) k g h = Guarantees-bind p k g h

  pub Guarantees-when :
      (b : Bool) (p : Program S R (Unit {0})) → Guarantees p → Guarantees (when b p)
  Guarantees-when true p g = g
  Guarantees-when false p g = tt

  pub Guarantees-repeat :
      (n : ℕ) (p : Program S R (Unit {0})) → Guarantees p → Guarantees (repeat n p)
  unfolding repeat
  Guarantees-repeat zero p g = tt
  Guarantees-repeat (suc n) p g = Guarantees-bind p _ g λ _. Guarantees-repeat n p g

pub Guarantees-mono :
    {S R A : Type 0} (P Q : S → S → Type 0)
    → ((w v : S) → P w v → Q w v)
    → (p : Program S R A) → Guarantees P p
    → Guarantees Q p
Guarantees-mono P Q weaken (ret a) g = tt
Guarantees-mono P Q weaken faulty g = tt
Guarantees-mono P Q weaken (reads k) g = λ v. Guarantees-mono P Q weaken (k v) (g v)
Guarantees-mono P Q weaken (modifies f p) g =
    ((λ v. weaken v (f v) (g.0 v)), Guarantees-mono P Q weaken p g.1)
Guarantees-mono P Q weaken (calls r p) g = Guarantees-mono P Q weaken p g
