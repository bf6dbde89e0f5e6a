-- ===== src/Program.antt =====
-- The language of the test programs under ThreadSystemCode/TestCases: a thread's code reads and
-- writes the globals of its program, a record `S`, and calls the thread library by requests `R`.
pub mod Rely
use user_level_thread_librar.Base.{
  ℕ, zero, suc, Bool, Option, none, some, ℤ, pos, negsuc, index, if◌then◌else◌,
}

-- `faulty` is an index out of bounds.
pub data Program (S R A : Type 0) : Type 0 where
  ret : A → Program S R A
  faulty : Program S R A
  reads : (S → Program S R A) → Program S R A
  modifies : (S → S) → Program S R A → Program S R A
  calls : R → Program S R A → Program S R A

module _ {S R : Type 0} where
  infixl 5 ◌>>=◌ ◌>>◌
  unfoldable pub ◌>>=◌ : {A B : Type 0} → Program S R A → (A → Program S R B) → Program S R B
  ret a >>= k = k a
  faulty >>= k = faulty
  reads f >>= k = reads (λ w. f w >>= k)
  modifies f p >>= k = modifies f (p >>= k)
  calls r p >>= k = calls r (p >>= k)

  abbrev pub ◌>>◌ : {A B : Type 0} → Program S R A → Program S R B → Program S R B
  m >> n = m >>= λ _. n

  abbrev pub skip : Program S R (Unit {0})
  skip = ret tt

  abbrev pub gets : {A : Type 0} → (S → A) → Program S R A
  gets f = reads (λ w. ret (f w))

  abbrev pub or_faulty : Option ℕ → Program S R ℕ
  or_faulty none = faulty
  or_faulty (some n) = ret n

  -- `i`, as an index of an array of `size` elements.
  unfoldable pub slot : (size : ℕ) → ℤ → Program S R ℕ
  slot size i = or_faulty (index size i)

  abbrev pub when : Bool → Program S R (Unit {0}) → Program S R (Unit {0})
  when b p = if b then p else skip

  -- `for(i = 0; i < n; i++)`
  unfoldable pub repeat : ℕ → Program S R (Unit {0}) → Program S R (Unit {0})
  repeat zero p = skip
  repeat (suc n) p = p >> repeat n p

  unfoldable pub for_below : ℤ → Program S R (Unit {0}) → Program S R (Unit {0})
  unfolding repeat
  for_below (pos n) p = repeat n p
  for_below (negsuc n) p = skip
