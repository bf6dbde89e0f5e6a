-- ===== src/Kitchen/Progress.antt =====
-- The cooks and the students never wait for each other all at once.
use mathlib.Core.Path.{subst}
use mathlib.Core.Option
use mathlib.Core.Option.{some-injective}
use user_level_thread_librar.Base.{
  ℕ, zero, suc, ◌+◌, ◌<◌, ◌≡◌, refl, arith, ◌⊎◌, inl, inr, some, none, Bool, true, false, ltb, ◌&&◌,
  ◌-◌, if◌then◌else◌,
}
use user_level_thread_librar.Kitchen.{
  Kitchen, buffer_size, cook_section, student_section, insert_item, remove_item, cook_p, student_p,
  cook_v, student_v, opened,
}
use user_level_thread_librar.Kitchen.Steps.{
  Step, cook_asks, cook_cooks, cook_tells, student_asks, student_eats, student_tells, Reach, here,
  next,
}
use user_level_thread_librar.Kitchen.Safety.{
  Balanced, Reach-Balanced, opened-IsWf, cook_section_in_bounds, student_section_in_bounds,
}

-- Every thread is counted once, and none waits on a semaphore that would let it through.
abbrev pub Staffed : (n m : ℕ) → Kitchen → Type 0
Staffed n m k =
    (k.cooks_idle + k.cooks_granted + k.cooks_done + k.empty.waiters ≡ n)
    × (k.students_idle + k.students_granted + k.students_done + k.full.waiters ≡ m)
    × ((k.empty.waiters ≡ 0) ⊎ (k.empty.value ≡ 0))
    × ((k.full.waiters ≡ 0) ⊎ (k.full.value ≡ 0))

module _ (n m : ℕ) where
  cook_p-Staffed :
      (k : Kitchen) (i : ℕ)
      → k.cooks_idle ≡ suc i
      → Staffed n m k
      → Staffed n m (cook_p (record k { cooks_idle = i }))
  unfolding cook_p
  cook_p-Staffed k i e h = ground arith

  student_p-Staffed :
      (k : Kitchen) (i : ℕ)
      → k.students_idle ≡ suc i
      → Staffed n m k
      → Staffed n m (student_p (record k { students_idle = i }))
  unfolding student_p
  student_p-Staffed k i e h = ground arith

  cook_v-Staffed :
      (k : Kitchen) (i : ℕ)
      → k.cooks_done ≡ suc i
      → Staffed n m k
      → Staffed n m (cook_v (record k { cooks_done = i }))
  unfolding cook_v
  cook_v-Staffed k i e h = ground arith

  student_v-Staffed :
      (k : Kitchen) (i : ℕ)
      → k.students_done ≡ suc i
      → Staffed n m k
      → Staffed n m (student_v (record k { students_done = i }))
  unfolding student_v
  student_v-Staffed k i e h = ground arith

  -- A critical section moves one thread on.
  map-some :
      {A : Type 0} (g : A → Kitchen) (b : Bool) (x : A) (k : Kitchen)
      → Option.map g (if b then some x else none) ≡ some k
      → g x ≡ k
  map-some g true x k e = some-injective (g x) k e
  map-some g false x k e = cc

  cook_section-Staffed :
      (k l : Kitchen) (i : ℕ)
      → k.cooks_granted ≡ suc i
      → cook_section (record k { cooks_granted = i }) ≡ some l
      → Staffed n m k
      → Staffed n m l
  unfolding cook_section insert_item
  cook_section-Staffed k l i e f (c, s, a, b) =
      subst (Staffed n m) (map-some _ (ltb k.buffer_index buffer_size) _ l f) (omega arith, s, a, b)

  student_section-Staffed :
      (k l : Kitchen) (i : ℕ)
      → k.students_granted ≡ suc i
      → student_section (record k { students_granted = i }) ≡ some l
      → Staffed n m k
      → Staffed n m l
  unfolding student_section remove_item
  student_section-Staffed k l i e f (c, s, a, b) =
      subst (Staffed n m)
        (map-some _ (ltb 0 k.buffer_index && ltb (k.buffer_index - 1) buffer_size) _ l f)
        (c, omega arith, a, b)

  Step-Staffed : (k l : Kitchen) → Step k l → Staffed n m k → Staffed n m l
  Step-Staffed k l (cook_asks i e) h = cook_p-Staffed k i e h
  Step-Staffed k l (cook_cooks i l' e f) h = cook_section-Staffed k l i e f h
  Step-Staffed k l (cook_tells i e) h = cook_v-Staffed k i e h
  Step-Staffed k l (student_asks i e) h = student_p-Staffed k i e h
  Step-Staffed k l (student_eats i l' e f) h = student_section-Staffed k l i e f h
  Step-Staffed k l (student_tells i e) h = student_v-Staffed k i e h

  Reach-Staffed : (k l : Kitchen) → Reach k l → Staffed n m k → Staffed n m l
  Reach-Staffed k l here h = h
  Reach-Staffed k l (next {l = j} r s) h = Step-Staffed j l s (Reach-Staffed k j r h)

opened-Staffed : (n m : ℕ) (old : ℕ → ℕ) → Staffed n m (opened n m old)
unfolding opened
opened-Staffed n m old = (omega arith, omega arith, inl refl, inl refl)

none_or_one : (x : ℕ) → (x ≡ 0) ⊎ ((y : ℕ) × (x ≡ suc y))
none_or_one zero = inl refl
none_or_one (suc y) = inr (y, refl)

-- They cannot all wait: the places of the buffer would be neither free nor filled.
all_wait :
    (n m : ℕ) (k : Kitchen)
    → 0 < n
    → 0 < m
    → k.cooks_idle ≡ 0
    → k.cooks_done ≡ 0
    → k.students_idle ≡ 0
    → k.students_done ≡ 0
    → k.cooks_granted ≡ 0
    → k.students_granted ≡ 0
    → Balanced k
    → Staffed n m k
    → ⊥
all_wait n m k x y a b c d e g h w = ground arith

-- No deadlock: with at least one cook and one student, after any history of their steps, some thread
-- can make a step.
pub never_stuck :
    (n m : ℕ) (old : ℕ → ℕ) (k : Kitchen)
    → 0 < n
    → 0 < m
    → Reach (opened n m old) k
    → (l : Kitchen) × Step k l
never_stuck n m old k some_cook some_student r =
    let (h, _) = Reach-Balanced (opened n m old) k r (opened-IsWf n m old) in
    let w = Reach-Staffed n m (opened n m old) k r (opened-Staffed n m old) in
    elim (none_or_one k.cooks_idle) [
      | inr (i, e) ↦ (_, cook_asks i e)
      | inl a ↦ elim (none_or_one k.cooks_done) [
        | inr (i, e) ↦ (_, cook_tells i e)
        | inl b ↦ elim (none_or_one k.students_idle) [
          | inr (i, e) ↦ (_, student_asks i e)
          | inl c ↦ elim (none_or_one k.students_done) [
            | inr (i, e) ↦ (_, student_tells i e)
            | inl d ↦ elim (none_or_one k.cooks_granted) [
              | inr (i, e) ↦
                  let (l, f) = cook_section_in_bounds n m old k i r e in (l, cook_cooks i l e f)
              | inl e ↦ elim (none_or_one k.students_granted) [
                | inr (i, g) ↦
                    let (l, f) = student_section_in_bounds n m old k i r g in
                    (l, student_eats i l g f)
                | inl g ↦ absurd (all_wait n m k some_cook some_student a b c d e g h w)
              ]
            ]
          ]
        ]
      ]
    ]
