-- ===== src/Kitchen/Safety.antt =====
-- The buffer neither overflows nor runs empty under a thread, and each burger is eaten at most once.
use mathlib.Core.Path.{subst}
use mathlib.Core.Option.{some-injective}
use user_level_thread_librar.Base.{
  ℕ, suc, ◌+◌, ◌-◌, ◌≤◌, ◌≡◌, refl, arith, sym, ◌∙◌, true, ltb, lt→ltb, ◌==◌, if◌then◌else◌, update,
  Option, some, List, [], ◌∷◌,
}
use user_level_thread_librar.Kitchen.{
  Kitchen, buffer_size, insert_item, remove_item, produce_item, cook_section, student_section,
  cook_p, student_p, cook_v, student_v, opened,
}
use user_level_thread_librar.Kitchen.Steps.{
  Step, cook_asks, cook_cooks, cook_tells, student_asks, student_eats, student_tells, Reach, here,
  next,
}
use user_level_thread_librar.Kitchen.Buffer.{contents, contents-insert}

-- How often `b` stands in a list.
abbrev pub occurs : ℕ → List ℕ → ℕ
occurs b [] = 0
occurs b (x ∷ xs) = (if x == b then 1 else 0) + occurs b xs

-- Each place of the buffer is free, promised to a cook, filled, or about to be freed; each burger in it
-- is free to take, promised to a student, or about to be told of.
abbrev pub Balanced : Kitchen → Type 0
Balanced k =
    (k.empty.value + k.cooks_granted + k.buffer_index + k.students_done ≡ buffer_size)
    × (k.full.value + k.students_granted + k.cooks_done ≡ k.buffer_index)

-- What has been produced has been eaten or is in the buffer.
abbrev pub Conserved : Kitchen → Type 0
Conserved k =
    (b : ℕ)
    → occurs b k.produced ≡ occurs b k.consumed + occurs b (contents k.buffer k.buffer_index)

cook_p-Balanced : (k : Kitchen) → Balanced k → Balanced (cook_p k)
unfolding cook_p
cook_p-Balanced k h = ground arith

student_p-Balanced : (k : Kitchen) → Balanced k → Balanced (student_p k)
unfolding student_p
student_p-Balanced k h = ground arith

cook_v-Balanced :
    (k : Kitchen) (n : ℕ)
    → k.cooks_done ≡ suc n
    → Balanced k
    → Balanced (cook_v (record k { cooks_done = n }))
unfolding cook_v
cook_v-Balanced k n e h = ground arith

student_v-Balanced :
    (k : Kitchen) (n : ℕ)
    → k.students_done ≡ suc n
    → Balanced k
    → Balanced (student_v (record k { students_done = n }))
unfolding student_v
student_v-Balanced k n e h = ground arith

-- The critical sections, whose indices are in bounds.
cook_section-Balanced :
    (k : Kitchen) (n : ℕ)
    → k.cooks_granted ≡ suc n
    → Balanced k
    → Conserved k
    → (l : Kitchen) × (cook_section (record k { cooks_granted = n }) ≡ some l)
      × Balanced l
      × Conserved l
unfolding cook_section insert_item
cook_section-Balanced k n e h c =
    let room : ltb k.buffer_index 6 ≡ true = lt→ltb k.buffer_index 6 (omega arith) in
    (cooked, rw room, (omega arith, omega arith), λ b. conserved b)
  where
    item : ℕ
    item = produce_item k.global_counter

    cooked : Kitchen
    cooked = record k {
      buffer = update k.buffer k.buffer_index item;
      buffer_index = k.buffer_index + 1;
      global_counter = item;
      produced = item ∷ k.produced;
      cooks_granted = n;
      cooks_done = k.cooks_done + 1;
    }

    conserved :
        (b : ℕ)
        → occurs b (item ∷ k.produced)
          ≡ occurs b k.consumed
            + occurs b (contents (update k.buffer k.buffer_index item) (k.buffer_index + 1))
    conserved b = rw (contents-insert k.buffer item k.buffer_index) (omega (arith, c b))

student_section-Balanced :
    (k : Kitchen) (n : ℕ)
    → k.students_granted ≡ suc n
    → Balanced k
    → Conserved k
    → (l : Kitchen) × (student_section (record k { students_granted = n }) ≡ some l)
      × Balanced l
      × Conserved l
unfolding student_section remove_item
student_section-Balanced k n e h c =
    let some_left : ltb 0 k.buffer_index ≡ true = lt→ltb 0 k.buffer_index (omega arith) in
    let inside : ltb (k.buffer_index - 1) 6 ≡ true = lt→ltb (k.buffer_index - 1) 6 (omega arith) in
    (eaten, rw (some_left, inside), (omega arith, omega arith), λ b. conserved b)
  where
    i : ℕ
    i = k.buffer_index - 1

    eaten : Kitchen
    eaten = record k {
      buffer_index = i;
      consumed = k.buffer i ∷ k.consumed;
      students_granted = n;
      students_done = k.students_done + 1;
    }

    filled : k.buffer_index ≡ suc i
    filled = omega arith

    conserved :
        (b : ℕ)
        → occurs b k.produced ≡ occurs b (k.buffer i ∷ k.consumed) + occurs b (contents k.buffer i)
    conserved b =
        let split : occurs b k.produced
            ≡ occurs b k.consumed + occurs b (contents k.buffer (suc i)) =
          subst (λ j. occurs b k.produced ≡ occurs b k.consumed + occurs b (contents k.buffer j))
            filled (c b) in
        omega arith

-- What holds between any two steps.
abbrev pub IsWf : Kitchen → Type 0
IsWf k = Balanced k × Conserved k

pair :
    {o : Option Kitchen}
    → (l : Kitchen) × (o ≡ some l) × Balanced l × Conserved l
    → (l : Kitchen) × (o ≡ some l) × IsWf l
pair (l, e, h, c) = (l, e, (h, c))

section_of :
    {A : Type 0} {P : A → Type 0} (o : Option A) (l : A)
    → o ≡ some l
    → (m : A) × (o ≡ some m) × P m
    → P l
section_of {P} o l e (m, f, p) = subst P (some-injective m l (sym f ∙ e)) p

cook_p-Conserved : (k : Kitchen) → Conserved k → Conserved (cook_p k)
unfolding cook_p
cook_p-Conserved k c b = ground (arith, c b)

student_p-Conserved : (k : Kitchen) → Conserved k → Conserved (student_p k)
unfolding student_p
student_p-Conserved k c b = ground (arith, c b)

cook_v-Conserved : (k : Kitchen) → Conserved k → Conserved (cook_v k)
unfolding cook_v
cook_v-Conserved k c b = ground (arith, c b)

student_v-Conserved : (k : Kitchen) → Conserved k → Conserved (student_v k)
unfolding student_v
student_v-Conserved k c b = ground (arith, c b)

Step-IsWf : (k l : Kitchen) → Step k l → IsWf k → IsWf l
Step-IsWf k l (cook_asks n e) (h, c) = (
  cook_p-Balanced (record k { cooks_idle = n }) h,
  cook_p-Conserved (record k { cooks_idle = n }) c,
)
Step-IsWf k l (cook_cooks n l' e f) (h, c) =
    section_of {P = IsWf} _ l f (pair (cook_section-Balanced k n e h c))
Step-IsWf k l (cook_tells n e) (h, c) =
    (cook_v-Balanced k n e h, cook_v-Conserved (record k { cooks_done = n }) c)
Step-IsWf k l (student_asks n e) (h, c) = (
  student_p-Balanced (record k { students_idle = n }) h,
  student_p-Conserved (record k { students_idle = n }) c,
)
Step-IsWf k l (student_eats n l' e f) (h, c) =
    section_of {P = IsWf} _ l f (pair (student_section-Balanced k n e h c))
Step-IsWf k l (student_tells n e) (h, c) =
    (student_v-Balanced k n e h, student_v-Conserved (record k { students_done = n }) c)

pub Reach-Balanced : (k l : Kitchen) → Reach k l → IsWf k → IsWf l
Reach-Balanced k l here i = i
Reach-Balanced k l (next {l = m} r s) i = Step-IsWf m l s (Reach-Balanced k m r i)

pub opened-IsWf : (n m : ℕ) (old : ℕ → ℕ) → IsWf (opened n m old)
unfolding opened
opened-IsWf n m old = ((refl, refl), λ b. refl)

-- From the state that `main` leaves, with any numbers of cooks and students, and after any history of
-- their steps: a burger that has been produced has been eaten or is in the buffer, as often as it has
-- been produced, and the buffer is not overfull.
pub reachable-Conserved :
    (n m : ℕ) (old : ℕ → ℕ) (k : Kitchen)
    → Reach (opened n m old) k
    → (k.buffer_index ≤ buffer_size)
      × ((b : ℕ)
          → occurs b k.produced ≡ occurs b k.consumed + occurs b (contents k.buffer k.buffer_index))
reachable-Conserved n m old k r =
    let (h, c) = Reach-Balanced (opened n m old) k r (opened-IsWf n m old) in (omega arith, c)

-- In each such state, the critical section of a cook whom the semaphore has let through stays inside
-- the buffer.
pub cook_section_in_bounds :
    (n m : ℕ) (old : ℕ → ℕ) (k : Kitchen) (c : ℕ)
    → Reach (opened n m old) k
    → k.cooks_granted ≡ suc c
    → (l : Kitchen) × (cook_section (record k { cooks_granted = c }) ≡ some l)
cook_section_in_bounds n m old k c r e =
    let (h, q) = Reach-Balanced (opened n m old) k r (opened-IsWf n m old) in
    let (l, f, _, _) = cook_section-Balanced k c e h q in (l, f)

-- The same of the critical section of a student.
pub student_section_in_bounds :
    (n m : ℕ) (old : ℕ → ℕ) (k : Kitchen) (c : ℕ)
    → Reach (opened n m old) k
    → k.students_granted ≡ suc c
    → (l : Kitchen) × (student_section (record k { students_granted = c }) ≡ some l)
student_section_in_bounds n m old k c r e =
    let (h, q) = Reach-Balanced (opened n m old) k r (opened-IsWf n m old) in
    let (l, f, _, _) = student_section-Balanced k c e h q in (l, f)
