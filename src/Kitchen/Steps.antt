-- ===== src/Kitchen/Steps.antt =====
-- What the cooks and the students can do, one step at a time.
use user_level_thread_librar.Base.{ℕ, suc, ◌≡◌, some}
use user_level_thread_librar.Kitchen.{
  Kitchen, cook_section, student_section, cook_p, student_p, cook_v, student_v,
}

pub data Step (k : Kitchen) : Kitchen → Type 0 where
  cook_asks : (n : ℕ) → k.cooks_idle ≡ suc n → Step k (cook_p (record k { cooks_idle = n }))
  cook_cooks :
      (n : ℕ) (l : Kitchen)
      → k.cooks_granted ≡ suc n
      → cook_section (record k { cooks_granted = n }) ≡ some l
      → Step k l
  cook_tells : (n : ℕ) → k.cooks_done ≡ suc n → Step k (cook_v (record k { cooks_done = n }))
  student_asks :
      (n : ℕ) → k.students_idle ≡ suc n → Step k (student_p (record k { students_idle = n }))
  student_eats :
      (n : ℕ) (l : Kitchen)
      → k.students_granted ≡ suc n
      → student_section (record k { students_granted = n }) ≡ some l
      → Step k l
  student_tells :
      (n : ℕ) → k.students_done ≡ suc n → Step k (student_v (record k { students_done = n }))

pub data Reach (k : Kitchen) : Kitchen → Type 0 where
  here : Reach k k
  next : {l m : Kitchen} → Reach k l → Step l m → Reach k m
