-- ===== src/Kitchen/Semaphores.antt =====
-- `Semaphore_P` and `Semaphore_V` of ThreadLibrary/THREAD.C do what the kitchen takes them to do.
use mathlib.Core.Path.{subst}
use user_level_thread_librar.Base.{
  sym, ℕ, zero, suc, ◌+◌, ◌-◌, ◌<◌, ◌≡◌, ◌≢◌, refl, ltb, true, false, arith, if◌then◌else◌, some,
  List, [], ◌∷◌, ◌++◌, length, length-snoc, pos, lt→ltb, increment, decrement, Bool, Option, update,
  ap, ◌∙◌, inl, inr, ◌⊎◌,
}
use user_level_thread_librar.System.State.{
  Sys, Ptr, Semaphore, Outcome, returns, jumps, sched_context, at, max_semaphores, levels, in_p,
  set_tcb,
}
use user_level_thread_librar.System.Timer.{block, unblock}
use user_level_thread_librar.System.Semaphore.{
  semaphore_p, semaphore_v, set_semaphore, set_sem_waiters,
}
use user_level_thread_librar.System.Invariant.Defs.{IsWf}
use user_level_thread_librar.System.Wake.{v_wakes_at_caller_level, v_increments}
use user_level_thread_librar.Kitchen.{Sem, Kitchen, cook_p, student_p, cook_v, student_v}

-- The semaphore at `p` has the value and the number of waiters of `a`, and an identifier in range.
abbrev pub Shows : Sys → Ptr → Sem → Type 0
Shows s p a =
    (m : Semaphore) × (at s.semaphores p ≡ some m)
    × (m.value ≡ pos a.value)
    × (length m.waiters ≡ a.waiters)
    × (m.sem_id < max_semaphores)

pub Shows-same :
    (s s' : Sys) (p : Ptr) (a : Sem) → s'.semaphores ≡ s.semaphores → Shows s p a → Shows s' p a
Shows-same s s' p a e (m, found, value, waiters, few) =
    (m, ap (λ o. at o p) e ∙ found, value, waiters, few)

-- Every semaphore but the one at `p` is as it was.
abbrev pub OnlyAt : Ptr → Sys → Sys → Type 0
OnlyAt p s s' = (q : Ptr) → q ≢ p → s'.semaphores q ≡ s.semaphores q

-- A thread that has been let through goes on, and one that waits has gone to the scheduler.
abbrev pub goes_on : (let_through : Bool) → Sys → Outcome (Unit {0})
goes_on let_through s = if let_through then returns tt s else jumps sched_context s

at-update :
    (f : Ptr → Option Semaphore) (p : Ptr) (m m' : Semaphore)
    → at f p ≡ some m
    → at (update f p (some m')) p ≡ some m'
at-update f p m m' e = ground arith

there :
    (f g : Ptr → Option Semaphore) (p : Ptr) (m m' : Semaphore)
    → at f p ≡ some m
    → g p ≡ some m'
    → at g p ≡ some m'
there f g p m m' e h = ground arith

-- The semaphore after the call, in the kitchen's terms.
abbrev passed : Sem → Sem
passed a =
    if ltb 0 a.value then record a { value = a.value - 1 } else record a { waiters = a.waiters + 1 }

abbrev raised : Sem → Sem
raised a =
    if ltb 0 a.waiters
    then record a { waiters = a.waiters - 1 }
    else record a { value = a.value + 1 }

split : (xs : List Ptr) → (xs ≡ []) ⊎ ((x : Ptr) × (rest : List Ptr) × (xs ≡ x ∷ rest))
split [] = inl refl
split (x ∷ rest) = inr (x, rest, refl)

module _ (s : Sys) (p : Ptr) (m : Semaphore) (e : at s.semaphores p ≡ some m)
    (few : m.sem_id < max_semaphores) where
  semaphore_p-passed :
      (n k : ℕ)
      → m.value ≡ pos n
      → length m.waiters ≡ k
      → (s' : Sys) × (semaphore_p p s ≡ goes_on (ltb 0 n) s')
        × OnlyAt p s s'
        × Shows s' p (passed (record { value = n; waiters = k }))
  unfolding semaphore_p
  semaphore_p-passed zero k v w =
      let room : ltb m.sem_id max_semaphores ≡ true = lt→ltb _ _ few in
      (
        set_sem_waiters m.sem_id (s.semaphore_waiters m.sem_id + 1) (
            set_semaphore p (record m { waiters = m.waiters ++ s.current ∷ [] })
              (set_tcb s.current (λ t. record t { context = in_p }) (block s))),
        rw (e, v, room),
        (λ q ne. ground arith),
        (
          record m { waiters = m.waiters ++ s.current ∷ [] },
          at-update s.semaphores p m _ e,
          v,
          omega (arith, w, length-snoc m.waiters s.current),
          few,
        ),
      )
  semaphore_p-passed (suc n) k v w =
      let positive : ltb 0 (suc n) ≡ true = lt→ltb _ _ (omega arith) in
      (
        unblock (set_semaphore p (record m { value = decrement m.value }) (block s)),
        rw (e, v, positive),
        (λ q ne. ground arith),
        (
          record m { value = decrement m.value },
          at-update s.semaphores p m _ e,
          rw (positive, v) (ap pos (omega arith)),
          rw positive w,
          few,
        ),
      )

  semaphore_v-raised :
      (n k q : ℕ)
      → IsWf s
      → m.value ≡ pos n
      → length m.waiters ≡ k
      → (s.tcbs s.current).priority ≡ pos q
      → q < levels
      → (s' : Sys) × (semaphore_v p s ≡ returns tt s')
        × OnlyAt p s s'
        × Shows s' p (raised (record { value = n; waiters = k }))
  semaphore_v-raised n k q wf v w pr l = elim (split m.waiters) [
    | inl none_wait ↦
        (let nobody : ltb 0 k ≡ false = ground (arith, w, none_wait) in
          (
            unblock (set_semaphore p (record m { value = increment m.value }) (block s)),
            v_increments s p m wf e few none_wait,
            (λ c ne. ground arith),
            (
              record m { value = increment m.value },
              at-update s.semaphores p m _ e,
              rw (nobody, v) (ap pos (omega arith)),
              rw nobody w,
              few,
            ),
          ))
    | inr (t, rest, here) ↦
        (let some_wait : ltb 0 k ≡ true = ground (arith, w, here) in
          let (s', runs, _, _, after, others) =
            v_wakes_at_caller_level s p m wf e few q t rest here pr l in
          (
            s',
            runs,
            others,
            (
              record m { waiters = rest },
              there s.semaphores s'.semaphores p m _ e after,
              rw some_wait v,
              rw some_wait (ground (arith, w, here)),
              few,
            ),
          ))
  ]

-- A field of a choice is a choice of fields.
at_choice :
    {A B : Type 0} (f : A → B) (b : Bool) (x y : A)
    → f (if b then x else y) ≡ (if b then f x else f y)
at_choice f true x y = refl
at_choice f false x y = refl

granted :
    (b : Bool) (count : Kitchen → ℕ) (k x y : Kitchen)
    → count x ≡ count k + 1
    → count y ≡ count k
    → ltb (count k) (count (if b then x else y)) ≡ b
granted true count k x y e f = lt→ltb _ _ (omega arith)
granted false count k x y e f = ground arith

module _ (k : Kitchen) where
  cook_p-passed : (cook_p k).empty ≡ passed k.empty
  unfolding cook_p
  cook_p-passed = at_choice {A = Kitchen} (λ j. j.empty) (ltb 0 k.empty.value) _ _

  student_p-passed : (student_p k).full ≡ passed k.full
  unfolding student_p
  student_p-passed = at_choice {A = Kitchen} (λ j. j.full) (ltb 0 k.full.value) _ _

  student_v-raised : (student_v k).empty ≡ raised k.empty
  unfolding student_v
  student_v-raised = at_choice {A = Kitchen} (λ j. j.empty) (ltb 0 k.empty.waiters) _ _

  cook_v-raised : (cook_v k).full ≡ raised k.full
  unfolding cook_v
  cook_v-raised = at_choice {A = Kitchen} (λ j. j.full) (ltb 0 k.full.waiters) _ _

  cook_p-granted : ltb k.cooks_granted (cook_p k).cooks_granted ≡ ltb 0 k.empty.value
  unfolding cook_p
  cook_p-granted = granted (ltb 0 k.empty.value) (λ j. j.cooks_granted) k _ _ refl refl

  student_p-granted : ltb k.students_granted (student_p k).students_granted ≡ ltb 0 k.full.value
  unfolding student_p
  student_p-granted = granted (ltb 0 k.full.value) (λ j. j.students_granted) k _ _ refl refl

module _ (s : Sys) (k : Kitchen) (p_empty p_full : Ptr) (shows_empty : Shows s p_empty k.empty)
    (shows_full : Shows s p_full k.full) where
  -- `Semaphore_P` on the semaphore that stands for one of the kitchen's returns exactly when the
  -- kitchen's step lets the thread through, and goes to the scheduler when it does not. Afterwards the
  -- semaphore stands for the one of the step, and the other semaphores are as they were.
  pub semaphore_p-refines :
      ((s' : Sys) × (semaphore_p p_empty s
          ≡ goes_on (ltb k.cooks_granted (cook_p k).cooks_granted) s')
        × OnlyAt p_empty s s'
        × Shows s' p_empty (cook_p k).empty)
      × ((s' : Sys) × (semaphore_p p_full s
            ≡ goes_on (ltb k.students_granted (student_p k).students_granted) s')
          × OnlyAt p_full s s'
          × Shows s' p_full (student_p k).full)
  semaphore_p-refines = (
    (let (m, e, v, w, few) = shows_empty in
        let (s', runs, frame, after) =
          semaphore_p-passed s p_empty m e few k.empty.value k.empty.waiters v w in
        (
          s',
          rw (cook_p-granted k) runs,
          frame,
          subst (Shows s' p_empty) (sym (cook_p-passed k)) after,
        )),
    (let (m, e, v, w, few) = shows_full in
        let (s', runs, frame, after) =
          semaphore_p-passed s p_full m e few k.full.value k.full.waiters v w in
        (
          s',
          rw (student_p-granted k) runs,
          frame,
          subst (Shows s' p_full) (sym (student_p-passed k)) after,
        )),
  )

  -- In a state whose counters are right, with a caller whose priority is a level, `Semaphore_V` on the
  -- semaphore that stands for one of the kitchen's returns. Afterwards the semaphore stands for the one
  -- of the step, and the other semaphores are as they were.
  pub semaphore_v-refines :
      (q : ℕ)
      → IsWf s
      → (s.tcbs s.current).priority ≡ pos q
      → q < levels
      → ((s' : Sys) × (semaphore_v p_empty s ≡ returns tt s')
          × OnlyAt p_empty s s'
          × Shows s' p_empty (student_v k).empty)
        × ((s' : Sys) × (semaphore_v p_full s ≡ returns tt s')
            × OnlyAt p_full s s'
            × Shows s' p_full (cook_v k).full)
  semaphore_v-refines q wf pr l = (
    (let (m, e, v, w, few) = shows_empty in
        let (s', runs, frame, after) =
          semaphore_v-raised s p_empty m e few k.empty.value k.empty.waiters q wf v w pr l in
        (s', runs, frame, subst (Shows s' p_empty) (sym (student_v-raised k)) after)),
    (let (m, e, v, w, few) = shows_full in
        let (s', runs, frame, after) =
          semaphore_v-raised s p_full m e few k.full.value k.full.waiters q wf v w pr l in
        (s', runs, frame, subst (Shows s' p_full) (sym (cook_v-raised k)) after)),
  )
