-- ===== src/System/Invariant/Semaphores.antt =====
-- Semaphores.
use mathlib.Core.Path.{subst}
use user_level_thread_librar.Base.{
  ℕ, ◌+◌, ◌≤◌, ◌≡◌, ◌≢◌, refl, ◌==◌, ltb, false, inl, inr, ◌⊎◌, Option, none, some, List, [], ◌∷◌,
  ◌++◌, arith, length, length-snoc, update, sym, ap, ◌∙◌, update_cases, ℤ, pos, ltb_ℤ, increment,
  decrement,
}
use user_level_thread_librar.System.State.{Sys, Ptr, null, max_semaphores, Semaphore, at}
use user_level_thread_librar.System.Semaphore.{
  semaphore_create, semaphore_p, semaphore_v, semaphore_destroy,
}
use user_level_thread_librar.System.Invariant.Defs.{
  SemaphoresCounted, IsWf, Keeps, Keeps-bind, or_fault-bind, q_remove-bind, assert-bind, if-Keeps,
  at-some,
}
use user_level_thread_librar.System.Invariant.Ready.{put_ready-IsWf}

-- A thread waits only while the value is not positive.
abbrev BlockedRightly : Semaphore → Type 0
BlockedRightly m = (m.waiters ≡ []) ⊎ (ltb_ℤ (pos 0) m.value ≡ false)

module _ {sems : Ptr → Option Semaphore} {id : ℕ} {count : ℕ → ℕ}
    (w : SemaphoresCounted sems id count) where
  -- A semaphore is written whose identifier no other semaphore has.
  semaphore_written :
      (c : Ptr) (k : Semaphore) (id' : ℕ) (count' : ℕ → ℕ)
      → ((d : Ptr) (j : Semaphore) → sems d ≡ some j → c ≢ d → j.sem_id ≢ k.sem_id)
      → k.sem_id ≤ id'
      → id ≤ id'
      → count' k.sem_id ≡ length k.waiters
      → ((i : ℕ) → i ≢ k.sem_id → count' i ≡ count i)
      → BlockedRightly k
      → SemaphoresCounted (update sems c (some k)) id' count'
  semaphore_written c k id' count' alone given le here there right = record {
    counted = λ d j h. elim (update_cases sems c k d j h) [
      | inl (_, e) ↦ subst (λ j. count' j.sem_id ≡ length j.waiters) e here
      | inr (ne, e) ↦ there j.sem_id (alone d j e ne) ∙ w.counted d j e
    ];
    given = λ d j h. elim (update_cases sems c k d j h) [
      | inl (_, e) ↦ subst (λ j. j.sem_id ≤ id') e given
      | inr (ne, e) ↦ omega (arith, w.given d j e)
    ];
    distinct = λ a b j i ha hb same. elim (update_cases sems c k a j ha) [
      | inl (ea, ej) ↦ elim (update_cases sems c k b i hb) [
        | inl (eb, _) ↦ sym ea ∙ eb
        | inr (nb, eb) ↦ absurd (alone b i eb nb (ground arith))
      ]
      | inr (na, ea) ↦ elim (update_cases sems c k b i hb) [
        | inl (_, ei) ↦ absurd (alone a j ea na (ground arith))
        | inr (nb, eb) ↦ w.distinct a b j i ea eb same
      ]
    ];
    fresh = λ i h. there i (omega arith) ∙ w.fresh i (omega arith);
    blocked = λ d j h. elim (update_cases sems c k d j h) [
      | inl (_, e) ↦ subst BlockedRightly e right
      | inr (ne, e) ↦ w.blocked d j e
    ];
  }

  -- The value and the waiters change, with the counter.
  semaphore_changed :
      (c : Ptr) (k : Semaphore) (z : ℤ) (ws : List Ptr) (count' : ℕ → ℕ)
      → sems c ≡ some k
      → count' k.sem_id ≡ length ws
      → ((i : ℕ) → i ≢ k.sem_id → count' i ≡ count i)
      → BlockedRightly (record k { value = z; waiters = ws })
      → SemaphoresCounted (update sems c (some (record k { value = z; waiters = ws }))) id count'
  semaphore_changed c k z ws count' e l there right =
      semaphore_written c (record k { value = z; waiters = ws }) id count'
        (λ d j h ne same. ne (w.distinct c d k j e h (sym same))) (w.given c k e) (omega arith) l
        there right

  semaphore_created :
      (c : Ptr) (z : ℤ)
      → SemaphoresCounted
          (update sems c (some (record { value = z; sem_id = id + 1; waiters = [] })))
          (id + 1)
          count
  semaphore_created c z =
      semaphore_written c (record { value = z; sem_id = id + 1; waiters = [] }) (id + 1) count
        (λ d j h ne same. absurd (omega (arith, w.given d j h))) (omega arith) (omega arith)
        (w.fresh (id + 1) (omega arith)) (λ i ne. refl) (inl refl)

  semaphore_destroyed : (c : Ptr) → SemaphoresCounted (update sems c none) id count
  semaphore_destroyed c = record {
    counted = λ d j h. w.counted d j (kept d j h);
    given = λ d j h. w.given d j (kept d j h);
    distinct = λ a b j i ha hb. w.distinct a b j i (kept a j ha) (kept b i hb);
    fresh = w.fresh;
    blocked = λ d j h. w.blocked d j (kept d j h);
  }
    where
      kept : (d : Ptr) (j : Semaphore) → update sems c none d ≡ some j → sems d ≡ some j
      kept d j h = ground arith

with_semaphores :
    (s : Sys) {f : Ptr → Option Semaphore} {id : ℕ} {count : ℕ → ℕ}
    → IsWf s
    → SemaphoresCounted f id count
    → IsWf (record s { semaphores = f; semaphore_id = id; semaphore_waiters = count })
with_semaphores s w x = record {
  ready = w.ready;
  conditions = w.conditions;
  semaphores = x;
  few_conditions = w.few_conditions;
  few_exited = w.few_exited;
}

pub semaphore_create-IsWf :
    (fresh : Ptr) (z : ℤ) (name : List ℕ) (s : Sys)
    → IsWf s
    → Keeps IsWf (semaphore_create fresh z name s)
unfolding semaphore_create
semaphore_create-IsWf fresh z name s w =
    if-Keeps IsWf (fresh == null) _ _ _ (λ _. w)
      λ _.
        assert-bind IsWf (ltb (length name) 20) _ _
          λ _. with_semaphores s w (semaphore_created w.semaphores fresh z)

pub semaphore_p-IsWf : (p : Ptr) (s : Sys) → IsWf s → Keeps IsWf (semaphore_p p s)
unfolding semaphore_p
semaphore_p-IsWf p s w = or_fault-bind IsWf (at s.semaphores p) _ _ λ m e.
    let known = at-some s.semaphores p m e in
    if-Keeps IsWf (ltb_ℤ (pos 0) m.value) _ _ _
      (λ positive. with_semaphores s w (
        semaphore_changed w.semaphores p m (decrement m.value) m.waiters _ known
          (w.semaphores.counted p m known) (λ i ne. refl)
          (ground (arith, w.semaphores.blocked p m known))))
      (λ positive. assert-bind IsWf (ltb m.sem_id max_semaphores) _ _ λ room. with_semaphores s w (
        semaphore_changed w.semaphores p m m.value (m.waiters ++ s.current ∷ []) _ known
          (ground (arith, length-snoc m.waiters s.current, w.semaphores.counted p m known))
          (λ i ne. ground arith) (inr positive)))

pub semaphore_v-IsWf : (p : Ptr) (s : Sys) → IsWf s → Keeps IsWf (semaphore_v p s)
unfolding semaphore_v
semaphore_v-IsWf p s w = or_fault-bind IsWf (at s.semaphores p) _ _ λ m e.
    let known = at-some s.semaphores p m e in
    assert-bind IsWf (ltb m.sem_id max_semaphores) _ _ λ room.
      Keeps-bind IsWf _ _
        (if-Keeps IsWf (ltb 0 (s.semaphore_waiters m.sem_id)) _ _ _
          (λ some_wait. q_remove-bind IsWf m.waiters _ _ λ t rest q. put_ready-IsWf _ t _ (
            with_semaphores s w (
              semaphore_changed w.semaphores p m m.value rest _ known
                (ground (arith, w.semaphores.counted p m known, ap length q)) (λ i ne. ground arith)
                (ground (arith, w.semaphores.blocked p m known)))))
          (λ none_wait. with_semaphores s w (
            semaphore_changed w.semaphores p m (increment m.value) m.waiters _ known
              (w.semaphores.counted p m known) (λ i ne. refl)
              (inl (ground (arith, w.semaphores.counted p m known))))))
        λ _ t x. x

pub semaphore_destroy-IsWf : (p : Ptr) (s : Sys) → IsWf s → Keeps IsWf (semaphore_destroy p s)
unfolding semaphore_destroy
semaphore_destroy-IsWf p s w =
    if-Keeps IsWf (p == null) _ _ _ (λ _. w)
      λ _.
        or_fault-bind IsWf (at s.semaphores p) _ _
          λ m e. with_semaphores s w (semaphore_destroyed w.semaphores p)
