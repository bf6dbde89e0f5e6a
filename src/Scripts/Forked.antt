-- ===== src/Scripts/Forked.antt =====
-- A thread has forked a child of a higher priority, whose code comes first.
use user_level_thread_librar.Base.{
  ℕ, ◌+◌, ◌<◌, ◌≡◌, ap, ◌∙◌, true, false, List, ◌∷◌, ◌++◌, arith, update, ==-refl, ◌==◌,
}
use user_level_thread_librar.Scripts.{Code}
use user_level_thread_librar.Scripts.Nesting.{
  Frame, Ordered, Nested, Chain, Parents, remaining, to_end, work, output, forks_of, cost,
}
use user_level_thread_librar.Scripts.Chain.{
  remaining-advanced, to_end-advanced, work-advanced, Parents-Agree, update-Agree,
}

module _ (code : ℕ → Code) (tid : ℕ → ℕ) (f : Frame) (fs : List Frame) (new priority : ℕ)
    (body c : Code) (h : f.level < priority) (younger : f.id < new)
    (order : Ordered f.id f.level fs) where
  abbrev child : Frame
  child = record { id = new; level = priority }

  abbrev forked_code : ℕ → Code
  forked_code = update (update code f.id c) new body

  pub below : Ordered new priority (f ∷ fs)
  below = (younger, h, order)

  pub remaining-forked :
      remaining forked_code (child ∷ f ∷ fs) ≡ output body ++ (output c ++ remaining code fs)
  remaining-forked =
      remaining-advanced (update code f.id c) child body (f ∷ fs) below
      ∙ ap (λ l. output body ++ l) (remaining-advanced code f c fs order)

  pub to_end-forked :
      to_end forked_code (child ∷ f ∷ fs)
      ≡ 1 + (forks_of body + (1 + (forks_of c + to_end code fs)))
  to_end-forked =
      to_end-advanced (update code f.id c) child body (f ∷ fs) below
      ∙ ap (λ (n : ℕ). 1 + (forks_of body + n)) (to_end-advanced code f c fs order)

  pub work-forked : work forked_code (child ∷ f ∷ fs) ≡ cost body + (cost c + work code fs)
  work-forked =
      work-advanced (update code f.id c) child body (f ∷ fs) below
      ∙ ap (λ (n : ℕ). cost body + n) (work-advanced code f c fs order)

  pub Chain-forked :
      (exited : ℕ → ℕ) (n : ℕ)
      → Nested priority false body
      → Nested f.level true c
      → Parents code tid f.id fs
      → Chain forked_code (update tid f.id new) exited n (child ∷ f ∷ fs)
  Chain-forked exited n n_body n_c parents = (
    (false, rw (==-refl new) n_body, λ (x : false ≡ true). cc),
    (
      rw (older, ==-refl f.id) n_c,
      rw (==-refl f.id),
      Parents-Agree forked_code code (update tid f.id new) tid f.id f.level f.id fs order
          (λ j l.
            let a : (new == j) ≡ false = ground (arith, younger) in
            rw a (update-Agree code f.id c j l))
          (update-Agree tid f.id new) parents,
    ),
  )
    where
      older : (new == f.id) ≡ false
      older = ground (arith, younger)
