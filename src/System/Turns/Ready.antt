-- ===== src/System/Turns/Ready.antt =====
-- Ready threads that can run, each in one place of its queue.
use user_level_thread_librar.Base.{
  ℕ, ◌≡◌, ◌≢◌, refl, sym, ◌⊎◌, inl, inr, false, List, [], ◌∷◌, ◌++◌, ◌==◌, pos, arith, update,
  ==-refl, Bool-cases,
}
use user_level_thread_librar.System.State.{
  Ptr, Tcb, Context, in_join, in_timer, in_yield, in_p, in_fork,
}

-- A context that a resumed thread goes on from at once.
abbrev pub Immediate : Context → Type 0
Immediate c =
    (c ≡ in_timer) ⊎ ((c ≡ in_yield) ⊎ ((c ≡ in_join) ⊎ ((c ≡ in_p) ⊎ ((n : ℕ) × (c ≡ in_fork n)))))

-- A thread of level `p` that is new or can go on.
abbrev pub CanRun : ℕ → Tcb → Type 0
CanRun p b = (b.priority ≡ pos p) × ((b.flag ≡ 1) ⊎ ((b.flag ≡ 0) × Immediate b.context))

abbrev pub AllCanRun : ℕ → (Ptr → Tcb) → List Ptr → Type 0
AllCanRun p tcbs [] = Unit {0}
AllCanRun p tcbs (t ∷ ts) = CanRun p (tcbs t) × AllCanRun p tcbs ts

abbrev pub Apart : Ptr → List Ptr → Type 0
Apart c [] = Unit {0}
Apart c (t ∷ ts) = (c ≢ t) × Apart c ts

abbrev pub Distinct : List Ptr → Type 0
Distinct [] = Unit {0}
Distinct (t ∷ ts) = Apart t ts × Distinct ts

pub Apart-snoc : (t c : Ptr) (ts : List Ptr) → t ≢ c → Apart t ts → Apart t (ts ++ c ∷ [])
Apart-snoc t c [] ne a = (ne, tt)
Apart-snoc t c (x ∷ ts) ne (n, a) = (n, Apart-snoc t c ts ne a)

pub Distinct-snoc : (c : Ptr) (ts : List Ptr) → Apart c ts → Distinct ts → Distinct (ts ++ c ∷ [])
Distinct-snoc c [] a d = (tt, tt)
Distinct-snoc c (t ∷ ts) (n, a) (b, d) =
    (Apart-snoc t c ts (λ e. n (sym e)) b, Distinct-snoc c ts a d)

-- An interrupted thread can run again.
CanRun-update :
    (p : ℕ) (tcbs : Ptr → Tcb) (c t : Ptr)
    → (tcbs c).priority ≡ pos p
    → (tcbs c).flag ≡ 0
    → CanRun p (tcbs t)
    → CanRun p (update tcbs c (record (tcbs c) { context = in_timer }) t)
CanRun-update p tcbs c t e f r = elim (Bool-cases (c == t)) [
  | inl same ↦ rw same (e, inr (f, inl refl))
  | inr other ↦ rw other r
]

pub AllCanRun-update :
    (p : ℕ) (tcbs : Ptr → Tcb) (c : Ptr) (ts : List Ptr)
    → (tcbs c).priority ≡ pos p
    → (tcbs c).flag ≡ 0
    → AllCanRun p tcbs ts
    → AllCanRun p (update tcbs c (record (tcbs c) { context = in_timer })) (ts ++ c ∷ [])
AllCanRun-update p tcbs c [] e f r = (rw (==-refl c) (e, inr (f, inl refl)), tt)
AllCanRun-update p tcbs c (t ∷ ts) e f (h, r) =
    (CanRun-update p tcbs c t e f h, AllCanRun-update p tcbs c ts e f r)

-- The thread is dispatched.
pub AllCanRun-started :
    (p : ℕ) (tcbs : Ptr → Tcb) (c : Ptr) (ts : List Ptr)
    → Apart c ts
    → AllCanRun p tcbs ts
    → AllCanRun p (update tcbs c (record (tcbs c) { flag = 0 })) ts
AllCanRun-started p tcbs c [] a r = tt
AllCanRun-started p tcbs c (t ∷ ts) (ne, a) (h, r) =
    let other : (c == t) ≡ false = ground arith in (rw other h, AllCanRun-started p tcbs c ts a r)
