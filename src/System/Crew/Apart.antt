-- ===== src/System/Crew/Apart.antt =====
-- Threads of several loops that fork, and the memory that they do not share.
use user_level_thread_librar.Base.{
  ℕ, zero, suc, ◌+◌, ◌≤◌, ◌<◌, ◌≡◌, ◌≢◌, sym, ap, ◌∙◌, arith, List, [], ◌∷◌, ◌++◌, pos,
}
use user_level_thread_librar.System.State.{Sys, Ptr}
use user_level_thread_librar.System.Crew.{crew, AllNew, Outside, Hired}

-- No thread of `ts` is one of `us`.
abbrev pub Apart : (ts us : List Ptr) → Type 0
Apart [] us = Unit {0}
Apart (t ∷ ts) us = Outside t us × Apart ts us

pub crew-Outside :
    (t : Ptr) (memory : ℕ → Ptr) (n i : ℕ)
    → ((k : ℕ) → i ≤ k → k < i + n → memory k ≢ t)
    → Outside t (crew memory i n)
crew-Outside t memory zero i ne = tt
crew-Outside t memory (suc n) i ne = (
  ne i (omega arith) (omega arith),
  crew-Outside t memory n (suc i) (λ k a b. ne k (omega arith) (omega arith)),
)

pub crew-Apart :
    (memory memory' : ℕ → Ptr) (n i n' i' : ℕ)
    → ((j k : ℕ) → i ≤ j → j < i + n → i' ≤ k → k < i' + n' → memory' k ≢ memory j)
    → Apart (crew memory i n) (crew memory' i' n')
crew-Apart memory memory' zero i n' i' ne = tt
crew-Apart memory memory' (suc n) i n' i' ne = (
  crew-Outside (memory i) memory' n' i' (λ k. ne i k (omega arith) (omega arith)),
  crew-Apart memory memory' n (suc i) n' i' (λ j k a b. ne j k (omega arith) (omega arith)),
)

pub Outside-append :
    (t : Ptr) (xs ys : List Ptr) → Outside t (xs ++ ys) → Outside t xs × Outside t ys
Outside-append t [] ys o = (tt, o)
Outside-append t (x ∷ xs) ys (ne, o) = let (a, b) = Outside-append t xs ys o in ((ne, a), b)

-- A loop that goes on where another ended.
pub crew-append :
    (memory : ℕ → Ptr) (i n m : ℕ)
    → crew memory i n ++ crew memory (i + n) m ≡ crew memory i (n + m)
crew-append memory i zero m =
    let here : i + 0 ≡ i = omega arith in
    let none : 0 + m ≡ m = omega arith in
    ap (λ j. crew memory j m) here ∙ ap (crew memory i) (sym none)
crew-append memory i (suc n) m =
    let one_more : suc n + m ≡ suc (n + m) = omega arith in
    let next : i + suc n ≡ suc i + n = omega arith in
    ap (λ ts. memory i ∷ ts)
      (ap (λ j. crew memory (suc i) n ++ crew memory j m) next ∙ crew-append memory (suc i) n m)
    ∙ ap (crew memory i) (sym one_more)

-- Threads whose memory is not written still have not run.
pub kept-AllNew :
    (s s' : Sys) (f v p : ℕ) (ts us : List Ptr)
    → ((t : Ptr) → Outside t us → s'.tcbs t ≡ s.tcbs t)
    → Apart ts us
    → AllNew s f v p ts
    → AllNew s' f v p ts
kept-AllNew s s' f v p [] us kept apart all = tt
kept-AllNew s s' f v p (t ∷ ts) us kept (o, apart) (new, all) =
    let e = kept t o in
    (
      record {
        func = ap (λ b. b.func) e ∙ new.func;
        arg = ap (λ b. b.arg) e ∙ new.arg;
        priority = ap (λ b. b.priority) e ∙ new.priority;
        flag = ap (λ b. b.flag) e ∙ new.flag;
      },
      kept-AllNew s s' f v p ts us kept apart all,
    )

-- The running thread keeps its priority.
pub Hired-priority :
    (s s' : Sys) (f v p r : ℕ) (ts : List Ptr)
    → Hired s s' f v p ts
    → Outside s.current ts
    → (s.tcbs s.current).priority ≡ pos r
    → (s'.tcbs s'.current).priority ≡ pos r
Hired-priority s s' f v p r ts h o e =
    ap (λ t. (s'.tcbs t).priority) h.current ∙ ap (λ b. b.priority) (h.outside s.current o) ∙ e
