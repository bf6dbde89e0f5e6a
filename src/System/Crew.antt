-- ===== src/System/Crew.antt =====
-- The loops of the test programs that fork threads of one function, with `t_fork` of THREAD.C.
pub mod Apart
use mathlib.Core.Path.{subst}
use mathlib.Core.List.{append-nil, append_assoc}
use user_level_thread_librar.Base.{
  ℕ, zero, suc, ◌+◌, ◌≤◌, ◌<◌, ◌≡◌, ◌≢◌, refl, sym, ap, ◌∙◌, arith, ◌==◌, ==-refl, Bool-cases, inl,
  inr, true, false, List, [], ◌∷◌, ◌++◌, length, pos, update,
}
use user_level_thread_librar.System.State.{
  Sys, Ptr, M, null, returns, levels, max_thread_name, bind, ◌>>=◌, ◌>>◌, pure, set_tcb,
}
use user_level_thread_librar.System.Timer.{block, unblock}
use user_level_thread_librar.System.Fork.{t_fork, new_tcb}
use user_level_thread_librar.System.Preempt.{forked, fork_waits}
use user_level_thread_librar.System.Handover.{Unjoined}
use user_level_thread_librar.System.Invariant.Defs.{IsWf, Keeps}
use user_level_thread_librar.System.Invariant.Ready.{t_fork-IsWf}

-- `for(i = first; i < first + n; i++) t_fork(f, v, name, p);`, where `memory i` is what `malloc` returns for
-- the thread of index `i`, and `name i` what `sprintf` has written.
unfoldable pub fork_each :
    (f v : ℕ) (name : ℕ → List ℕ) (p : ℕ) (memory : ℕ → Ptr) (first n : ℕ) → M (Unit {0})
fork_each f v name p memory i zero = pure tt
fork_each f v name p memory i (suc n) =
    t_fork (memory i) f v (name i) (pos p) >>= λ tid. fork_each f v name p memory (suc i) n

-- Their threads, in order.
abbrev pub crew : (memory : ℕ → Ptr) (first n : ℕ) → List Ptr
crew memory i zero = []
crew memory i (suc n) = memory i ∷ crew memory (suc i) n

-- `t` has been forked with `f` and `v` at level `p`, and has not run.
pub record IsNew (s : Sys) (f v p : ℕ) (t : Ptr) : Type 0 where
  pub func : (s.tcbs t).func ≡ f
  pub arg : (s.tcbs t).arg ≡ v
  pub priority : (s.tcbs t).priority ≡ pos p
  pub flag : (s.tcbs t).flag ≡ 1

abbrev pub AllNew : Sys → (f v p : ℕ) → List Ptr → Type 0
AllNew s f v p [] = Unit {0}
AllNew s f v p (t ∷ ts) = IsNew s f v p t × AllNew s f v p ts

abbrev pub Outside : Ptr → List Ptr → Type 0
Outside t [] = Unit {0}
Outside t (x ∷ xs) = (x ≢ t) × Outside t xs

-- The threads `ts` stand behind level `p`, and the rest is as before.
pub record Hired (s s' : Sys) (f v p : ℕ) (ts : List Ptr) : Type 0 where
  pub counted : IsWf s'
  pub current : s'.current ≡ s.current
  pub level : s'.p_queue p ≡ s.p_queue p ++ ts
  pub other_levels : (z : ℕ) → z ≢ p → s'.p_queue z ≡ s.p_queue z
  pub all_new : AllNew s' f v p ts
  pub still_new : (t : Ptr) → IsNew s f v p t → IsNew s' f v p t
  pub outside : (t : Ptr) → Outside t ts → s'.tcbs t ≡ s.tcbs t
  pub locks : s'.locks ≡ s.locks
  pub conditions : s'.conditions ≡ s.conditions
  pub semaphores : s'.semaphores ≡ s.semaphores
  pub unjoined : Unjoined s → Unjoined s'

module _ (f v : ℕ) (name : ℕ → List ℕ) (p r : ℕ) (memory : ℕ → Ptr) (low : p ≤ r)
    (l : p < levels) where
  -- Thread `i` can be forked from a thread `current` of priority `r`.
  abbrev CanFork : (current : Ptr) → ℕ → Type 0
  CanFork current i = (memory i ≢ null) × (memory i ≢ current) × (length (name i) < max_thread_name)

  abbrev one_more : ℕ → Sys → Sys
  one_more i s = unblock (forked s (memory i) f v (name i) p)

  module _ (i : ℕ) (s : Sys) (e : (s.tcbs s.current).priority ≡ pos r)
      (can : CanFork s.current i) where
    fork-one_more :
        t_fork (memory i) f v (name i) (pos p) s ≡ returns (s.g_thread_id + 1) (one_more i s)
    fork-one_more = fork_waits s (memory i) f v (name i) r p can.0 can.1 can.2 e l low

    one_more-IsWf : IsWf s → IsWf (one_more i s)
    one_more-IsWf w =
        subst (Keeps IsWf) fork-one_more (t_fork-IsWf (memory i) f v (name i) (pos p) s w)

    same_priority : ((one_more i s).tcbs s.current).priority ≡ pos r
    same_priority = let ne = can.1 in ground arith

  fresh-IsNew : (i : ℕ) (s : Sys) → IsNew (one_more i s) f v p (memory i)
  fresh-IsNew i s =
      let e = ==-refl (memory i) in record { func = rw e; arg = rw e; priority = rw e; flag = rw e }

  one_more-IsNew : (i : ℕ) (s : Sys) (t : Ptr) → IsNew s f v p t → IsNew (one_more i s) f v p t
  one_more-IsNew i s t h = elim (Bool-cases (memory i == t)) [
    | inl e ↦ record { func = rw e; arg = rw e; priority = rw e; flag = rw e }
    | inr e ↦ record {
      func = rw e h.func;
      arg = rw e h.arg;
      priority = rw e h.priority;
      flag = rw e h.flag;
    }
  ]

  one_more-Unjoined : (i : ℕ) (s : Sys) → Unjoined s → Unjoined (one_more i s)
  one_more-Unjoined i s u = record {
    waiting = λ j b. elim (Bool-cases (memory i == s.tcb_waiting j)) [
      | inl e ↦ rw e
      | inr e ↦ rw e (u.waiting j b)
    ];
    room = u.room;
  }

  -- The loop forks each of its threads without giving way to any of them.
  pub fork_each-Hired :
      (n i : ℕ) (s : Sys)
      → IsWf s
      → (s.tcbs s.current).priority ≡ pos r
      → ((j : ℕ) → j < i + n → CanFork s.current j)
      → (s' : Sys) × (fork_each f v name p memory i n s ≡ returns tt s')
        × Hired s s' f v p (crew memory i n)
  unfolding fork_each
  fork_each-Hired zero i s w e can = (
    s,
    refl,
    record {
      counted = w;
      current = refl;
      level = sym (append-nil (s.p_queue p));
      other_levels = λ z ne. refl;
      all_new = tt;
      still_new = λ t h. h;
      outside = λ t o. refl;
      locks = refl;
      conditions = refl;
      semaphores = refl;
      unjoined = λ u. u;
    },
  )
  fork_each-Hired (suc n) i s w e can =
      let now = can i (omega arith) in
      let s1 = one_more i s in
      let (s', goes, h) =
        fork_each-Hired n (suc i) s1 (one_more-IsWf i s e now w) (same_priority i s e now)
          (λ j b. can j (omega arith)) in
      (
        s',
        ap (λ o. bind o (λ tid. fork_each f v name p memory (suc i) n)) (fork-one_more i s e now)
            ∙ goes,
        record {
          counted = h.counted;
          current = h.current;
          level =
              h.level
              ∙ ap (λ q. q ++ crew memory (suc i) n) (at_level i s)
              ∙ append_assoc (s.p_queue p) (memory i ∷ []) (crew memory (suc i) n);
          other_levels = λ z ne. h.other_levels z ne ∙ elsewhere i s z ne;
          all_new = (h.still_new (memory i) (fresh-IsNew i s), h.all_new);
          still_new = λ t x. h.still_new t (one_more-IsNew i s t x);
          outside = λ t (ne, o). h.outside t o ∙ unwritten i s t ne;
          locks = h.locks;
          conditions = h.conditions;
          semaphores = h.semaphores;
          unjoined = λ u. h.unjoined (one_more-Unjoined i s u);
        },
      )
    where
      at_level : (i : ℕ) (s : Sys) → (one_more i s).p_queue p ≡ s.p_queue p ++ memory i ∷ []
      at_level i s = rw (==-refl p)

      elsewhere : (i : ℕ) (s : Sys) (z : ℕ) → z ≢ p → (one_more i s).p_queue z ≡ s.p_queue z
      elsewhere i s z ne = ground arith

      unwritten : (i : ℕ) (s : Sys) (t : Ptr) → memory i ≢ t → (one_more i s).tcbs t ≡ s.tcbs t
      unwritten i s t ne = ground arith
