-- ===== src/System/Joiners.antt =====
-- Which threads the end of a thread makes ready, and what `t_join` on it does afterwards.
use mathlib.Core.List.{append-nil, append_assoc}
use user_level_thread_librar.Base.{
  eq_ℤ, ap, length, length-snoc, ℕ, zero, suc, ◌+◌, ◌<◌, ◌≡◌, refl, ◌==◌, if◌then◌else◌, Bool, true,
  false, Bool-cases, inl, inr, List, [], ◌∷◌, ◌++◌, arith, update, sym, ◌∙◌, pos,
}
use user_level_thread_librar.System.State.{
  Sys, Ptr, returns, jumps, levels, max_waiting, sit_bottom_context,
}
use user_level_thread_librar.System.Join.{finish_thread, wake_joiners, waits_for_current}
use user_level_thread_librar.System.Switch.{put_ready-readied}

-- Among the first `n` entries of `tcbWaiting`, those of threads of priority `q` that wait for the running one,
-- in order.
abbrev pub joiners : Sys → (q n : ℕ) → List Ptr
joiners s q zero = []
joiners s q (suc i) =
    let t = s.tcb_waiting i in
    joiners s q i
    ++ (if waits_for_current s i
        then (if eq_ℤ (s.tcbs t).priority (pos q) then t ∷ [] else [])
        else [])

-- Whether there is such an entry, of any priority.
abbrev pub some_wait : Sys → ℕ → Bool
some_wait s zero = false
some_wait s (suc i) = if waits_for_current s i then true else some_wait s i

-- The threads that wait for the running one have priorities that the system has levels for.
abbrev pub HaveLevels : Sys → ℕ → Type 0
HaveLevels s n =
    (i : ℕ)
    → i < n
    → waits_for_current s i ≡ true
    → (q : ℕ) × ((s.tcbs (s.tcb_waiting i)).priority ≡ pos q) × (q < levels)

abbrev pub with_queues : Sys → (ℕ → List Ptr) → (ℕ → ℕ) → Sys
with_queues s queues counts = record s { p_queue = queues; thread_level_count = counts }

-- The queues and counters are those of `s` with the first `n` entries' threads behind each level.
abbrev pub Woken : Sys → ℕ → (ℕ → List Ptr) → (ℕ → ℕ) → Type 0
Woken s n queues counts =
    (q : ℕ)
    → (queues q ≡ s.p_queue q ++ joiners s q n)
      × (counts q ≡ s.thread_level_count q + length (joiners s q n))

Woken-snoc :
    (s : Sys) (i : ℕ) (queues : ℕ → List Ptr) (counts : ℕ → ℕ) (r : ℕ)
    → waits_for_current s i ≡ true
    → (s.tcbs (s.tcb_waiting i)).priority ≡ pos r
    → Woken s i queues counts
    → Woken s
        (suc i)
        (update queues r (queues r ++ s.tcb_waiting i ∷ []))
        (update counts r (counts r + 1))
Woken-snoc s i queues counts r w pr k q = elim (Bool-cases (r == q)) [
  | inl same ↦
      let at : r ≡ q = ground arith in
      rw (w, pr, same)
        (
          ap (λ z. queues z ++ s.tcb_waiting i ∷ []) at
              ∙ ap (λ ts. ts ++ s.tcb_waiting i ∷ []) (k q).0
              ∙ append_assoc (s.p_queue q) (joiners s q i) (s.tcb_waiting i ∷ []),
          ap (λ z. counts z + 1) at
              ∙ omega (arith, (k q).1, length-snoc (joiners s q i) (s.tcb_waiting i)),
        )
  | inr other ↦
      rw (w, pr, other)
        (
          (k q).0 ∙ ap (λ ts. s.p_queue q ++ ts) (sym (append-nil (joiners s q i))),
          (k q).1
              ∙ ap (λ ts. s.thread_level_count q + length ts) (sym (append-nil (joiners s q i))),
        )
]

Woken-skip :
    (s : Sys) (i : ℕ) (queues : ℕ → List Ptr) (counts : ℕ → ℕ)
    → waits_for_current s i ≡ false
    → Woken s i queues counts
    → Woken s (suc i) queues counts
Woken-skip s i queues counts n k q = rw (n, append-nil (joiners s q i)) (k q)

wake_joiners-Woken :
    (s : Sys) (n : ℕ)
    → HaveLevels s n
    → (queues : ℕ → List Ptr) × (counts : ℕ → ℕ) × (wake_joiners n s
        ≡ returns (some_wait s n) (with_queues s queues counts))
      × Woken s n queues counts
unfolding wake_joiners
wake_joiners-Woken s zero h =
    (s.p_queue, s.thread_level_count, refl, λ q. (sym (append-nil (s.p_queue q)), omega arith))
wake_joiners-Woken s (suc i) h =
    let (queues, counts, e, k) = wake_joiners-Woken s i (λ j l. h j (omega arith)) in
    elim (Bool-cases (waits_for_current s i)) [
      | inl w ↦
          let (r, pr, l) = h i (omega arith) w in
          (
            update queues r (queues r ++ s.tcb_waiting i ∷ []),
            update counts r (counts r + 1),
            rw (e, w)
                (rw (put_ready-readied (with_queues s queues counts) _ r (s.tcb_waiting i) pr l)),
            Woken-snoc s i queues counts r w pr k,
          )
      | inr n ↦ (queues, counts, rw (e, n), Woken-skip s i queues counts n k)
    ]

-- A thread on whose end others wait puts them behind the threads of their levels, in the order of their entries,
-- once for each entry that it has, with the counters raised as often, and changes nothing else: it is not
-- recorded as ended.
pub finish_wakes_each_entry :
    (s : Sys)
    → HaveLevels s max_waiting
    → some_wait s max_waiting ≡ true
    → (queues : ℕ → List Ptr) × (counts : ℕ → ℕ) × (finish_thread s
        ≡ jumps sit_bottom_context (with_queues s queues counts))
      × ((q : ℕ)
          → (queues q ≡ s.p_queue q ++ joiners s q max_waiting)
            × (counts q ≡ s.thread_level_count q + length (joiners s q max_waiting)))
unfolding finish_thread
finish_wakes_each_entry s h w =
    let (queues, counts, e, k) = wake_joiners-Woken s max_waiting h in
    (queues, counts, rw (e, w), k)
