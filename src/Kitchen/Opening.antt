-- ===== src/Kitchen/Opening.antt =====
-- TEST4.C: `funcA`, and the program from `main` to the first cook.
use user_level_thread_librar.Base.{
  ℕ, ◌≤◌, ◌<◌, ◌≡◌, ◌≢◌, refl, ap, ◌∙◌, arith, some, List, [], ◌∷◌, ◌++◌, pos, length, ==-refl,
}
use user_level_thread_librar.System.State.{
  Sys, Ptr, M, Tcb, Interval, null, returns, at, bind, ◌>>=◌, ◌>>◌,
}
use user_level_thread_librar.System.Machine.{in_user, enter, settle}
use user_level_thread_librar.System.Crew.{fork_each, crew, AllNew, fork_each-Hired}
use user_level_thread_librar.System.Crew.Apart.{
  crew-Apart, crew-Outside, kept-AllNew, Hired-priority,
}
use user_level_thread_librar.System.Handover.{end_and_go, end_hands_over, handed_over, Unjoined}
use user_level_thread_librar.System.Startup.{globals, allocated-at}
use user_level_thread_librar.System.Invariant.Defs.{IsWf}
use user_level_thread_librar.Kitchen.{opened}
use user_level_thread_librar.Kitchen.Main.{main, main-runs, created, created-opened}
use user_level_thread_librar.Kitchen.Semaphores.{Shows, Shows-same}

-- `N` and `M`
abbrev pub cooks : ℕ
cooks = 4

abbrev pub students : ℕ
students = 20

-- What `sprintf` writes, with `decimal i` for `%d`.
abbrev cook_name : (decimal : ℕ → List ℕ) → ℕ → List ℕ
cook_name decimal i =
    (b'P' ∷ b'r' ∷ b'o' ∷ b'd' ∷ b'u' ∷ b'c' ∷ b'e' ∷ b'r' ∷ b' ' ∷ []) ++ decimal i

abbrev student_name : (decimal : ℕ → List ℕ) → ℕ → List ℕ
student_name decimal i =
    (b'C' ∷ b'o' ∷ b'n' ∷ b's' ∷ b'u' ∷ b'm' ∷ b'e' ∷ b'r' ∷ b' ' ∷ []) ++ decimal i

-- `producer` and `consumer` are the addresses of the functions; `malloc` returns `cook_memory i` and
-- `student_memory i` for the threads of index `i`.
unfoldable pub func_a :
    (decimal : ℕ → List ℕ) (cook_memory student_memory : ℕ → Ptr) (producer consumer : ℕ)
    → M (Unit {0})
unfolding fork_each
func_a decimal cook_memory student_memory producer consumer =
    fork_each producer 0 (cook_name decimal) 10 cook_memory 0 cooks
    >> fork_each consumer 0 (student_name decimal) 10 student_memory 0 students

-- After `funcA`'s loops all the threads stand in level 10.
record Staffed (cook_memory student_memory : ℕ → Ptr) (producer consumer : ℕ) (s s' : Sys)
    : Type 0 where
  counted : IsWf s'
  level :
      s'.p_queue 10 ≡ (s.p_queue 10 ++ crew cook_memory 0 cooks) ++ crew student_memory 0 students
  other_levels : (z : ℕ) → z ≢ 10 → s'.p_queue z ≡ s.p_queue z
  new_cooks : AllNew s' producer 0 10 (crew cook_memory 0 cooks)
  new_students : AllNew s' consumer 0 10 (crew student_memory 0 students)
  locks : s'.locks ≡ s.locks
  semaphores : s'.semaphores ≡ s.semaphores
  unjoined : Unjoined s → Unjoined s'

module _ (decimal : ℕ → List ℕ) (cook_memory student_memory : ℕ → Ptr) (producer consumer : ℕ)
    (short : (i : ℕ) → i < students → length (decimal i) ≤ 11)
    (disjoint : (i j : ℕ) → i < cooks → j < students → student_memory j ≢ cook_memory i) where
  func_a-Staffed :
      (s : Sys)
      → IsWf s
      → (s.tcbs s.current).priority ≡ pos 20
      → ((i : ℕ) → i < cooks → (cook_memory i ≢ null) × (cook_memory i ≢ s.current))
      → ((i : ℕ) → i < students → (student_memory i ≢ null) × (student_memory i ≢ s.current))
      → (s' : Sys) × (func_a decimal cook_memory student_memory producer consumer s ≡ returns tt s')
        × Staffed cook_memory student_memory producer consumer s s'
  unfolding func_a
  func_a-Staffed s w e cook_allocated student_allocated =
      let (s1, goes, h) =
        fork_each-Hired producer 0 (cook_name decimal) 10 20 cook_memory (omega arith) (omega arith)
          cooks 0 s w e
          (λ j b. (
            (cook_allocated j b).0,
            (cook_allocated j b).1,
            omega (arith, short j (omega arith)),
          )) in
      let same : s1.current ≡ s.current = h.current in
      let still =
        Hired-priority s s1 producer 0 10 20 (crew cook_memory 0 cooks) h
          (crew-Outside s.current cook_memory cooks 0 (λ k a b. (cook_allocated k b).1)) e in
      let (s2, goes', h') =
        fork_each-Hired consumer 0 (student_name decimal) 10 20 student_memory (omega arith)
          (omega arith) students 0 s1 h.counted still
          (λ j b. (
            (student_allocated j b).0,
            (λ x. (student_allocated j b).1 (x ∙ same)),
            omega (arith, short j b),
          )) in
      (
        s2,
        ap
              (λ o.
                bind o
                  (λ _. fork_each consumer 0 (student_name decimal) 10 student_memory 0 students))
              goes
            ∙ goes',
        record {
          counted = h'.counted;
          level = h'.level ∙ ap (λ q. q ++ crew student_memory 0 students) h.level;
          other_levels = λ z ne. h'.other_levels z ne ∙ h.other_levels z ne;
          new_cooks =
              kept-AllNew s1 s2 producer 0 10 (crew cook_memory 0 cooks)
                (crew student_memory 0 students) h'.outside
                (crew-Apart cook_memory student_memory cooks 0 students 0
                  (λ j k a b c d. disjoint j k b d))
                h.all_new;
          new_students = h'.all_new;
          locks = h'.locks ∙ h.locks;
          semaphores = h'.semaphores ∙ h.semaphores;
          unjoined = λ u. h'.unjoined (h.unjoined u);
        },
      )

-- With memory for what is created, where the first thread, the cooks and the students have none in
-- common, nor have the two semaphores, and with `%d` printing at most 11 characters: the program
-- enters `funcA` in its first thread. When no timer interrupt comes, `funcA` returns with the cooks
-- in level 10 and the students behind them, none of which has run, with the lock free, the semaphores
-- as in the kitchen when it opens and counters that agree with the queues; then the first cook enters
-- `Producer`.
pub kitchen_opens :
    (memory : Ptr → Tcb) (timer : Interval) (mutex full empty current_tcb : Ptr)
    (waiting_tcb : ℕ → Ptr) (first : Ptr) (start : ℕ) (decimal : ℕ → List ℕ)
    (cook_memory student_memory : ℕ → Ptr) (producer consumer : ℕ) (old : ℕ → ℕ)
    → mutex ≢ null
    → full ≢ null
    → empty ≢ null
    → full ≢ empty
    → current_tcb ≢ null
    → first ≢ null
    → first ≢ current_tcb
    → ((i : ℕ) → i < cooks → (cook_memory i ≢ null) × (cook_memory i ≢ first))
    → ((i : ℕ) → i < students → (student_memory i ≢ null) × (student_memory i ≢ first))
    → ((i j : ℕ) → i < cooks → j < students → student_memory j ≢ cook_memory i)
    → ((i : ℕ) → i < students → length (decimal i) ≤ 11)
    → (s : Sys) × (s' : Sys) × (s'' : Sys) × (settle
          (λ c. c)
          ((main mutex full empty current_tcb waiting_tcb first start >>= enter)
            (globals memory timer))
        ≡ some (record { sys = s; control = in_user }))
      × (s.current ≡ first)
      × ((s.tcbs first).func ≡ start)
      × (func_a decimal cook_memory student_memory producer consumer s ≡ returns tt s')
      × (s'.p_queue 10 ≡ crew cook_memory 0 cooks ++ crew student_memory 0 students)
      × AllNew s' producer 0 10 (crew cook_memory 0 cooks)
      × AllNew s' consumer 0 10 (crew student_memory 0 students)
      × (at s'.locks mutex ≡ some (record { shared = 0 }))
      × Shows s' full (opened cooks students old).full
      × Shows s' empty (opened cooks students old).empty
      × IsWf s'
      × (end_and_go (record { sys = s'; control = in_user })
          ≡ some (record { sys = s''; control = in_user }))
      × (s''.current ≡ cook_memory 0)
      × ((s''.tcbs (cook_memory 0)).func ≡ producer)
kitchen_opens memory timer mutex full empty current_tcb waiting_tcb first start decimal cook_memory
      student_memory producer consumer old a b b' different c f apart cook_allocated
      student_allocated disjoint short =
    let before = created memory timer mutex full empty in
    let (s, goes, w, runs) =
      main-runs memory timer mutex full empty current_tcb waiting_tcb first start a b b' c f
        apart in
    let at_first : s.current ≡ first = runs.current in
    let (s', forks, staffed) =
      func_a-Staffed decimal cook_memory student_memory producer consumer short disjoint s w
        (ap (λ t. (s.tcbs t).priority) at_first ∙ runs.priority)
        (λ i l. ((cook_allocated i l).0, λ e. (cook_allocated i l).1 (e ∙ at_first)))
        (λ i l. ((student_allocated i l).0, λ e. (student_allocated i l).1 (e ∙ at_first))) in
    let queued : s'.p_queue 10 ≡ crew cook_memory 0 cooks ++ crew student_memory 0 students =
      staffed.level
      ∙ ap (λ q. (q ++ crew cook_memory 0 cooks) ++ crew student_memory 0 students)
          (runs.idle 10) in
    let semaphores : s'.semaphores ≡ before.semaphores = staffed.semaphores ∙ runs.semaphores in
    let (has_full, has_empty) =
      created-opened memory timer mutex full empty cooks students old b b' different in
    let rest = crew cook_memory 1 3 ++ crew student_memory 0 students in
    let first_cook = staffed.new_cooks.0 in
    (
      s,
      s',
      handed_over s' 10 (cook_memory 0) rest,
      goes,
      at_first,
      runs.func,
      forks,
      queued,
      staffed.new_cooks,
      staffed.new_students,
      ap (λ o. at o mutex) (staffed.locks ∙ runs.locks)
          ∙ allocated-at mutex (record { shared = 0 }) a,
      Shows-same before s' full (opened cooks students old).full semaphores has_full,
      Shows-same before s' empty (opened cooks students old).empty semaphores has_empty,
      staffed.counted,
      end_hands_over s' 10 (cook_memory 0) rest staffed.counted.ready
          (staffed.unjoined runs.unjoined) (omega arith) queued
          (λ z l m. staffed.other_levels z (omega arith) ∙ runs.idle z) first_cook.flag,
      refl,
      rw (==-refl (cook_memory 0)) first_cook.func,
    )
