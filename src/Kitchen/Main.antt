-- ===== src/Kitchen/Main.antt =====
-- TEST4.C: `main`, but for the counter that it sets to 0, which is `opened`'s.
use mathlib.Core.Path.{subst}
use user_level_thread_librar.Base.{
  ℕ, ◌≡◌, ◌≢◌, refl, ap, ◌∙◌, arith, none, some, false, List, [], ◌∷◌, ◌==◌, pos, update,
}
use user_level_thread_librar.System.State.{Sys, Ptr, M, Tcb, Interval, null, returns, bind, ◌>>=◌}
use user_level_thread_librar.System.Scheduler.{Next}
use user_level_thread_librar.System.Fork.{t_start}
use user_level_thread_librar.System.Lock.{lock_create, set_lock}
use user_level_thread_librar.System.Semaphore.{semaphore_create}
use user_level_thread_librar.System.Machine.{Config, in_user, enter, settle, here}
use user_level_thread_librar.System.Startup.{globals, globals-Unstarted, t_start-runs, Running}
use user_level_thread_librar.System.Invariant.Defs.{IsWf, Keeps}
use user_level_thread_librar.System.Invariant.Semaphores.{semaphore_create-IsWf}
use user_level_thread_librar.System.Invariant.Start.{NoneWait, started-IsWf}
use user_level_thread_librar.Kitchen.{buffer_size, opened}
use user_level_thread_librar.Kitchen.Semaphores.{Shows}

abbrev full_name : List ℕ
full_name =
    b'F' ∷ b'u' ∷ b'l' ∷ b'l' ∷ b' ' ∷ b'S' ∷ b'e' ∷ b'm' ∷ b'a' ∷ b'p' ∷ b'h' ∷ b'o' ∷ b'r' ∷ b'e'
    ∷ []

abbrev empty_name : List ℕ
empty_name =
    b'E' ∷ b'm' ∷ b'p' ∷ b't' ∷ b'y' ∷ b' ' ∷ b'S' ∷ b'e' ∷ b'm' ∷ b'a' ∷ b'p' ∷ b'h' ∷ b'o' ∷ b'r'
    ∷ b'e' ∷ []

-- The arguments but the last are what `malloc` returns; `func_a` is the address of `funcA`.
unfoldable pub main :
    (mutex full empty current_tcb : Ptr) (waiting_tcb : ℕ → Ptr) (first : Ptr) (func_a : ℕ) → M Next
unfolding lock_create semaphore_create
main mutex full empty current_tcb waiting_tcb first func_a = do
  _ ← lock_create mutex
  _ ← semaphore_create full (pos 0) full_name
  _ ← semaphore_create empty (pos buffer_size) empty_name
  t_start current_tcb waiting_tcb first func_a 0 (b'A' ∷ []) (pos 20)

module _ (memory : Ptr → Tcb) (timer : Interval) (mutex full empty : Ptr) where
  abbrev locked : Sys
  locked = set_lock mutex 0 (globals memory timer)

  abbrev filled : Sys
  filled = record locked {
    semaphores =
        update (λ c. none) full (some (record { value = pos 0; sem_id = 1; waiters = [] }));
    semaphore_id = 1;
  }

  -- When `main` calls `t_start`.
  abbrev pub created : Sys
  created = record filled {
    semaphores =
        update filled.semaphores empty
          (some (record { value = pos buffer_size; sem_id = 2; waiters = [] }));
    semaphore_id = 2;
  }

  module _ (mutex_allocated : mutex ≢ null) (full_allocated : full ≢ null)
      (empty_allocated : empty ≢ null) where
    create-filled : semaphore_create full (pos 0) full_name locked ≡ returns full filled
    unfolding semaphore_create
    create-filled = let a : (full == null) ≡ false = ground arith in rw a

    create-created :
        semaphore_create empty (pos buffer_size) empty_name filled ≡ returns empty created
    unfolding semaphore_create
    create-created = let a : (empty == null) ≡ false = ground arith in rw a

    main-created :
        (current_tcb : Ptr) (waiting_tcb : ℕ → Ptr) (first : Ptr) (func_a : ℕ)
        → main mutex full empty current_tcb waiting_tcb first func_a (globals memory timer)
          ≡ t_start current_tcb waiting_tcb first func_a 0 (b'A' ∷ []) (pos 20) created
    unfolding main
    main-created current_tcb waiting_tcb first func_a =
        let a : (mutex == null) ≡ false = ground arith in
        let b : (full == null) ≡ false = ground arith in
        let c : (empty == null) ≡ false = ground arith in rw (a, b, c)

    created-IsWf : IsWf created
    created-IsWf =
        let w = subst (Keeps IsWf) create-filled (
          semaphore_create-IsWf full (pos 0) full_name locked (globals-Unstarted memory timer).0) in
        subst (Keeps IsWf) create-created
          (semaphore_create-IsWf empty (pos buffer_size) empty_name filled w)

    created-NoneWait : NoneWait created.conditions created.semaphores
    created-NoneWait = record { on_conditions = λ c k e. cc; on_semaphores = λ c m e. ground arith }

-- The semaphores are those of the kitchen when it opens.
pub created-opened :
    (memory : Ptr → Tcb) (timer : Interval) (mutex full empty : Ptr) (n m : ℕ) (old : ℕ → ℕ)
    → full ≢ null
    → empty ≢ null
    → full ≢ empty
    → let s = created memory timer mutex full empty in
      Shows s full (opened n m old).full × Shows s empty (opened n m old).empty
unfolding opened
created-opened memory timer mutex full empty n m old a b different = (
  (record { value = pos 0; sem_id = 1; waiters = [] }, ground arith, refl, refl, omega arith),
  (
    record { value = pos buffer_size; sem_id = 2; waiters = [] },
    ground arith,
    refl,
    refl,
    omega arith,
  ),
)

-- `main` enters `funcA` in the first thread.
pub main-runs :
    (memory : Ptr → Tcb) (timer : Interval) (mutex full empty current_tcb : Ptr)
    (waiting_tcb : ℕ → Ptr) (first : Ptr) (func_a : ℕ)
    → mutex ≢ null
    → full ≢ null
    → empty ≢ null
    → current_tcb ≢ null
    → first ≢ null
    → first ≢ current_tcb
    → let before = created memory timer mutex full empty in
      (s : Sys) × (settle
          (λ c. c)
          ((main mutex full empty current_tcb waiting_tcb first func_a >>= enter)
            (globals memory timer))
        ≡ some (record { sys = s; control = in_user }))
      × IsWf s
      × Running before s first func_a 20
main-runs memory timer mutex full empty current_tcb waiting_tcb first func_a a b b' c f apart =
    let before = created memory timer mutex full empty in
    let w = created-IsWf memory timer mutex full empty a b b' in
    let (s, goes, runs) =
      t_start-runs before current_tcb waiting_tcb w.ready (λ z l. refl) first func_a 0 (b'A' ∷ [])
        20 c f apart (omega arith) (omega arith) (omega arith) in
    let k : Config = record { sys = s; control = in_user } in
    (
      s,
      ap (λ o. settle (λ c. c) (bind o enter))
            (main-created memory timer mutex full empty a b b' current_tcb waiting_tcb first func_a)
          ∙ ap (settle (λ c. c)) goes,
      started-IsWf before current_tcb waiting_tcb first func_a 0 (b'A' ∷ []) (pos 20) k k w
          (created-NoneWait memory timer mutex full empty a b b') (ap (settle (λ c. c)) goes) here,
      runs,
    )
