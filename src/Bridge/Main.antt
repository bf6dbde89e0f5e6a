-- ===== src/Bridge/Main.antt =====
-- TEST3A.C, TEST3B.C and TEST3C.C: `main`.
use mathlib.Core.Path.{subst}
use user_level_thread_librar.Base.{
  ℕ, ◌≡◌, ◌≢◌, refl, ap, ◌∙◌, arith, none, some, false, [], ◌∷◌, ◌==◌, pos, update,
}
use user_level_thread_librar.System.State.{
  Sys, Ptr, M, Tcb, Interval, null, returns, at, bind, ◌>>=◌,
}
use user_level_thread_librar.System.Scheduler.{Next}
use user_level_thread_librar.System.Fork.{t_start}
use user_level_thread_librar.System.Lock.{lock_create, set_lock}
use user_level_thread_librar.System.Condition.{cond_create}
use user_level_thread_librar.System.Machine.{Config, in_user, enter, settle, here}
use user_level_thread_librar.System.Startup.{
  globals, globals-Unstarted, t_start-runs, allocated-at, Running,
}
use user_level_thread_librar.System.Invariant.Defs.{IsWf, Keeps}
use user_level_thread_librar.System.Invariant.Conditions.{cond_create-IsWf}
use user_level_thread_librar.System.Invariant.Start.{NoneWait, started-IsWf}
use user_level_thread_librar.Bridge.Cars.{Dir}
use user_level_thread_librar.Bridge.OneWay.{empty_road}
use user_level_thread_librar.Bridge.OneWay.Signals.{Shows}

-- The arguments but the last are what `malloc` returns; `func_a` is the address of `funcA`.
unfoldable pub main :
    (lock_memory cond_memory current_tcb : Ptr) (waiting_tcb : ℕ → Ptr) (first : Ptr) (func_a : ℕ)
    → M Next
unfolding lock_create cond_create
main lock_memory cond_memory current_tcb waiting_tcb first func_a = do
  my_lock ← lock_create lock_memory
  cond ← cond_create cond_memory my_lock
  t_start current_tcb waiting_tcb first func_a 0 (b'A' ∷ []) (pos 10)

module _ (memory : Ptr → Tcb) (timer : Interval) (lock_memory cond_memory : Ptr) where
  -- When `main` calls `t_start`.
  abbrev pub created : Sys
  created = record (globals memory timer) {
    locks = update (λ l. none) lock_memory (some (record { shared = 0 }));
    conditions =
        update (λ c. none) cond_memory
          (some (record { cond_id = 0; waiters = λ i. []; lock = lock_memory }));
    condition_record = update (λ i. null) 0 cond_memory;
    condition_id = 1;
  }

  module _ (lock_allocated : lock_memory ≢ null) (cond_allocated : cond_memory ≢ null) where
    cond_create-created :
        cond_create cond_memory lock_memory (set_lock lock_memory 0 (globals memory timer))
        ≡ returns cond_memory created
    unfolding cond_create
    cond_create-created = let a : (cond_memory == null) ≡ false = ground arith in rw a

    main-created :
        (current_tcb : Ptr) (waiting_tcb : ℕ → Ptr) (first : Ptr) (func_a : ℕ)
        → main lock_memory cond_memory current_tcb waiting_tcb first func_a (globals memory timer)
          ≡ t_start current_tcb waiting_tcb first func_a 0 (b'A' ∷ []) (pos 10) created
    unfolding main
    main-created current_tcb waiting_tcb first func_a =
        let a : (lock_memory == null) ≡ false = ground arith in
        let b : (cond_memory == null) ≡ false = ground arith in rw (a, b)

    created-IsWf : IsWf created
    created-IsWf =
        subst (Keeps IsWf) cond_create-created
          (cond_create-IsWf cond_memory lock_memory _ (globals-Unstarted memory timer).0)

    created-NoneWait : NoneWait created.conditions created.semaphores
    created-NoneWait = record {
      on_conditions = λ c k e p. ground arith;
      on_semaphores = λ c m e. cc;
    }

-- `main` enters `funcA` in the first thread.
pub main-runs :
    (memory : Ptr → Tcb) (timer : Interval) (lock_memory cond_memory current_tcb : Ptr)
    (waiting_tcb : ℕ → Ptr) (first : Ptr) (func_a : ℕ)
    → lock_memory ≢ null
    → cond_memory ≢ null
    → current_tcb ≢ null
    → first ≢ null
    → first ≢ current_tcb
    → let before = created memory timer lock_memory cond_memory in
      (s : Sys) × (settle
          (λ c. c)
          ((main lock_memory cond_memory current_tcb waiting_tcb first func_a >>= enter)
            (globals memory timer))
        ≡ some (record { sys = s; control = in_user }))
      × IsWf s
      × Running before s first func_a 10
main-runs memory timer lock_memory cond_memory current_tcb waiting_tcb first func_a a b c f apart =
    let before = created memory timer lock_memory cond_memory in
    let w = created-IsWf memory timer lock_memory cond_memory a b in
    let (s, goes, runs) =
      t_start-runs before current_tcb waiting_tcb w.ready (λ z l. refl) first func_a 0 (b'A' ∷ [])
        10 c f apart (omega arith) (omega arith) (omega arith) in
    let k : Config = record { sys = s; control = in_user } in
    (
      s,
      ap (λ o. settle (λ c. c) (bind o enter))
            (main-created memory timer lock_memory cond_memory a b current_tcb waiting_tcb first
              func_a)
          ∙ ap (settle (λ c. c)) goes,
      started-IsWf before current_tcb waiting_tcb first func_a 0 (b'A' ∷ []) (pos 10) k k w
          (created-NoneWait memory timer lock_memory cond_memory a b) (ap (settle (λ c. c)) goes)
          here,
      runs,
    )

-- Nobody waits on the condition, as on the empty road.
pub created-Shows :
    (memory : Ptr → Tcb) (timer : Interval) (lock_memory cond_memory : Ptr) (dir : Ptr → Dir)
    (s : Sys)
    → cond_memory ≢ null
    → s.conditions ≡ (created memory timer lock_memory cond_memory).conditions
    → Shows dir s cond_memory empty_road.waiting
created-Shows memory timer lock_memory cond_memory dir s a e = (
  record { cond_id = 0; waiters = λ i. []; lock = lock_memory },
  ap (λ o. at o cond_memory) e
      ∙ allocated-at cond_memory (record { cond_id = 0; waiters = λ i. []; lock = lock_memory }) a,
  refl,
  (λ z ne. refl),
  tt,
)
