-- ===== src/Bridge/Opening.antt =====
-- TEST3A.C, TEST3B.C and TEST3C.C: the program from `main` to the first car.
use mathlib.Core.Path.{subst}
use mathlib.Core.List.{append-nil, append_assoc}
use user_level_thread_librar.Base.{
  ℕ, suc, ◌+◌, ◌≤◌, ◌<◌, ◌≡◌, ◌≢◌, refl, sym, ap, ◌∙◌, arith, some, List, [], ◌∷◌, ◌++◌, map, pos,
  length, ==-refl,
}
use user_level_thread_librar.System.State.{Sys, Ptr, Tcb, Interval, null, returns, at, bind, ◌>>=◌}
use user_level_thread_librar.System.Machine.{in_user, enter, settle}
use user_level_thread_librar.System.Crew.{crew, Outside, fork_each-Hired}
use user_level_thread_librar.System.Crew.Apart.{
  crew-Apart, crew-Outside, crew-append, Outside-append, kept-AllNew, Hired-priority,
}
use user_level_thread_librar.System.Handover.{Unjoined, end_and_go, end_hands_over, handed_over}
use user_level_thread_librar.System.Startup.{globals, allocated-at}
use user_level_thread_librar.System.Invariant.Defs.{IsWf}
use user_level_thread_librar.Bridge.Cars.{Dir}
use user_level_thread_librar.Bridge.Names.{number}
use user_level_thread_librar.Bridge.Fleet.{
  Group, forks_cars, car_name, total, directions, AllGroups, goes, AllGroups-goes,
}
use user_level_thread_librar.Bridge.Main.{main, main-runs, created-Shows}
use user_level_thread_librar.Bridge.OneWay.{empty_road}
use user_level_thread_librar.Bridge.OneWay.Signals.{Shows}

-- After the loops for `gs`, from index `i` on, their cars stand behind level 10.
record Fleet (memory : ℕ → Ptr) (arrive i : ℕ) (gs : List Group) (s s' : Sys) : Type 0 where
  counted : IsWf s'
  level : s'.p_queue 10 ≡ s.p_queue 10 ++ crew memory i (total gs)
  other_levels : (z : ℕ) → z ≢ 10 → s'.p_queue z ≡ s.p_queue z
  groups : AllGroups s' memory arrive i gs
  outside : (t : Ptr) → Outside t (crew memory i (total gs)) → s'.tcbs t ≡ s.tcbs t
  locks : s'.locks ≡ s.locks
  conditions : s'.conditions ≡ s.conditions
  unjoined : Unjoined s → Unjoined s'

module _ (decimal : ℕ → List ℕ) (memory : ℕ → Ptr) (arrive : ℕ) where
  forks_cars-Fleet :
      (gs : List Group) (i : ℕ) (s : Sys)
      → IsWf s
      → (s.tcbs s.current).priority ≡ pos 10
      → ((j : ℕ)
          → j < i + total gs
          → (memory j ≢ null) × (memory j ≢ s.current) × (length (decimal j) ≤ 11))
      → ((j k : ℕ) → j < k → k < i + total gs → memory k ≢ memory j)
      → (s' : Sys) × (forks_cars decimal memory arrive i gs s ≡ returns tt s')
        × Fleet memory arrive i gs s s'
  unfolding forks_cars
  forks_cars-Fleet [] i s w e can distinct = (
    s,
    refl,
    record {
      counted = w;
      level = sym (append-nil (s.p_queue 10));
      other_levels = λ z ne. refl;
      groups = tt;
      outside = λ t o. refl;
      locks = refl;
      conditions = refl;
      unjoined = λ u. u;
    },
  )
  forks_cars-Fleet (g ∷ gs) i s w e can distinct =
      let v = number g.direction in
      let mine = crew memory i g.size in
      let theirs = crew memory (i + g.size) (total gs) in
      let (s1, goes_on, h) =
        fork_each-Hired arrive v (car_name decimal) 10 10 memory (omega arith) (omega arith) g.size
          i s w e
          (λ j b. let (a, c, short) = can j (omega arith) in (a, c, omega (arith, short))) in
      let elsewhere : Outside s.current mine =
        crew-Outside s.current memory g.size i (λ k a b. (can k (omega arith)).1) in
      let (s2, goes_on', h') =
        forks_cars-Fleet gs (i + g.size) s1 h.counted
          (Hired-priority s s1 arrive v 10 10 mine h elsewhere e)
          (λ j b. let (a, c, short) = can j (omega arith) in (a, (λ x. c (x ∙ h.current)), short))
          (λ j k a b. distinct j k a (omega arith)) in
      let parts : mine ++ theirs ≡ crew memory i (g.size + total gs) =
        crew-append memory i g.size (total gs) in
      (
        s2,
        ap (λ o. bind o (λ _. forks_cars decimal memory arrive (i + g.size) gs)) goes_on ∙ goes_on',
        record {
          counted = h'.counted;
          level =
              h'.level
              ∙ ap (λ q. q ++ theirs) h.level
              ∙ append_assoc (s.p_queue 10) mine theirs
              ∙ ap (λ q. s.p_queue 10 ++ q) parts;
          other_levels = λ z ne. h'.other_levels z ne ∙ h.other_levels z ne;
          groups = (
            kept-AllNew s1 s2 arrive v 10 mine theirs h'.outside
                (crew-Apart memory memory g.size i (total gs) (i + g.size)
                  (λ j k a b c d. distinct j k (omega arith) (omega arith)))
                h.all_new,
            h'.groups,
          );
          outside = λ t o.
              let (a, b) = Outside-append t mine theirs (subst (Outside t) (sym parts) o) in
              h'.outside t b ∙ h.outside t a;
          locks = h'.locks ∙ h.locks;
          conditions = h'.conditions ∙ h.conditions;
          unjoined = λ u. h'.unjoined (h.unjoined u);
        },
      )

-- For each list of groups of cars, such as those of the three programs, with at least one car in the
-- first group, with memory for what is created, where the first thread and the cars have none in
-- common, and with `%d` printing at most 11 characters: but for what it prints, the program enters
-- `funcA` in its first thread. When no timer interrupt comes, `funcA` returns with the cars in level
-- 10, none of which has run, whose arguments are the groups' directions in order, with the lock free,
-- nobody waiting on the condition, as on the empty road, and counters that agree with the queues;
-- then the first car enters `Arrive` with its direction.
pub bridge_opens :
    (memory : Ptr → Tcb) (timer : Interval) (lock_memory cond_memory current_tcb : Ptr)
    (waiting_tcb : ℕ → Ptr) (first : Ptr) (start : ℕ) (decimal : ℕ → List ℕ) (car_memory : ℕ → Ptr)
    (arrive n : ℕ) (d : Dir) (gs : List Group) (dir : Ptr → Dir)
    → let groups = record { size = suc n; direction = d } ∷ gs in
      lock_memory ≢ null
      → cond_memory ≢ null
      → current_tcb ≢ null
      → first ≢ null
      → first ≢ current_tcb
      → ((j : ℕ)
          → j < total groups
          → (car_memory j ≢ null) × (car_memory j ≢ first) × (length (decimal j) ≤ 11))
      → ((j k : ℕ) → j < k → k < total groups → car_memory k ≢ car_memory j)
      → (s : Sys) × (s' : Sys) × (s'' : Sys) × (settle
            (λ c. c)
            ((main lock_memory cond_memory current_tcb waiting_tcb first start >>= enter)
              (globals memory timer))
          ≡ some (record { sys = s; control = in_user }))
        × (s.current ≡ first)
        × ((s.tcbs first).func ≡ start)
        × (forks_cars decimal car_memory arrive 0 groups s ≡ returns tt s')
        × (s'.p_queue 10 ≡ crew car_memory 0 (total groups))
        × AllGroups s' car_memory arrive 0 groups
        × (map (goes s') (s'.p_queue 10) ≡ directions groups)
        × (at s'.locks lock_memory ≡ some (record { shared = 0 }))
        × Shows dir s' cond_memory empty_road.waiting
        × IsWf s'
        × (end_and_go (record { sys = s'; control = in_user })
            ≡ some (record { sys = s''; control = in_user }))
        × (s''.current ≡ car_memory 0)
        × ((s''.tcbs (car_memory 0)).func ≡ arrive)
        × ((s''.tcbs (car_memory 0)).arg ≡ number d)
bridge_opens memory timer lock_memory cond_memory current_tcb waiting_tcb first start decimal
      car_memory arrive n d gs dir a b c f apart can distinct =
    let groups : List Group = record { size = suc n; direction = d } ∷ gs in
    let (s, enters, w, runs) =
      main-runs memory timer lock_memory cond_memory current_tcb waiting_tcb first start a b c f
        apart in
    let at_first : s.current ≡ first = runs.current in
    let (s', forks, fleet) =
      forks_cars-Fleet decimal car_memory arrive groups 0 s w
        (ap (λ t. (s.tcbs t).priority) at_first ∙ runs.priority)
        (λ j l. let (e, g, h) = can j (omega arith) in (e, (λ x. g (x ∙ at_first)), h))
        (λ j k l m. distinct j k l (omega arith)) in
    let queued : s'.p_queue 10 ≡ crew car_memory 0 (total groups) =
      fleet.level ∙ ap (λ q. q ++ crew car_memory 0 (total groups)) (runs.idle 10) in
    let count : suc n + total gs ≡ suc (n + total gs) = omega arith in
    let rest = crew car_memory 1 (n + total gs) in
    let first_car = fleet.groups.0.0 in
    (
      s,
      s',
      handed_over s' 10 (car_memory 0) rest,
      enters,
      at_first,
      runs.func,
      forks,
      queued,
      fleet.groups,
      ap (map (goes s')) queued ∙ AllGroups-goes s' car_memory arrive groups 0 fleet.groups,
      ap (λ o. at o lock_memory) (fleet.locks ∙ runs.locks)
          ∙ allocated-at lock_memory (record { shared = 0 }) a,
      created-Shows memory timer lock_memory cond_memory dir s' b
          (fleet.conditions ∙ runs.conditions),
      fleet.counted,
      end_hands_over s' 10 (car_memory 0) rest fleet.counted.ready (fleet.unjoined runs.unjoined)
          (omega arith) (queued ∙ ap (crew car_memory 0) count)
          (λ z l m. fleet.other_levels z (omega arith) ∙ runs.idle z) first_car.flag,
      refl,
      rw (==-refl (car_memory 0)) first_car.func,
      rw (==-refl (car_memory 0)) first_car.arg,
    )
