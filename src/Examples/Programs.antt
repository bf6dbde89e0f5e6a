-- ===== src/Examples/Programs.antt =====
-- The theorems on TEST3A.C, TEST3B.C and TEST3C.C at small states.
use user_level_thread_librar.Base.{
  ◌≡◌, ◌≤◌, ◌⊎◌, false, is_zero, refl, arith, pos, length, [], ◌∷◌, some,
}
use user_level_thread_librar.Bridge.Cars.{Dir, open_road, north, south, AllAre}
use user_level_thread_librar.Bridge.OneWay.{Road}
use user_level_thread_librar.Bridge.OneWay
use user_level_thread_librar.Bridge.OneWay.Steps.{Steps, none_yet, then_one, arrives, departs}
use user_level_thread_librar.Bridge.OneWay.Safety.{Steps-AllAre}
use user_level_thread_librar.Bridge.OneWay.Progress.{
  time_left, arrivals, AllGone, CanMove, all_cars_cross,
}
use user_level_thread_librar.Bridge.OneWay.Starvation.{busy, twice, starvation}
use user_level_thread_librar.Bridge.Convoy.{Convoy}
use user_level_thread_librar.Bridge.Convoy
use user_level_thread_librar.Bridge.Convoy.Steps.{Reach, here}
use user_level_thread_librar.Bridge.Convoy.Steps as ConvoySteps
use user_level_thread_librar.Bridge.Convoy.Defs.{present}
use user_level_thread_librar.Bridge.Convoy.Reachable.{Reach-AllAre}
use user_level_thread_librar.Bridge.Convoy.Stranded.{IsStill, lone_car_waits}
use user_level_thread_librar.Bridge.OneWay.Signals.{t_sigs, Shows, broadcast-Shows}
use user_level_thread_librar.System.State.{Sys, returns}
use user_level_thread_librar.System.State.{◌>>=◌, at}
use user_level_thread_librar.System.Machine.{in_user, enter, settle}
use user_level_thread_librar.System.Startup.{globals}
use user_level_thread_librar.System.Invariant.Defs.{IsWf}
use user_level_thread_librar.Bridge.Opening.{bridge_opens}
use user_level_thread_librar.Bridge.Fleet.{forks_cars, func_a, AllGroups, goes, directions}
use user_level_thread_librar.System.Crew.{crew}
use user_level_thread_librar.System.Handover.{end_and_go}
use user_level_thread_librar.Bridge.Main as BridgeMain
use user_level_thread_librar.Base.{◌+◌}
use user_level_thread_librar.Examples.States.{no_memory, no_timer, two_digits, two_digits-short}
use user_level_thread_librar.Examples.States.{cars_wait, cars_wait-IsWf, first_cond}
use user_level_thread_librar.Base.{ℕ, List, map, update, if◌then◌else◌, ◌==◌, ◌++◌}

-- A car to the north crosses, one to the south waits, and the first departs.
one_passes : (r : Road) × Steps OneWay.empty_road 3 r
unfolding OneWay.arrive
one_passes = (
  _,
  then_one (then_one (then_one none_yet (arrives north (λ e. cc))) (arrives south (λ e. cc)))
      (departs [] north [] refl),
)

Steps-AllAre_example :
    AllAre one_passes.0.cur_dir one_passes.0.crossing
    × (one_passes.0.num_cars ≡ pos (length one_passes.0.crossing))
    × (one_passes.0.cur_dir ≡ open_road → one_passes.0.crossing ≡ [])
Steps-AllAre_example = Steps-AllAre one_passes.0 3 one_passes.1

-- The car to the south has been woken.
one_passes_wakes : one_passes.0.woken ≡ south ∷ []
unfolding one_passes OneWay.arrive OneWay.depart OneWay.broadcast OneWay.signal
one_passes_wakes = refl

-- One car crosses and another waits; then the first departs.
abbrev both_come : Road
both_come = OneWay.arrive south (OneWay.arrive north OneWay.empty_road)

abbrev first_departs : Road
first_departs = OneWay.depart [] both_come

both_come-Steps : Steps OneWay.empty_road 2 both_come
both_come-Steps = then_one (then_one none_yet (arrives north (λ e. cc))) (arrives south (λ e. cc))

first_departs-Steps : Steps both_come 1 first_departs
unfolding OneWay.arrive
first_departs-Steps = then_one none_yet (departs [] north [] refl)

both_come-arrivals : arrivals both_come-Steps ≤ 30
unfolding both_come-Steps
both_come-arrivals = omega arith

first_departs-arrivals : arrivals first_departs-Steps ≡ 0
unfolding first_departs-Steps
first_departs-arrivals = refl

all_cars_cross_example : (1 ≤ time_left both_come) × (AllGone first_departs ⊎ CanMove first_departs)
all_cars_cross_example =
    all_cars_cross both_come first_departs 2 1 both_come-Steps first_departs-Steps
      both_come-arrivals first_departs-arrivals

starvation_example : Steps (busy north (south ∷ [])) (twice 3) (busy north (south ∷ []))
starvation_example = starvation north (south ∷ []) 3 (λ e. cc)

two_arrive : (c : Convoy) × Reach Convoy.empty_road c
two_arrive = (
  _,
  ConvoySteps.next (ConvoySteps.next here (ConvoySteps.arrives north (λ e. cc)))
      (ConvoySteps.arrives south (λ e. cc)),
)

-- One car to the north has come and gone.
abbrev one_gone : Convoy
one_gone = Convoy.depart north [] (Convoy.arrive north Convoy.empty_road)

one_gone-IsStill : IsStill [] one_gone
unfolding Convoy.depart Convoy.arrive Convoy.signal Convoy.loop Convoy.enter
one_gone-IsStill = (refl, refl, refl)

one_gone-turn : one_gone.cur_dir ≡ Convoy.flip north
unfolding Convoy.depart Convoy.arrive Convoy.signal Convoy.loop Convoy.enter
one_gone-turn = refl

one_gone-begun : is_zero one_gone.first_time ≡ false
unfolding Convoy.depart Convoy.arrive Convoy.signal Convoy.loop Convoy.enter
one_gone-begun = refl

one_gone-Reach : Reach Convoy.empty_road one_gone
unfolding Convoy.arrive Convoy.loop Convoy.enter
one_gone-Reach =
    ConvoySteps.next (ConvoySteps.next here (ConvoySteps.arrives north (λ e. cc)))
      (ConvoySteps.departs [] north [] refl)

lone_car_waits_example :
    IsStill (north ∷ []) (Convoy.arrive north one_gone)
    × ((x : Dir) × (Convoy.arrive south (Convoy.arrive north one_gone)
          ≡ Convoy.arrive x (Convoy.arrive north one_gone)))
lone_car_waits_example =
    lone_car_waits north one_gone (Convoy.arrive south (Convoy.arrive north one_gone)) (λ e. cc)
      one_gone-turn one_gone-begun one_gone-IsStill (ConvoySteps.arrives south (λ e. cc))

Reach-AllAre_example :
    AllAre two_arrive.0.cur_dir two_arrive.0.crossing
    × (two_arrive.0.in_flight ≡ pos (length two_arrive.0.crossing))
    × (two_arrive.0.num_cars_north
        ≡ pos (present north two_arrive.0.waiting two_arrive.0.woken two_arrive.0.crossing []))
    × (two_arrive.0.num_cars_south
        ≡ pos (present south two_arrive.0.waiting two_arrive.0.woken two_arrive.0.crossing []))
Reach-AllAre_example = Reach-AllAre two_arrive.0 two_arrive.1

-- The first car crosses, and the second waits.
two_arrive_flight : two_arrive.0.in_flight ≡ pos 1
unfolding two_arrive Convoy.arrive Convoy.loop Convoy.enter Convoy.queue_up Convoy.signal
two_arrive_flight = refl

-- Thread 2 is a car that goes north, the others go south.
abbrev side : ℕ → Dir
side t = if t == 2 then north else south

abbrev two_waiting : Road
two_waiting = record OneWay.empty_road { waiting = north ∷ south ∷ [] }

broadcast-Shows_example :
    (s' : Sys) × (woken : List ℕ) × (t_sigs 30 6 0 0 cars_wait ≡ returns tt s')
    × Shows side s' 6 (OneWay.broadcast 30 two_waiting).waiting
    × (s'.p_queue 10 ≡ [] ++ woken)
    × ((OneWay.broadcast 30 two_waiting).woken ≡ [] ++ map side woken)
broadcast-Shows_example = broadcast-Shows 30 side cars_wait 6 0 0 two_waiting cars_wait-IsWf (
  first_cond (update (λ p. []) 10 (2 ∷ 3 ∷ [])),
  refl,
  refl,
  (λ z ne. ground arith),
  (refl, (refl, tt)),
)

-- TEST3A.C
bridge_opens_example :
    (s : Sys) × (s' : Sys) × (s'' : Sys) × (settle
        (λ c. c)
        ((BridgeMain.main 3 4 5 (λ i. i + 100) 6 7 >>= enter) (globals no_memory no_timer))
      ≡ some (record { sys = s; control = in_user }))
    × (s.current ≡ 6)
    × ((s.tcbs 6).func ≡ 7)
    × (forks_cars two_digits (λ i. i + 10) 8 0 func_a s ≡ returns tt s')
    × (s'.p_queue 10 ≡ crew (λ i. i + 10) 0 10)
    × AllGroups s' (λ i. i + 10) 8 0 func_a
    × (map (goes s') (s'.p_queue 10) ≡ directions func_a)
    × (at s'.locks 3 ≡ some (record { shared = 0 }))
    × Shows (λ t. north) s' 4 OneWay.empty_road.waiting
    × IsWf s'
    × (end_and_go (record { sys = s'; control = in_user })
        ≡ some (record { sys = s''; control = in_user }))
    × (s''.current ≡ 10)
    × ((s''.tcbs 10).func ≡ 8)
    × ((s''.tcbs 10).arg ≡ 2)
bridge_opens_example =
    bridge_opens no_memory no_timer 3 4 5 (λ i. i + 100) 6 7 two_digits (λ i. i + 10) 8 4 north
      (record { size = 5; direction = south } ∷ []) (λ t. north) (λ e. omega arith)
      (λ e. omega arith) (λ e. omega arith) (λ e. omega arith) (λ e. omega arith)
      (λ j l. ((λ e. omega arith), (λ e. omega arith), two_digits-short j))
      (λ j k a b e. omega arith)

-- The directions of the cars of TEST3A.C.
directions_a :
    directions func_a
    ≡ (north ∷ north ∷ north ∷ north ∷ north ∷ south ∷ south ∷ south ∷ south ∷ south ∷ [])
unfolding directions
directions_a = refl
