-- ===== src/Examples/Kitchens.antt =====
-- The theorems on TEST4.C at small states.
use user_level_thread_librar.Base.{ℕ, ◌+◌, ◌%◌, ◌≡◌, refl, arith, ltb, ◌∷◌, ◌≤◌, some}
use user_level_thread_librar.System.State.{Sys, returns}
use user_level_thread_librar.System.Semaphore.{semaphore_p, semaphore_v}
use user_level_thread_librar.Kitchen.{
  Kitchen, produce_item, opened, cook_p, cook_v, student_p, student_v,
}
use user_level_thread_librar.Kitchen.{buffer_size, insert_item, remove_item, cook_section}
use user_level_thread_librar.Kitchen.Steps as KitchenSteps
use user_level_thread_librar.Kitchen.Buffer.{contents, remove-insert}
use user_level_thread_librar.Kitchen.Safety.{occurs, reachable-Conserved, cook_section_in_bounds}
use user_level_thread_librar.Kitchen.Progress.{never_stuck}
use user_level_thread_librar.Kitchen.Counter.{calls, calls_modulo}
use user_level_thread_librar.Kitchen.Semaphores.{
  OnlyAt, Shows, goes_on, semaphore_p-refines, semaphore_v-refines,
}
use user_level_thread_librar.System.State.{◌>>=◌, at}
use user_level_thread_librar.System.Machine.{in_user, enter, settle}
use user_level_thread_librar.System.Startup.{globals}
use user_level_thread_librar.System.Invariant.Defs.{IsWf}
use user_level_thread_librar.Kitchen.Main.{main}
use user_level_thread_librar.Kitchen.Opening.{func_a, kitchen_opens}
use user_level_thread_librar.System.Crew.{crew, AllNew}
use user_level_thread_librar.System.Handover.{end_and_go}
use user_level_thread_librar.Base.{◌++◌}
use user_level_thread_librar.Examples.States.{no_memory, no_timer, two_digits, two_digits-short}
use user_level_thread_librar.Examples.States.{two_sems, two_sems-IsWf, one_waiter}

calls_modulo_example : calls 3 49999 ≡ (49999 + 3) % 50001
calls_modulo_example = calls_modulo 3 49999 (omega arith)

-- The third burger after number 49999 is number 1.
calls_wrap : calls 3 49999 ≡ 1
unfolding calls produce_item
calls_wrap = refl

-- A student waits, and the buffer is empty.
abbrev hungry : Kitchen
unfolding opened
hungry = record (opened 4 20 (λ i. 0)) {
  full = record { value = 0; waiters = 1 };
  students_idle = 19;
}

empty-Shows : Shows two_sems 9 hungry.empty
unfolding hungry
empty-Shows = (_, refl, refl, refl, omega arith)

full-Shows : Shows two_sems 8 hungry.full
unfolding hungry
full-Shows = (one_waiter, refl, refl, refl, omega arith)

semaphore_p-refines_example :
    ((s' : Sys) × (semaphore_p 9 two_sems
        ≡ goes_on (ltb hungry.cooks_granted (cook_p hungry).cooks_granted) s')
      × OnlyAt 9 two_sems s'
      × Shows s' 9 (cook_p hungry).empty)
    × ((s' : Sys) × (semaphore_p 8 two_sems
          ≡ goes_on (ltb hungry.students_granted (student_p hungry).students_granted) s')
        × OnlyAt 8 two_sems s'
        × Shows s' 8 (student_p hungry).full)
semaphore_p-refines_example = semaphore_p-refines two_sems hungry 9 8 empty-Shows full-Shows

semaphore_v-refines_example :
    ((s' : Sys) × (semaphore_v 9 two_sems ≡ returns tt s')
      × OnlyAt 9 two_sems s'
      × Shows s' 9 (student_v hungry).empty)
    × ((s' : Sys) × (semaphore_v 8 two_sems ≡ returns tt s')
        × OnlyAt 8 two_sems s'
        × Shows s' 8 (cook_v hungry).full)
semaphore_v-refines_example =
    semaphore_v-refines two_sems hungry 9 8 empty-Shows full-Shows 5 two_sems-IsWf refl
      (omega arith)

abbrev kitchen : Kitchen
kitchen = opened 2 3 (λ i. 0)

-- A cook has been let through by its semaphore.
one_cook : (k : Kitchen) × KitchenSteps.Reach kitchen k
unfolding opened
one_cook = (_, KitchenSteps.next KitchenSteps.here (KitchenSteps.cook_asks 1 refl))

reachable-Conserved_example :
    (one_cook.0.buffer_index ≤ buffer_size)
    × ((b : ℕ)
        → occurs b one_cook.0.produced
          ≡ occurs b one_cook.0.consumed
            + occurs b (contents one_cook.0.buffer one_cook.0.buffer_index))
reachable-Conserved_example = reachable-Conserved 2 3 (λ i. 0) one_cook.0 one_cook.1

one_cook_granted : one_cook.0.cooks_granted ≡ 1
unfolding one_cook cook_p opened
one_cook_granted = refl

cook_section_in_bounds_example :
    (l : Kitchen) × (cook_section (record one_cook.0 { cooks_granted = 0 }) ≡ some l)
cook_section_in_bounds_example =
    cook_section_in_bounds 2 3 (λ i. 0) one_cook.0 0 one_cook.1 one_cook_granted

-- The cook has put a burger into the buffer, and a student has been let through.
one_student : (k : Kitchen) × KitchenSteps.Reach kitchen k
unfolding opened cook_p cook_section cook_v student_p insert_item produce_item
one_student = (
  _,
  KitchenSteps.next
      (KitchenSteps.next
        (KitchenSteps.next (KitchenSteps.next KitchenSteps.here (KitchenSteps.cook_asks 1 refl))
          (KitchenSteps.cook_cooks 0 _ refl refl))
        (KitchenSteps.cook_tells 0 refl))
      (KitchenSteps.student_asks 2 refl),
)

never_stuck_example : (l : Kitchen) × KitchenSteps.Step one_student.0 l
never_stuck_example =
    never_stuck 2 3 (λ i. 0) one_student.0 (omega arith) (omega arith) one_student.1

remove-insert_example :
    (l : Kitchen) × (m : Kitchen) × (insert_item 9 kitchen ≡ some l)
    × (contents l.buffer l.buffer_index ≡ 9 ∷ contents kitchen.buffer kitchen.buffer_index)
    × (remove_item l ≡ some (9, m))
    × (m.buffer_index ≡ kitchen.buffer_index)
    × (contents m.buffer m.buffer_index ≡ contents kitchen.buffer kitchen.buffer_index)
unfolding opened
remove-insert_example = remove-insert 9 kitchen (omega arith)

kitchen_opens_example :
    (s : Sys) × (s' : Sys) × (s'' : Sys) × (settle
        (λ c. c)
        ((main 2 3 4 5 (λ i. i + 100) 6 7 >>= enter) (globals no_memory no_timer))
      ≡ some (record { sys = s; control = in_user }))
    × (s.current ≡ 6)
    × ((s.tcbs 6).func ≡ 7)
    × (func_a two_digits (λ i. i + 10) (λ i. i + 20) 8 9 s ≡ returns tt s')
    × (s'.p_queue 10 ≡ crew (λ i. i + 10) 0 4 ++ crew (λ i. i + 20) 0 20)
    × AllNew s' 8 0 10 (crew (λ i. i + 10) 0 4)
    × AllNew s' 9 0 10 (crew (λ i. i + 20) 0 20)
    × (at s'.locks 2 ≡ some (record { shared = 0 }))
    × Shows s' 3 (opened 4 20 (λ i. 0)).full
    × Shows s' 4 (opened 4 20 (λ i. 0)).empty
    × IsWf s'
    × (end_and_go (record { sys = s'; control = in_user })
        ≡ some (record { sys = s''; control = in_user }))
    × (s''.current ≡ 10)
    × ((s''.tcbs 10).func ≡ 8)
kitchen_opens_example =
    kitchen_opens no_memory no_timer 2 3 4 5 (λ i. i + 100) 6 7 two_digits (λ i. i + 10)
      (λ i. i + 20) 8 9 (λ i. 0) (λ e. omega arith) (λ e. omega arith) (λ e. omega arith)
      (λ e. omega arith) (λ e. omega arith) (λ e. omega arith) (λ e. omega arith)
      (λ i l. ((λ e. omega arith), λ e. omega arith))
      (λ i l. ((λ e. omega arith), λ e. omega arith)) (λ i j a b e. omega arith)
      (λ i l. two_digits-short i)
