-- ===== src/Kitchen.antt =====
-- ThreadSystemCode/TestCases/TEST4.C: cooks and students around a bounded stack of burgers.
-- The lock `mutex` makes the code between its two operations one step. A thread is known by the place
-- where it stands; the threads that wait on a semaphore are counted by it.
pub mod Buffer
pub mod Steps
pub mod Safety
pub mod Progress
pub mod Counter
pub mod Semaphores
pub mod Main
pub mod Opening
use mathlib.Core.Option
use user_level_thread_librar.Base.{
  ℕ, zero, suc, ◌+◌, ◌-◌, ltb, ◌==◌, ◌&&◌, if◌then◌else◌, update, Option, none, some, List, [], ◌∷◌,
}

-- `X`
abbrev pub buffer_size : ℕ
buffer_size = 6

-- A semaphore as `Semaphore_P` and `Semaphore_V` treat it; its value is never negative.
pub record Sem : Type 0 where
  pub value : ℕ
  pub waiters : ℕ

-- The globals of the program, the threads, and what has been printed, the latest first.
pub record Kitchen : Type 0 where
  pub buffer : ℕ → ℕ
  pub buffer_index : ℕ
  pub global_counter : ℕ
  pub full : Sem
  pub empty : Sem
  -- before `Semaphore_P`, between it and the critical section, and before `Semaphore_V`
  pub cooks_idle : ℕ
  pub cooks_granted : ℕ
  pub cooks_done : ℕ
  pub students_idle : ℕ
  pub students_granted : ℕ
  pub students_done : ℕ
  pub produced : List ℕ
  pub consumed : List ℕ

-- The next burger's identifier.
unfoldable pub produce_item : ℕ → ℕ
produce_item counter = if ltb counter 50000 then counter + 1 else 0

-- `buffer[bufferIndex++]=item;`, `none` outside the array.
unfoldable pub insert_item : ℕ → Kitchen → Option Kitchen
insert_item item k =
    if ltb k.buffer_index buffer_size
    then some (record k {
      buffer = update k.buffer k.buffer_index item;
      buffer_index = k.buffer_index + 1;
    })
    else none

-- `item = buffer[--bufferIndex];`
unfoldable pub remove_item : Kitchen → Option (ℕ × Kitchen)
remove_item k =
    if ltb 0 k.buffer_index && ltb (k.buffer_index - 1) buffer_size
    then some (k.buffer (k.buffer_index - 1), record k { buffer_index = k.buffer_index - 1 })
    else none

-- The critical section of `Producer`.
unfoldable pub cook_section : Kitchen → Option Kitchen
unfolding produce_item
cook_section k =
    let item = produce_item k.global_counter in
    Option.map {A = Kitchen} (λ k'. record k' { cooks_done = k.cooks_done + 1 })
      (insert_item item (record k { global_counter = item; produced = item ∷ k.produced }))

-- The critical section of `Consumer`.
unfoldable pub student_section : Kitchen → Option Kitchen
student_section k =
    Option.map
      (λ (item, k'). record k' {
        consumed = item ∷ k.consumed;
        students_done = k.students_done + 1;
      })
      (remove_item k)

-- `Semaphore_P(empty)` by a cook, and `Semaphore_P(full)` by a student.
unfoldable pub cook_p : Kitchen → Kitchen
cook_p k =
    if ltb 0 k.empty.value
    then record k {
      empty = record k.empty { value = k.empty.value - 1 };
      cooks_granted = k.cooks_granted + 1;
    }
    else record k { empty = record k.empty { waiters = k.empty.waiters + 1 } }

unfoldable pub student_p : Kitchen → Kitchen
student_p k =
    if ltb 0 k.full.value
    then record k {
      full = record k.full { value = k.full.value - 1 };
      students_granted = k.students_granted + 1;
    }
    else record k { full = record k.full { waiters = k.full.waiters + 1 } }

-- `Semaphore_V(full)` by a cook, who goes on with the next round: a waiting student is let through.
unfoldable pub cook_v : Kitchen → Kitchen
cook_v k =
    let round = record k { cooks_idle = k.cooks_idle + 1 } in
    if ltb 0 k.full.waiters
    then record round {
      full = record k.full { waiters = k.full.waiters - 1 };
      students_granted = k.students_granted + 1;
    }
    else record round { full = record k.full { value = k.full.value + 1 } }

-- `Semaphore_V(empty)` by a student.
unfoldable pub student_v : Kitchen → Kitchen
student_v k =
    let round = record k { students_idle = k.students_idle + 1 } in
    if ltb 0 k.empty.waiters
    then record round {
      empty = record k.empty { waiters = k.empty.waiters - 1 };
      cooks_granted = k.cooks_granted + 1;
    }
    else record round { empty = record k.empty { value = k.empty.value + 1 } }

-- The globals before the first step of `n` cooks and `m` students, where the places of the buffer hold
-- `old`. `Kitchen.Main` and `Kitchen.Opening` have the code that leads there.
unfoldable pub opened : (n m : ℕ) (old : ℕ → ℕ) → Kitchen
opened n m old = record {
  buffer = old;
  buffer_index = 0;
  global_counter = 0;
  full = record { value = 0; waiters = 0 };
  empty = record { value = buffer_size; waiters = 0 };
  cooks_idle = n;
  cooks_granted = 0;
  cooks_done = 0;
  students_idle = m;
  students_granted = 0;
  students_done = 0;
  produced = [];
  consumed = [];
}
