-- ===== src/Examples/Queues.antt =====
-- The theorems on QUEUE.C at small heaps.
use user_level_thread_librar.Base.{◌≡◌, refl, none, some, [], ◌∷◌, pos, arith, update}
use user_level_thread_librar.Queue.{q_remove}
use user_level_thread_librar.Queue.Memory.{Heap, Queue, fault}
use user_level_thread_librar.Queue.Fifo.{IsQueue, remove-empty}
use user_level_thread_librar.Queue.History.{
  inserts, removes, run_calls, fifo, Implements, run_calls-Implements,
}

abbrev empty_header : Queue
empty_header = record { name = []; num_obj = pos 0; head = 0; tail = 0 }

abbrev one_queue : Heap
one_queue = record { queues = update (λ p. none) 1 (some empty_header); objs = λ p. none }

one_queue-IsQueue : IsQueue one_queue 1 []
one_queue-IsQueue = (
  empty_header,
  record {
    ne_null = λ e. ground arith;
    header = refl;
    count = refl;
    head = refl;
    tail = refl;
    chain = tt;
  },
)

remove-empty_example : q_remove 1 one_queue ≡ fault
remove-empty_example = remove-empty one_queue 1 one_queue-IsQueue

run_calls-Implements_example :
    Implements 1
      (run_calls 1 (inserts 5 9 ∷ removes ∷ []) one_queue)
      (fifo (inserts 5 9 ∷ removes ∷ []) [])
run_calls-Implements_example =
    run_calls-Implements (inserts 5 9 ∷ removes ∷ []) one_queue 1 [] one_queue-IsQueue
      ((λ e. ground arith), refl, tt)
