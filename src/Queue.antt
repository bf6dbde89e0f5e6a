-- ===== src/Queue.antt =====
-- ThreadSystemCode/ThreadLibrary/QUEUE.C and QUEUE.H: the linked queue, on an explicit heap.
-- What `malloc` returns is the argument `fresh`; 0 is NULL. Printing is left out.
pub mod Memory
pub mod Chain
pub mod Fifo
pub mod History
use user_level_thread_librar.Base.{
  ℕ, ◌≡◌, Bool, true, false, List, ◌<◌, ltb, ◌==◌, if◌then◌else◌, length, ℤ, pos, increment,
  decrement, is_zero, not, ◌&&◌,
}
use Memory.{
  Ptr, null, QueueObj, Queue, Heap, Cmd, fault, pure, ◌>>=◌, ◌>>◌, load_queue, store_queue,
  free_queue, load_obj, store_obj, free_obj, malloc_obj, malloc_queue,
}

-- `char name[20]`
abbrev pub max_queue_name : ℕ
max_queue_name = 20

-- `strcpy` of 20 characters or more runs past the end of the field.
pub q_create : (fresh : Ptr) → List ℕ → Cmd Ptr
q_create fresh name =
    if fresh == null
    then pure null
    else (if ltb (length name) max_queue_name
        then (do
          malloc_queue fresh (record { name = name; num_obj = pos 0; head = null; tail = null })
          pure fresh)
        else λ h. fault)

pub q_destroy : Ptr → Cmd (Unit {0})
q_destroy q = if q == null then pure tt else free_queue q

-- `if(q->tail) q->tail->next = newObj;`
pub link_tail : Ptr → Ptr → Cmd (Unit {0})
link_tail tail new_obj =
    if tail == null
    then pure tt
    else do last ← load_obj tail; store_obj tail (record last { next = new_obj })

-- A NULL queue is reported and then used all the same, unless `malloc` fails first.
pub q_insert : (fresh : Ptr) → Ptr → ℕ → Cmd (Unit {0})
unfolding link_tail
q_insert fresh q obj = if fresh == null then pure tt else do
  malloc_obj fresh (record { obj = obj; next = null })
  s ← load_queue q
  link_tail s.tail fresh
  store_queue q (record s {
    tail = fresh;
    head = if s.head == null then fresh else s.head;
    num_obj = increment s.num_obj;
  })

-- After the head has moved on: NULL is returned, and the object kept, when the count disagrees.
pub q_remove_rest : Ptr → Ptr → QueueObj → Queue → Cmd ℕ
q_remove_rest q temp first s =
    if s.head == null && not (is_zero s.num_obj) then (store_queue q s >> pure null) else do
      store_queue q (record s { tail = if s.head == null then null else s.tail })
      free_obj temp
      pure first.obj

-- `q->head->next` is read before the emptiness of the queue matters: a NULL head faults.
pub q_remove : Ptr → Cmd ℕ
unfolding q_remove_rest
q_remove q = do
  s ← load_queue q
  first ← load_obj s.head
  q_remove_rest q s.head first (record s { head = first.next; num_obj = decrement s.num_obj })

pub q_is_empty : Ptr → Cmd Bool
q_is_empty q = do s ← load_queue q; pure (is_zero s.num_obj)
