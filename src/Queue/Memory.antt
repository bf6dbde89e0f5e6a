-- ===== src/Queue/Memory.antt =====
-- The memory that QUEUE.C works on: queue headers and list cells at addresses.
use user_level_thread_librar.Base.{
  ◌≡◌, ◌≢◌, arith, ℕ, Option, none, some, ◌==◌, if◌then◌else◌, List, ℤ, update,
}

abbrev pub Ptr : Type 0
Ptr = ℕ

abbrev pub null : Ptr
null = 0

-- `struct queueObj_t`
pub record QueueObj : Type 0 where
  pub obj : ℕ
  pub next : Ptr

-- `struct Queue_t`
pub record Queue : Type 0 where
  pub name : List ℕ
  pub num_obj : ℤ
  pub head : Ptr
  pub tail : Ptr

pub record Heap : Type 0 where
  pub queues : Ptr → Option Queue
  pub objs : Ptr → Option QueueObj

-- `fault` is an access through NULL or through an address that holds no such object.
pub data Run (A : Type 0) : Type 0 where
  ok : A → Heap → Run A
  fault : Run A

abbrev pub Cmd : Type 0 → Type 0
Cmd A = Heap → Run A

abbrev pub pure : {A : Type 0} → A → Cmd A
pure a h = ok a h

abbrev pub bind : {A B : Type 0} → Run A → (A → Cmd B) → Run B
bind (ok a h) k = k a h
bind fault k = fault

infixl 5 ◌>>=◌ ◌>>◌
abbrev pub ◌>>=◌ : {A B : Type 0} → Cmd A → (A → Cmd B) → Cmd B
m >>= k = λ h. bind (m h) k

abbrev pub ◌>>◌ : {A B : Type 0} → Cmd A → Cmd B → Cmd B
m >> n = m >>= λ _. n

-- A field access: 0 is NULL, and no object lives there.
abbrev pub at {ℓ} : {A : Type ℓ} → (Ptr → Option A) → Ptr → Option A
at m p = if p == null then none else m p

unfoldable pub load_queue : Ptr → Cmd Queue
load_queue q h = elim (at h.queues q) [ none ↦ fault | some s ↦ ok s h ]

unfoldable pub load_obj : Ptr → Cmd QueueObj
load_obj p h = elim (at h.objs p) [ none ↦ fault | some n ↦ ok n h ]

-- The memory that `malloc` hands out at an address, filled by the caller.
abbrev pub malloc_queue : Ptr → Queue → Cmd (Unit {0})
malloc_queue q s h = ok tt (record h { queues = update h.queues q (some s) })

abbrev pub malloc_obj : Ptr → QueueObj → Cmd (Unit {0})
malloc_obj p n h = ok tt (record h { objs = update h.objs p (some n) })

unfoldable pub store_queue : Ptr → Queue → Cmd (Unit {0})
unfolding load_queue
store_queue q s = do load_queue q; malloc_queue q s

unfoldable pub store_obj : Ptr → QueueObj → Cmd (Unit {0})
unfolding load_obj
store_obj p n = do load_obj p; malloc_obj p n

unfoldable pub free_queue : Ptr → Cmd (Unit {0})
unfolding load_queue
free_queue q = do load_queue q; λ h. ok tt (record h { queues = update h.queues q none })

unfoldable pub free_obj : Ptr → Cmd (Unit {0})
unfolding load_obj
free_obj p = do load_obj p; λ h. ok tt (record h { objs = update h.objs p none })

-- The accesses to an object that is there.
module _ (h : Heap) (p : Ptr) (ne : p ≢ null) where
  pub at-some {ℓ} : {A : Type ℓ} (m : Ptr → Option A) {a : A} → m p ≡ some a → at m p ≡ some a
  at-some m e = ground arith

  pub load_queue-ok : {s : Queue} → h.queues p ≡ some s → load_queue p h ≡ ok s h
  unfolding load_queue
  load_queue-ok e = rw (at-some h.queues e, load_queue)

  pub load_obj-ok : {n : QueueObj} → h.objs p ≡ some n → load_obj p h ≡ ok n h
  unfolding load_obj
  load_obj-ok e = rw (at-some h.objs e, load_obj)

  pub store_queue-ok :
      (t : Queue) {s : Queue}
      → h.queues p ≡ some s
      → store_queue p t h ≡ ok tt (record h { queues = update h.queues p (some t) })
  unfolding store_queue
  store_queue-ok t e = rw (load_queue-ok e)

  pub store_obj-ok :
      (m : QueueObj) {n : QueueObj}
      → h.objs p ≡ some n
      → store_obj p m h ≡ ok tt (record h { objs = update h.objs p (some m) })
  unfolding store_obj
  store_obj-ok m e = rw (load_obj-ok e)

  pub free_obj-ok :
      {n : QueueObj}
      → h.objs p ≡ some n
      → free_obj p h ≡ ok tt (record h { objs = update h.objs p none })
  unfolding free_obj
  free_obj-ok e = rw (load_obj-ok e)
