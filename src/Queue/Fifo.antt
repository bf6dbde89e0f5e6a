-- ===== src/Queue/Fifo.antt =====
-- QUEUE.C against its contract in QUEUE.H: a first-in first-out list of objects.
use mathlib.Core.List.{append_assoc}
use user_level_thread_librar.Base.{
  ℕ, ◌≡◌, refl, ◌∙◌, ◌≢◌, true, false, Option, none, some, List, [], ◌∷◌, ◌++◌, arith, ◌==◌,
  if◌then◌else◌, update, length, length-snoc, pos, increment, ◌<◌, lt→ltb,
}
use user_level_thread_librar.Queue.{
  max_queue_name, q_create, q_insert, q_remove, q_is_empty, link_tail,
}
use user_level_thread_librar.Queue.Memory.{
  Ptr, null, QueueObj, Queue, Heap, Run, ok, fault, bind, pure, ◌>>=◌, load_obj, free_obj,
  load_obj-ok, store_obj-ok, load_queue-ok, store_queue-ok, free_obj-ok,
}
use user_level_thread_librar.Queue.Chain.{
  Cells, cell, first, last, has, Chain, has-snoc, has-snoc_two, last-snoc, snoc_view, Chain-update,
  Chain-same, Chain-last, Chain-append,
}

-- The header at `q` is `s`, and its cells are `xs`, the oldest first.
pub record Holds (h : Heap) (q : Ptr) (s : Queue) (xs : Cells) : Type 0 where
  pub ne_null : q ≢ null
  pub header : h.queues q ≡ some s
  pub count : s.num_obj ≡ pos (length xs)
  pub head : s.head ≡ first xs
  pub tail : s.tail ≡ last xs
  pub chain : Chain h.objs xs

abbrev pub IsQueue : Heap → Ptr → Cells → Type 0
IsQueue h q xs = (s : Queue) × Holds h q s xs

-- The run ends without a fault, in a state that satisfies `P`.
pub data Returns {A : Type 0} (holds : A → Heap → Type 0) : Run A → Type 0 where
  returns : {value : A} {after : Heap} → holds value after → Returns holds (ok value after)

-- Only the header at `q` and the cells `xs` differ.
abbrev pub SameElsewhere : Ptr → Cells → Heap → Heap → Type 0
SameElsewhere q xs h g =
    ((p : Ptr) → p ≢ q → g.queues p ≡ h.queues p)
    × ((a : Ptr) → has a xs ≡ false → g.objs a ≡ h.objs a)

pub Returns-bind :
    {A B : Type 0} {P : A → Heap → Type 0} (Q : Run B → Type 0) {r : Run A} {k : A → Heap → Run B}
    → Returns P r
    → ((a : A) (g : Heap) → P a g → Q (k a g))
    → Q (bind r k)
Returns-bind Q (returns p) next = next _ _ p

abbrev new_queue : List ℕ → Queue
new_queue name = record { name = name; num_obj = pos 0; head = null; tail = null }

-- With memory and a name that fits, `q_create` returns an empty queue.
pub create-IsQueue :
    (h : Heap) (fresh : Ptr) (name : List ℕ)
    → fresh ≢ null
    → length name < max_queue_name
    → Returns
        (λ q g. (q ≡ fresh) × IsQueue g fresh [] × SameElsewhere fresh [] h g)
        (q_create fresh name h)
unfolding q_create
create-IsQueue h fresh name n e =
    let a : (fresh == null) ≡ false = ground arith in
    rw (a, lt→ltb (length name) 20 e)
      (returns (
        refl,
        (
          new_queue name,
          record {
            ne_null = n;
            header = ground arith;
            count = refl;
            head = refl;
            tail = refl;
            chain = tt;
          },
        ),
        ((λ p d. ground arith), (λ p d. refl)),
      ))

-- What the writes of `q_insert` to the cells leave behind.
abbrev Linked : Heap → Cells → Unit {0} → Heap → Type 0
Linked h zs _ g =
    (g.queues ≡ h.queues) × Chain g.objs zs × ((a : Ptr) → has a zs ≡ false → g.objs a ≡ h.objs a)

abbrev with_cell : Heap → Ptr → ℕ → Heap
with_cell h f v = record h { objs = update h.objs f (some (cell v null)) }

link_tail-snoc :
    (h : Heap) (ys : Cells) (a : Ptr) (u : ℕ) (f : Ptr) (v : ℕ)
    → f ≢ null
    → has f (ys ++ (a, u) ∷ []) ≡ false
    → Chain h.objs (ys ++ (a, u) ∷ [])
    → Returns (Linked h (ys ++ (a, u) ∷ (f, v) ∷ [])) (link_tail a f (with_cell h f v))
unfolding link_tail
link_tail-snoc h ys a u f v n e k =
    let (na, ma) = Chain-last h.objs ys a u k in
    let sa : (a == null) ≡ false = ground arith in
    let fa : (f == a) ≡ false = ground (arith, has-snoc f ys a u) in
    let there : update h.objs f (some (cell v null)) a ≡ some (cell u null) = ground arith in
    rw
      (
        sa,
        load_obj-ok (with_cell h f v) a na there,
        store_obj-ok (with_cell h f v) a na (cell u f) there,
      )
      (returns (
        refl,
        Chain-append h.objs ys a f u v n e k,
        λ b d. ground (arith, has-snoc_two b ys a u f v, has-snoc b ys a u),
      ))

link_tail-Chain :
    (h : Heap) (xs : Cells) (f : Ptr) (v : ℕ)
    → f ≢ null
    → has f xs ≡ false
    → Chain h.objs xs
    → Returns (Linked h (xs ++ (f, v) ∷ [])) (link_tail (last xs) f (with_cell h f v))
unfolding link_tail
link_tail-Chain h [] f v n e k = returns (refl, ground arith, λ a d. ground arith)
link_tail-Chain h (x ∷ xs) f v n e k =
    let (ys, a, u, eq) = snoc_view x xs in at_end (x ∷ xs) ys a u eq e k
  where
    at_end :
        (zs ys : Cells) (a : Ptr) (u : ℕ)
        → zs ≡ ys ++ (a, u) ∷ []
        → has f zs ≡ false
        → Chain h.objs zs
        → Returns (Linked h (zs ++ (f, v) ∷ [])) (link_tail (last zs) f (with_cell h f v))
    at_end zs ys a u eq e k =
        rw (eq, last-snoc ys a u, append_assoc)
          (link_tail-snoc h ys a u f v n (rw eq at e) (rw eq at k))

-- The header after an insertion, and after a removal.
abbrev inserted : Queue → Ptr → Queue
inserted s f = record s {
  tail = f;
  head = if s.head == null then f else s.head;
  num_obj = increment s.num_obj;
}

head-inserted :
    (m : Ptr → Option QueueObj) (s : Queue) (xs : Cells) (f : Ptr) (v : ℕ)
    → s.head ≡ first xs
    → Chain m xs
    → (inserted s f).head ≡ first (xs ++ (f, v) ∷ [])
head-inserted m s [] f v e k = rw e
head-inserted m s ((a, u) ∷ xs) f v e k = ground arith

-- On a queue that holds `xs`, `q_insert` puts the object behind them, and writes nowhere else.
pub insert-IsQueue :
    (h : Heap) (q fresh : Ptr) (obj : ℕ) (xs : Cells)
    → fresh ≢ null
    → has fresh xs ≡ false
    → IsQueue h q xs
    → Returns
        (λ _ g.
          IsQueue g q (xs ++ (fresh, obj) ∷ []) × SameElsewhere q (xs ++ (fresh, obj) ∷ []) h g)
        (q_insert fresh q obj h)
unfolding q_insert
insert-IsQueue h q fresh obj xs n e (s, i) =
    let a : (fresh == null) ≡ false = ground arith in
    rw (a, load_queue-ok (with_cell h fresh obj) q i.ne_null i.header, i.tail)
      (Returns-bind (Returns _) (link_tail-Chain h xs fresh obj n e i.chain)
        λ _ g (same, chain, rest). rw (store_queue-ok g q i.ne_null _ {s = s} (rw same i.header)) (
          returns (
            (
              inserted s fresh,
              record {
                ne_null = i.ne_null;
                header = ground arith;
                count = rw i.count (ground (arith, length-snoc xs (fresh, obj)));
                head = head-inserted h.objs s xs fresh obj i.head i.chain;
                tail = ground (arith, last-snoc xs fresh obj);
                chain = chain;
              },
            ),
            ((λ p d. ground arith), rest),
          )))

-- The end of `q_remove`: the header `t` is written, the old first cell freed.
free-IsQueue :
    (h : Heap) (q a : Ptr) (v : ℕ) (xs : Cells) (t : Queue)
    → q ≢ null
    → Chain h.objs ((a, v) ∷ xs)
    → t.num_obj ≡ pos (length xs)
    → t.head ≡ first xs
    → t.tail ≡ last xs
    → Returns
        (λ r g. (r ≡ v) × IsQueue g q xs × (g.objs a ≡ none) × SameElsewhere q ((a, v) ∷ []) h g)
        ((free_obj a >>= λ _. pure v) (record h { queues = update h.queues q (some t) }))
free-IsQueue h q a v xs t nq k count head tail =
    rw (free_obj-ok (record h { queues = update h.queues q (some t) }) a k.0 k.1) (
      returns (
        refl,
        (
          t,
          record {
            ne_null = nq;
            header = ground arith;
            count = count;
            head = head;
            tail = tail;
            chain = Chain-update h.objs xs a none k.2 k.3;
          },
        ),
        ground arith,
        ((λ p d. ground arith), (λ b d. ground arith)),
      ))

-- `q_remove` takes the oldest object out and gives its cell back.
pub remove-IsQueue :
    (h : Heap) (q a : Ptr) (v : ℕ) (xs : Cells)
    → IsQueue h q ((a, v) ∷ xs)
    → Returns
        (λ r g. (r ≡ v) × IsQueue g q xs × (g.objs a ≡ none) × SameElsewhere q ((a, v) ∷ []) h g)
        (q_remove q h)
unfolding q_remove
remove-IsQueue h q a v [] (s, i) =
    rw (load_queue-ok h q i.ne_null i.header, i.head, load_obj-ok h a i.chain.0 i.chain.1, i.count)
      (rw (store_queue-ok h q i.ne_null _ i.header)
        (free-IsQueue h q a v [] _ i.ne_null i.chain refl refl refl))
remove-IsQueue h q a v ((b, u) ∷ xs) (s, i) =
    let nb : (b == null) ≡ false = ground (arith, i.chain.3.0) in
    rw
      (
        load_queue-ok h q i.ne_null i.header,
        i.head,
        load_obj-ok h a i.chain.0 i.chain.1,
        i.count,
        nb,
      )
      (rw (store_queue-ok h q i.ne_null _ i.header)
        (free-IsQueue h q a v ((b, u) ∷ xs) _ i.ne_null i.chain refl refl i.tail))

-- On an empty queue `q_remove` reads through NULL.
pub remove-empty : (h : Heap) (q : Ptr) → IsQueue h q [] → q_remove q h ≡ fault
unfolding q_remove load_obj
remove-empty h q (s, i) = rw (load_queue-ok h q i.ne_null i.header, i.head)

pub is_empty-IsQueue :
    (h : Heap) (q : Ptr) (xs : Cells) → IsQueue h q xs → q_is_empty q h ≡ ok (length xs == 0) h
unfolding q_is_empty
is_empty-IsQueue h q xs (s, i) = rw (load_queue-ok h q i.ne_null i.header, i.count)

-- A queue keeps its contents through writes to other headers and cells.
pub SameElsewhere-IsQueue :
    (h g : Heap) (q p : Ptr) (xs ys : Cells)
    → SameElsewhere q xs h g
    → p ≢ q
    → ((a : Ptr) → has a ys ≡ true → has a xs ≡ false)
    → IsQueue h p ys
    → IsQueue g p ys
SameElsewhere-IsQueue h g q p xs ys same d apart (s, i) = (
  s,
  record {
    ne_null = i.ne_null;
    header = same.0 p d ∙ i.header;
    count = i.count;
    head = i.head;
    tail = i.tail;
    chain = Chain-same h.objs g.objs ys (λ a m. same.1 a (apart a m)) i.chain;
  },
)
