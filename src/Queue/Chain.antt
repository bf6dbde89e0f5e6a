-- ===== src/Queue/Chain.antt =====
-- The list cells of a queue: which addresses, in order, with which objects.
use user_level_thread_librar.Base.{
  ℕ, ◌≡◌, refl, ◌≢◌, Bool, true, false, Option, some, List, [], ◌∷◌, ◌++◌, arith, ◌==◌, update, map,
  ◌||◌,
}
use user_level_thread_librar.Queue.Memory.{Ptr, null, QueueObj}

-- Address and object of each cell.
abbrev pub Cells : Type 0
Cells = List (Ptr × ℕ)

abbrev pub cell : ℕ → Ptr → QueueObj
cell v q = record { obj = v; next = q }

abbrev pub first : Cells → Ptr
first [] = null
first ((a, _) ∷ xs) = a

abbrev pub last : Cells → Ptr
last [] = null
last ((a, _) ∷ []) = a
last ((a, _) ∷ x ∷ xs) = last (x ∷ xs)

abbrev pub has : Ptr → Cells → Bool
has p [] = false
has p ((a, _) ∷ xs) = (a == p) || has p xs

abbrev pub objects : Cells → List ℕ
objects = map (λ c. c.1)

abbrev pub Objs : Type 0
Objs = Ptr → Option QueueObj

-- The cells stand in memory, distinct, each leading to the next.
abbrev pub Chain : Objs → Cells → Type 0
Chain m [] = Unit {0}
Chain m ((a, v) ∷ xs) =
    (a ≢ null) × (m a ≡ some (cell v (first xs))) × (has a xs ≡ false) × Chain m xs

pub has-snoc :
    (p : Ptr) (xs : Cells) (a : Ptr) (v : ℕ) → has p (xs ++ (a, v) ∷ []) ≡ (has p xs || (a == p))
has-snoc p [] a v = ground arith
has-snoc p ((b, u) ∷ xs) a v = ground (arith, has-snoc p xs a v)

pub has-snoc_two :
    (p : Ptr) (xs : Cells) (a : Ptr) (v : ℕ) (f : Ptr) (w : ℕ)
    → has p (xs ++ (a, v) ∷ (f, w) ∷ []) ≡ (has p (xs ++ (a, v) ∷ []) || (f == p))
has-snoc_two p [] a v f w = ground arith
has-snoc_two p ((b, u) ∷ xs) a v f w = ground (arith, has-snoc_two p xs a v f w)

pub first-snoc :
    (xs : Cells) (a : Ptr) (v : ℕ) (ys : Cells)
    → first (xs ++ (a, v) ∷ ys) ≡ first (xs ++ (a, v) ∷ [])
first-snoc [] a v ys = refl
first-snoc (x ∷ xs) a v ys = refl

pub last-snoc : (xs : Cells) (a : Ptr) (v : ℕ) → last (xs ++ (a, v) ∷ []) ≡ a
last-snoc [] a v = refl
last-snoc (x ∷ []) a v = refl
last-snoc (x ∷ y ∷ xs) a v = last-snoc (y ∷ xs) a v

-- A nonempty list of cells ends somewhere.
pub snoc_view :
    (x : Ptr × ℕ) (xs : Cells) → (ys : Cells) × (a : Ptr) × (v : ℕ) × (x ∷ xs ≡ ys ++ (a, v) ∷ [])
snoc_view (a, v) [] = ([], a, v, refl)
snoc_view x (y ∷ xs) = let (ys, a, v, e) = snoc_view y xs in (x ∷ ys, a, v, λ i. x ∷ e i)

pub map-snoc : (xs : Cells) (a : Ptr) (v : ℕ) → objects (xs ++ (a, v) ∷ []) ≡ objects xs ++ v ∷ []
map-snoc [] a v = refl
map-snoc (x ∷ xs) a v = λ i. x.1 ∷ map-snoc xs a v i

-- Memory outside the cells may change.
pub Chain-update :
    (m : Objs) (xs : Cells) (p : Ptr) (c : Option QueueObj)
    → has p xs ≡ false
    → Chain m xs
    → Chain (update m p c) xs
Chain-update m [] p c h k = tt
Chain-update m ((a, v) ∷ xs) p c h k = ground (arith, Chain-update m xs p c)

pub Chain-same :
    (m n : Objs) (xs : Cells) → ((a : Ptr) → has a xs ≡ true → n a ≡ m a) → Chain m xs → Chain n xs
Chain-same m n [] same k = tt
Chain-same m n ((a, v) ∷ xs) same k =
    (k.0, ground (arith, same a, k.1), k.2, Chain-same m n xs (λ b h. same b (ground arith)) k.3)

-- The last cell of a chain has no successor.
pub Chain-last :
    (m : Objs) (xs : Cells) (a : Ptr) (v : ℕ)
    → Chain m (xs ++ (a, v) ∷ [])
    → (a ≢ null) × (m a ≡ some (cell v null))
Chain-last m [] a v k = (k.0, k.1)
Chain-last m (x ∷ xs) a v k = Chain-last m xs a v k.3

-- The writes of `q_insert`: a new cell, and the link from the last one to it.
pub Chain-append :
    (m : Objs) (xs : Cells) (a f : Ptr) (v w : ℕ)
    → f ≢ null
    → has f (xs ++ (a, v) ∷ []) ≡ false
    → Chain m (xs ++ (a, v) ∷ [])
    → Chain
        (update (update m f (some (cell w null))) a (some (cell v f)))
        (xs ++ (a, v) ∷ (f, w) ∷ [])
Chain-append m [] a f v w nf h k = ground arith
Chain-append m ((b, u) ∷ xs) a f v w nf h k = (
  k.0,
  rw (first-snoc xs a v ((f, w) ∷ [])) (ground (arith, k.1, has-snoc b xs a v, k.2)),
  ground (arith, k.2, has-snoc_two b xs a v f w),
  Chain-append m xs a f v w nf (ground arith) k.3,
)
