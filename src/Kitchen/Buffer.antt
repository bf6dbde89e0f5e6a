-- ===== src/Kitchen/Buffer.antt =====
-- The buffer of TEST4.C is a stack.
use native.Mathlib.Numerals.{add-one}
use user_level_thread_librar.Base.{
  ℕ, zero, suc, ◌+◌, ◌-◌, ◌≤◌, ◌<◌, ◌≡◌, refl, arith, update, some, List, [], ◌∷◌,
}
use user_level_thread_librar.Kitchen.{Kitchen, buffer_size, insert_item, remove_item}

-- The first `n` places of the buffer, the last one first.
abbrev pub contents : (ℕ → ℕ) → ℕ → List ℕ
contents buffer zero = []
contents buffer (suc n) = buffer n ∷ contents buffer n

contents-update :
    (buffer : ℕ → ℕ) (i item n : ℕ) → n ≤ i → contents (update buffer i item) n ≡ contents buffer n
contents-update buffer i item zero h = refl
contents-update buffer i item (suc n) h = ground (arith, contents-update buffer i item n)

pub contents-insert :
    (buffer : ℕ → ℕ) (item n : ℕ)
    → contents (update buffer n item) (n + 1) ≡ item ∷ contents buffer n
contents-insert buffer item n = rw add-one (ground (arith, contents-update buffer n item n))

-- With room in the buffer an insertion succeeds; a removal then gives the same burger back, and leaves
-- the places below as they were.
pub remove-insert :
    (item : ℕ) (k : Kitchen)
    → k.buffer_index < buffer_size
    → (l : Kitchen) × (m : Kitchen) × (insert_item item k ≡ some l)
      × (contents l.buffer l.buffer_index ≡ item ∷ contents k.buffer k.buffer_index)
      × (remove_item l ≡ some (item, m))
      × (m.buffer_index ≡ k.buffer_index)
      × (contents m.buffer m.buffer_index ≡ contents k.buffer k.buffer_index)
unfolding insert_item remove_item
remove-insert item k h = (
  record k { buffer = update k.buffer k.buffer_index item; buffer_index = k.buffer_index + 1 },
  record k { buffer = update k.buffer k.buffer_index item; buffer_index = k.buffer_index + 1 - 1 },
  ground arith,
  contents-insert k.buffer item k.buffer_index,
  ground arith,
  omega arith,
  same_below,
)
  where
    back : k.buffer_index + 1 - 1 ≡ k.buffer_index
    back = omega arith

    same_below :
        contents (update k.buffer k.buffer_index item) (k.buffer_index + 1 - 1)
        ≡ contents k.buffer k.buffer_index
    same_below = rw back (contents-update k.buffer k.buffer_index item k.buffer_index (omega arith))
