-- ===== src/Queue/History.antt =====
-- Whole histories of calls on one queue, against an abstract first-in first-out list.
use user_level_thread_librar.Base.{
  ℕ, ◌≡◌, refl, ◌≢◌, false, Option, none, some, List, [], ◌∷◌, ◌++◌,
}
use user_level_thread_librar.Queue.{q_insert, q_remove}
use user_level_thread_librar.Queue.Memory.{
  Ptr, null, Heap, Run, fault, bind, Cmd, pure, ◌>>=◌, ◌>>◌,
}
use user_level_thread_librar.Queue.Chain.{Cells, has, objects, map-snoc}
use user_level_thread_librar.Queue.Fifo.{
  IsQueue, Returns, returns, Returns-bind, insert-IsQueue, remove-IsQueue, remove-empty,
}

-- A call, with what `malloc` returns to an insertion.
pub data Call : Type 0 where
  inserts : (fresh : Ptr) (obj : ℕ) → Call
  removes : Call

-- The calls in turn, and what the removals return.
pub run_calls : Ptr → List Call → Cmd (List ℕ)
run_calls q [] = pure []
run_calls q (inserts fresh obj ∷ cs) = q_insert fresh q obj >> run_calls q cs
run_calls q (removes ∷ cs) = do r ← q_remove q; rs ← run_calls q cs; pure (r ∷ rs)

abbrev output : ℕ → Option (List ℕ × List ℕ) → Option (List ℕ × List ℕ)
output r none = none
output r (some (rs, ys)) = some (r ∷ rs, ys)

-- The same calls on a list: the results and the final contents, `none` for a removal from nothing.
pub fifo : List Call → List ℕ → Option (List ℕ × List ℕ)
fifo [] xs = some ([], xs)
fifo (inserts fresh obj ∷ cs) xs = fifo cs (xs ++ obj ∷ [])
fifo (removes ∷ cs) [] = none
fifo (removes ∷ cs) (x ∷ xs) = output x (fifo cs xs)

-- What `malloc` promises: memory that the queue does not use.
abbrev pub Allocates : List Call → Cells → Type 0
Allocates [] xs = Unit {0}
Allocates (inserts fresh obj ∷ cs) xs =
    (fresh ≢ null) × (has fresh xs ≡ false) × Allocates cs (xs ++ (fresh, obj) ∷ [])
Allocates (removes ∷ cs) [] = Unit {0}
Allocates (removes ∷ cs) (x ∷ xs) = Allocates cs xs

-- A run and its abstract outcome: equal results and contents, or a fault on both sides.
abbrev pub Implements : Ptr → Run (List ℕ) → Option (List ℕ × List ℕ) → Type 0
Implements q r none = r ≡ fault
Implements q r (some (outs, ys)) =
    Returns (λ rs g. (rs ≡ outs) × ((zs : Cells) × (objects zs ≡ ys) × IsQueue g q zs)) r

Implements-output :
    (q : Ptr) (x : ℕ) (r : Run (List ℕ)) (o : Option (List ℕ × List ℕ))
    → Implements q r o
    → Implements q (bind r (λ rs. pure (x ∷ rs))) (output x o)
Implements-output q x r none e = rw e
Implements-output q x r (some (outs, ys)) k =
    Returns-bind (Returns _) k λ rs g (e, held). returns ((λ i. x ∷ e i), held)

-- Each history of insertions and removals returns what the abstract list returns.
pub run_calls-Implements :
    (cs : List Call) (h : Heap) (q : Ptr) (xs : Cells)
    → IsQueue h q xs
    → Allocates cs xs
    → Implements q (run_calls q cs h) (fifo cs (objects xs))
unfolding run_calls fifo
run_calls-Implements [] h q xs i a = returns (refl, (xs, refl, i))
run_calls-Implements (inserts fresh obj ∷ cs) h q xs i a =
    Returns-bind (λ r. Implements q r (fifo cs (objects xs ++ obj ∷ [])))
      (insert-IsQueue h q fresh obj xs a.0 a.1 i)
      λ _ g kept. rw (← map-snoc xs fresh obj) (run_calls-Implements cs g q _ kept.0 a.2)
run_calls-Implements (removes ∷ cs) h q [] i a = rw (remove-empty h q i)
run_calls-Implements (removes ∷ cs) h q ((b, v) ∷ xs) i a =
    Returns-bind (λ r. Implements q r (output v (fifo cs (objects xs))))
      (remove-IsQueue h q b v xs i)
      λ r g (e, kept, _, _).
        rw e (Implements-output q v (run_calls q cs g) _ (run_calls-Implements cs g q xs kept a))
