-- ===== src/Elevator/Handshake.antt =====
-- The elevator wakes a thread before each wait of a visit to a floor, and waits once for each.
use mathlib.Core.Path.{subst}
use user_level_thread_librar.Base.{
  ℕ, zero, suc, ◌≡◌, refl, sym, Bool, true, false, ℤ, pos, negsuc, List, [], ◌∷◌, Option, none,
  some, index, if◌then◌else◌,
}
use user_level_thread_librar.Program.{
  ret, faulty, reads, modifies, calls, ◌>>=◌, ◌>>◌, gets, slot, or_faulty, when, repeat, for_below,
}
use user_level_thread_librar.Elevator.State.{
  World, Elevator, Building, Cond, Request, Prog, sig, wait, yields, leaves, forks_elevator,
  forks_rider, elv_wait, set_elv, set_bld, call, max_floors,
}
use user_level_thread_librar.Elevator.Cabin.{
  here, el_let_one_enter, el_let_one_exit, el_open_door, el_close_door, el_visit_floor,
  stop_at_floor,
}
use user_level_thread_librar.Elevator.Stops.{
  take_president, drop_president, admit_president, release_president, serve_president,
  count_directors, serve_directors, serve_employees,
}
use user_level_thread_librar.Elevator.Rounds.{serve}

-- On every path of the code signals and waits alternate, from a signal on if none is `pending`; the waits
-- are on `elv_wait`, and the last signal is followed by one.
abbrev pub Alternates : {A : Type 0} → (pending : Bool) → Prog A → Type 0
Alternates pending (ret a) = pending ≡ false
Alternates pending faulty = Unit {0}
Alternates pending (reads k) = (v : World) → Alternates pending (k v)
Alternates pending (modifies f p) = Alternates pending p
Alternates pending (calls (sig c) p) = (pending ≡ false) × Alternates true p
Alternates pending (calls (wait c) p) = (pending ≡ true) × (c ≡ elv_wait) × Alternates false p
Alternates pending (calls yields p) = Alternates pending p
Alternates pending (calls leaves p) = Alternates pending p
Alternates pending (calls (forks_elevator z) p) = Alternates pending p
Alternates pending (calls (forks_rider arg t z) p) = Alternates pending p

unfoldable Fair : {A : Type 0} → Prog A → Type 0
Fair p = Alternates false p

then_on :
    {A B : Type 0} (b : Bool) (p : Prog A) (k : A → Prog B)
    → Alternates b p
    → ((a : A) → Alternates false (k a))
    → Alternates b (p >>= k)
unfolding ◌>>=◌
then_on b (ret a) k h next = subst (λ c. Alternates c (k a)) (sym h) (next a)
then_on b faulty k h next = tt
then_on b (reads f) k h next = λ v. then_on b (f v) k (h v) next
then_on b (modifies f p) k h next = then_on b p k h next
then_on b (calls (sig c) p) k h next = (h.0, then_on true p k h.1 next)
then_on b (calls (wait c) p) k h next = (h.0, h.1, then_on false p k h.2 next)
then_on b (calls yields p) k h next = then_on b p k h next
then_on b (calls leaves p) k h next = then_on b p k h next
then_on b (calls (forks_elevator z) p) k h next = then_on b p k h next
then_on b (calls (forks_rider arg t z) p) k h next = then_on b p k h next

bind :
    {A B : Type 0} (p : Prog A) (k : A → Prog B) → Fair p → ((a : A) → Fair (k a)) → Fair (p >>= k)
unfolding Fair
bind = then_on false

gets-Fair : {A : Type 0} (f : World → A) → Fair (gets f)
unfolding Fair
gets-Fair f v = refl

set_elv-Fair : (f : Elevator → Elevator) → Fair (set_elv f)
unfolding Fair
set_elv-Fair f = refl

set_bld-Fair : (f : Building → Building) → Fair (set_bld f)
unfolding Fair
set_bld-Fair f = refl

ret-Fair : {A : Type 0} (a : A) → Fair (ret a)
unfolding Fair
ret-Fair a = refl

if-Fair : {A : Type 0} (b : Bool) (p q : Prog A) → Fair p → Fair q → Fair (if b then p else q)
if-Fair true p q h k = h
if-Fair false p q h k = k

when-Fair : (b : Bool) (p : Prog (Unit {0})) → Fair p → Fair (when b p)
when-Fair b p h = if-Fair b p (ret tt) h (ret-Fair tt)

repeat-Fair : (n : ℕ) (p : Prog (Unit {0})) → Fair p → Fair (repeat n p)
unfolding repeat
repeat-Fair zero p h = ret-Fair tt
repeat-Fair (suc n) p h = bind p _ h λ _. repeat-Fair n p h

for_below-Fair : (z : ℤ) (p : Prog (Unit {0})) → Fair p → Fair (for_below z p)
unfolding for_below
for_below-Fair (pos n) p h = repeat-Fair n p h
for_below-Fair (negsuc n) p h = ret-Fair tt

or_faulty-Fair : (o : Option ℕ) → Fair (or_faulty {S = World} {R = Request} o)
unfolding Fair
or_faulty-Fair none = tt
or_faulty-Fair (some n) = refl

here-Fair : Fair here
unfolding here slot
here-Fair = bind _ _ (gets-Fair _) λ f. or_faulty-Fair (index max_floors f)

wakes_one-Fair : (c : Cond) → Fair (call (sig c) >> call (wait elv_wait))
unfolding Fair ◌>>=◌
wakes_one-Fair c = (refl, (refl, refl, refl))

el_let_one_enter-Fair : (dir : ℕ) → Fair (el_let_one_enter dir)
unfolding el_let_one_enter
el_let_one_enter-Fair dir = bind _ _ here-Fair λ f. wakes_one-Fair _

el_let_one_exit-Fair : Fair el_let_one_exit
unfolding el_let_one_exit
el_let_one_exit-Fair = bind _ _ here-Fair λ f. wakes_one-Fair _

stop_at_floor-Fair : (m n : ℤ) (dir : ℕ) → Fair (stop_at_floor m n dir)
unfolding stop_at_floor el_open_door el_close_door el_visit_floor
stop_at_floor-Fair m n dir = bind _ _ (set_elv-Fair _) λ _.
    bind _ _
      (bind _ _ (for_below-Fair m _ (el_let_one_enter-Fair dir))
        λ _. for_below-Fair n _ el_let_one_exit-Fair)
      λ _. set_elv-Fair _

take_president-Fair : (dir : ℕ) → Fair (take_president dir)
unfolding take_president
take_president-Fair dir = bind _ _ (stop_at_floor-Fair _ _ dir) λ _. set_bld-Fair _

drop_president-Fair : (dir : ℕ) → Fair (drop_president dir)
unfolding drop_president
drop_president-Fair dir = bind _ _ (stop_at_floor-Fair _ _ dir) λ _. set_bld-Fair _

serve_president-Fair :
    (ahead : ℤ → ℤ → Bool) (dir opposite : ℕ) → Fair (serve_president ahead dir opposite)
unfolding serve_president admit_president release_president
serve_president-Fair ahead dir opposite = bind _ _ (gets-Fair _) λ turns.
    bind _ _ (when-Fair turns _ (set_elv-Fair _)) λ _.
      bind _ _
        (bind _ _ (gets-Fair _) λ onward. bind _ _ (gets-Fair _) λ back.
          if-Fair onward _ _ (take_president-Fair dir)
            (when-Fair back _ (bind _ _ (set_elv-Fair _) λ _. take_president-Fair opposite)))
        λ _. bind _ _ (gets-Fair _) λ at_end. when-Fair at_end _ (drop_president-Fair dir)

count_directors-Fair :
    (ahead : ℤ → ℤ → Bool) (is : List ℕ) (m n : ℤ) → Fair (count_directors ahead is m n)
unfolding count_directors
count_directors-Fair ahead [] m n = ret-Fair _
count_directors-Fair ahead (j ∷ is) m n = bind _ _ (gets-Fair _) λ enters.
    bind _ _ (when-Fair enters _ (set_bld-Fair _)) λ _. bind _ _ (gets-Fair _) λ leaves.
      bind _ _ (when-Fair leaves _ (set_bld-Fair _)) λ _. count_directors-Fair ahead is _ _

serve_directors-Fair : (ahead : ℤ → ℤ → Bool) (dir : ℕ) → Fair (serve_directors ahead dir)
unfolding serve_directors
serve_directors-Fair ahead dir =
    bind _ _ (count_directors-Fair ahead _ _ _) λ counts. when-Fair _ _ (stop_at_floor-Fair _ _ dir)

serve_employees-Fair : (m n spaces : ℤ) (dir : ℕ) → Fair (serve_employees m n spaces dir)
unfolding serve_employees
serve_employees-Fair m n spaces dir =
    bind _ _ (gets-Fair _) λ reserved. when-Fair _ _ (stop_at_floor-Fair _ n dir)

serve-Fair :
    (ahead : ℤ → ℤ → Bool) (dir opposite : ℕ) (m n spaces : ℤ)
    → Fair (serve ahead dir opposite m n spaces)
unfolding serve
serve-Fair ahead dir opposite m n spaces = bind _ _ (gets-Fair _) λ a. bind _ _ (gets-Fair _) λ b.
    bind _ _ (gets-Fair _) λ c. if-Fair a _ _ (serve_president-Fair ahead dir opposite) (
      if-Fair b _ _ (serve_directors-Fair ahead dir)
        (when-Fair c _ (serve_employees-Fair m n spaces dir)))

-- Whomever the elevator serves at a floor, whatever the other threads write meanwhile: it signals once
-- before each of its waits, waits on `elv_wait` once after each signal, and does not go on before.
pub serve-Alternates :
    (ahead : ℤ → ℤ → Bool) (dir opposite : ℕ) (num_enter num_exit num_spaces : ℤ)
    → Alternates false (serve ahead dir opposite num_enter num_exit num_spaces)
unfolding Fair
serve-Alternates ahead dir opposite m n spaces = serve-Fair ahead dir opposite m n spaces
