-- ===== src/Bridge/Fleet.antt =====
-- TEST3A.C, TEST3B.C and TEST3C.C: `funcA`, but for what it prints and for `firstTime`.
use mathlib.Core.List.{map-append}
use user_level_thread_librar.Base.{
  ℕ, zero, suc, ◌+◌, ◌≡◌, refl, sym, ap, ◌∙◌, ◌==◌, if◌then◌else◌, List, [], ◌∷◌, ◌++◌, map,
}
use user_level_thread_librar.System.State.{Sys, Ptr, M, pure, ◌>>◌}
use user_level_thread_librar.System.Crew.{fork_each, crew, AllNew}
use user_level_thread_librar.System.Crew.Apart.{crew-append}
use user_level_thread_librar.Bridge.Cars.{Dir, open_road, north, south}
use user_level_thread_librar.Bridge.Names.{number}

-- A loop of `funcA`: how many cars it forks, and their direction.
pub record Group : Type 0 where
  pub size : ℕ
  pub direction : Dir

-- TEST3A.C
abbrev pub func_a : List Group
func_a = record { size = 5; direction = north } ∷ record { size = 5; direction = south } ∷ []

-- TEST3B.C
abbrev pub func_a_unfair : List Group
func_a_unfair =
    record { size = 3; direction = north }
    ∷ record { size = 3; direction = south }
    ∷ record { size = 9; direction = north }
    ∷ []

-- TEST3C.C
abbrev pub func_a_fair : List Group
func_a_fair =
    record { size = 3; direction = north }
    ∷ record { size = 3; direction = south }
    ∷ record { size = 9; direction = north }
    ∷ record { size = 3; direction = south }
    ∷ []

-- What `sprintf` writes, with `decimal i` for `%d`.
abbrev pub car_name : (decimal : ℕ → List ℕ) → ℕ → List ℕ
car_name decimal i = (b'C' ∷ b'a' ∷ b'r' ∷ b' ' ∷ []) ++ decimal i

-- `arrive` is the address of `Arrive`; `malloc` returns `memory i` for the car of index `i`.
unfoldable pub forks_cars :
    (decimal : ℕ → List ℕ) (memory : ℕ → Ptr) (arrive first : ℕ) → List Group → M (Unit {0})
unfolding fork_each
forks_cars decimal memory arrive i [] = pure tt
forks_cars decimal memory arrive i (g ∷ gs) =
    fork_each arrive (number g.direction) (car_name decimal) 10 memory i g.size
    >> forks_cars decimal memory arrive (i + g.size) gs

-- The number of cars, and their directions in order.
abbrev pub total : List Group → ℕ
total [] = 0
total (g ∷ gs) = g.size + total gs

copies : ℕ → Dir → List Dir
copies zero d = []
copies (suc n) d = d ∷ copies n d

unfoldable pub directions : List Group → List Dir
unfolding copies
directions [] = []
directions (g ∷ gs) = copies g.size g.direction ++ directions gs

-- The cars of each group have been forked with its direction, and have not run.
abbrev pub AllGroups : Sys → (memory : ℕ → Ptr) (arrive first : ℕ) → List Group → Type 0
AllGroups s memory arrive i [] = Unit {0}
AllGroups s memory arrive i (g ∷ gs) =
    AllNew s arrive (number g.direction) 10 (crew memory i g.size)
    × AllGroups s memory arrive (i + g.size) gs

-- The direction that a car has as its argument.
abbrev pub direction_of : ℕ → Dir
direction_of n = if n == 2 then north else if n == 3 then south else open_road

-- The direction of the car that thread `t` is.
abbrev pub goes : Sys → Ptr → Dir
goes s t = direction_of (s.tcbs t).arg

direction_of-number : (d : Dir) → direction_of (number d) ≡ d
direction_of-number open_road = refl
direction_of-number north = refl
direction_of-number south = refl

module _ (s : Sys) (memory : ℕ → Ptr) (arrive : ℕ) where
  AllNew-goes :
      (d : Dir) (n i : ℕ)
      → AllNew s arrive (number d) 10 (crew memory i n)
      → map (goes s) (crew memory i n) ≡ copies n d
  unfolding copies
  AllNew-goes d zero i h = refl
  AllNew-goes d (suc n) i (new, h) =
      ap (λ e. e ∷ map (goes s) (crew memory (suc i) n))
        (ap direction_of new.arg ∙ direction_of-number d)
      ∙ ap (λ ds. d ∷ ds) (AllNew-goes d n (suc i) h)

  pub AllGroups-goes :
      (gs : List Group) (i : ℕ)
      → AllGroups s memory arrive i gs
      → map (goes s) (crew memory i (total gs)) ≡ directions gs
  unfolding directions
  AllGroups-goes [] i h = refl
  AllGroups-goes (g ∷ gs) i (new, h) =
      ap (map (goes s)) (sym (crew-append memory i g.size (total gs)))
      ∙ map-append (goes s) (crew memory i g.size) (crew memory (i + g.size) (total gs))
      ∙ ap (λ ds. ds ++ map (goes s) (crew memory (i + g.size) (total gs)))
          (AllNew-goes g.direction g.size i new)
      ∙ ap (λ ds. copies g.size g.direction ++ ds) (AllGroups-goes gs (i + g.size) h)
