-- ===== src/Bridge/Names.antt =====
-- `getDirection` of TEST3A.C, TEST3B.C and TEST3C.C, which is the same in the three.
use user_level_thread_librar.Base.{
  ℕ, Option, none, some, List, [], ◌∷◌, length, ltb, ◌==◌, if◌then◌else◌, ◌≡◌, ◌≢◌, refl,
}
use user_level_thread_librar.Bridge.Cars.{Dir, open_road, north, south}

-- `char dirName[5]`
abbrev pub dir_name_size : ℕ
dir_name_size = 5

-- The numbers of `enum dir`.
abbrev pub number : Dir → ℕ
number open_road = 1
number north = 2
number south = 3

-- "open", "north" and "south" in ASCII
abbrev pub open_text : List ℕ
open_text = 111 ∷ 112 ∷ 101 ∷ 110 ∷ []

abbrev pub north_text : List ℕ
north_text = 110 ∷ 111 ∷ 114 ∷ 116 ∷ 104 ∷ []

abbrev pub south_text : List ℕ
south_text = 115 ∷ 111 ∷ 117 ∷ 116 ∷ 104 ∷ []

-- `strcpy(dirName, text);` writes a 0 behind the text; `none` past the end of the array.
abbrev pub write_name : List ℕ → Option (List ℕ)
write_name text = if ltb (length text) dir_name_size then some text else none

-- The direction's name, where `dirName` held `old`.
unfoldable pub get_direction : Dir → (old : List ℕ) → Option (List ℕ)
get_direction d old =
    if number d == 1
    then write_name open_text
    else if number d == 2
    then write_name north_text
    else if number d == 3
    then write_name south_text
    else some old

-- Only the name of the open road fits.
get_direction_overflows :
    (d : Dir) (old : List ℕ)
    → d ≢ open_road
    → (get_direction d old ≡ none) × (get_direction open_road old ≡ some open_text)
unfolding get_direction
get_direction_overflows open_road old ne = absurd (ne refl)
get_direction_overflows north old ne = (refl, refl)
get_direction_overflows south old ne = (refl, refl)
