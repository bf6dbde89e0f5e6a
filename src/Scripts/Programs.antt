-- ===== src/Scripts/Programs.antt =====
-- The functions of TEST1.C and TEST2.C.
use user_level_thread_librar.Base.{ℕ, [], ◌∷◌}
use user_level_thread_librar.Scripts.{
  Code, function_end, prints, prints_forever, forks_thread, joins_thread,
}

-- The words that TEST1.C prints.
abbrev pub fee : ℕ
fee = 1

abbrev pub foo : ℕ
foo = 2

abbrev pub fie : ℕ
fie = 3

abbrev pub far : ℕ
far = 4

abbrev pub fum : ℕ
fum = 5

abbrev pub foe : ℕ
foe = 6

abbrev pub fun : ℕ
fun = 7

abbrev pub func_c : Code
func_c = prints fie function_end

abbrev pub func_b : Code
func_b =
    prints foo
      (forks_thread 20 (b'C' ∷ []) func_c (prints far (joins_thread (prints fum function_end))))

abbrev pub func_a : Code
func_a =
    prints fee
      (forks_thread 10 (b'B' ∷ []) func_b (prints foe (joins_thread (prints fun function_end))))

-- The lines that TEST2.C prints, in the order of the source; the last is "A terminating".
abbrev pub func_b2 : Code
func_b2 = prints 10 (prints_forever 11)

abbrev pub func_c2 : Code
func_c2 = prints 20 (prints_forever 21)

abbrev pub func_d2 : Code
func_d2 = prints 30 (prints_forever 31)

abbrev pub func_e2 : Code
func_e2 = prints 40 (prints_forever 41)

abbrev pub func_a2 : Code
func_a2 = forks_thread 20 (b'B' ∷ []) func_b2 (
    forks_thread 20 (b'C' ∷ []) func_c2 (
      forks_thread 20 (b'D' ∷ []) func_d2
        (forks_thread 20 (b'E' ∷ []) func_e2 (prints 50 function_end))))
