-- ===== src/Elevator/Packing.antt =====
-- The argument of a rider's thread: packed by `firstThread`, unpacked by `rider`.
use user_level_thread_librar.Base.{
  ℤ, ℕ, zero, suc, ◌+◌, ◌*◌, ◌/◌, ◌%◌, ◌^◌, ◌<◌, ◌≡◌, sym, ap, ◌∙◌, arith,
}
use user_level_thread_librar.Elevator.Riders.{rider, ride}
use user_level_thread_librar.Elevator.Scenarios.{bit_or, pack}

-- `b` shifted right, and left, one place at a time.
halved : ℕ → ℕ → ℕ
halved zero b = b
halved (suc k) b = halved k (b / 2)

doubled : ℕ → ℕ → ℕ
doubled zero b = b
doubled (suc k) b = 2 * doubled k b

-- `k` places more than `w`.
widened : ℕ → ℕ → ℕ
widened zero w = w
widened (suc k) w = suc (widened k w)

zero-bit_or : (w b : ℕ) → halved w b ≡ 0 → bit_or w 0 b ≡ b
unfolding bit_or halved
zero-bit_or zero b h = omega arith
zero-bit_or (suc w) b h = ground (arith, zero-bit_or w (b / 2) h)

-- A number of `k` bits and one shifted by `k` places have no bit in common.
bit_or-doubled :
    (k w a b : ℕ)
    → halved k a ≡ 0
    → bit_or (widened k w) a (doubled k b) ≡ a + doubled k (bit_or w 0 b)
unfolding bit_or halved doubled widened
bit_or-doubled zero w a b h = ground arith
bit_or-doubled (suc k) w a b h =
    let half : 2 * doubled k b / 2 ≡ doubled k b = omega arith in
    rw half (ground (arith, bit_or-doubled k w (a / 2) b h))

halved_small : (a : ℕ) → a < 2 ^ 16 → halved 16 a ≡ 0
unfolding halved
halved_small a h = omega arith

doubled_lem : (b : ℕ) → doubled 16 b ≡ b * 2 ^ 16
unfolding doubled
doubled_lem b = omega arith

pack_lem : (s e : ℕ) → s < 2 ^ 16 → e < 2 ^ 15 → pack s e ≡ s + e * 2 ^ 16
unfolding widened
pack_lem s e p q =
    let fits : e * 2 ^ 16 % 2 ^ 32 ≡ e * 2 ^ 16 = omega arith in
    ap (bit_or 32 s) (fits ∙ sym (doubled_lem e))
    ∙ bit_or-doubled 16 16 s e (halved_small s p)
    ∙ rw (zero-bit_or 16 e (halved_small e (omega arith)), doubled_lem e)

-- A rider that gets the packed argument, with floors for which the shift does not overflow, rides from the
-- start floor to the end floor.
pub rider-pack :
    (priority : ℤ) (start_floor end_floor : ℕ)
    → start_floor < 2 ^ 16
    → end_floor < 2 ^ 15
    → rider priority (pack start_floor end_floor) ≡ ride priority start_floor end_floor
unfolding rider
rider-pack priority start_floor end_floor s e =
    let p : pack start_floor end_floor ≡ start_floor + end_floor * 2 ^ 16 =
      pack_lem start_floor end_floor s e in
    let low : pack start_floor end_floor % 2 ^ 16 ≡ start_floor = rw p (omega arith) in
    let high : pack start_floor end_floor / 2 ^ 16 ≡ end_floor = rw p (omega arith) in
    ap (ride priority (pack start_floor end_floor % 2 ^ 16)) high
    ∙ ap (λ n. ride priority n end_floor) low
