-- ===== src/Kitchen/Counter.antt =====
-- `Produce_Item` of ThreadSystemCode/TestCases/TEST4.C: the identifiers that it gives one after the other.
use user_level_thread_librar.Base.{ℕ, zero, suc, ◌+◌, ◌%◌, ◌≤◌, ◌≡◌, arith}
use user_level_thread_librar.Kitchen.{produce_item}

-- The counter after `n` calls.
unfoldable pub calls : ℕ → ℕ → ℕ
calls zero counter = counter
calls (suc n) counter = calls n (produce_item counter)

-- A call moves the counter within 0 to 50000, and is one more modulo 50001.
produce_item-bounded : (c : ℕ) → c ≤ 50000 → produce_item c ≤ 50000
unfolding produce_item
produce_item-bounded c l = ground arith

shifted : (n c : ℕ) → c ≤ 50000 → (produce_item c + n) % 50001 ≡ (c + suc n) % 50001
unfolding produce_item
shifted n c l = ground arith

-- From a counter of at most 50000, `n` calls add `n` to it, modulo 50001.
pub calls_modulo : (n c : ℕ) → c ≤ 50000 → calls n c ≡ (c + n) % 50001
unfolding calls
calls_modulo zero c l = omega (arith, l)
calls_modulo (suc n) c l =
    rw (calls_modulo n (produce_item c) (produce_item-bounded c l)) (shifted n c l)
