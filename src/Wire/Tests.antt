-- ===== src/Wire/Tests.antt =====
-- Stored integers and strings, and the theorems at inputs.
use mshell.Prelude.{◌≡◌, refl, true, [], ◌∷◌}
use mshell.Wire.{store_u32, store_str, store_bignum2_bytes, skip_zeros}

store_string : store_str (7 ∷ []) (1 ∷ 2 ∷ []) ≡ (7 ∷ 0 ∷ 0 ∷ 0 ∷ 2 ∷ 1 ∷ 2 ∷ [], true)
unfolding store_str store_u32
store_string = refl

-- 0x0080 loses its zero and gets one back for the sign.
store_bignum : store_bignum2_bytes [] (0 ∷ 0 ∷ 128 ∷ []) ≡ (0 ∷ 0 ∷ 0 ∷ 2 ∷ 0 ∷ 128 ∷ [], true)
unfolding store_bignum2_bytes store_u32 skip_zeros
store_bignum = refl
