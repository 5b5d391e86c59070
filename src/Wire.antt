-- ===== src/Wire.antt =====
-- misc.c, byte order: how integers and strings are laid out in a packet.
--
-- A C call that writes through `unsigned char **buf` and advances the pointer is a function that
-- appends to the bytes written so far. An unsigned integer is a natural number below its width;
-- the shifted operands of `|` share no bit, so `|` is written `+`.
pub mod Words
mod Tests
use mshell.Prelude.{
  ℕ, zero, suc, ◌+◌, ◌-◌, ◌*◌, ◌/◌, ◌%◌, ◌^◌, Bool, true, false, ◌&&◌, not, List, [], ◌∷◌, ◌++◌,
  ltb, leb, ◌==◌, if◌then◌else◌, Bytes, length, get_or, take, drop,
}

-- `_libssh2_ntohu32(buf)` at offset `i` of a buffer.
unfoldable pub ntohu32 : Bytes → ℕ → ℕ
ntohu32 buf i =
    get_or buf i 0 * 2 ^ 24
    + get_or buf (i + 1) 0 * 2 ^ 16
    + get_or buf (i + 2) 0 * 2 ^ 8
    + get_or buf (i + 3) 0

-- `_libssh2_ntohu64(buf)` at offset `i` of a buffer.
unfoldable pub ntohu64 : Bytes → ℕ → ℕ
ntohu64 buf i =
    get_or buf i 0 * 2 ^ 56
    + get_or buf (i + 1) 0 * 2 ^ 48
    + get_or buf (i + 2) 0 * 2 ^ 40
    + get_or buf (i + 3) 0 * 2 ^ 32
    + get_or buf (i + 4) 0 * 2 ^ 24
    + get_or buf (i + 5) 0 * 2 ^ 16
    + get_or buf (i + 6) 0 * 2 ^ 8
    + get_or buf (i + 7) 0

-- `_libssh2_htonu32`: the four bytes that it stores.
unfoldable pub htonu32 : ℕ → Bytes
htonu32 v = v / 2 ^ 24 % 256 ∷ v / 2 ^ 16 % 256 ∷ v / 2 ^ 8 % 256 ∷ v % 256 ∷ []

unfoldable pub store_u32 : Bytes → ℕ → Bytes
unfolding htonu32
store_u32 buf v = buf ++ htonu32 v

unfoldable pub store_u64 : Bytes → ℕ → Bytes
store_u64 buf v =
    buf
    ++ v / 2 ^ 56 % 256
      ∷ v / 2 ^ 48 % 256
      ∷ v / 2 ^ 40 % 256
      ∷ v / 2 ^ 32 % 256
      ∷ v / 2 ^ 24 % 256
      ∷ v / 2 ^ 16 % 256
      ∷ v / 2 ^ 8 % 256
      ∷ v % 256
      ∷ []

-- `_libssh2_store_str`: the length is cut to 32 bits, and the result says whether it fitted.
unfoldable pub store_str : Bytes → Bytes → Bytes × Bool
store_str buf str =
    let len_stored = length str % 2 ^ 32 in
    (store_u32 buf len_stored ++ take len_stored str, len_stored == length str)

-- The loop that skips leading zero bytes.
unfoldable pub skip_zeros : Bytes → Bytes
skip_zeros [] = []
skip_zeros (b ∷ bs) = let rest = skip_zeros bs in if b == 0 then rest else b ∷ bs

-- `_libssh2_store_bignum2_bytes`: a zero byte goes before a number whose top bit is set.
unfoldable pub store_bignum2_bytes : Bytes → Bytes → Bytes × Bool
store_bignum2_bytes buf bytes =
    let p = skip_zeros bytes in
    let extra : ℕ = if ltb 0 (length p) && leb 128 (get_or p 0 0) then 1 else 0 in
    let cut = length p % 2 ^ 32 in
    let len_stored = if extra == 1 && cut == 2 ^ 32 - 1 then cut - 1 else cut in
    let head = store_u32 buf ((len_stored + extra) % 2 ^ 32) in
    (head ++ (if extra == 1 then 0 ∷ [] else []) ++ take len_stored p, len_stored == length p)
