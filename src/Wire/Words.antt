-- ===== src/Wire/Words.antt =====
-- Reading back the integers that were stored.
use mshell.Prelude.{
  ℕ, ◌+◌, ◌*◌, ◌^◌, ◌<◌, ◌≡◌, [], ◌++◌, arith, Bytes, length, get_or, drop, get_or-drop,
  drop-append, ap, append_assoc,
}
use mshell.Wire.{ntohu32, ntohu64, htonu32, store_u32, store_u64}

-- The 32-bit number of four bytes, and the 64-bit number of eight.
abbrev pub word32 : ℕ → ℕ → ℕ → ℕ → ℕ
word32 a b c d = a * 2 ^ 24 + b * 2 ^ 16 + c * 2 ^ 8 + d

pub ntohu32-htonu32 : (v : ℕ) (rest : Bytes) → v < 2 ^ 32 → ntohu32 (htonu32 v ++ rest) 0 ≡ v
unfolding ntohu32 htonu32
ntohu32-htonu32 v rest h = omega arith

-- Reading at an offset is reading at the start of what follows it.
pub ntohu32-drop : (n : ℕ) (buf : Bytes) → ntohu32 buf n ≡ ntohu32 (drop n buf) 0
unfolding ntohu32
ntohu32-drop n buf = omega (
  arith,
  get_or-drop n 0 buf 0,
  get_or-drop n 1 buf 0,
  get_or-drop n 2 buf 0,
  get_or-drop n 3 buf 0,
  ap (λ k. get_or buf k 0) {x = n + 0} {y = n} (omega arith),
)

pub ntohu64-drop : (n : ℕ) (buf : Bytes) → ntohu64 buf n ≡ ntohu64 (drop n buf) 0
unfolding ntohu64
ntohu64-drop n buf = omega (
  arith,
  get_or-drop n 0 buf 0,
  get_or-drop n 1 buf 0,
  get_or-drop n 2 buf 0,
  get_or-drop n 3 buf 0,
  get_or-drop n 4 buf 0,
  get_or-drop n 5 buf 0,
  get_or-drop n 6 buf 0,
  get_or-drop n 7 buf 0,
  ap (λ k. get_or buf k 0) {x = n + 0} {y = n} (omega arith),
)

-- A 32-bit number stored behind any bytes is read back at that offset, whatever follows it.
ntohu32-store_u32 :
    (buf rest : Bytes) (v : ℕ) → v < 2 ^ 32 → ntohu32 (store_u32 buf v ++ rest) (length buf) ≡ v
unfolding store_u32
ntohu32-store_u32 buf rest v h =
    rw (ntohu32-drop, append_assoc, drop-append) (ntohu32-htonu32 v rest h)

pub u64_bytes : (v : ℕ) (rest : Bytes) → v < 2 ^ 64 → ntohu64 (store_u64 [] v ++ rest) 0 ≡ v
unfolding ntohu64 store_u64
u64_bytes v rest h = omega arith

-- The same of a 64-bit number.
ntohu64-store_u64 :
    (buf rest : Bytes) (v : ℕ) → v < 2 ^ 64 → ntohu64 (store_u64 buf v ++ rest) (length buf) ≡ v
unfolding store_u64
ntohu64-store_u64 buf rest v h = rw (ntohu64-drop, append_assoc, drop-append) (u64_bytes v rest h)
