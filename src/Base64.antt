-- ===== src/Base64.antt =====
-- misc.c, base64: `_libssh2_base64_decode` and `_libssh2_base64_encode`.
--
-- `alloc n` says whether an allocation of `n` bytes succeeds. Operands of `|` share no bit and are
-- added.
pub mod Chars
pub mod RoundTrip
pub mod Bounds
mod Tests
use mshell.Prelude.{
  ℕ, zero, suc, ◌+◌, ◌-◌, ◌*◌, ◌/◌, ◌%◌, max, Bool, true, false, ◌&&◌, Option, none, some, List, [],
  ◌∷◌, ◌++◌, ltb, leb, ◌==◌, if◌then◌else◌, Bytes, length, take,
}

-- `base64_reverse_table`; `none` is -1.
unfoldable pub reverse_table : ℕ → Option ℕ
reverse_table c =
    if leb b'A' c && leb c b'Z'
    then some (c - b'A')
    else if leb b'a' c && leb c b'z'
    then some (c - b'a' + 26)
    else if leb b'0' c && leb c b'9'
    then some (c - b'0' + 52)
    else if c == b'+'
    then some 62
    else if c == b'/'
    then some 63
    else none

-- `table64[v]` for a 6-bit value.
unfoldable pub table64 : ℕ → ℕ
table64 v =
    if ltb v 26
    then b'A' + v
    else if ltb v 52
    then b'a' + (v - 26)
    else if ltb v 62
    then b'0' + (v - 52)
    else if v == 62
    then b'+'
    else b'/'

-- The loop of the decoder. `out` is `d[0] .. d[len - 1]`, `cur` is `d[len]`, and `extent` is one
-- more than the highest index of `d` that has been written.
pub record Decoder : Type 0 where
  pub i : ℕ
  pub out : Bytes
  pub cur : ℕ
  pub extent : ℕ

abbrev pub start : Decoder
start = record { i = 0; out = []; cur = 0; extent = 0 }

-- `d[len++] |= v; d[len] = next;`
abbrev emit : Decoder → ℕ → ℕ → Decoder
emit s v next = record s {
  out = s.out ++ (s.cur + v) ∷ [];
  cur = next;
  extent = max s.extent (length s.out + 2);
}

abbrev counted : Decoder → Decoder
counted s = record s { i = s.i + 1 }

-- `switch(i % 4)` on one 6-bit value, and `i++`.
unfoldable pub put_digit : Decoder → ℕ → Decoder
put_digit s v = counted (
    if s.i % 4 == 0
    then record s { cur = v * 4 % 256; extent = max s.extent (length s.out + 1) }
    else if s.i % 4 == 1
    then emit s (v / 16) (v * 16 % 256)
    else if s.i % 4 == 2
    then emit s (v / 4) (v * 64 % 256)
    else record s { out = s.out ++ (s.cur + v) ∷ []; extent = max s.extent (length s.out + 1) })

-- Characters outside the alphabet, `=` among them, are passed over.
abbrev put_char : Decoder → Option ℕ → Decoder
put_char s none = s
put_char s (some v) = put_digit s v

unfoldable pub decode_loop : Decoder → Bytes → Decoder
decode_loop s [] = s
decode_loop s (c ∷ cs) = decode_loop (put_char s (reverse_table c)) cs

pub data Error : Type 0 where
  alloc inval : Error

pub data Result : Type 0 where
  ok : Bytes → Result
  err : Error → Result

-- The size that is allocated for the result.
abbrev pub decode_size : ℕ → ℕ
decode_size src_len = src_len / 4 * 3 + 1

unfoldable pub decode : (ℕ → Bool) → Bytes → Result
decode may_alloc src =
    let s = decode_loop start src in
    if may_alloc (decode_size (length src))
    then (if s.i % 4 == 1 then err inval else ok s.out)
    else err alloc

-- The loop of the encoder: three bytes at a time, the last group padded.
unfoldable pub encode_groups : Bytes → Bytes
unfolding table64
encode_groups [] = []
encode_groups (a ∷ []) = table64 (a / 4 % 64) ∷ table64 (a % 4 * 16) ∷ b'=' ∷ b'=' ∷ []
encode_groups (a ∷ b ∷ []) =
    table64 (a / 4 % 64) ∷ table64 (a % 4 * 16 + b / 16 % 16) ∷ table64 (b % 16 * 4) ∷ b'=' ∷ []
encode_groups (a ∷ b ∷ c ∷ rest) =
    table64 (a / 4 % 64)
    ∷ table64 (a % 4 * 16 + b / 16 % 16)
    ∷ table64 (b % 16 * 4 + c / 64 % 4)
    ∷ table64 (c % 64)
    ∷ encode_groups rest

-- `strlen` as a prefix: the bytes before the first NUL.
unfoldable pub c_string : Bytes → Bytes
c_string [] = []
c_string (b ∷ bs) = let rest = c_string bs in if b == 0 then [] else b ∷ rest

-- The size that is allocated, the terminating NUL included.
abbrev pub encode_size : ℕ → ℕ
encode_size insize = insize * 4 / 3 + 4

-- An `insize` of 0 stands for a C string. `none` is the return of 0 with no buffer.
unfoldable pub encode : (ℕ → Bool) → Bytes → ℕ → Option Bytes
encode may_alloc inp insize =
    let indata = if insize == 0 then c_string inp else take insize inp in
    if may_alloc (encode_size (length indata)) then some (encode_groups indata) else none
