-- ===== src/StringBuf.antt =====
-- misc.c, `struct string_buf`: the bounds-checked reader of a received packet.
pub mod Spec
pub mod Refine
pub mod Encode
pub mod Reads
mod Tests
use mshell.Prelude.{
  ℕ, ◌+◌, ◌-◌, ◌%◌, ◌^◌, ◌≤◌, ◌<◌, ◌≡◌, Bool, true, false, ◌&&◌, ◌||◌, not, Option, none, some,
  List, ltb, leb, ◌==◌, if◌then◌else◌, Bytes, length, get_or, take, drop, bytes_eq,
}
use mshell.Wire.{ntohu32, ntohu64, skip_zeros}

-- `pos` is `dataptr - data`.
pub record StringBuf : Type 0 where
  pub bytes : Bytes
  pub len : ℕ
  pub pos : ℕ

-- A reader returns 0 with the value that it stores, or -1 (`none`), and moves `dataptr`.
abbrev pub Reader : Type 0 → Type 0
Reader A = StringBuf → Option A × StringBuf

abbrev pub and_then : {A B : Type 0} → Option A × StringBuf → (A → Reader B) → Option B × StringBuf
and_then (none, b) f = (none, b)
and_then (some a, b) f = f a b

infixl 5 ◌>>=◌ ◌>>◌
abbrev pub ◌>>=◌ : {A B : Type 0} → Reader A → (A → Reader B) → Reader B
◌>>=◌ m f b = and_then (m b) f

abbrev pub ◌>>◌ : {A B : Type 0} → Reader A → Reader B → Reader B
m >> k = m >>= λ _. k

abbrev pub pure : {A : Type 0} → A → Reader A
pure a b = (some a, b)

abbrev pub fail : {A : Type 0} → Reader A
fail b = (none, b)

-- `size_t left = endp - buf->dataptr`, which wraps if the pointer has passed the end.
unfoldable pub check_length : StringBuf → ℕ → Bool
check_length b n = let left = (b.len + 2 ^ 64 - b.pos) % 2 ^ 64 in leb n left && leb left b.len

abbrev pub advance : StringBuf → ℕ → StringBuf
advance b n = record b { pos = b.pos + n }

unfoldable pub eob : StringBuf → Bool
eob b = leb b.len b.pos

unfoldable pub get_byte : Reader ℕ
get_byte b = if check_length b 1 then (some (get_or b.bytes b.pos 0), advance b 1) else (none, b)

unfoldable pub get_boolean : Reader ℕ
get_boolean b =
    if check_length b 1
    then (some (if get_or b.bytes b.pos 0 == 0 then 0 else 1), advance b 1)
    else (none, b)

unfoldable pub get_u32 : Reader ℕ
get_u32 b = if check_length b 4 then (some (ntohu32 b.bytes b.pos), advance b 4) else (none, b)

unfoldable pub get_u64 : Reader ℕ
get_u64 b = if check_length b 8 then (some (ntohu64 b.bytes b.pos), advance b 8) else (none, b)

-- The end of `get_string`: `n` bytes from the pointer on, if they are there.
unfoldable pub get_slice : ℕ → Reader Bytes
get_slice n b =
    if check_length b n then (some (take n (drop b.pos b.bytes)), advance b n) else (none, b)

-- `*outbuf` and `*outlen` are one value, the bytes that they delimit. After a length that does not
-- fit, the pointer stays behind the four length bytes.
unfoldable pub get_string : Reader Bytes
get_string = do n ← get_u32; get_slice n

-- `_libssh2_copy_string`: `alloc` says whether the allocation of that many bytes succeeds; none is
-- made for the empty string.
unfoldable pub copy_string : (ℕ → Bool) → Reader Bytes
copy_string alloc = do
  str ← get_string
  if length str == 0 || alloc (length str) then pure str else fail

unfoldable pub match_string : Bytes → Reader (Unit {0})
match_string m = do
  out ← get_string
  if not (length out == length m) || not (bytes_eq out m) then fail else pure tt

-- The bytes of a number, without its leading zeros.
unfoldable pub get_bignum_bytes : Reader Bytes
get_bignum_bytes = do n ← get_u32; num ← get_slice n; pure (skip_zeros num)
