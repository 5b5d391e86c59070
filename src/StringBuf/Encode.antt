-- ===== src/StringBuf/Encode.antt =====
-- What a packet writer lays out, the readers' parsers get back.
use mshell.Prelude.{
  ℕ, ◌^◌, ◌<◌, ◌≡◌, ap, some, ◌++◌, arith, le→leb, Bytes, length, length-append, append_assoc,
  take-append, drop-append,
}
use mshell.Wire.{htonu32}
use mshell.StringBuf.Spec

-- A string behind its 32-bit length.
abbrev pub string_of : Bytes → Bytes
string_of s = htonu32 (length s) ++ s

u32-htonu32 : (v : ℕ) (rest : Bytes) → v < 2 ^ 32 → Spec.u32 (htonu32 v ++ rest) ≡ some (v, rest)
unfolding Spec.u32 htonu32
u32-htonu32 v rest h = ap (λ w. some (w, rest)) (omega arith)

slice-append : (s rest : Bytes) → Spec.slice (length s) (s ++ rest) ≡ some (s, rest)
unfolding Spec.slice
slice-append s rest = rw (
  le→leb (length s) (length (s ++ rest)) (omega (arith, length-append s rest)),
  take-append,
  drop-append,
)

-- The string parser takes back a string that was written with its length, whatever follows.
pub string-string_of :
    (s rest : Bytes) → length s < 2 ^ 32 → Spec.string (string_of s ++ rest) ≡ some (s, rest)
unfolding Spec.string
string-string_of s rest h =
    rw (append_assoc, u32-htonu32 (length s) (s ++ rest) h) (slice-append s rest)
