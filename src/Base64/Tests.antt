-- ===== src/Base64/Tests.antt =====
-- Runs of the encoder and the decoder, and the theorems at inputs.
use mshell.Prelude.{ℕ, ◌<◌, ◌≡◌, refl, Bool, true, [], ◌∷◌, arith, Bytes, some}
use mshell.Base64.{
  start, decode_loop, decode, decode_size, encode, encode_groups, ok, err, inval, put_digit,
  reverse_table,
}
use mshell.Base64.RoundTrip.{decode-encode}
use mshell.Base64.Bounds.{digits, decode_overruns}

abbrev always : ℕ → Bool
always n = true

-- "TWE="
abbrev text : Bytes
text = b'T' ∷ b'W' ∷ b'E' ∷ b'=' ∷ []

encode_run : encode always (b'M' ∷ b'a' ∷ []) 2 ≡ some text
unfolding encode encode_groups
encode_run = refl

decode_run : decode always text ≡ ok (b'M' ∷ b'a' ∷ [])
unfolding decode decode_loop put_digit reverse_table
decode_run = refl

-- A single character holds no byte.
decode_stub : decode always (b'T' ∷ []) ≡ err inval
unfolding decode decode_loop put_digit reverse_table
decode_stub = refl

decode-encode_example : decode always text ≡ ok (b'M' ∷ b'a' ∷ [])
decode-encode_example =
    decode-encode always (b'M' ∷ b'a' ∷ []) (omega arith) (λ e. cc) encode_run refl

-- "TW" is decoded into a buffer of one byte, and the byte behind it is written.
decode_overruns_example : decode_size 2 < (decode_loop start (b'T' ∷ b'W' ∷ [])).extent
decode_overruns_example =
    decode_overruns (b'T' ∷ b'W' ∷ []) (unfold digits reverse_table in refl) (omega arith)
