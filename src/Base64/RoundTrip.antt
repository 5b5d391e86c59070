-- ===== src/Base64/RoundTrip.antt =====
-- Decoding what was encoded.
use mshell.Prelude.{
  ℕ, ◌+◌, ◌*◌, ◌/◌, ◌%◌, ◌<◌, ◌≡◌, ◌≢◌, refl, ap, ◌∙◌, Bool, true, some, [], ◌∷◌, ◌++◌, arith,
  Bytes, length, All, IsByte, append-nil, append_assoc, ne→==, take-length, subst,
}
use mshell.Base64.{
  Decoder, ok, start, put_digit, decode_loop, decode, decode_size, encode_groups, encode, table64,
}
use mshell.Base64.Chars.{reverse_table-table64, reverse_table-padding}

-- One character of the alphabet.
decode_loop-table64 :
    (s : Decoder) (v : ℕ) (cs : Bytes)
    → v < 64
    → decode_loop s (table64 v ∷ cs) ≡ decode_loop (put_digit s v) cs
unfolding decode_loop
decode_loop-table64 s v cs h = rw (reverse_table-table64 v h)

decode_loop-padding : (s : Decoder) (cs : Bytes) → decode_loop s (b'=' ∷ cs) ≡ decode_loop s cs
unfolding decode_loop
decode_loop-padding s cs = rw reverse_table-padding

module _ (s : Decoder) (v : ℕ) where
  third : s.i % 4 ≡ 2 → (put_digit s v).out ≡ s.out ++ (s.cur + v / 4) ∷ []
  unfolding put_digit
  third h = ground arith

  cur-third : s.i % 4 ≡ 2 → (put_digit s v).cur ≡ v * 64 % 256
  unfolding put_digit
  cur-third h = ground arith

  fourth : s.i % 4 ≡ 3 → (put_digit s v).out ≡ s.out ++ (s.cur + v) ∷ []
  unfolding put_digit
  fourth h = ground arith

  pub i-put_digit : (put_digit s v).i ≡ s.i + 1
  unfolding put_digit
  i-put_digit = ground arith

abbrev two : Decoder → ℕ → ℕ → Decoder
two s v w = put_digit (put_digit s v) w

module _ (s : Decoder) (v w : ℕ) (aligned : s.i % 4 ≡ 0) where
  i-two : (two s v w).i ≡ s.i + 2
  unfolding put_digit
  i-two = ground arith

  cur-two : (two s v w).cur ≡ w * 16 % 256
  unfolding put_digit
  cur-two = ground arith

  out-two : (two s v w).out ≡ s.out ++ (v * 4 % 256 + w / 16) ∷ []
  unfolding put_digit
  out-two = ground arith

  i-three : (x : ℕ) → (put_digit (two s v w) x).i ≡ s.i + 3
  i-three x = omega (arith, i-put_digit (two s v w) x, i-two)

  out-three :
      (x : ℕ)
      → (put_digit (two s v w) x).out
        ≡ s.out ++ (v * 4 % 256 + w / 16) ∷ (w * 16 % 256 + x / 4) ∷ []
  out-three x = third (two s v w) x (omega (arith, i-two)) ∙ rw (out-two, cur-two, append_assoc)

  i-four : (x y : ℕ) → (put_digit (put_digit (two s v w) x) y).i ≡ s.i + 4
  i-four x y = omega (arith, i-put_digit (put_digit (two s v w) x) y, i-three x)

  out-four :
      (x y : ℕ)
      → (put_digit (put_digit (two s v w) x) y).out
        ≡ s.out ++ (v * 4 % 256 + w / 16) ∷ (w * 16 % 256 + x / 4) ∷ (x * 64 % 256 + y) ∷ []
  out-four x y =
      fourth (put_digit (two s v w) x) y (omega (arith, i-three x))
      ∙ rw (out-three, cur-third (two s v w) x (omega (arith, i-two)), append_assoc)

-- The bytes of a group, from its digits.
module _ (a b c : ℕ) where
  lone_byte : a < 256 → a / 4 % 64 * 4 % 256 + a % 4 * 16 / 16 ≡ a
  lone_byte h = omega arith

  first_byte : a < 256 → a / 4 % 64 * 4 % 256 + (a % 4 * 16 + b / 16 % 16) / 16 ≡ a
  first_byte h = omega arith

  lone_second : b < 256 → (a % 4 * 16 + b / 16 % 16) * 16 % 256 + b % 16 * 4 / 4 ≡ b
  lone_second h = omega arith

  second_byte : b < 256 → (a % 4 * 16 + b / 16 % 16) * 16 % 256 + (b % 16 * 4 + c / 64 % 4) / 4 ≡ b
  second_byte h = omega arith

  third_byte : c < 256 → (b % 16 * 4 + c / 64 % 4) * 64 % 256 + c % 64 ≡ c
  third_byte h = omega arith

-- What the decoder has after the whole of an encoded text, started between two groups.
record Decoded (s : Decoder) (xs : Bytes) (t : Decoder) : Type 0 where
  text : t.out ≡ s.out ++ xs
  whole : t.i % 4 ≢ 1

decode_loop-encode_groups :
    (s : Decoder) (xs : Bytes)
    → s.i % 4 ≡ 0
    → All IsByte xs
    → Decoded s xs (decode_loop s (encode_groups xs))
unfolding encode_groups
decode_loop-encode_groups s [] h bytes = record {
  text = unfold decode_loop in rw append-nil;
  whole = unfold decode_loop in omega arith;
}
decode_loop-encode_groups s (a ∷ []) h bytes =
    rw
      (
        decode_loop-table64 _ (a / 4 % 64) _ (omega arith),
        decode_loop-table64 _ (a % 4 * 16) _ (omega arith),
        decode_loop-padding,
        decode_loop-padding,
      )
      (record {
        text = unfold decode_loop in out-two s _ _ h ∙ rw (lone_byte a 0 0 (bytes.0));
        whole = unfold decode_loop in omega (arith, i-two s (a / 4 % 64) (a % 4 * 16) h);
      })
decode_loop-encode_groups s (a ∷ b ∷ []) h bytes =
    rw
      (
        decode_loop-table64 _ (a / 4 % 64) _ (omega arith),
        decode_loop-table64 _ (a % 4 * 16 + b / 16 % 16) _ (omega arith),
        decode_loop-table64 _ (b % 16 * 4) _ (omega arith),
        decode_loop-padding,
      )
      (record {
        text =
            unfold decode_loop in
            out-three s _ _ h _ ∙ rw (first_byte a b 0 (bytes.0), lone_second a b 0 (bytes.1.0));
        whole =
            unfold decode_loop in
            omega (arith, i-three s (a / 4 % 64) (a % 4 * 16 + b / 16 % 16) h (b % 16 * 4));
      })
decode_loop-encode_groups s (a ∷ b ∷ c ∷ rest) h bytes =
    let w : ℕ = a % 4 * 16 + b / 16 % 16 in
    let x : ℕ = b % 16 * 4 + c / 64 % 4 in
    let later =
      decode_loop-encode_groups (put_digit (put_digit (two s (a / 4 % 64) w) x) (c % 64)) rest
        (omega (arith, i-four s (a / 4 % 64) w h x (c % 64))) (bytes.1.1.1) in
    rw
      (
        decode_loop-table64 _ (a / 4 % 64) _ (omega arith),
        decode_loop-table64 _ (a % 4 * 16 + b / 16 % 16) _ (omega arith),
        decode_loop-table64 _ (b % 16 * 4 + c / 64 % 4) _ (omega arith),
        decode_loop-table64 _ (c % 64) _ (omega arith),
      )
      (record {
        text =
            later.text
            ∙ rw (out-four s _ _ h _ _) (
                rw (
                  append_assoc,
                  first_byte a b c (bytes.0),
                  second_byte a b c (bytes.1.0),
                  third_byte a b c (bytes.1.1.0),
                ));
        whole = later.whole;
      })

-- Every text of bytes is got back from its base64 form.
pub decode-encode_groups :
    (may_alloc : ℕ → Bool) (xs : Bytes)
    → All IsByte xs
    → may_alloc (decode_size (length (encode_groups xs))) ≡ true
    → decode may_alloc (encode_groups xs) ≡ ok xs
unfolding decode
decode-encode_groups may_alloc xs bytes room =
    let d = decode_loop-encode_groups start xs (omega arith) bytes in
    rw (room, ne→== _ _ d.whole) (ap ok d.text)

-- A non-empty byte buffer that is encoded whole is decoded to the same bytes, if both allocations
-- succeed.
pub decode-encode :
    (may_alloc : ℕ → Bool) (xs : Bytes) {text : Bytes}
    → All IsByte xs
    → xs ≢ []
    → encode may_alloc xs (length xs) ≡ some text
    → may_alloc (decode_size (length text)) ≡ true
    → decode may_alloc text ≡ ok xs
unfolding encode
decode-encode may_alloc [] bytes ne e room = absurd (ne refl)
decode-encode may_alloc (x ∷ xs) {text} bytes ne e room =
    let same : text ≡ encode_groups (x ∷ xs) = ground (arith, take-length (x ∷ xs)) in
    rw same (
      decode-encode_groups may_alloc (x ∷ xs) bytes
        (subst (λ t. may_alloc (decode_size (length t)) ≡ true) same room))
