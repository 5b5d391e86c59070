-- ===== src/Base64/Bounds.antt =====
-- How much of their buffers the encoder and the decoder write.
use mshell.Prelude.{
  ℕ, ◌+◌, ◌*◌, ◌/◌, ◌%◌, ◌≤◌, ◌<◌, ◌≡◌, Option, none, some, [], ◌∷◌, arith, Bytes, length,
  length-append, Option-cases, inl, inr, subst,
}
use mshell.Base64.{
  Decoder, start, put_digit, decode_loop, decode_size, encode_groups, encode_size, reverse_table,
}

-- The characters of a text that the decoder reads.
abbrev one_more : Option ℕ → ℕ → ℕ
one_more none n = n
one_more (some v) n = n + 1

unfoldable pub digits : Bytes → ℕ
digits [] = 0
digits (c ∷ cs) = one_more (reverse_table c) (digits cs)

digits-le-length : (cs : Bytes) → digits cs ≤ length cs
unfolding digits
digits-le-length [] = omega arith
digits-le-length (c ∷ cs) = ground (arith, digits-le-length cs)

-- Where the decoder stands after `i` digits.
record IsAt (i : ℕ) (s : Decoder) : Type 0 where
  count : s.i ≡ i
  full : length s.out ≡ i * 3 / 4
  reach : s.extent ≡ 3 * (i / 4) + i % 4

put_digit-IsAt : (i v : ℕ) (s : Decoder) → IsAt i s → IsAt (i + 1) (put_digit s v)
unfolding put_digit
put_digit-IsAt i v s h = record {
  count = ground arith;
  full = ground (
    arith,
    length-append s.out ((s.cur + v / 16) ∷ []),
    length-append s.out ((s.cur + v / 4) ∷ []),
    length-append s.out ((s.cur + v) ∷ []),
  );
  reach = ground arith;
}

decode_loop-IsAt :
    (cs : Bytes) (i : ℕ) (s : Decoder) → IsAt i s → IsAt (i + digits cs) (decode_loop s cs)
unfolding digits decode_loop
decode_loop-IsAt [] i s h = omega arith
decode_loop-IsAt (c ∷ cs) i s h = elim (Option-cases (reverse_table c)) [
  | inl e ↦ rw e (decode_loop-IsAt cs i s h)
  | inr (v, e) ↦ rw e (
      subst (λ k. IsAt k (decode_loop (put_digit s v) cs)) (omega arith)
        (decode_loop-IsAt cs (i + 1) (put_digit s v) (put_digit-IsAt i v s h)))
]

-- The decoder stores three bytes for each four characters of the alphabet, and the highest index
-- that it writes is known exactly, whatever the text.
decode_loop_extent :
    (src : Bytes)
    → let k = digits src in
      let s = decode_loop start src in (length s.out ≡ k * 3 / 4) × (s.extent ≡ 3 * (k / 4) + k % 4)
decode_loop_extent src =
    let h = decode_loop-IsAt src 0 start (omega arith) in omega (arith, h.full, h.reach)

-- The decoder stays within the buffer that it allocates whenever the length of its input leaves a
-- rest of 0 or 1 by 4, as it does for padded base64.
decode_in_bounds :
    (src : Bytes) → length src % 4 ≤ 1 → (decode_loop start src).extent ≤ decode_size (length src)
decode_in_bounds src h = omega (arith, (decode_loop_extent src).1, digits-le-length src)

-- It writes past the buffer on every text that is all alphabet and whose length leaves a rest of 2
-- or 3 by 4, as unpadded base64 does.
pub decode_overruns :
    (src : Bytes)
    → digits src ≡ length src
    → 2 ≤ length src % 4
    → decode_size (length src) < (decode_loop start src).extent
decode_overruns src all h = omega (arith, (decode_loop_extent src).1)

pub length-encode_groups : (xs : Bytes) → length (encode_groups xs) ≡ (length xs + 2) / 3 * 4
unfolding encode_groups
length-encode_groups [] = omega arith
length-encode_groups (a ∷ []) = omega arith
length-encode_groups (a ∷ b ∷ []) = omega arith
length-encode_groups (a ∷ b ∷ c ∷ rest) = omega (arith, length-encode_groups rest)

-- The encoder's output has four characters for each group of three bytes or fewer, and fits the
-- buffer with its terminating NUL.
encode_in_bounds :
    (xs : Bytes)
    → (length (encode_groups xs) ≡ (length xs + 2) / 3 * 4)
      × (length (encode_groups xs) + 1 ≤ encode_size (length xs))
encode_in_bounds xs = omega (arith, length-encode_groups xs)
