-- ===== src/StringBuf/Refine.antt =====
-- The readers, on a buffer whose pointer has not passed its end, are the parsers of `Spec`.
use mshell.Prelude.{
  ℕ, ◌-◌, ◌^◌, ◌≤◌, ◌<◌, ◌≡◌, refl, true, false, Option, none, some, [], ◌∷◌, arith, leb, Bytes,
  length, get_or, drop, length-drop, drop-drop, get_or-drop_zero, inl, inr, Bool-cases, ◌∙◌, ap,
  sym, subst, leb→le, le→leb, lt→leb,
}
use mshell.Wire.{ntohu32}
use mshell.Wire.Words.{ntohu32-drop, word32}
use mshell.StringBuf.{
  StringBuf, Reader, and_then, check_length, advance, get_byte, get_u32, get_slice, get_string,
}
use mshell.StringBuf.Spec

abbrev pub remaining : StringBuf → Bytes
remaining b = drop b.pos b.bytes

-- The buffer holds `len` bytes and the pointer is not past them.
pub record IsValid (b : StringBuf) : Type 0 where
  pub whole : length b.bytes ≡ b.len
  pub within : b.pos ≤ b.len
  pub addressable : b.len < 2 ^ 64

-- A reader's outcome against a parser's: the same value and the same bytes left, or both fail.
abbrev pub Agrees : {A : Type 0} → Option A × StringBuf → Option (A × Bytes) → Type 0
Agrees r none = (r.0 ≡ none) × IsValid r.1
Agrees r (some (a, xs)) = (r.0 ≡ some a) × (remaining r.1 ≡ xs) × IsValid r.1

abbrev pub Refines : {A : Type 0} → Reader A → Spec.Parser A → Type 0
Refines m p = (b : StringBuf) → IsValid b → Agrees (m b) (p (remaining b))

pub length-remaining : (b : StringBuf) → IsValid b → length (remaining b) ≡ b.len - b.pos
length-remaining b v = omega (arith, length-drop b.pos b.bytes)

-- The wrapping test of the code is the plain comparison.
pub check_length-remaining :
    (b : StringBuf) (n : ℕ) → IsValid b → check_length b n ≡ leb n (length (remaining b))
unfolding check_length
check_length-remaining b n v = ground (arith, length-remaining b v)

pub advance-IsValid :
    (b : StringBuf) (n : ℕ) → IsValid b → n ≤ length (remaining b) → IsValid (advance b n)
advance-IsValid b n v h = omega (arith, length-remaining b v)

pub remaining-advance : (b : StringBuf) (n : ℕ) → remaining (advance b n) ≡ drop n (remaining b)
remaining-advance b n = sym (drop-drop n b.pos b.bytes)

-- Reading in sequence refines parsing in sequence.
pub Refines-bind :
    {A B : Type 0} (m : Reader A) (p : Spec.Parser A) (f : A → Reader B) (q : A → Spec.Parser B)
    → Refines m p
    → ((a : A) → Refines (f a) (q a))
    → Refines (λ b. and_then (m b) f) (λ xs. Spec.then_parse (p xs) q)
Refines-bind {A} {B} m p f q hm hf b v = go (m b) (p (remaining b)) (hm b v)
  where
    go :
        (r : Option A × StringBuf) (s : Option (A × Bytes))
        → Agrees r s
        → Agrees (and_then r f) (Spec.then_parse s q)
    go (none, c) none h = (refl, h.1)
    go (some a, c) none h = absurd (cc (h.0))
    go (none, c) (some (x, xs)) h = absurd (cc (h.0))
    go (some a, c) (some (x, xs)) h =
        let same : a ≡ x = cc in
        subst (λ y. Agrees (f a c) (q y xs)) same
          (subst (λ ys. Agrees (f a c) (q a ys)) (h.1) (hf a c (h.2)))

pub get_slice-Refines : (n : ℕ) → Refines (get_slice n) (Spec.slice n)
unfolding get_slice Spec.slice
get_slice-Refines n b v = elim (Bool-cases (leb n (length (remaining b)))) [
  | inl e ↦
      rw (check_length-remaining b n v, e)
        (refl, remaining-advance b n, advance-IsValid b n v (leb→le n (length (remaining b)) e))
  | inr e ↦ rw (check_length-remaining b n v, e) (refl, v)
]

-- Fixed-width reads: the bytes that are left, against the width.
module _ (b : StringBuf) (v : IsValid b) where
  short : (n : ℕ) (xs : Bytes) → remaining b ≡ xs → length xs < n → check_length b n ≡ false
  short n xs e h = check_length-remaining b n v ∙ lt→leb n (length (remaining b)) (rw e h)

  long : (n : ℕ) (xs : Bytes) → remaining b ≡ xs → n ≤ length xs → check_length b n ≡ true
  long n xs e h = check_length-remaining b n v ∙ le→leb n (length (remaining b)) (rw e h)

  rest : (n : ℕ) (xs : Bytes) → remaining b ≡ xs → remaining (advance b n) ≡ drop n xs
  rest n xs e = remaining-advance b n ∙ ap (drop n) e

  stays : (n : ℕ) (xs : Bytes) → remaining b ≡ xs → n ≤ length xs → IsValid (advance b n)
  stays n xs e h = advance-IsValid b n v (rw e h)

get_u32_on :
    (b : StringBuf) (xs : Bytes) → IsValid b → remaining b ≡ xs → Agrees (get_u32 b) (Spec.u32 xs)
unfolding get_u32 Spec.u32 ntohu32
get_u32_on b [] v e = rw (short b v 4 _ e (omega arith)) (refl, v)
get_u32_on b (x ∷ []) v e = rw (short b v 4 _ e (omega arith)) (refl, v)
get_u32_on b (x ∷ y ∷ []) v e = rw (short b v 4 _ e (omega arith)) (refl, v)
get_u32_on b (x ∷ y ∷ z ∷ []) v e = rw (short b v 4 _ e (omega arith)) (refl, v)
get_u32_on b (x ∷ y ∷ z ∷ w ∷ xs) v e =
    rw (long b v 4 _ e (omega arith))
      (ap some (ntohu32-drop b.pos b.bytes ∙ word e), rest b v 4 _ e, stays b v 4 _ e (omega arith))
  where
    word : remaining b ≡ x ∷ y ∷ z ∷ w ∷ xs → ntohu32 (remaining b) 0 ≡ word32 x y z w
    word h = rw h

pub get_u32-Refines : Refines get_u32 Spec.u32
get_u32-Refines b v = get_u32_on b (remaining b) v refl

get_byte_on :
    (b : StringBuf) (xs : Bytes) → IsValid b → remaining b ≡ xs → Agrees (get_byte b) (Spec.byte xs)
unfolding get_byte Spec.byte
get_byte_on b [] v e = rw (short b v 1 _ e (omega arith)) (refl, v)
get_byte_on b (x ∷ xs) v e = rw (long b v 1 _ e (omega arith)) (
  ap some (sym (get_or-drop_zero b.pos b.bytes 0) ∙ ap (λ ys. get_or ys 0 0) e),
  rest b v 1 _ e,
  stays b v 1 _ e (omega arith),
)

pub get_byte-Refines : Refines get_byte Spec.byte
get_byte-Refines b v = get_byte_on b (remaining b) v refl

-- `get_string` is the length-prefixed parser on every packet, the truncated ones included: it
-- returns the same bytes and leaves the same rest, fails exactly where the parser fails, and
-- keeps the pointer inside the buffer.
pub get_string-Refines : Refines get_string Spec.string
unfolding get_string Spec.string
get_string-Refines =
    Refines-bind get_u32 Spec.u32 get_slice Spec.slice get_u32-Refines get_slice-Refines
