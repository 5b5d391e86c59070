-- ===== src/StringBuf/Reads.antt =====
-- Readers on a text that begins as a writer laid it out.
use mshell.Prelude.{
  ℕ, ◌+◌, ◌^◌, ◌≤◌, ◌<◌, ◌≡◌, ap, subst, ◌∙◌, Bool, true, false, some, [], ◌∷◌, ◌++◌, ◌||◌, ◌==◌,
  take, take-append, get_or, get_or-drop_zero, sym, refl, inl, inr, Bool-cases, le→leb,
  if◌then◌else◌, arith, Bytes, length, drop, length-append, drop-append, append_assoc, append-nil,
}
use mshell.Wire.{htonu32, ntohu32, store_u64, ntohu64}
use mshell.Wire.Words.{ntohu32-drop, ntohu32-htonu32, ntohu64-drop, u64_bytes}
use mshell.StringBuf.{
  StringBuf, Reader, and_then, advance, check_length, get_byte, get_boolean, get_u32, get_u64,
  get_slice, get_string, copy_string, pure, fail,
}
use mshell.StringBuf.Encode.{string_of}
use mshell.StringBuf.Refine.{
  IsValid, remaining, check_length-remaining, advance-IsValid, remaining-advance,
}

-- Where the bytes left begin with `xs`, the reader returns `a` and moves behind them.
abbrev pub Reads : {A : Type 0} → Reader A → Bytes → A → Type 0
Reads m xs a =
    (b : StringBuf) (rest : Bytes)
    → IsValid b
    → remaining b ≡ xs ++ rest
    → m b ≡ (some a, advance b (length xs))

pub pure-Reads : {A : Type 0} (a : A) → Reads (pure a) [] a
pure-Reads a b rest v e = ap (λ k. (some a, record b { pos = k })) {x = b.pos} (omega arith)

pub Reads-bind :
    {A B : Type 0} (m : Reader A) (f : A → Reader B) (xs ys : Bytes) (a : A) (c : B)
    → Reads m xs a
    → Reads (f a) ys c
    → Reads (λ b. and_then (m b) f) (xs ++ ys) c
Reads-bind m f xs ys a c hm hf b rest v e =
    let e' : remaining b ≡ xs ++ (ys ++ rest) = e ∙ append_assoc xs ys rest in
    let fits : length xs ≤ length (remaining b) =
      omega (arith, ap length e', length-append xs (ys ++ rest)) in
    let left : remaining (advance b (length xs)) ≡ ys ++ rest =
      remaining-advance b (length xs) ∙ ap (drop (length xs)) e' ∙ drop-append xs (ys ++ rest) in
    ap (λ r. and_then r f) (hm b (ys ++ rest) v e')
    ∙ hf (advance b (length xs)) rest (advance-IsValid b (length xs) v fits) left
    ∙ ap (λ k. (some c, record b { pos = k })) {x = b.pos + length xs + length ys}
        (omega (arith, length-append xs ys))

-- A bind whose second reader takes nothing.
pub Reads-bind_nil :
    {A B : Type 0} (m : Reader A) (f : A → Reader B) (xs : Bytes) (a : A) (c : B)
    → Reads m xs a
    → Reads (f a) [] c
    → Reads (λ b. and_then (m b) f) xs c
Reads-bind_nil m f xs a c hm hf =
    subst (λ ys. Reads (λ b. and_then (m b) f) ys c) (append-nil xs)
      (Reads-bind m f xs [] a c hm hf)

pub if-Reads :
    {A : Type 0} (t : Bool) (m : Reader A) (xs : Bytes) (a d : A)
    → Reads m xs a
    → Reads (if t then m else pure d) (if t then xs else []) (if t then a else d)
if-Reads true m xs a d h = h
if-Reads false m xs a d h = pure-Reads d

pub get_u32-Reads : (n : ℕ) → n < 2 ^ 32 → Reads get_u32 (htonu32 n) n
unfolding get_u32 htonu32
get_u32-Reads n h b rest v e =
    let enough : check_length b 4 ≡ true =
      check_length-remaining b 4 v ∙ le→leb 4 (length (remaining b)) (omega (arith, ap length e)) in
    let value : ntohu32 b.bytes b.pos ≡ n =
      ntohu32-drop b.pos b.bytes ∙ ap (λ xs. ntohu32 xs 0) e ∙ ntohu32-htonu32 n rest h in
    rw enough (ap (λ k. (some k, advance b 4)) value)

pub get_u64-Reads : (n : ℕ) → n < 2 ^ 64 → Reads get_u64 (store_u64 [] n) n
unfolding get_u64 store_u64
get_u64-Reads n h b rest v e =
    let enough : check_length b 8 ≡ true =
      check_length-remaining b 8 v ∙ le→leb 8 (length (remaining b)) (omega (arith, ap length e)) in
    let value : ntohu64 b.bytes b.pos ≡ n =
      ntohu64-drop b.pos b.bytes ∙ ap (λ xs. ntohu64 xs 0) e ∙ u64_bytes n rest h in
    rw enough (ap (λ k. (some k, advance b 8)) value)

module _ (s : Bytes) where
  get_slice-Reads : Reads (get_slice (length s)) s s
  unfolding get_slice
  get_slice-Reads b rest v e =
      let enough : check_length b (length s) ≡ true =
        check_length-remaining b (length s) v
        ∙ le→leb (length s) (length (remaining b))
            (omega (arith, ap length e, length-append s rest)) in
      rw enough
        (ap (λ t. (some t, advance b (length s))) (ap (take (length s)) e ∙ take-append s rest))

  pub get_string-Reads : length s < 2 ^ 32 → Reads get_string (string_of s) s
  unfolding get_string
  get_string-Reads h =
      Reads-bind get_u32 get_slice (htonu32 (length s)) s (length s) s (get_u32-Reads (length s) h)
        get_slice-Reads

  pub copy_string-Reads :
      (alloc : ℕ → Bool)
      → alloc (length s) ≡ true
      → length s < 2 ^ 32
      → Reads (copy_string alloc) (string_of s) s
  unfolding copy_string
  copy_string-Reads alloc room h b rest v e =
      ap (λ r. and_then r (λ str. if length str == 0 || alloc (length str) then pure str else fail))
        (get_string-Reads h b rest v e)
      ∙ allowed (advance b (length (string_of s)))
    where
      allowed :
          (b' : StringBuf)
          → (if length s == 0 || alloc (length s) then pure s else fail) b' ≡ (some s, b')
      allowed b' = elim (Bool-cases (length s == 0)) [
        | inl z ↦ rw z refl
        | inr z ↦ rw z (rw room refl)
      ]

-- A byte, and a byte that is a flag.
module _ (c : ℕ) (b : StringBuf) (rest : Bytes) (v : IsValid b)
    (e : remaining b ≡ (c ∷ []) ++ rest) where
  one_left : check_length b 1 ≡ true
  one_left =
      check_length-remaining b 1 v ∙ le→leb 1 (length (remaining b)) (omega (arith, ap length e))

  first_left : get_or b.bytes b.pos 0 ≡ c
  first_left = sym (get_or-drop_zero b.pos b.bytes 0) ∙ ap (λ ys. get_or ys 0 0) e

pub get_byte-Reads : (c : ℕ) → Reads get_byte (c ∷ []) c
unfolding get_byte
get_byte-Reads c b rest v e =
    rw (one_left c b rest v e) (ap (λ k. (some k, advance b 1)) (first_left c b rest v e))

pub get_boolean-Reads : (c : ℕ) → c < 2 → Reads get_boolean (c ∷ []) c
unfolding get_boolean
get_boolean-Reads c h b rest v e = rw (one_left c b rest v e) (
    ap (λ k. (some (if k == 0 then 0 else 1), advance b 1)) (first_left c b rest v e)
    ∙ ap (λ k. (some k, advance b 1)) (flag c h))
  where
    flag : (c : ℕ) → c < 2 → (if c == 0 then 0 else 1) ≡ c
    flag c h = ground arith
