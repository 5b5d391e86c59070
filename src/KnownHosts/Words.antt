-- ===== src/KnownHosts/Words.antt =====
-- The parts of a line that is put together.
use mshell.Prelude.{
  ℕ, ◌≡◌, ◌≢◌, refl, ap, ◌∙◌, true, false, [], ◌∷◌, ◌++◌, Bytes, length, take, All, ne→==,
  append-nil,
}
use mshell.Base64.{c_string}
use mshell.KnownHosts.Read.{
  is_blank, skip_blanks, split_word, split_line, names_before, reversed_onto,
}

-- A byte of a word: no blank, line feed or NUL.
abbrev pub IsWordByte : ℕ → Type 0
IsWordByte c = (is_blank c ≡ false) × (c ≢ 10) × (c ≢ 0)

abbrev pub IsText : ℕ → Type 0
IsText c = (c ≢ 10) × (c ≢ 0)

-- A text that is empty or starts with a blank; one that is empty or starts with none.
abbrev pub IsAfter : Bytes → Type 0
IsAfter [] = Unit
IsAfter (c ∷ cs) = is_blank c ≡ true

abbrev pub IsSolid : Bytes → Type 0
IsSolid [] = Unit
IsSolid (c ∷ cs) = is_blank c ≡ false

pub split_line-text :
    (text rest : Bytes)
    → All (λ c. c ≢ 10) text
    → split_line (text ++ (10 ∷ rest)) ≡ (text, 10 ∷ rest)
unfolding split_line
split_line-text [] rest h = refl
split_line-text (c ∷ text) rest h =
    rw (ne→== c 10 (h.0)) (ap (λ r. (c ∷ r.0, r.1)) (split_line-text text rest (h.1)))

pub skip_blanks-solid : (s : Bytes) → IsSolid s → skip_blanks s ≡ s
unfolding skip_blanks
skip_blanks-solid [] h = refl
skip_blanks-solid (c ∷ s) h = rw h refl

pub skip_blanks-space : (s : Bytes) → IsSolid s → skip_blanks (32 ∷ s) ≡ s
unfolding skip_blanks
skip_blanks-space s h = skip_blanks-solid s h

pub split_word-word :
    (w rest : Bytes) → All IsWordByte w → IsAfter rest → split_word (w ++ rest) ≡ (w, rest)
unfolding split_word
split_word-word [] [] h k = refl
split_word-word [] (c ∷ rest) h k = rw k refl
split_word-word (c ∷ w) rest h k =
    rw (h.0.0) (ap (λ r. (c ∷ r.0, r.1)) (split_word-word w rest (h.1) k))

pub word-IsSolid : (w rest : Bytes) → w ≢ [] → All IsWordByte w → IsSolid (w ++ rest)
word-IsSolid [] rest n h = absurd (n refl)
word-IsSolid (c ∷ w) rest n h = h.0.0

pub c_string-take : (w rest : Bytes) → All IsText w → c_string (take (length w) (w ++ rest)) ≡ w
unfolding c_string
c_string-take [] rest h = refl
c_string-take (c ∷ w) rest h = rw (ne→== c 0 (h.0.1)) (ap (λ t. c ∷ t) (c_string-take w rest (h.1)))

-- A name without a comma is the only one.
abbrev NoComma : Bytes → Type 0
NoComma = All (λ c. c ≢ b',')

names_before-name :
    (c : ℕ) (rev name : Bytes)
    → NoComma rev
    → names_before false (c ∷ rev) name ≡ reversed_onto (c ∷ rev) name ∷ []
unfolding names_before reversed_onto
names_before-name c [] name h = refl
names_before-name c (d ∷ rev) name h =
    rw (ne→== d b',' (h.0)) (names_before-name d rev (c ∷ name) (h.1))

reversed_onto_twice :
    (xs ys zs : Bytes) → reversed_onto (reversed_onto xs ys) zs ≡ reversed_onto ys (xs ++ zs)
unfolding reversed_onto
reversed_onto_twice [] ys zs = refl
reversed_onto_twice (x ∷ xs) ys zs = reversed_onto_twice xs (x ∷ ys) zs

reversed_onto-NoComma : (xs ys : Bytes) → NoComma xs → NoComma ys → NoComma (reversed_onto xs ys)
unfolding reversed_onto
reversed_onto-NoComma [] ys h k = k
reversed_onto-NoComma (x ∷ xs) ys h k = reversed_onto-NoComma xs (x ∷ ys) (h.1) (h.0, k)

names_before-full :
    (rev : Bytes) → rev ≢ [] → NoComma rev → names_before false rev [] ≡ reversed_onto rev [] ∷ []
names_before-full [] n h = absurd (n refl)
names_before-full (c ∷ rev) n h = names_before-name c rev [] (h.1)

reversed_onto-ne : (xs ys : Bytes) → ys ≢ [] → reversed_onto xs ys ≢ []
unfolding reversed_onto
reversed_onto-ne [] ys n = n
reversed_onto-ne (x ∷ xs) ys n = reversed_onto-ne xs (x ∷ ys) (λ e. cc)

reversed-ne : (xs : Bytes) → xs ≢ [] → reversed_onto xs [] ≢ []
unfolding reversed_onto
reversed-ne [] n = n
reversed-ne (x ∷ xs) n = reversed_onto-ne xs (x ∷ []) (λ e. cc)

pub names_before-one :
    (host : Bytes)
    → host ≢ []
    → NoComma host
    → names_before false (reversed_onto host []) [] ≡ host ∷ []
unfolding reversed_onto
names_before-one host n h =
    names_before-full (reversed_onto host []) (reversed-ne host n)
      (reversed_onto-NoComma host [] h tt)
    ∙ ap (λ t. t ∷ []) (reversed_onto_twice host [] [] ∙ append-nil host)
