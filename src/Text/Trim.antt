-- ===== src/Text/Trim.antt =====
-- What the functions on text make of a text that is put together.
use mshell.Prelude.{
  ℕ, ◌≡◌, ◌≢◌, refl, ap, ◌∙◌, Bool, true, false, none, some, List, [], ◌∷◌, ◌++◌, ne→==, All,
}
use mshell.Text.{
  Text, is_whitespace, trim_start, trimmed, trim_end, trim, to_first, lines, before_first, split_at,
}

pub All-implies {ℓ κ ι} :
    {A : Type ℓ} {P : A → Type κ} {Q : A → Type ι}
    → ((a : A) → P a → Q a)
    → (xs : List A) → All P xs
    → All Q xs
All-implies f [] h = tt
All-implies f (a ∷ xs) h = (f a (h.0), All-implies f xs (h.1))

pub All-append {ℓ κ} :
    {A : Type ℓ} (P : A → Type κ) (xs ys : List A) → All P xs → All P ys → All P (xs ++ ys)
All-append P [] ys h k = k
All-append P (a ∷ xs) ys h k = (h.0, All-append P xs ys (h.1) k)

abbrev pub IsSpace : ℕ → Type 0
IsSpace c = is_whitespace c ≡ true

-- A text that starts and ends with something else than white space.
abbrev pub IsStarted : Text → Type 0
IsStarted [] = ⊥
IsStarted (c ∷ cs) = is_whitespace c ≡ false

abbrev pub IsEnded : Text → Type 0
IsEnded [] = ⊥
IsEnded (c ∷ []) = is_whitespace c ≡ false
IsEnded (c ∷ d ∷ cs) = IsEnded (d ∷ cs)

trim_start-spaces : (b s : Text) → All IsSpace b → trim_start (b ++ s) ≡ trim_start s
unfolding trim_start
trim_start-spaces [] s h = refl
trim_start-spaces (c ∷ b) s h = rw (h.0) (trim_start-spaces b s (h.1))

trim_start-started : (s : Text) → IsStarted s → trim_start s ≡ s
unfolding trim_start
trim_start-started [] h = elim h [ ]
trim_start-started (c ∷ cs) h = rw h refl

trim_end-spaces : (b : Text) → All IsSpace b → trim_end b ≡ []
unfolding trim_end
trim_end-spaces [] h = refl
trim_end-spaces (c ∷ b) h = ap (trimmed c) (trim_end-spaces b (h.1)) ∙ rw (h.0) refl

trim_end-append : (s b : Text) → All IsSpace b → trim_end (s ++ b) ≡ trim_end s
unfolding trim_end
trim_end-append [] b h = trim_end-spaces b h
trim_end-append (c ∷ s) b h = ap (trimmed c) (trim_end-append s b h)

trim_end-ended : (s : Text) → IsEnded s → trim_end s ≡ s
unfolding trim_end
trim_end-ended [] h = elim h [ ]
trim_end-ended (c ∷ []) h = rw h refl
trim_end-ended (c ∷ d ∷ cs) h = ap (trimmed c) (trim_end-ended (d ∷ cs) h)

IsStarted-append : (s b : Text) → IsStarted s → IsStarted (s ++ b)
IsStarted-append [] b h = elim h [ ]
IsStarted-append (c ∷ s) b h = h

pub trim-around :
    (a s b : Text)
    → All IsSpace a
    → IsStarted s
    → IsEnded s
    → All IsSpace b
    → trim (a ++ (s ++ b)) ≡ s
unfolding trim
trim-around a s b ha hs he hb =
    ap trim_end
      (trim_start-spaces a (s ++ b) ha ∙ trim_start-started (s ++ b) (IsStarted-append s b hs))
    ∙ trim_end-append s b hb
    ∙ trim_end-ended s he

pub trim-spaces : (a : Text) → All IsSpace a → trim a ≡ []
unfolding trim trim_start trim_end
trim-spaces [] h = refl
trim-spaces (c ∷ a) h = rw (h.0) (trim-spaces a (h.1))

-- No end of a line.
abbrev pub InLine : ℕ → Type 0
InLine c = (c ≢ 10) × (c ≢ 13)

to_first-line : (c : ℕ) (l : Text) (ls : List Text) → to_first c (l ∷ ls) ≡ (c ∷ l) ∷ ls
to_first-line c l ls = refl

pub lines-lf : (l rest : Text) → All InLine l → lines (l ++ 10 ∷ rest) ≡ l ∷ lines rest
unfolding lines
lines-lf [] rest h = refl
lines-lf (c ∷ l) rest h =
    rw (ne→== c 10 (h.0.0)) (rw (ne→== c 13 (h.0.1)) (ap (to_first c) (lines-lf l rest (h.1))))

pub lines-crlf : (l rest : Text) → All InLine l → lines (l ++ 13 ∷ 10 ∷ rest) ≡ l ∷ lines rest
unfolding lines
lines-crlf [] rest h = refl
lines-crlf (c ∷ l) rest h =
    rw (ne→== c 10 (h.0.0)) (rw (ne→== c 13 (h.0.1)) (ap (to_first c) (lines-crlf l rest (h.1))))

module _ (test : ℕ → Bool) where
  pub split_at-append :
      (k : Text) (c : ℕ) (v : Text)
      → All (λ d. test d ≡ false) k
      → test c ≡ true
      → split_at test (k ++ c ∷ v) ≡ some (k, v)
  unfolding split_at
  split_at-append [] c v h t = rw t refl
  split_at-append (d ∷ k) c v h t = rw (h.0) (ap (before_first d) (split_at-append k c v (h.1) t))

  pub split_at-none : (s : Text) → All (λ d. test d ≡ false) s → split_at test s ≡ none
  unfolding split_at
  split_at-none [] h = refl
  split_at-none (d ∷ s) h = rw (h.0) (ap (before_first d) (split_at-none s (h.1)))

trimmed-solid : (c : ℕ) (t : Text) → is_whitespace c ≡ false → trimmed c t ≡ c ∷ t
trimmed-solid c [] h = rw h refl
trimmed-solid c (d ∷ t) h = refl

trim_end-after : (s t : Text) → IsEnded s → trim_end (s ++ t) ≡ s ++ trim_end t
unfolding trim_end
trim_end-after [] t h = elim h [ ]
trim_end-after (c ∷ []) t h = trimmed-solid c (trim_end t) h
trim_end-after (c ∷ d ∷ s) t h = ap (trimmed c) (trim_end-after (d ∷ s) t h)

-- What is left of a text behind a part that ends with something else than white space.
pub trim-before :
    (a s t : Text)
    → All IsSpace a
    → IsStarted s
    → IsEnded s
    → trim (a ++ (s ++ t)) ≡ s ++ trim_end t
unfolding trim
trim-before a s t ha hs he =
    ap trim_end
      (trim_start-spaces a (s ++ t) ha ∙ trim_start-started (s ++ t) (IsStarted-append s t hs))
    ∙ trim_end-after s t he

pub trim-solid : (c : ℕ) (t : Text) → is_whitespace c ≡ false → trim (c ∷ t) ≡ c ∷ trim_end t
unfolding trim trim_end
trim-solid c t h = ap trim_end (trim_start-started (c ∷ t) h) ∙ trimmed-solid c (trim_end t) h
