-- ===== src/Text/Words.antt =====
-- The words of a line and the parts of a list.
use mshell.Prelude.{ℕ, ◌≡◌, ◌≢◌, refl, ap, ◌∙◌, true, false, List, [], ◌∷◌, ◌++◌, ne→==, eq→==, All}
use mshell.Text.{Text, is_whitespace, starts_space, to_first, split_whitespace, split}
use mshell.Text.Trim.{IsSpace, InLine}

-- A word: characters that are not white space.
abbrev pub IsInWord : ℕ → Type 0
IsInWord c = is_whitespace c ≡ false

pub split_whitespace-spaces :
    (b s : Text) → All IsSpace b → split_whitespace (b ++ s) ≡ split_whitespace s
unfolding split_whitespace
split_whitespace-spaces [] s h = refl
split_whitespace-spaces (c ∷ b) s h = rw (h.0) (split_whitespace-spaces b s (h.1))

split_whitespace-cons :
    (d : ℕ) (s : Text)
    → IsInWord d
    → starts_space s ≡ false
    → split_whitespace (d ∷ s) ≡ to_first d (split_whitespace s)
unfolding split_whitespace
split_whitespace-cons d s h n = rw h (rw n refl)

split_whitespace-end :
    (d : ℕ) (s : Text)
    → IsInWord d
    → starts_space s ≡ true
    → split_whitespace (d ∷ s) ≡ (d ∷ []) ∷ split_whitespace s
unfolding split_whitespace
split_whitespace-end d s h n = rw h (rw n refl)

-- A word that white space follows.
pub split_whitespace-word :
    (w : Text) (c : ℕ) (rest : Text)
    → w ≢ []
    → All IsInWord w
    → IsSpace c
    → split_whitespace (w ++ (c ∷ rest)) ≡ w ∷ split_whitespace rest
split_whitespace-word [] c rest n h s = absurd (n refl)
split_whitespace-word (d ∷ []) c rest n h s =
    split_whitespace-end d (c ∷ rest) (h.0) s
    ∙ ap (λ t. (d ∷ []) ∷ t) (split_whitespace-spaces (c ∷ []) rest (s, tt))
split_whitespace-word (d ∷ e ∷ w) c rest n h s =
    split_whitespace-cons d _ (h.0) (h.1.0)
    ∙ ap (to_first d) (split_whitespace-word (e ∷ w) c rest (λ p. cc) (h.1) s)

-- The last word.
pub split_whitespace-last : (w : Text) → w ≢ [] → All IsInWord w → split_whitespace w ≡ w ∷ []
unfolding split_whitespace
split_whitespace-last [] n h = absurd (n refl)
split_whitespace-last (d ∷ []) n h = split_whitespace-end d [] (h.0) refl
split_whitespace-last (d ∷ e ∷ w) n h =
    split_whitespace-cons d (e ∷ w) (h.0) (h.1.0)
    ∙ ap (to_first d) (split_whitespace-last (e ∷ w) (λ p. cc) (h.1))

-- Parts with the separator before each but the first.
abbrev pub separated : ℕ → Text → List Text → Text
separated x part [] = part
separated x part (p ∷ parts) = part ++ (x ∷ separated x p parts)

split-part :
    (x : ℕ) (part rest : Text)
    → All (λ c. c ≢ x) part
    → split x (part ++ (x ∷ rest)) ≡ part ∷ split x rest
unfolding split
split-part x [] rest h = rw (eq→== x x refl) refl
split-part x (c ∷ part) rest h =
    rw (ne→== c x (h.0)) (ap (to_first c) (split-part x part rest (h.1)))

split-last : (x : ℕ) (part : Text) → All (λ c. c ≢ x) part → split x part ≡ part ∷ []
unfolding split
split-last x [] h = refl
split-last x (c ∷ part) h = rw (ne→== c x (h.0)) (ap (to_first c) (split-last x part (h.1)))

pub split-separated :
    (x : ℕ) (part : Text) (parts : List Text)
    → All (λ c. c ≢ x) part
    → All (All λ c. c ≢ x) parts
    → split x (separated x part parts) ≡ part ∷ parts
split-separated x part [] h hs = split-last x part h
split-separated x part (p ∷ parts) h hs =
    split-part x part (separated x p parts) h
    ∙ ap (λ t. part ∷ t) (split-separated x p parts (hs.0) (hs.1))

-- White space and other characters differ.
pub word-ne : (c d : ℕ) → IsSpace d → IsInWord c → c ≢ d
word-ne c d s n e = cc (n, s, e)

pub InWord-InLine : (c : ℕ) → IsInWord c → InLine c
unfolding is_whitespace
InWord-InLine c h = (word-ne c 10 refl h, word-ne c 13 refl h)
