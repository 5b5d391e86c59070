-- ===== src/Text.antt =====
-- The functions on `str` of Rust's standard library that the application's parsers call. A text is
-- the list of its code points.
pub mod Trim
pub mod Words
use mshell.Prelude.{
  ℕ, ◌+◌, ◌*◌, ◌-◌, Bool, true, false, ◌&&◌, ◌||◌, Option, none, some, List, [], ◌∷◌, map, ltb, leb,
  ◌==◌, if◌then◌else◌, bytes_eq,
}

abbrev pub Text : Type 0
Text = List ℕ

abbrev pub eq_text : Text → Text → Bool
eq_text = bytes_eq

abbrev pub is_empty {ℓ} : {A : Type ℓ} → List A → Bool
is_empty [] = true
is_empty (c ∷ cs) = false

-- `char::is_whitespace`: the property White_Space of Unicode.
unfoldable pub is_whitespace : ℕ → Bool
is_whitespace c =
    (leb 9 c && leb c 13)
    || c == 32
    || c == 133
    || c == 160
    || c == 5760
    || (leb 8192 c && leb c 8202)
    || c == 8232
    || c == 8233
    || c == 8239
    || c == 8287
    || c == 12288

unfoldable pub trim_start : Text → Text
trim_start [] = []
trim_start (c ∷ cs) = let rest = trim_start cs in if is_whitespace c then rest else c ∷ cs

-- A character before the part that is kept, which may be empty.
abbrev pub trimmed : ℕ → Text → Text
trimmed c [] = if is_whitespace c then [] else c ∷ []
trimmed c (d ∷ cs) = c ∷ d ∷ cs

unfoldable pub trim_end : Text → Text
trim_end [] = []
trim_end (c ∷ cs) = trimmed c (trim_end cs)

unfoldable pub trim : Text → Text
unfolding trim_start trim_end
trim s = trim_end (trim_start s)

abbrev pub starts_line_feed : Text → Bool
starts_line_feed [] = false
starts_line_feed (c ∷ cs) = c == 10

abbrev pub to_first : ℕ → List Text → List Text
to_first c [] = (c ∷ []) ∷ []
to_first c (l ∷ ls) = (c ∷ l) ∷ ls

-- `str::lines`: a line ends with LF or CR LF, or with the text.
unfoldable pub lines : Text → List Text
lines [] = []
lines (c ∷ cs) =
    let rest = lines cs in
    if c == 10 then [] ∷ rest else if c == 13 && starts_line_feed cs then rest else to_first c rest

abbrev pub starts_space : Text → Bool
starts_space [] = true
starts_space (c ∷ cs) = is_whitespace c

unfoldable pub split_whitespace : Text → List Text
split_whitespace [] = []
split_whitespace (c ∷ cs) =
    let rest = split_whitespace cs in
    if is_whitespace c then rest else if starts_space cs then (c ∷ []) ∷ rest else to_first c rest

abbrev pub ascii_lower : ℕ → ℕ
ascii_lower c = if leb 65 c && leb c 90 then c + 32 else c

unfoldable pub to_ascii_lowercase : Text → Text
to_ascii_lowercase s = map ascii_lower s

unfoldable pub contains_char : ℕ → Text → Bool
contains_char x [] = false
contains_char x (c ∷ cs) = let rest = contains_char x cs in if c == x then true else rest

abbrev pub before_first : ℕ → Option (Text × Text) → Option (Text × Text)
before_first c none = none
before_first c (some (k, v)) = some (c ∷ k, v)

-- The text before and behind the first character of which `test` holds.
unfoldable pub split_at : (ℕ → Bool) → Text → Option (Text × Text)
split_at test [] = none
split_at test (c ∷ cs) =
    let rest = split_at test cs in if test c then some ([], cs) else before_first c rest

-- `split_once` of a character
abbrev pub split_once : ℕ → Text → Option (Text × Text)
split_once x s = split_at (λ c. c == x) s

-- `split_once` of two characters
unfoldable pub split_once_pair : ℕ → ℕ → Text → Option (Text × Text)
split_once_pair x y [] = none
split_once_pair x y (c ∷ []) = none
split_once_pair x y (c ∷ d ∷ cs) =
    let rest = split_once_pair x y (d ∷ cs) in
    if c == x && d == y then some ([], cs) else before_first c rest

-- `split` of a character; there is always a part.
unfoldable pub split : ℕ → Text → List Text
split x [] = [] ∷ []
split x (c ∷ cs) = let rest = split x cs in if c == x then [] ∷ rest else to_first c rest

unfoldable pub starts_with : Text → Text → Bool
starts_with s [] = true
starts_with [] (p ∷ ps) = false
starts_with (c ∷ cs) (p ∷ ps) = c == p && starts_with cs ps

unfoldable pub ends_with : Text → Text → Bool
ends_with [] suffix = is_empty suffix
ends_with (c ∷ cs) suffix =
    let rest = ends_with cs suffix in if eq_text (c ∷ cs) suffix then true else rest

unfoldable pub all_chars : (ℕ → Bool) → Text → Bool
all_chars test [] = true
all_chars test (c ∷ cs) = test c && all_chars test cs

abbrev pub is_digit : ℕ → Bool
is_digit c = leb 48 c && leb c 57

abbrev pub bounded : ℕ → Option ℕ
bounded n = if ltb 65535 n then none else some n

-- The digits of a `u16` behind those that make `n`.
unfoldable pub digits_u16 : ℕ → Text → Option ℕ
digits_u16 n [] = bounded n
digits_u16 n (c ∷ cs) =
    let rest = digits_u16 (n * 10 + (c - 48)) cs in if is_digit c then rest else none

abbrev pub some_digits : Text → Option ℕ
some_digits [] = none
some_digits (c ∷ cs) = digits_u16 0 (c ∷ cs)

-- `parse::<u16>`, as an `Option`; one `+` may stand before the digits.
unfoldable pub parse_u16 : Text → Option ℕ
unfolding digits_u16
parse_u16 [] = none
parse_u16 (c ∷ cs) = if c == 43 then some_digits cs else some_digits (c ∷ cs)
