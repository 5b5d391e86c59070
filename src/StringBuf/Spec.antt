-- ===== src/StringBuf/Spec.antt =====
-- What the readers promise, as parsers of the bytes that are left: no pointer and no length field.
use mshell.Prelude.{ℕ, Option, none, some, [], ◌∷◌, leb, if◌then◌else◌, Bytes, length, take, drop}
use mshell.Wire.Words.{word32}

abbrev pub Parser : Type 0 → Type 0
Parser A = Bytes → Option (A × Bytes)

abbrev pub then_parse : {A B : Type 0} → Option (A × Bytes) → (A → Parser B) → Option (B × Bytes)
then_parse none f = none
then_parse (some (a, xs)) f = f a xs

infixl 5 ◌>>=◌ ◌>>◌
abbrev pub ◌>>=◌ : {A B : Type 0} → Parser A → (A → Parser B) → Parser B
◌>>=◌ p f xs = then_parse (p xs) f

abbrev pub ◌>>◌ : {A B : Type 0} → Parser A → Parser B → Parser B
p >> k = p >>= λ _. k

abbrev pub pure : {A : Type 0} → A → Parser A
pure a xs = some (a, xs)

unfoldable pub byte : Parser ℕ
byte [] = none
byte (x ∷ xs) = some (x, xs)

unfoldable pub u32 : Parser ℕ
u32 (a ∷ b ∷ c ∷ d ∷ xs) = some (word32 a b c d, xs)
u32 _ = none

unfoldable pub slice : ℕ → Parser Bytes
slice n xs = if leb n (length xs) then some (take n xs, drop n xs) else none

unfoldable pub string : Parser Bytes
unfolding u32 slice
string = do n ← u32; slice n
