-- ===== src/Quote/Tests.antt =====
-- Runs of `shell_quotearg`, among them the examples of its comment, and the theorems at inputs.
use mshell.Prelude.{◌≡◌, refl, none, some, [], ◌∷◌, arith, Bytes}
use mshell.Quote.{shell_quotearg}
use mshell.Quote.Shell.{plain, unquote}
use mshell.Quote.Bounds.{shell_quotearg-unquote}

-- a'b!
abbrev path : Bytes
path = b'a' ∷ b'\'' ∷ b'b' ∷ b'!' ∷ []

-- 'a'"'"'b'\!
abbrev text : Bytes
text = b'\'' ∷ b'a' ∷ b'\'' ∷ b'"' ∷ b'\'' ∷ b'"' ∷ b'\'' ∷ b'b' ∷ b'\'' ∷ b'\\' ∷ b'!' ∷ []

quote_path : shell_quotearg path 14 ≡ some text
unfolding shell_quotearg
quote_path = refl

quote_cut : shell_quotearg path 12 ≡ none
unfolding shell_quotearg
quote_cut = refl

shell_quotearg-unquote_example :
    (out : Bytes) × (shell_quotearg path 14 ≡ some out) × (unquote plain out ≡ some path)
shell_quotearg-unquote_example = shell_quotearg-unquote path 14 (omega arith)
