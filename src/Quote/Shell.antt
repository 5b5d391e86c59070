-- ===== src/Quote/Shell.antt =====
-- How a shell reads one word back. A byte that the shell would expand, or end the word at, is an
-- error: unquoted text, `\`, `$` and a backquote between double quotes, and csh's history mark `!`
-- anywhere but behind a backslash.
use mshell.Prelude.{ℕ, ◌||◌, Option, none, some, [], ◌∷◌, ◌==◌, if◌then◌else◌, Bytes}

pub data Mode : Type 0 where
  plain single double escape : Mode

-- The mode after a byte, and the byte that it stands for, if any.
unfoldable pub step : Mode → ℕ → Option (Mode × Option ℕ)
step plain c =
    if c == b'\''
    then some (single, none)
    else if c == b'"'
    then some (double, none)
    else if c == b'\\'
    then some (escape, none)
    else none
step single c =
    if c == b'\'' then some (plain, none) else if c == b'!' then none else some (single, some c)
step double c =
    if c == b'"'
    then some (plain, none)
    else if c == b'\\' || c == b'$' || c == b'`' || c == b'!'
    then none
    else some (double, some c)
step escape c = some (plain, some c)

abbrev emit : Option ℕ → Option Bytes → Option Bytes
emit e none = none
emit none (some bs) = some bs
emit (some c) (some bs) = some (c ∷ bs)

abbrev pub go_on : Option (Mode × Option ℕ) → (Mode → Option Bytes) → Option Bytes
go_on none rest = none
go_on (some (m, e)) rest = emit e (rest m)

-- The word that a text stands for. It must end outside of quotation marks.
unfoldable pub unquote : Mode → Bytes → Option Bytes
unfolding step
unquote plain [] = some []
unquote _ [] = none
unquote m (c ∷ cs) = go_on (step m c) λ m'. unquote m' cs
