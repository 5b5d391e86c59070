-- ===== src/Quote.antt =====
-- scp.c, `shell_quotearg`: quoting a path for the remote shell.
--
-- `dst - buf` is the length of the output so far, and `endp - buf` is `bufsize`. The path is the
-- C string's bytes, without the NUL.
pub mod Shell
pub mod Correct
pub mod Bounds
mod Tests
use mshell.Prelude.{
  ℕ, ◌+◌, ◌*◌, Bool, true, false, Option, none, some, List, [], ◌∷◌, ◌++◌, ltb, leb, ◌==◌,
  if◌then◌else◌, Bytes, length,
}

pub data State : Type 0 where
  uqstring sqstring qstring : State

-- The three kinds of characters of `switch(*src)`.
pub data Kind : Type 0 where
  apostrophe exclamation ordinary : Kind

unfoldable pub kind : ℕ → Kind
kind c = if c == b'\'' then apostrophe else if c == b'!' then exclamation else ordinary

-- What a character of each kind writes in front of itself, and the state that it leads to.
unfoldable pub prefix : Kind → State → Bytes
prefix apostrophe uqstring = b'"' ∷ []
prefix apostrophe qstring = []
prefix apostrophe sqstring = b'\'' ∷ b'"' ∷ []
prefix exclamation uqstring = b'\\' ∷ []
prefix exclamation qstring = b'"' ∷ b'\\' ∷ []
prefix exclamation sqstring = b'\'' ∷ b'\\' ∷ []
prefix ordinary uqstring = b'\'' ∷ []
prefix ordinary qstring = b'"' ∷ b'\'' ∷ []
prefix ordinary sqstring = []

unfoldable pub next : Kind → State
next apostrophe = qstring
next exclamation = uqstring
next ordinary = sqstring

-- `if(dst + k >= endp) return 0;` before `k` bytes are stored; no test where `k` is 0.
unfoldable pub store : ℕ → Bytes → Bytes → Option Bytes
store bufsize out [] = some out
store bufsize out (b ∷ bs) =
    if leb bufsize (length out + length (b ∷ bs)) then none else some (out ++ b ∷ bs)

infixl 5 ◌>>=◌
abbrev pub ◌>>=◌ : {A B : Type 0} → Option A → (A → Option B) → Option B
none >>= f = none
some a >>= f = f a

-- The loop, from `src`. It also stops, with input left, when `dst < endp - 1` fails.
unfoldable pub quote_loop : ℕ → Bytes → State → Bytes → Option (State × Bytes)
unfolding store prefix next kind
quote_loop bufsize [] state out = some (state, out)
quote_loop bufsize (c ∷ cs) state out =
    let stop : Option (State × Bytes) = some (state, out) in
    let step : Option (State × Bytes) = do
      opened ← store bufsize out (prefix (kind c) state)
      copied ← store bufsize opened (c ∷ [])
      quote_loop bufsize cs (next (kind c)) copied
    in if ltb (length out + 1) bufsize then step else stop

-- The quotation mark that is still open.
unfoldable pub closing : State → Bytes
closing uqstring = []
closing qstring = b'"' ∷ []
closing sqstring = b'\'' ∷ []

-- The whole function: the bytes written before the NUL, or `none` where it returns 0 for an error.
unfoldable pub shell_quotearg : Bytes → ℕ → Option Bytes
unfolding quote_loop store closing
shell_quotearg path bufsize = do
  (state, out) ← quote_loop bufsize path uqstring []
  closed ← store bufsize out (closing state)
  if leb bufsize (length closed + 1) then none else some closed

-- `_libssh2_shell_quotedsize(s)`.
abbrev pub shell_quotedsize : Bytes → ℕ
shell_quotedsize s = 3 * length s + 2
