-- ===== src/Quote/Bounds.antt =====
-- `_libssh2_shell_quotedsize` is enough.
use mshell.Prelude.{ℕ, ◌+◌, ◌*◌, ◌≤◌, ◌≡◌, ◌∙◌, some, [], ◌∷◌, arith, lt→ltb, Bytes, length}
use mshell.Quote.{
  State, uqstring, sqstring, qstring, kind, prefix, next, closing, shell_quotearg, shell_quotedsize,
}
use mshell.Quote.Shell.{plain, unquote}
use mshell.Quote.Correct.{quoted, length-quoted_step, unquote-quoted, shell_quotearg-quoted}

-- A byte adds three bytes at most, the change of the closing mark counted.
round_growth :
    (c : ℕ) (state : State)
    → length (prefix (kind c) state) + 1 + length (closing (next (kind c)))
      ≤ length (closing state) + 3
unfolding prefix next closing kind
round_growth c uqstring = ground arith
round_growth c sqstring = ground arith
round_growth c qstring = ground arith

pub length-quoted-le :
    (state : State) (cs : Bytes) → length (quoted state cs) ≤ 3 * length cs + length (closing state)
length-quoted-le state [] = unfold quoted in omega arith
length-quoted-le state (c ∷ cs) = omega (
  arith,
  length-quoted_step state c cs,
  round_growth c state,
  length-quoted-le (next (kind c)) cs,
)

-- With a buffer of `3 * strlen(path) + 2` bytes or more the function succeeds on every path, and a
-- shell reads its result back as that path.
pub shell_quotearg-unquote :
    (path : Bytes) (bufsize : ℕ)
    → shell_quotedsize path ≤ bufsize
    → (out : Bytes) × (shell_quotearg path bufsize ≡ some out) × (unquote plain out ≡ some path)
shell_quotearg-unquote path n h = (
  quoted uqstring path,
  shell_quotearg-quoted path n
      ∙ rw (
          lt→ltb (length (quoted uqstring path) + 1) n
            (unfold closing in omega (arith, length-quoted-le uqstring path))),
  unquote-quoted uqstring path,
)
