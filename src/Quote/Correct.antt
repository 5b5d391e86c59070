-- ===== src/Quote/Correct.antt =====
-- What `shell_quotearg` returns, and that a shell reads it back.
use mshell.Prelude.{
  ℕ, suc, ◌+◌, ◌≤◌, ◌<◌, ◌≡◌, refl, ◌∙◌, ap, sym, Option, none, some, [], ◌∷◌, ◌++◌, arith, ltb,
  leb, if◌then◌else◌, Bytes, length, length-append, append_assoc, append-nil, Bool-cases, inl, inr,
  ltb→lt,
}
use mshell.Quote.{
  State, uqstring, sqstring, qstring, kind, prefix, next, store, closing, quote_loop,
  shell_quotearg, ◌>>=◌,
}
use mshell.Quote.Shell.{Mode, plain, single, double, unquote}

-- The text without any buffer: quoting from a state on, closing included.
unfoldable pub quoted : State → Bytes → Bytes
quoted state [] = closing state
quoted state (c ∷ cs) = prefix (kind c) state ++ c ∷ quoted (next (kind c)) cs

abbrev mode_of : State → Mode
mode_of uqstring = plain
mode_of sqstring = single
mode_of qstring = double

-- A shell reads the quoted text back as the path, byte for byte, whatever bytes it has.
pub unquote-quoted :
    (state : State) (cs : Bytes) → unquote (mode_of state) (quoted state cs) ≡ some cs
unfolding unquote quoted closing prefix next kind
unquote-quoted uqstring [] = refl
unquote-quoted sqstring [] = refl
unquote-quoted qstring [] = refl
unquote-quoted uqstring (c ∷ cs) =
    ground
      (arith, unquote-quoted uqstring cs, unquote-quoted sqstring cs, unquote-quoted qstring cs)
unquote-quoted sqstring (c ∷ cs) =
    ground
      (arith, unquote-quoted uqstring cs, unquote-quoted sqstring cs, unquote-quoted qstring cs)
unquote-quoted qstring (c ∷ cs) =
    ground
      (arith, unquote-quoted uqstring cs, unquote-quoted sqstring cs, unquote-quoted qstring cs)

abbrev pub fitted : ℕ → Bytes → Option Bytes
fitted n out = if ltb (length out + 1) n then some out else none

-- The end of the function: the closing mark and the room for the NUL.
abbrev finish : ℕ → State × Bytes → Option Bytes
finish n (state, out) = store n out (closing state) >>= λ closed.
    if leb n (length closed + 1) then none else some closed

fitted-none : (n : ℕ) (out : Bytes) → n ≤ length out + 1 → fitted n out ≡ none
fitted-none n out h = ground arith

module _ (n : ℕ) (out : Bytes) where
  store-none : (bs : Bytes) → length out < n → n ≤ length out + length bs → store n out bs ≡ none
  unfolding store
  store-none [] room h = absurd (omega arith)
  store-none (b ∷ bs) room h = ground arith

  store-some : (bs : Bytes) → length out + length bs < n → store n out bs ≡ some (out ++ bs)
  unfolding store
  store-some [] h = ap some (sym (append-nil out))
  store-some (b ∷ bs) h = ground arith

  finish-fitted : (state : State) → finish n (state, out) ≡ fitted n (out ++ closing state)
  unfolding store closing
  finish-fitted uqstring = ground (arith, append-nil out)
  finish-fitted sqstring = ground (arith, length-append out (b'\'' ∷ []))
  finish-fitted qstring = ground (arith, length-append out (b'"' ∷ []))

quote_loop_step :
    (n c : ℕ) (cs : Bytes) (state : State) (out : Bytes)
    → quote_loop n (c ∷ cs) state out ≡ (
        if ltb (length out + 1) n
        then (store n out (prefix (kind c) state) >>= λ opened.
            store n opened (c ∷ []) >>= λ copied. quote_loop n cs (next (kind c)) copied)
        else some (state, out))
unfolding quote_loop
quote_loop_step n c cs state out = ground arith

-- Both writes of a round, against the room for what they append.
module _ (n c : ℕ) (p out : Bytes) (k : Bytes → Option (State × Bytes)) where
  abbrev round : Option (State × Bytes)
  round = store n out p >>= λ opened. store n opened (c ∷ []) >>= k

  round-some : length out + length p + 1 < n → round ≡ k ((out ++ p) ++ c ∷ [])
  round-some h = rw (
    store-some n out p (omega arith),
    store-some n (out ++ p) (c ∷ []) (omega (arith, length-append out p)),
  )

  round-none : length out < n → n ≤ length out + length p + 1 → round ≡ none
  round-none room h = elim (Bool-cases (ltb (length out + length p) n)) [
    | inl e ↦ rw (
      store-some n out p (ltb→lt _ _ e),
      store-none n (out ++ p) (c ∷ []) (omega (arith, length-append out p, ltb→lt _ _ e))
          (omega (arith, length-append out p)),
    )
    | inr e ↦ rw (store-none n out p room (ground arith))
  ]

pub length-quoted_step :
    (state : State) (c : ℕ) (cs : Bytes)
    → length (quoted state (c ∷ cs))
      ≡ length (prefix (kind c) state) + suc (length (quoted (next (kind c)) cs))
unfolding quoted
length-quoted_step state c cs =
    length-append (prefix (kind c) state) (c ∷ quoted (next (kind c)) cs)

-- With the room for the mark and for the byte the loop goes on; without it the function fails, as
-- it must, since the text only grows.
quote_loop-fitted :
    (n : ℕ) (cs : Bytes) (state : State) (out : Bytes)
    → (quote_loop n cs state out >>= finish n) ≡ fitted n (out ++ quoted state cs)
quote_loop-fitted n [] state out = unfold quote_loop quoted in finish-fitted n out state
quote_loop-fitted n (c ∷ cs) state out = elim (Bool-cases (ltb (length out + 1) n)) [
  | inl room ↦
      rw (quote_loop_step, room)
        (elim (Bool-cases (ltb (length out + length (prefix (kind c) state) + 1) n)) [
          | inl fits ↦
              ap (λ r. r >>= finish n)
                (round-some n c (prefix (kind c) state) out _ (ltb→lt _ _ fits))
              ∙ quote_loop-fitted n cs (next (kind c)) ((out ++ prefix (kind c) state) ++ c ∷ [])
              ∙ ap (fitted n) (unfold quoted in rw (append_assoc, append_assoc))
          | inr over ↦
              ap (λ r. r >>= finish n)
                (round-none n c (prefix (kind c) state) out _ (ground arith) (ground arith))
              ∙ sym (
                  fitted-none n _ (
                    ground (
                      arith,
                      length-append out (quoted state (c ∷ cs)),
                      length-quoted_step state c cs,
                    )))
        ])
  | inr full ↦
      rw (quote_loop_step, full)
        (finish-fitted n out state
          ∙ fitted-none n _ (ground (arith, length-append out (closing state)))
          ∙ sym (fitted-none n _ (ground (arith, length-append out (quoted state (c ∷ cs))))))
]

-- `shell_quotearg` returns exactly the quoted text of the whole path when the buffer has more than
-- one byte to spare beyond it, and fails otherwise: it never returns a part of it.
pub shell_quotearg-quoted :
    (path : Bytes) (bufsize : ℕ)
    → shell_quotearg path bufsize ≡ (
        if ltb (length (quoted uqstring path) + 1) bufsize
        then some (quoted uqstring path)
        else none)
unfolding shell_quotearg
shell_quotearg-quoted path n = quote_loop-fitted n path uqstring []
