-- ===== src/KnownHosts/Reread.antt =====
-- A line that is written, read again: from the line to its host and its key part.
use mshell.Prelude.{
  ℕ, ◌≤◌, ◌≡◌, ◌≢◌, refl, sym, ap, ◌∙◌, Bool, Option, none, some, List, [], ◌∷◌, ◌++◌, Bytes,
  length, All, ne→==, arith, append_assoc,
}
use mshell.Text.Trim.{All-implies, All-append}
use mshell.KnownHosts.{KnownHost, Library}
use mshell.KnownHosts.Read.{
  Reading, skip_blanks, hostline, keyed_line, host_line, knownhost_readline,
}
use mshell.KnownHosts.Write.{spaced, spaced_name, printed}
use mshell.KnownHosts.Words.{
  IsWordByte, IsSolid, split_line-text, split_word-word, skip_blanks-space, skip_blanks-solid,
  word-IsSolid,
}
use mshell.KnownHosts.Keyed.{
  IsKeyed, IsComment, IsTypeName, IsTypeName-ne, keyed_text, keyed_text-long,
}

-- A host part that starts no comment.
abbrev pub IsHostStart : Bytes → Type 0
IsHostStart [] = ⊥
IsHostStart (c ∷ cs) = c ≢ b'#'

abbrev pub line_text : Bytes → KnownHost → Bytes → Bytes
line_text host node name = host ++ (32 ∷ keyed_text node name)

text-NoLineFeed : (w : Bytes) → All IsWordByte w → All (λ c. c ≢ 10) w
text-NoLineFeed w h = All-implies (λ c p. p.1) w h

comment-NoLineFeed : (o : Option Bytes) → IsComment o → All (λ c. c ≢ 10) (spaced o)
comment-NoLineFeed none h = tt
comment-NoLineFeed (some c) h = (λ e. omega (arith, e), All-implies (λ c p. p.0) c (h.1))

spaced_name-name :
    (name rest : Bytes) → IsTypeName name → spaced_name (some name) ++ rest ≡ 32 ∷ (name ++ rest)
spaced_name-name [] rest h = elim h [ ]
spaced_name-name (c ∷ name) rest h = refl

module _ (dsa : Bool) (node : KnownHost) (name : Bytes) (h : IsKeyed dsa node name) where
  keyed_text-NoLineFeed : All (λ c. c ≢ 10) (keyed_text node name)
  keyed_text-NoLineFeed =
      All-append (λ c. c ≢ 10) name _ (text-NoLineFeed name h.type_word)
        (
          λ e. omega (arith, e),
          All-append (λ c. c ≢ 10) node.key _ (text-NoLineFeed node.key h.key_word)
              (comment-NoLineFeed node.comment h.comment_right),
        )

  pub printed-line_text :
      (host : Bytes) → printed host (some name) node ≡ line_text host node name ++ (10 ∷ [])
  printed-line_text host =
      ap (λ t. host ++ t)
        (spaced_name-name name _ h.type_name
          ∙ ap (λ t. 32 ∷ t)
              (ap (λ t. name ++ (32 ∷ t))
                  (sym (append_assoc node.key (spaced node.comment) (10 ∷ [])))
                ∙ sym (append_assoc name (32 ∷ (node.key ++ spaced node.comment)) (10 ∷ []))))
      ∙ sym (append_assoc host (32 ∷ keyed_text node name) (10 ∷ []))

  module _ (lib : Library) (entry_size : ℕ) (hosts : List KnownHost) where
    keyed_line-full :
        (line host key : Bytes)
        → 20 ≤ length key
        → keyed_line lib entry_size dsa hosts line host key (10 ∷ [])
          ≡ hostline lib entry_size dsa hosts line host key (10 ∷ [])
    keyed_line-full line host [] k = absurd (omega arith)
    keyed_line-full line host (c ∷ key) k = refl

    host_line-word :
        (host : Bytes)
        → All IsWordByte host
        → IsHostStart host
        → host_line lib entry_size dsa hosts (line_text host node name) (10 ∷ [])
          ≡ hostline lib entry_size dsa hosts
              (line_text host node name ++ (10 ∷ []))
              host
              (keyed_text node name)
              (10 ∷ [])
    host_line-word [] w s = elim s [ ]
    host_line-word (c ∷ host) w s =
        let line = line_text (c ∷ host) node name ++ (10 ∷ []) in
        let solid =
          word-IsSolid name (32 ∷ (node.key ++ spaced node.comment))
            (IsTypeName-ne name h.type_name) h.type_word in
        rw (ne→== c b'#' s) (
          ap (λ p. keyed_line lib entry_size dsa hosts line (p.0) (skip_blanks p.1) (10 ∷ []))
            (split_word-word (c ∷ host) (32 ∷ keyed_text node name) w refl)
          ∙ ap (λ k. keyed_line lib entry_size dsa hosts line (c ∷ host) k (10 ∷ []))
              (skip_blanks-space (keyed_text node name) solid)
          ∙ keyed_line-full line (c ∷ host) (keyed_text node name)
              (keyed_text-long dsa node name h))

    pub readline-hostline :
        (host : Bytes)
        → All IsWordByte host
        → IsHostStart host
        → knownhost_readline lib entry_size dsa hosts (line_text host node name ++ (10 ∷ [])) 1
          ≡ hostline lib entry_size dsa hosts
              (line_text host node name ++ (10 ∷ []))
              host
              (keyed_text node name)
              (10 ∷ [])
    unfolding knownhost_readline
    readline-hostline host w s =
        let after : Bytes × Bytes → Reading =
          λ p. host_line lib entry_size dsa hosts (skip_blanks p.0) (p.1) in
        ap after (
          split_line-text (line_text host node name) [] (
            All-append (λ c. c ≢ 10) host _ (text-NoLineFeed host w)
              (λ e. omega (arith, e), keyed_text-NoLineFeed)))
        ∙ ap (λ t. host_line lib entry_size dsa hosts t (10 ∷ []))
            (skip_blanks-solid (line_text host node name) (start-IsSolid host w s))
        ∙ host_line-word host w s
      where
        start-IsSolid :
            (host : Bytes)
            → All IsWordByte host
            → IsHostStart host
            → IsSolid (line_text host node name)
        start-IsSolid [] w s = elim s [ ]
        start-IsSolid (c ∷ host) w s = w.0.0
