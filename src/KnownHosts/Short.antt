-- ===== src/KnownHosts/Short.antt =====
-- The line of an entry whose name has one or two bytes.
use mshell.Prelude.{
  ℕ, ◌+◌, ◌<◌, ◌≡◌, ◌≢◌, refl, ap, ◌∙◌, Bool, List, [], ◌∷◌, ◌++◌, le→ltb, le→leb, zero, suc, ◌==◌,
  Bytes, length, drop, All, ne→==, arith,
}
use mshell.Text.Trim.{All-implies, All-append, split_at-none}
use mshell.KnownHosts.{KnownHost, Library, name_type, plain, sha1}
use mshell.KnownHosts.Read.{hostline, hashed_hostline, hashed_parts, knownhost_readline}
use mshell.KnownHosts.Write.{written, knownhost_writeline}
use mshell.KnownHosts.Words.{IsWordByte}
use mshell.KnownHosts.Keyed.{IsKeyed, keyed_text, keyed_part, key_part-keyed, keyed_text-long}
use mshell.KnownHosts.Readd.{Allocates}
use mshell.KnownHosts.Reread.{IsHostStart, line_text, readline-hostline}
use mshell.KnownHosts.RoundTrip.{writeline-line}

abbrev pub NoBar : Bytes → Type 0
NoBar = All (λ c. c ≢ b'|')

-- A plain name of one or two bytes in a line without a bar.
pub record IsShortHost (node : KnownHost) (name : Bytes) : Type 0 where
  pub name_plain : name_type node.typemask ≡ plain
  pub name_word : All IsWordByte node.name
  pub name_start : IsHostStart node.name
  pub name_short : length node.name < 3
  pub no_bar : NoBar (line_text node.name node name)

drop-NoBar : (n : ℕ) (s : Bytes) → NoBar s → NoBar (drop n s)
drop-NoBar zero s h = h
drop-NoBar (suc n) [] h = tt
drop-NoBar (suc n) (c ∷ s) h = drop-NoBar n s (h.1)

module _ (lib : Library) (entry_size : ℕ) (dsa : Bool) (hosts : List KnownHost) where
  hashed_hostline-NoBar :
      (line : Bytes) (n : ℕ)
      → NoBar line
      → (node : KnownHost) (name : Bytes)
      → hashed_hostline lib entry_size dsa hosts line n (keyed_part node name (10 ∷ []))
        ≡ (hosts, 0)
  unfolding hashed_hostline
  hashed_hostline-NoBar line n h node name =
      ap (hashed_parts lib entry_size dsa hosts _ (keyed_part node name (10 ∷ []))) (
        split_at-none (λ c. c == b'|') (drop 3 line)
          (All-implies (λ c k. ne→== c b'|' k) (drop 3 line) (drop-NoBar 3 line h)))

  module _ (node : KnownHost) (name : Bytes) (h : IsKeyed dsa node name)
      (p : IsShortHost node name) where
    hostline-short :
        hostline lib entry_size dsa hosts
          (line_text node.name node name ++ (10 ∷ []))
          node.name
          (keyed_text node name)
          (10 ∷ [])
        ≡ (hosts, 0)
    unfolding hostline
    hostline-short =
        let line = line_text node.name node name ++ (10 ∷ []) in
        rw (le→ltb (length (keyed_text node name)) 20 (keyed_text-long dsa node name h)) (
          rw (le→ltb 2 (length node.name) (omega (arith, p.name_short))) (
            ap (hashed_hostline lib entry_size dsa hosts line (length node.name))
              (key_part-keyed dsa node name h (10 ∷ []))
            ∙ hashed_hostline-NoBar line (length node.name)
                (All-append (λ c. c ≢ b'|') (line_text node.name node name) (10 ∷ []) p.no_bar
                  (λ e. omega (arith, e), tt))
                node name))

-- The line that is written for a plain name of one or two bytes, where the buffer has room for it
-- and it has no bar, is read back with success and nothing added, whatever the collection. The name
-- is a word that does not start with `#`. The key's type has a name that the reader takes for that
-- type, that starts with no digit, and that is kept with the entry exactly if the type is unknown;
-- that name and the key are words (a byte or more, no blank, line feed or NUL), of 19 bytes or more
-- together; a comment starts with no blank and has no line feed or NUL; memory is always found.
pub short_writeline-readline :
    (lib : Library) (entry_size : ℕ) (dsa : Bool) (hosts : List KnownHost) (node : KnownHost)
    (name : Bytes)
    → Allocates lib
    → IsKeyed dsa node name
    → IsShortHost node name
    → (line : Bytes) × ((buflen : ℕ)
        → length line < buflen
        → knownhost_writeline lib dsa node buflen 1 ≡ written line (length line))
      × (knownhost_readline lib entry_size dsa hosts line 1 ≡ (hosts, 0))
short_writeline-readline lib entry_size dsa hosts node name room h p =
    let line = line_text node.name node name ++ (10 ∷ []) in
    (
      line,
      λ buflen k.
          writeline-line lib room entry_size dsa hosts node name h node.name
            (rw (ne→== (name_type node.typemask) sha1 (λ e. omega (arith, e, p.name_plain))) refl)
            buflen
          ∙ rw (le→leb (length line + 1) buflen (omega arith)) refl,
      readline-hostline dsa node name h lib entry_size hosts node.name p.name_word p.name_start
          ∙ hostline-short lib entry_size dsa hosts node name h p,
    )
