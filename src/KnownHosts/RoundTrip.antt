-- ===== src/KnownHosts/RoundTrip.antt =====
-- `knownhost_writeline` and `libssh2_knownhost_readline`, one after the other.
use mshell.Prelude.{
  ℕ, ◌+◌, ◌*◌, ◌^◌, ◌<◌, ◌≡◌, ◌≢◌, refl, sym, ap, ◌∙◌, Bool, false, some, List, [], ◌∷◌, ◌++◌,
  if◌then◌else◌, leb, lt→ltb, lt→leb, le→ltb, Bytes, length, take, All, ne→==, eq→==, arith,
  append_assoc, bytes_eq,
}
use mshell.KnownHosts.{KnownHost, Library, name_type, key_type, plain, sha1}
use mshell.KnownHosts.Add.{new_entry, stored, add_name}
use mshell.KnownHosts.Read.{
  is_hashed, hostline, oldstyle_hostline, add_names, add_read, and_then, knownhost_readline,
}
use mshell.KnownHosts.Write.{
  written, too_small, put, put_host, put_named, host_text, knownhost_writeline,
}
use mshell.KnownHosts.Words.{IsWordByte, names_before-one}
use mshell.KnownHosts.Keyed.{
  IsKeyed, keyed_text, keyed_part, reread, key_part-keyed, keyed_text-long,
}
use mshell.KnownHosts.Readd.{Allocates, add_read-reread}
use mshell.KnownHosts.Reread.{IsHostStart, line_text, printed-line_text, readline-hostline}

-- The line of an entry: written if the buffer holds it with a NUL, its length reported if not, and
-- read as the entry.
abbrev pub IsLineOf : Library → ℕ → Bool → List KnownHost → KnownHost → Bytes → Type 0
IsLineOf lib entry_size dsa hosts node line =
    ((buflen : ℕ)
      → knownhost_writeline lib dsa node buflen 1 ≡ (
          if leb (length line + 1) buflen
          then written line (length line)
          else too_small (length line)))
    × (knownhost_readline lib entry_size dsa hosts line 1 ≡ (hosts ++ (reread node ∷ []), 0))

-- A plain name of three bytes or more, that is no list, no comment and no hash.
pub record IsPlainHost (node : KnownHost) : Type 0 where
  pub name_plain : name_type node.typemask ≡ plain
  pub no_salt : node.salt ≡ []
  pub name_word : All IsWordByte node.name
  pub one_name : All (λ c. c ≢ b',') node.name
  pub name_start : IsHostStart node.name
  pub not_hashed : is_hashed node.name ≡ false
  pub name_long : 2 < length node.name
  pub name_short : length node.name < 255

take_three : (host rest : Bytes) → 2 < length host → take 3 (host ++ rest) ≡ take 3 host
take_three [] rest k = absurd (omega arith)
take_three (a ∷ []) rest k = absurd (omega arith)
take_three (a ∷ b ∷ []) rest k = absurd (omega arith)
take_three (a ∷ b ∷ c ∷ host) rest k = refl

module _ (lib : Library) (room : Allocates lib) (entry_size : ℕ) (dsa : Bool)
    (hosts : List KnownHost) (node : KnownHost) (name : Bytes) (h : IsKeyed dsa node name) where
  put-line :
      (line : Bytes) (buflen : ℕ)
      → put line buflen ≡ (
          if leb (length line + 1) buflen
          then written line (length line)
          else too_small (length line))
  put-line line buflen =
      ap (λ n. if leb (length line + 1) buflen then written line n else too_small n) (omega arith)

  pub writeline-line :
      (host : Bytes)
      → host_text lib node ≡ some host
      → (buflen : ℕ)
      → let line = line_text host node name ++ (10 ∷ []) in
        knownhost_writeline lib dsa node buflen 1 ≡ (
          if leb (length line + 1) buflen
          then written line (length line)
          else too_small (length line))
  unfolding knownhost_writeline
  writeline-line host e buflen =
      ap (λ t. put_named lib t node buflen) h.typed
      ∙ ap (λ o. put_host o (some name) node buflen) e
      ∙ ap (λ l. put l buflen) (printed-line_text dsa node name h host)
      ∙ put-line (line_text host node name ++ (10 ∷ [])) buflen

  module _ (p : IsPlainHost node) where
    add_name-plain :
        (m : ℕ)
        → name_type m ≡ plain
        → add_name lib node.name [] (new_entry m)
          ≡ stored (record (new_entry m) { name = node.name; salt = node.salt })
    unfolding add_name
    add_name-plain m e = rw (eq→== _ _ e) (
        rw (room (length node.name + 1))
          (ap (λ s. stored (record (new_entry m) { name = node.name; salt = s })) (sym p.no_salt)))

    read_mask-plain : name_type (plain + 2 ^ 17 + key_type node.typemask * 2 ^ 18) ≡ plain
    read_mask-plain = omega arith

    add_names-plain :
        add_names lib entry_size dsa (keyed_part node name (10 ∷ [])) (node.name ∷ []) hosts
        ≡ (hosts ++ (reread node ∷ []), 0)
    unfolding add_names
    add_names-plain =
        let k = keyed_part node name (10 ∷ []) in
        rw (lt→leb 255 (length node.name) p.name_short) (
          ap (λ r. and_then r (add_names lib entry_size dsa k []))
            (ap (λ t. add_read lib entry_size dsa hosts node.name [] t k) (sym p.name_plain)
              ∙ add_read-reread lib room entry_size dsa node name h hosts node.name [] (10 ∷ []) (
                  add_name-plain _ (
                    ap (λ t. name_type (t + 2 ^ 17 + key_type node.typemask * 2 ^ 18)) p.name_plain
                    ∙ read_mask-plain))))

    hostline-plain :
        (line : Bytes)
        → is_hashed line ≡ false
        → hostline lib entry_size dsa hosts line node.name (keyed_text node name) (10 ∷ [])
          ≡ (hosts ++ (reread node ∷ []), 0)
    unfolding hostline
    hostline-plain line q =
        rw (le→ltb (length (keyed_text node name)) 20 (keyed_text-long dsa node name h)) (
          rw (lt→ltb 2 (length node.name) p.name_long) (
            rw q (
              ap (oldstyle_hostline lib entry_size dsa hosts node.name)
                (key_part-keyed dsa node name h (10 ∷ []))
              ∙ rw (ne→== (length node.name) 0 (omega (arith, p.name_long))) (
                  ap (λ ns. add_names lib entry_size dsa (keyed_part node name (10 ∷ [])) ns hosts)
                    (names_before-one node.name (λ e. omega (arith, p.name_long, ap length e))
                      p.one_name)
                  ∙ add_names-plain))))

    pub plain-IsLineOf :
        IsLineOf lib entry_size dsa hosts node (line_text node.name node name ++ (10 ∷ []))
    plain-IsLineOf =
        let line = line_text node.name node name ++ (10 ∷ []) in
        let start : take 3 line ≡ take 3 node.name =
          ap (take 3) (append_assoc node.name (32 ∷ keyed_text node name) (10 ∷ []))
          ∙ take_three node.name (32 ∷ (keyed_text node name ++ (10 ∷ []))) p.name_long in
        (
          writeline-line node.name (
              rw (ne→== (name_type node.typemask) sha1 (λ e. omega (arith, e, p.name_plain))) refl),
          readline-hostline dsa node name h lib entry_size hosts node.name p.name_word p.name_start
              ∙ hostline-plain line
                  (ap (λ t. bytes_eq t (b'|' ∷ b'1' ∷ b'|' ∷ [])) start ∙ p.not_hashed),
        )

-- An entry of a plain name is written as a line, or its length is reported where the buffer is too
-- small, and that line is read back as the entry, its key as one in base64, at the end of any
-- collection. The name has 3 to 254 bytes, is one word without a comma, starts neither with `#` nor
-- as a hashed name does, and there is no salt. The key's type has a name that the reader takes for
-- that type, that starts with no digit, and that is kept with the entry exactly if the type is
-- unknown; that name and the key are words (a byte or more, no blank, line feed or NUL), of 19
-- bytes or more together; a comment starts with no blank and has no line feed or NUL; memory is
-- always found.
pub knownhost_writeline-readline :
    (lib : Library) (entry_size : ℕ) (dsa : Bool) (hosts : List KnownHost) (node : KnownHost)
    (name : Bytes)
    → Allocates lib
    → IsKeyed dsa node name
    → IsPlainHost node
    → (line : Bytes) × IsLineOf lib entry_size dsa hosts node line
knownhost_writeline-readline lib entry_size dsa hosts node name room h p = (
  line_text node.name node name ++ (10 ∷ []),
  plain-IsLineOf lib room entry_size dsa hosts node name h p,
)
