-- ===== src/HostKeys/Lines.antt =====
-- The import of known_hosts against the layout of its lines.
use mshell.Prelude.{
  ℕ, ◌≡◌, ◌≢◌, refl, ap, ◌∙◌, true, false, Option, none, some, List, [], ◌∷◌, ◌++◌, map,
  if◌then◌else◌, Bytes, All, arith, append-nil, append_assoc,
}
use mshell.Text.{Text, is_whitespace, trim_end, trimmed, trim, split_whitespace, lines}
use mshell.Text.Trim.{
  All-implies, All-append, IsSpace, IsEnded, InLine, trim-before, trim-solid, lines-lf,
}
use mshell.Text.Words.{
  IsInWord, split_whitespace-spaces, split_whitespace-word, split_whitespace-last, InWord-InLine,
}
use mshell.HostKeys.{Entry, Crates, fingerprint_sha256}
use mshell.HostKeys.Import.{
  entries_of, entry_for, keyed_entries, from_words, is_skipped, line_entries, all_line_entries,
  parse_openssh_known_hosts,
}
use mshell.HostKeys.Known.{
  HostToken, printed_token, host_of, IsToken, Known, printed_hosts, printed_known, IsTail, IsBlank,
  IsWord, IsKnown, Line, known, comment, marker, printed_line, print, IsLine, token_entry,
  token_entries, key_entries, entries, all_entries,
}
use mshell.HostKeys.Words.{
  Starts-append, Starts-hosts, Starts-skipped, Starts-hashed, Starts-IsStarted, Starts-full,
  hosts-split, hosts-IsInWord, normalize-token,
}

entries_of-tokens :
    (fp kt : Text) (ts : List HostToken)
    → All IsToken ts
    → entries_of fp kt (map printed_token ts) ≡ token_entries fp kt ts
unfolding entries_of token_entries
entries_of-tokens fp kt [] h = refl
entries_of-tokens fp kt (t ∷ ts) h =
    ap (λ o. entry_for fp kt o (entries_of fp kt (map printed_token ts))) (normalize-token t (h.0))
    ∙ same_entry (host_of t) (entries_of-tokens fp kt ts (h.1))
  where
    same_entry :
        {xs ys : List Entry} (o : Option Text)
        → xs ≡ ys
        → entry_for fp kt o xs ≡ token_entry fp kt o ys
    same_entry none e = e
    same_entry (some host) e =
        ap (λ t. record { host = host; fingerprint = fp; key_type = kt } ∷ t) e

module _ (k : Known) (h : IsKnown k) where
  word-IsEnded : (w : Text) → IsWord w → IsEnded w
  word-IsEnded [] (n, p) = absurd (n refl)
  word-IsEnded (c ∷ []) (n, p) = p.0
  word-IsEnded (c ∷ d ∷ w) (n, p) = word-IsEnded (d ∷ w) (λ e. cc, p.1)

  IsEnded-append : (s t : Text) → IsEnded t → IsEnded (s ++ t)
  IsEnded-append [] t p = p
  IsEnded-append (c ∷ s) t p = IsEnded-cons (s ++ t) (IsEnded-append s t p)
    where
      IsEnded-cons : (u : Text) → IsEnded u → IsEnded (c ∷ u)
      IsEnded-cons [] q = elim q [ ]
      IsEnded-cons (d ∷ u) q = q

  blanks-IsSpace : (b : Text) → All IsBlank b → All IsSpace b
  blanks-IsSpace b p = All-implies (λ c q. q.0) b p

  -- The key is the third word, whatever follows it.
  key-words :
      (w t : Text)
      → IsWord w
      → IsTail t
      → (ws : List Text) × (split_whitespace (w ++ trim_end t) ≡ w ∷ ws)
  unfolding trim_end
  key-words w [] (n, p) q = ([], ap split_whitespace (append-nil w) ∙ split_whitespace-last w n p)
  key-words w (c ∷ t) (n, p) q = spaced (trim_end t)
    where
      spaced : (u : Text) → (ws : List Text) × (split_whitespace (w ++ trimmed c u) ≡ w ∷ ws)
      spaced [] = (
        [],
        ap (λ b. split_whitespace (w ++ (if b then [] else c ∷ []))) q
            ∙ ap split_whitespace (append-nil w)
            ∙ split_whitespace-last w n p,
      )
      spaced (d ∷ u) = (split_whitespace (d ∷ u), split_whitespace-word w c (d ∷ u) n p q)

  field-words :
      (w : Text) (c : ℕ) (b rest t : Text)
      → w ≢ []
      → All IsInWord w
      → IsBlank c
      → All IsBlank b
      → split_whitespace ((w ++ (c ∷ (b ++ rest))) ++ t) ≡ w ∷ split_whitespace (rest ++ t)
  field-words w c b rest t n p q r =
      ap split_whitespace (append_assoc w (c ∷ (b ++ rest)) t)
      ∙ split_whitespace-word w c ((b ++ rest) ++ t) n p (q.0)
      ∙ ap (λ u. w ∷ split_whitespace u) (append_assoc b rest t)
      ∙ ap (λ ws. w ∷ ws) (split_whitespace-spaces b (rest ++ t) (blanks-IsSpace b r))

  abbrev typed_key : Text
  typed_key = k.key_type ++ (k.gap' ∷ (k.spaces' ++ k.key_b64))

  abbrev body : Text
  body = printed_hosts k ++ (k.gap ∷ (k.spaces ++ typed_key))

  body-words :
      (ws : List Text) × (split_whitespace (body ++ trim_end k.tail)
        ≡ printed_hosts k ∷ k.key_type ∷ k.key_b64 ∷ ws)
  body-words =
      let third = key-words k.key_b64 k.tail h.key_word h.tail_right in
      (
        third.0,
        field-words (printed_hosts k) k.gap k.spaces typed_key (trim_end k.tail)
              (Starts-full _ (Starts-hosts k h)) (hosts-IsInWord k h) h.gap_blank h.spaces_blank
            ∙ ap (λ ws. printed_hosts k ∷ ws)
                (field-words k.key_type k.gap' k.spaces' k.key_b64 (trim_end k.tail) (h.type_word.0)
                  (h.type_word.1) h.gap'_blank h.spaces'_blank)
            ∙ ap (λ ws. printed_hosts k ∷ k.key_type ∷ ws) (third.1),
      )

  trim-known : trim (printed_known k) ≡ body ++ trim_end k.tail
  trim-known =
      trim-before k.indent body k.tail (blanks-IsSpace k.indent h.indent_blank)
        (Starts-IsStarted _ (Starts-append (printed_hosts k) _ (Starts-hosts k h)))
        (IsEnded-append (printed_hosts k) _ (
          IsEnded-append (k.gap ∷ k.spaces) typed_key (
            IsEnded-append k.key_type _
              (IsEnded-append (k.gap' ∷ k.spaces') k.key_b64 (word-IsEnded k.key_b64 h.key_word)))))

  keyed-entries :
      (crates : Crates) (key : Option Bytes)
      → keyed_entries crates (printed_hosts k) k.key_type key ≡ key_entries crates k key
  keyed-entries crates none = refl
  keyed-entries crates (some key) =
      ap (entries_of (fingerprint_sha256 crates key) k.key_type) (hosts-split k h)
      ∙ entries_of-tokens _ k.key_type (k.host ∷ k.aliases) (h.host_right, h.aliases_right)

  known-entries :
      (crates : Crates) → line_entries crates (printed_known k) ≡ entries crates (known k)
  unfolding line_entries
  known-entries crates =
      ap (λ l. if is_skipped l then [] else from_words crates (split_whitespace l)) trim-known
      ∙ ap (λ b. if b then [] else from_words crates (split_whitespace (body ++ trim_end k.tail)))
          (Starts-skipped _ (
            Starts-append body (trim_end k.tail)
              (Starts-append (printed_hosts k) _ (Starts-hosts k h))))
      ∙ ap (from_words crates) (body-words.1)
      ∙ ap
          (λ b.
            if b
            then []
            else keyed_entries crates (printed_hosts k) k.key_type (crates.base64_decode k.key_b64))
          (Starts-hashed _ (Starts-hosts k h))
      ∙ keyed-entries crates (crates.base64_decode k.key_b64)

  blanks-InLine : (b : Text) → All IsBlank b → All InLine b
  blanks-InLine b p = All-implies (λ c q. q.1) b p

  words-InLine : (w : Text) → All IsInWord w → All InLine w
  words-InLine w p = All-implies InWord-InLine w p

  known-InLine : All InLine (printed_known k)
  known-InLine = All-append InLine k.indent _ (blanks-InLine k.indent h.indent_blank) (
      All-append InLine body k.tail
        (All-append InLine (printed_hosts k) _ (words-InLine _ (hosts-IsInWord k h)) (
          h.gap_blank.1,
          All-append InLine k.spaces typed_key (blanks-InLine k.spaces h.spaces_blank) (
              All-append InLine k.key_type _ (words-InLine k.key_type (h.type_word.1)) (
                h.gap'_blank.1,
                All-append InLine k.spaces' k.key_b64 (blanks-InLine k.spaces' h.spaces'_blank)
                    (words-InLine k.key_b64 (h.key_word.1)),
              )),
        ))
        h.tail_line)

line-InLine : (l : Line) → IsLine l → All InLine (printed_line l)
line-InLine (known k) h = known-InLine k h
line-InLine (comment text) h = (omega arith, h)
line-InLine (marker text) h = (omega arith, h)

skipped-entries :
    (crates : Crates) (c : ℕ) (text : Text)
    → is_whitespace c ≡ false
    → is_skipped (c ∷ trim_end text) ≡ true
    → line_entries crates (c ∷ text) ≡ []
unfolding line_entries
skipped-entries crates c text w s =
    ap (λ l. if is_skipped l then [] else from_words crates (split_whitespace l))
      (trim-solid c text w)
    ∙ ap (λ b. if b then [] else from_words crates (split_whitespace (c ∷ trim_end text))) s

line-entries :
    (crates : Crates) (l : Line)
    → IsLine l
    → line_entries crates (printed_line l) ≡ entries crates l
unfolding is_whitespace
line-entries crates (known k) h = known-entries k h crates
line-entries crates (comment text) h = skipped-entries crates b'#' text refl refl
line-entries crates (marker text) h = skipped-entries crates b'@' text refl refl

pub parse_openssh_known_hosts-print :
    (crates : Crates) (ls : List Line)
    → All IsLine ls
    → parse_openssh_known_hosts crates (print ls) ≡ all_entries crates ls
unfolding parse_openssh_known_hosts all_line_entries lines print all_entries
parse_openssh_known_hosts-print crates [] h = refl
parse_openssh_known_hosts-print crates (l ∷ ls) h =
    ap (all_line_entries crates) (lines-lf (printed_line l) (print ls) (line-InLine l (h.0)))
    ∙ ap (λ es. es ++ all_line_entries crates (lines (print ls))) (line-entries crates l (h.0))
    ∙ ap (λ es. entries crates l ++ es) (parse_openssh_known_hosts-print crates ls (h.1))
