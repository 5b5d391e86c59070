-- ===== src/SshConfig/Layout/Correct.antt =====
-- The parser of the configuration against the layout of its lines.
use mshell.Prelude.{
  fun_ext, ◌≡◌, ◌≢◌, refl, sym, ap, ◌∙◌, false, List, [], ◌∷◌, ◌++◌, ◌==◌, if◌then◌else◌, ne→==,
  All, append_assoc,
}
use mshell.Text.{Text, is_empty, is_whitespace, trim, lines, split_once}
use mshell.Text.Trim.{
  All-implies, All-append, IsSpace, trim-around, trim-spaces, split_at-append, split_at-none,
}
use mshell.SshConfig.{
  PathBuf, System, Run, done, and_then, key_and_value, split_equals, split_key_value,
}
use mshell.SshConfig.Parse.{State, Parser, run_pair, run_line, run_lines}
use mshell.SshConfig.Layout.{
  Separator, spaces, equals, printed_separator, Body, blank, setting_of, printed_body, Line,
  printed_line, print, IsBlank, IsKeyChar, IsBody, IsLine, run_body, run_bodies,
}
use mshell.SshConfig.Layout.Lines.{
  blank-ne, key-IsStarted, key-IsEnded, blanks-IsSpace, trim-after, strip_comment-line, lines-line,
  IsStarted-append, IsEnded-append,
}

no_equals_key : (key : Text) → All IsKeyChar key → All (λ c. (c == b'=') ≡ false) key
no_equals_key key h = All-implies (λ c k. ne→== c 61 (k.1)) key h

split_key_value-setting :
    (key : Text) (sep : Separator) (value : Text)
    → IsBody (setting_of key sep value)
    → split_key_value (printed_body (setting_of key sep value)) ≡ (key, value)
unfolding split_key_value
split_key_value-setting key (spaces first more) value (n, hk, (bf, bm, hv), hs, he, hc) =
    let no_equals : All (λ c. (c == b'=') ≡ false) (key ++ (first ∷ (more ++ value))) =
      All-append (λ c. (c == b'=') ≡ false) key _ (no_equals_key key hk)
        (
          ne→== first 61 (blank-ne first bf),
          All-append (λ c. (c == b'=') ≡ false) more value
              (All-implies (λ c b. ne→== c 61 (blank-ne c b)) more bm)
              (All-implies (λ c k. ne→== c 61 k) value hv),
        ) in
    ap (split_equals _) (split_at-none (λ c. c == b'=') _ no_equals)
    ∙ ap (key_and_value _) (
        split_at-append is_whitespace key first (more ++ value) (All-implies (λ c k. k.0) key hk)
          (bf.0))
    ∙ ap (λ t. (t, trim (more ++ value)))
        (trim-after [] key tt (key-IsStarted key n hk) (key-IsEnded key n hk))
    ∙ ap (λ t. (key, t)) (trim-after more value (blanks-IsSpace more bm) hs he)
split_key_value-setting key (equals left right) value (n, hk, (bl, br), hs, he, hc) =
    let shape : key ++ ((left ++ (b'=' ∷ right)) ++ value)
        ≡ (key ++ left) ++ (b'=' ∷ (right ++ value)) =
      ap (λ t. key ++ t) (append_assoc left (b'=' ∷ right) value)
      ∙ sym (append_assoc key left (b'=' ∷ (right ++ value))) in
    ap (λ s. split_equals s (split_once b'=' s)) shape
    ∙ ap (split_equals _) (
        split_at-append (λ c. c == b'=') (key ++ left) b'=' (right ++ value)
          (All-append (λ c. (c == b'=') ≡ false) key left (no_equals_key key hk)
            (All-implies (λ c b. ne→== c 61 (blank-ne c b)) left bl))
          refl)
    ∙ ap (λ t. (t, trim (right ++ value)))
        (trim-around [] key left tt (key-IsStarted key n hk) (key-IsEnded key n hk)
          (blanks-IsSpace left bl))
    ∙ ap (λ t. (key, t)) (trim-after right value (blanks-IsSpace right br) hs he)

key-full : (key : Text) → key ≢ [] → is_empty key ≡ false
key-full [] n = absurd (n refl)
key-full (c ∷ key) n = refl

module _ (sys : System) (parser : Parser) (path : PathBuf) where
  -- A line without its comment and without the white space around it.
  abbrev bare_line : Text → State → Run State
  bare_line line st =
      if is_empty line then done st else run_pair sys parser path (split_key_value line) st

  bare_line-setting :
      (key : Text) (sep : Separator) (value : Text) (st : State)
      → IsBody (setting_of key sep value)
      → bare_line (printed_body (setting_of key sep value)) st
        ≡ run_body sys parser path (setting_of key sep value) st
  bare_line-setting [] sep value st h = absurd (h.0 refl)
  bare_line-setting (c ∷ key) sep value st h =
      ap (λ kv. run_pair sys parser path kv st) (split_key_value-setting (c ∷ key) sep value h)

  trim-body :
      (indent : Text) (b : Body) (trailing : Text)
      → All IsBlank indent
      → IsBody b
      → All IsBlank trailing
      → trim (indent ++ (printed_body b ++ trailing)) ≡ printed_body b
  trim-body indent blank trailing hi hb ht =
      trim-spaces (indent ++ trailing)
        (All-append IsSpace indent trailing (blanks-IsSpace indent hi) (blanks-IsSpace trailing ht))
  trim-body indent (setting_of key sep value) trailing hi (n, hk, hsep, hs, he, hc) ht =
      trim-around indent (key ++ (printed_separator sep ++ value)) trailing
        (blanks-IsSpace indent hi) (IsStarted-append key _ (key-IsStarted key n hk))
        (IsEnded-append key _ (IsEnded-append (printed_separator sep) value he))
        (blanks-IsSpace trailing ht)

  bare_line-body :
      (b : Body) (st : State)
      → IsBody b
      → bare_line (printed_body b) st ≡ run_body sys parser path b st
  bare_line-body blank st h = refl
  bare_line-body (setting_of key sep value) st h = bare_line-setting key sep value st h

  run_line-line :
      (l : Line) (st : State)
      → IsLine l
      → run_line sys parser path (printed_line l) st ≡ run_body sys parser path l.body st
  unfolding run_line
  run_line-line l st h =
      ap (λ t. bare_line t st)
        (ap trim (strip_comment-line l h)
          ∙ trim-body l.indent l.body l.trailing h.indent_blank h.body_right h.trailing_blank)
      ∙ bare_line-body l.body st h.body_right

-- A file that is written line by line, each with any white space before, behind and between, with
-- or without `=`, with or without a comment, ended with LF or CR LF, or empty, means its keys and
-- values in their order: the loop over its lines does for each what the key's arm does with the
-- value. The keys are words without `=`, `#` and quotation marks, the values are not empty and have no
-- white space around them, no `#` and no quotation mark, and none behind white space has an `=`.
pub run_lines-print :
    (sys : System) (parser : Parser) (path : PathBuf) (ls : List Line) (st : State)
    → All IsLine ls
    → run_lines sys parser path (lines (print ls)) st ≡ run_bodies sys parser path ls st
unfolding run_lines run_bodies print lines
run_lines-print sys parser path [] st h = refl
run_lines-print sys parser path (l ∷ ls) st h =
    ap (λ ts. run_lines sys parser path ts st) (lines-line l (print ls) (h.0))
    ∙ ap (λ r. and_then r λ st'. run_lines sys parser path (lines (print ls)) st')
        (run_line-line sys parser path l st (h.0))
    ∙ ap (λ f. and_then (run_body sys parser path l.body st) f)
        (fun_ext λ st'. run_lines-print sys parser path ls st' (h.1))
