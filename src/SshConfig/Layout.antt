-- ===== src/SshConfig/Layout.antt =====
-- How a line of the configuration may be laid out.
pub mod Lines
pub mod Correct
use mshell.Prelude.{
  ℕ, ◌≡◌, ◌≢◌, refl, sym, ap, subst, ◌∙◌, Bool, true, false, not, ◌&&◌, Option, none, some, List,
  [], ◌∷◌, ◌++◌, ◌==◌, if◌then◌else◌, ne→==, All, append-nil, append_assoc, arith,
}
use mshell.Text.{Text, is_empty, is_whitespace, trim, lines, split_at, split_once}
use mshell.Text.Trim.{
  All-implies, All-append, IsSpace, IsStarted, IsEnded, InLine, trim-around, trim-spaces, lines-lf,
  lines-crlf, split_at-append, split_at-none,
}
use mshell.SshConfig.{
  PathBuf, System, Run, done, and_then, uncommented, strip_comment, split_equals, split_key_value,
}
use mshell.SshConfig.Parse.{keyword_of, State, Parser, run_keyword, run_pair, run_line, run_lines}

-- Between key and value: white space, or an `=` with white space around it.
pub data Separator : Type 0 where
  spaces : (first : ℕ) (more : Text) → Separator
  equals : (left right : Text) → Separator

abbrev pub printed_separator : Separator → Text
printed_separator (spaces first more) = first ∷ more
printed_separator (equals left right) = left ++ (b'=' ∷ right)

pub data Comment : Type 0 where
  no_comment : Comment
  comment : Text → Comment

abbrev pub printed_comment : Comment → Text
printed_comment no_comment = []
printed_comment (comment text) = b'#' ∷ text

pub data Body : Type 0 where
  blank : Body
  setting_of : (key : Text) (separator : Separator) (value : Text) → Body

abbrev pub printed_body : Body → Text
printed_body blank = []
printed_body (setting_of key separator value) = key ++ (printed_separator separator ++ value)

pub record Line : Type 0 where
  pub indent : Text
  pub body : Body
  pub trailing : Text
  pub remark : Comment
  pub crlf : Bool

abbrev pub printed_line : Line → Text
printed_line l = l.indent ++ (printed_body l.body ++ (l.trailing ++ printed_comment l.remark))

abbrev pub printed_end : Bool → Text
printed_end true = 13 ∷ 10 ∷ []
printed_end false = 10 ∷ []

unfoldable pub print : List Line → Text
print [] = []
print (l ∷ ls) = printed_line l ++ (printed_end l.crlf ++ print ls)

-- No quotation mark and no comment.
abbrev pub IsPlain : ℕ → Type 0
IsPlain c = (c ≢ b'"') × (c ≢ b'#')

abbrev pub IsBlank : ℕ → Type 0
IsBlank c = IsSpace c × InLine c

abbrev pub IsKeyChar : ℕ → Type 0
IsKeyChar c = (is_whitespace c ≡ false) × (c ≢ b'=') × IsPlain c

abbrev pub IsValueChar : ℕ → Type 0
IsValueChar c = InLine c × IsPlain c

abbrev pub IsSeparator : Separator → Text → Type 0
IsSeparator (spaces first more) value = IsBlank first × All IsBlank more × All (λ c. c ≢ b'=') value
IsSeparator (equals left right) value = All IsBlank left × All IsBlank right

-- The key is one word; the value has no white space around it; no `=` in it is taken for a
-- separator.
abbrev pub IsBody : Body → Type 0
IsBody blank = Unit
IsBody (setting_of key separator value) =
    (key ≢ [])
    × All IsKeyChar key
    × IsSeparator separator value
    × IsStarted value
    × IsEnded value
    × All IsValueChar value

abbrev pub IsRemark : Comment → Type 0
IsRemark no_comment = Unit
IsRemark (comment text) = All InLine text

pub record IsLine (l : Line) : Type 0 where
  pub indent_blank : All IsBlank l.indent
  pub body_right : IsBody l.body
  pub trailing_blank : All IsBlank l.trailing
  pub remark_right : IsRemark l.remark

-- What a file means, without its layout.
abbrev pub run_body : System → Parser → PathBuf → Body → State → Run State
run_body sys parser path blank st = done st
run_body sys parser path (setting_of key separator value) st =
    run_keyword sys parser path (keyword_of key) value st

unfoldable pub run_bodies : System → Parser → PathBuf → List Line → State → Run State
run_bodies sys parser path [] st = done st
run_bodies sys parser path (l ∷ ls) st =
    and_then (run_body sys parser path l.body st) λ st'. run_bodies sys parser path ls st'
