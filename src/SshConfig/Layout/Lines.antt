-- ===== src/SshConfig/Layout/Lines.antt =====
-- What a line of the file is, without its comment.
use mshell.Prelude.{
  ◌⊎◌, inl, inr, ℕ, ◌≡◌, ◌≢◌, refl, ap, subst, ◌∙◌, Bool, true, false, [], ◌∷◌, ◌++◌, ne→==, All,
  append-nil, arith,
}
use mshell.Text.{Text, is_whitespace, trim, lines}
use mshell.Text.Trim.{
  All-implies, All-append, IsSpace, IsStarted, IsEnded, InLine, trim-around, lines-lf, lines-crlf,
}
use mshell.SshConfig.{uncommented, strip_comment}
use mshell.SshConfig.Layout.{
  Separator, spaces, equals, printed_separator, Comment, no_comment, comment, printed_comment, Body,
  blank, setting_of, printed_body, Line, printed_line, printed_end, IsPlain, IsBlank, IsKeyChar,
  IsValueChar, IsSeparator, IsBody, IsRemark, IsLine,
}

space-ne : (c d : ℕ) → is_whitespace d ≡ false → IsSpace c → c ≢ d
space-ne c d n s e = cc (n, s, e)

nonspace-ne : (c d : ℕ) → IsSpace d → is_whitespace c ≡ false → c ≢ d
nonspace-ne c d s n e = cc (n, s, e)

blank-IsPlain : (c : ℕ) → IsBlank c → IsPlain c
unfolding is_whitespace
blank-IsPlain c h = (space-ne c 34 refl (h.0), space-ne c 35 refl (h.0))

pub blank-ne : (c : ℕ) → IsBlank c → c ≢ b'='
unfolding is_whitespace
blank-ne c h = space-ne c 61 refl (h.0)

key-InLine : (c : ℕ) → IsKeyChar c → InLine c
unfolding is_whitespace
key-InLine c h = (nonspace-ne c 10 refl (h.0), nonspace-ne c 13 refl (h.0))

uncommented-append :
    (s rest : Text) → All IsPlain s → uncommented false (s ++ rest) ≡ s ++ uncommented false rest
unfolding uncommented
uncommented-append [] rest h = refl
uncommented-append (c ∷ s) rest h =
    rw (ne→== c 34 (h.0.0))
      (rw (ne→== c 35 (h.0.1)) (ap (λ t. c ∷ t) (uncommented-append s rest (h.1))))

-- The text of a setting starts and ends with something else than white space.
pub key-IsStarted : (key : Text) → key ≢ [] → All IsKeyChar key → IsStarted key
key-IsStarted [] n h = absurd (n refl)
key-IsStarted (c ∷ key) n h = h.0.0

pub key-IsEnded : (key : Text) → key ≢ [] → All IsKeyChar key → IsEnded key
key-IsEnded [] n h = absurd (n refl)
key-IsEnded (c ∷ []) n h = h.0.0
key-IsEnded (c ∷ d ∷ key) n h = key-IsEnded (d ∷ key) (λ e. cc) (h.1)

pub IsStarted-append : (s t : Text) → IsStarted s → IsStarted (s ++ t)
IsStarted-append [] t h = elim h [ ]
IsStarted-append (c ∷ s) t h = h

IsEnded-cons : (c : ℕ) (t : Text) → IsEnded t → IsEnded (c ∷ t)
IsEnded-cons c [] h = elim h [ ]
IsEnded-cons c (d ∷ t) h = h

pub IsEnded-append : (s t : Text) → IsEnded t → IsEnded (s ++ t)
IsEnded-append [] t h = h
IsEnded-append (c ∷ s) t h = IsEnded-cons c (s ++ t) (IsEnded-append s t h)

pub blanks-IsSpace : (b : Text) → All IsBlank b → All IsSpace b
blanks-IsSpace b h = All-implies (λ c k. k.0) b h

pub trim-after : (a s : Text) → All IsSpace a → IsStarted s → IsEnded s → trim (a ++ s) ≡ s
trim-after a s ha hs he =
    subst (λ t. trim (a ++ t) ≡ s) (append-nil s) (trim-around a s [] ha hs he tt)

abbrev IsBlankOrEquals : ℕ → Type 0
IsBlankOrEquals c = IsBlank c ⊎ (c ≡ b'=')

separator_text :
    (sep : Separator) (value : Text)
    → IsSeparator sep value
    → All IsBlankOrEquals (printed_separator sep)
separator_text (spaces first more) value h = (inl (h.0), All-implies (λ c k. inl k) more (h.1))
separator_text (equals left right) value h =
    All-append IsBlankOrEquals left (b'=' ∷ right) (All-implies (λ c k. inl k) left (h.0))
      (inr refl, All-implies (λ c k. inl k) right (h.1))

separator-IsPlain : (c : ℕ) → IsBlankOrEquals c → IsPlain c
separator-IsPlain c (inl b) = blank-IsPlain c b
separator-IsPlain c (inr e) = omega (arith, e)

separator-InLine : (c : ℕ) → IsBlankOrEquals c → InLine c
separator-InLine c (inl b) = b.1
separator-InLine c (inr e) = omega (arith, e)

-- The characters of a body, for what holds of those of its parts.
body-All :
    (P : ℕ → Type 0) (b : Body)
    → IsBody b
    → ((c : ℕ) → IsKeyChar c → P c)
    → ((c : ℕ) → IsBlankOrEquals c → P c)
    → ((c : ℕ) → IsValueChar c → P c)
    → All P (printed_body b)
body-All P blank h on_key on_separator on_value = tt
body-All P (setting_of key sep value) h on_key on_separator on_value =
    All-append P key _ (All-implies on_key key (h.1)) (
      All-append P (printed_separator sep) value
        (All-implies on_separator _ (separator_text sep value (h.2)))
        (All-implies on_value value (h.5)))

IsPlain-body : (b : Body) → IsBody b → All IsPlain (printed_body b)
IsPlain-body b h = body-All IsPlain b h (λ c k. k.2) separator-IsPlain (λ c k. k.1)

InLine-body : (b : Body) → IsBody b → All InLine (printed_body b)
InLine-body b h = body-All InLine b h key-InLine separator-InLine (λ c k. k.0)

uncommented-remark : (r : Comment) → uncommented false (printed_comment r) ≡ []
unfolding uncommented
uncommented-remark no_comment = refl
uncommented-remark (comment text) = refl

pub strip_comment-line :
    (l : Line)
    → IsLine l
    → strip_comment (printed_line l) ≡ l.indent ++ (printed_body l.body ++ l.trailing)
unfolding strip_comment
strip_comment-line l h =
    uncommented-append l.indent _ (All-implies blank-IsPlain _ h.indent_blank)
    ∙ ap (λ t. l.indent ++ t)
        (uncommented-append (printed_body l.body) _ (IsPlain-body l.body h.body_right)
          ∙ ap (λ t. printed_body l.body ++ t)
              (uncommented-append l.trailing _ (All-implies blank-IsPlain _ h.trailing_blank)
                ∙ ap (λ t. l.trailing ++ t) (uncommented-remark l.remark)
                ∙ append-nil l.trailing))

InLine-remark : (r : Comment) → IsRemark r → All InLine (printed_comment r)
InLine-remark no_comment h = tt
InLine-remark (comment text) h = (omega arith, h)

InLine-line : (l : Line) → IsLine l → All InLine (printed_line l)
InLine-line l h = All-append InLine l.indent _ (All-implies (λ c k. k.1) _ h.indent_blank) (
    All-append InLine (printed_body l.body) _ (InLine-body l.body h.body_right) (
      All-append InLine l.trailing _ (All-implies (λ c k. k.1) _ h.trailing_blank)
        (InLine-remark l.remark h.remark_right)))

pub lines-line :
    (l : Line) (rest : Text)
    → IsLine l
    → lines (printed_line l ++ (printed_end l.crlf ++ rest)) ≡ printed_line l ∷ lines rest
lines-line l rest h = lines-end l.crlf
  where
    lines-end :
        (crlf : Bool)
        → lines (printed_line l ++ (printed_end crlf ++ rest)) ≡ printed_line l ∷ lines rest
    lines-end true = lines-crlf (printed_line l) rest (InLine-line l h)
    lines-end false = lines-lf (printed_line l) rest (InLine-line l h)
