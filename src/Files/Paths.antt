-- ===== src/Files/Paths.antt =====
-- Where a path leads, and paths that are joined with a name.
use mshell.Prelude.{
  ℕ, ◌≡◌, ◌≢◌, refl, sym, ap, ◌∙◌, inl, inr, Bool, true, false, ◌||◌, List, [], ◌∷◌, ◌++◌,
  if◌then◌else◌, All, Bool-cases, bytes_eq_iff, append_assoc, ne→==, eq→==, if-cases, if-all, subst,
  ◌==◌,
}
use mshell.Text.{Text, eq_text, is_empty, split, to_first, starts_with, ends_with, contains_char}
use mshell.Text.Words.{split-separated}
use mshell.Files.{Result, ok, err, CoreError, join, safe_entry_name}

unfoldable pub drop_last : List Text → List Text
drop_last [] = []
drop_last (d ∷ []) = []
drop_last (d ∷ e ∷ dirs) = d ∷ drop_last (e ∷ dirs)

-- One part of a path, from a directory that is given by the names from the root on.
unfoldable pub step : List Text → Text → List Text
unfolding drop_last
step dirs part =
    if is_empty part || eq_text part (b'.' ∷ [])
    then dirs
    else if eq_text part (b'.' ∷ b'.' ∷ [])
    then drop_last dirs
    else dirs ++ (part ∷ [])

unfoldable pub walk : List Text → List Text → List Text
unfolding step
walk dirs [] = dirs
walk dirs (part ∷ parts) = walk (step dirs part) parts

abbrev start : List Text → Text → List Text
start cwd path = if starts_with path (b'/' ∷ []) then [] else cwd

-- The names from the root on of what a path leads to, `..` being the directory above; a path that is
-- not absolute starts from the working directory.
unfoldable pub resolve : List Text → Text → List Text
unfolding walk
resolve cwd path = walk (start cwd path) (split b'/' path)

-- A name of one part that leads neither up nor nowhere.
pub record IsName (name : Text) : Type 0 where
  pub filled : is_empty name ≡ false
  pub not_here : eq_text name (b'.' ∷ []) ≡ false
  pub not_up : eq_text name (b'.' ∷ b'.' ∷ []) ≡ false
  pub one_part : All (λ c. c ≢ b'/') name

or-false : (a b : Bool) → (a || b) ≡ false → (a ≡ false) × (b ≡ false)
or-false true b e = cc
or-false false b e = (refl, e)

if-ok :
    {A : Type 0} (t : Bool) (e : CoreError) (r : Result A) (a : A)
    → (if t then err e else r) ≡ ok a
    → (t ≡ false) × (r ≡ ok a)
if-ok true e r a h = cc
if-ok false e r a h = (refl, h)

contains_char-All : (x : ℕ) (s : Text) → contains_char x s ≡ false → All (λ c. c ≢ x) s
unfolding contains_char
contains_char-All x [] h = tt
contains_char-All x (c ∷ s) h = elim (Bool-cases (c == x)) [
  | inl e ↦ absurd (cc (h, e))
  | inr e ↦ (
    λ k. cc (eq→== c x k, e),
    contains_char-All x s (sym (ap (λ b. if b then true else contains_char x s) e) ∙ h),
  )
]

pub safe_entry_name-IsName : (name : Text) → safe_entry_name name ≡ ok tt → IsName name
unfolding safe_entry_name
safe_entry_name-IsName name h =
    let (navigation, h') = if-ok _ _ _ tt h in
    let (separators, _) = if-ok _ _ _ tt h' in
    let (n, up) = or-false _ (eq_text name (b'.' ∷ b'.' ∷ [])) navigation in
    let (empty, here) = or-false (is_empty name) _ n in
    let (s, _) = or-false _ (contains_char b':' name) separators in
    let (slash, _) = or-false (contains_char b'/' name) _ s in
    record {
      filled = empty;
      not_here = here;
      not_up = up;
      one_part = contains_char-All b'/' name slash;
    }

split-ne : (x : ℕ) (s : Text) → split x s ≢ []
unfolding split
split-ne x [] = λ e. cc
split-ne x (c ∷ s) = if-all (λ t. t ≢ []) (c == x) (λ e. cc) (to_first-ne c (split x s))
  where
    to_first-ne : (c : ℕ) (ps : List Text) → to_first c ps ≢ []
    to_first-ne c [] = λ e. cc
    to_first-ne c (p ∷ ps) = λ e. cc

to_first-append :
    (c : ℕ) (ps qs : List Text) → ps ≢ [] → to_first c (ps ++ qs) ≡ to_first c ps ++ qs
to_first-append c [] qs n = absurd (n refl)
to_first-append c (p ∷ ps) qs n = refl

split-append : (x : ℕ) (a b : Text) → split x (a ++ (x ∷ b)) ≡ split x a ++ split x b
unfolding split
split-append x [] b = rw (eq→== x x refl) refl
split-append x (c ∷ a) b = elim (Bool-cases (c == x)) [
  | inl e ↦ rw e (ap (λ t. [] ∷ t) (split-append x a b))
  | inr e ↦ rw e (
      ap (to_first c) (split-append x a b)
      ∙ to_first-append c (split x a) (split x b) (split-ne x a))
]

split-name : (name : Text) → IsName name → split b'/' name ≡ name ∷ []
split-name name h = split-separated b'/' name [] h.one_part tt

walk-append : (dirs as_ bs : List Text) → walk dirs (as_ ++ bs) ≡ walk (walk dirs as_) bs
unfolding walk
walk-append dirs [] bs = refl
walk-append dirs (p ∷ as_) bs = walk-append (step dirs p) as_ bs

walk-name :
    (dirs : List Text) (name : Text) → IsName name → walk dirs (name ∷ []) ≡ dirs ++ (name ∷ [])
unfolding walk
walk-name dirs name h = rw h.filled (rw h.not_here (rw h.not_up refl))

ends_with-slash :
    (s : Text) → ends_with s (b'/' ∷ []) ≡ true → (init : Text) × (s ≡ init ++ (b'/' ∷ []))
unfolding ends_with
ends_with-slash [] h = cc
ends_with-slash (c ∷ s) h = elim (Bool-cases (eq_text (c ∷ s) (b'/' ∷ []))) [
  | inl e ↦ ([], (bytes_eq_iff (c ∷ s) (b'/' ∷ [])).0 e)
  | inr e ↦
      let (init, k) =
        ends_with-slash s (sym (ap (λ b. if b then true else ends_with s (b'/' ∷ [])) e) ∙ h) in
      (c ∷ init, ap (λ t. c ∷ t) k)
]

start-append : (cwd : List Text) (c : ℕ) (s t : Text) → start cwd ((c ∷ s) ++ t) ≡ start cwd (c ∷ s)
unfolding starts_with
start-append cwd c s t = refl

starts_with-no_slash : (s : Text) → All (λ c. c ≢ b'/') s → starts_with s (b'/' ∷ []) ≡ false
unfolding starts_with
starts_with-no_slash [] k = refl
starts_with-no_slash (c ∷ s) k = rw (ne→== c b'/' (k.0)) refl

-- The working directory, a directory and a name in it.
module _ (cwd : List Text) (name : Text) (h : IsName name) where
  not_absolute : starts_with name (b'/' ∷ []) ≡ false
  not_absolute = starts_with-no_slash name h.one_part

  resolve-slash :
      (base : Text)
      → base ≢ []
      → resolve cwd (base ++ (b'/' ∷ name)) ≡ resolve cwd base ++ (name ∷ [])
  unfolding resolve
  resolve-slash [] n = absurd (n refl)
  resolve-slash (c ∷ base) n =
      ap (λ d. walk d (split b'/' ((c ∷ base) ++ (b'/' ∷ name))))
        (start-append cwd c base (b'/' ∷ name))
      ∙ ap (walk (start cwd (c ∷ base))) (
          split-append b'/' (c ∷ base) name
          ∙ ap (λ t. split b'/' (c ∷ base) ++ t) (split-name name h))
      ∙ walk-append (start cwd (c ∷ base)) (split b'/' (c ∷ base)) (name ∷ [])
      ∙ walk-name (walk (start cwd (c ∷ base)) (split b'/' (c ∷ base))) name h

  -- A slash at the end changes nothing.
  resolve-end : (init : Text) → init ≢ [] → resolve cwd (init ++ (b'/' ∷ [])) ≡ resolve cwd init
  unfolding resolve split
  resolve-end [] n = absurd (n refl)
  resolve-end (c ∷ init) n =
      ap (λ d. walk d (split b'/' ((c ∷ init) ++ (b'/' ∷ []))))
        (start-append cwd c init (b'/' ∷ []))
      ∙ ap (walk (start cwd (c ∷ init))) (split-append b'/' (c ∷ init) [])
      ∙ walk-append (start cwd (c ∷ init)) (split b'/' (c ∷ init)) ([] ∷ [])

  resolve-here : resolve cwd name ≡ resolve cwd [] ++ (name ∷ [])
  unfolding resolve split starts_with
  resolve-here =
      ap (λ b. walk (if b then [] else cwd) (split b'/' name)) not_absolute
      ∙ ap (walk cwd) (split-name name h)
      ∙ walk-name cwd name h

  resolve-root : resolve cwd (b'/' ∷ name) ≡ resolve cwd (b'/' ∷ []) ++ (name ∷ [])
  unfolding resolve split starts_with
  resolve-root = ap (λ t. walk [] ([] ∷ t)) (split-name name h) ∙ walk-name [] name h

  resolve-ended :
      (init : Text)
      → resolve cwd ((init ++ (b'/' ∷ [])) ++ name)
        ≡ resolve cwd (init ++ (b'/' ∷ [])) ++ (name ∷ [])
  resolve-ended [] = resolve-root
  resolve-ended (c ∷ init) =
      ap (resolve cwd) (append_assoc (c ∷ init) (b'/' ∷ []) name)
      ∙ resolve-slash (c ∷ init) (λ e. cc)
      ∙ ap (λ d. d ++ (name ∷ [])) (sym (resolve-end (c ∷ init) (λ e. cc)))

  -- A name that is joined to a path leads into what the path leads to.
  pub resolve-join : (base : Text) → resolve cwd (join base name) ≡ resolve cwd base ++ (name ∷ [])
  unfolding join
  resolve-join [] = ap (λ b. resolve cwd (if b then name else name)) not_absolute ∙ resolve-here
  resolve-join (c ∷ base) =
      let Goal : Text → Type 0 = λ p. resolve cwd p ≡ resolve cwd (c ∷ base) ++ (name ∷ []) in
      subst
        (λ b. Goal (
          if b
          then name
          else if false || ends_with (c ∷ base) (b'/' ∷ [])
          then (c ∷ base) ++ name
          else (c ∷ base) ++ (b'/' ∷ name)))
        (sym not_absolute)
        (if-cases Goal (ends_with (c ∷ base) (b'/' ∷ []))
          (λ e.
            let (init, k) = ends_with-slash (c ∷ base) e in
            ap (λ t. resolve cwd (t ++ name)) k
            ∙ resolve-ended init
            ∙ ap (λ t. resolve cwd t ++ (name ∷ [])) (sym k))
          (λ e. resolve-slash (c ∷ base) (λ k. cc)))
