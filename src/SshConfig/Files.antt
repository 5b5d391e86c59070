-- ===== src/SshConfig/Files.antt =====
-- Which paths an Include line of the configuration is followed to.
use mshell.Prelude.{
  if-all, ◌≡◌, Bool, true, false, ◌&&◌, Option, none, some, List, [], ◌∷◌, if◌then◌else◌,
  Bool-cases, inl, inr, All,
}
use mshell.Text.{Text, split_once, starts_with, ends_with}
use mshell.SshConfig.{
  PathBuf, System, or_else, resolve_include, insert, sort, glob_matches, sorted_matches, glob_in,
  glob_named, expand_include_glob, included,
}

module _ (sys : System) where
  abbrev pub IsFile : PathBuf → Type 0
  IsFile p = sys.is_file p ≡ true

  insert-IsFile :
      (p : PathBuf) (ps : List PathBuf)
      → IsFile p
      → All IsFile ps
      → All IsFile (insert sys.path_le p ps)
  insert-IsFile p [] h hs = (h, tt)
  insert-IsFile p (q ∷ qs) h hs =
      if-all (All IsFile) (sys.path_le p q) (h, hs) (hs.0, insert-IsFile p qs h (hs.1))

  sort-IsFile : (ps : List PathBuf) → All IsFile ps → All IsFile (sort sys.path_le ps)
  unfolding sort
  sort-IsFile [] hs = tt
  sort-IsFile (p ∷ ps) hs = insert-IsFile p _ (hs.0) (sort-IsFile ps (hs.1))

  if-IsFile :
      (a b : Bool) (p : PathBuf) (ps : List PathBuf)
      → All IsFile ps
      → All IsFile (if a && b && sys.is_file p then p ∷ ps else ps)
  if-IsFile false b p ps h = h
  if-IsFile true false p ps h = h
  if-IsFile true true p ps h = elim (Bool-cases (sys.is_file p)) [
    | inl q ↦ rw q (q, h)
    | inr q ↦ rw q h
  ]

  glob_matches-IsFile :
      (parent : PathBuf) (prefix suffix : Text) (names : List Text)
      → All IsFile (glob_matches sys parent prefix suffix names)
  unfolding glob_matches
  glob_matches-IsFile parent prefix suffix [] = tt
  glob_matches-IsFile parent prefix suffix (s ∷ names) =
      if-IsFile (starts_with s prefix) (ends_with s suffix) (sys.join parent s) _
        (glob_matches-IsFile parent prefix suffix names)

  abbrev AreFiles : Option (List PathBuf) → Type 0
  AreFiles o = All IsFile (or_else o [])

  sorted_matches-AreFiles :
      (parent : PathBuf) (prefix suffix : Text) (names : Option (List Text))
      → AreFiles (sorted_matches sys parent prefix suffix names)
  sorted_matches-AreFiles parent prefix suffix none = tt
  sorted_matches-AreFiles parent prefix suffix (some names) =
      sort-IsFile _ (glob_matches-IsFile parent prefix suffix names)

  glob_in-AreFiles :
      (parent : Option PathBuf) (parts : Option (Text × Text)) → AreFiles (glob_in sys parent parts)
  glob_in-AreFiles none parts = tt
  glob_in-AreFiles (some parent) none = tt
  glob_in-AreFiles (some parent) (some (prefix, suffix)) =
      if-all AreFiles (sys.is_dir parent)
        (sorted_matches-AreFiles parent prefix suffix (sys.read_dir parent)) tt

  glob_named-AreFiles :
      (parent : Option PathBuf) (name : Option Text) → AreFiles (glob_named sys parent name)
  glob_named-AreFiles parent none = tt
  glob_named-AreFiles parent (some name) = glob_in-AreFiles parent (split_once b'*' name)

  -- An Include line is followed to files only.
  pub included-IsFile :
      (base_dir : PathBuf) (pattern : Text) → All IsFile (included sys base_dir pattern)
  unfolding included expand_include_glob
  included-IsFile base_dir pattern =
      let path = resolve_include sys base_dir pattern in
      elim (Bool-cases (sys.is_file path)) [
        | inl q ↦ rw q (q, tt)
        | inr q ↦ rw q (glob_named-AreFiles (sys.parent path) (sys.file_name path))
      ]
