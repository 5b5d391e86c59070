-- ===== src/SshConfig.antt =====
-- crates/ssh-core/src/ssh_config.rs: the parser of OpenSSH's `config`, with its Include lines.
--
-- The parser itself is in SshConfig/Parse.antt. A path is the text of it, and paths are compared as
-- texts: canonical ones are equal just then. The file system does not change while a call reads it.
pub mod Parse
pub mod Files
pub mod Ends
pub mod Layout
pub mod Connections
pub mod Aliases
pub mod Imported
mod Tests
use mshell.Prelude.{
  ℕ, zero, suc, ◌+◌, Bool, true, false, not, ◌&&◌, ◌||◌, Option, none, some, List, [], ◌∷◌, ◌++◌,
  ◌==◌, if◌then◌else◌, bytes_eq,
}
use mshell.Prelude.Seen.{contains}
use mshell.Text.{
  Text, eq_text, is_empty, is_whitespace, trim, lines, split_whitespace, to_ascii_lowercase,
  contains_char, split_at, split_once, starts_with, ends_with, parse_u16,
}

abbrev pub PathBuf : Type 0
PathBuf = Text

pub record SshConfigHost : Type 0 where
  pub patterns : List Text
  pub host_name : Option Text
  pub user : Option Text
  pub port : Option ℕ
  pub identity_file : Option Text
  pub certificate_file : Option Text
  pub proxy_jump : Option Text
  pub forward_agent : Option Bool
  pub source_path : PathBuf

-- The crate dirs, `std::path` and the file system. `read_dir` gives the names in a directory;
-- `path_le` is the order of `PathBuf`.
pub record System : Type 0 where
  pub home_dir : Option PathBuf
  pub join : PathBuf → PathBuf → PathBuf
  pub is_absolute : PathBuf → Bool
  pub parent : PathBuf → Option PathBuf
  pub file_name : PathBuf → Option Text
  pub canonicalize : PathBuf → Option PathBuf
  pub read_to_string : PathBuf → Option Text
  pub is_file : PathBuf → Bool
  pub is_dir : PathBuf → Bool
  pub read_dir : PathBuf → Option (List Text)
  pub path_le : PathBuf → PathBuf → Bool

-- An error names the file that could not be read. `out_of_fuel` is the model's own.
pub data Run {ℓ} (A : Type ℓ) : Type ℓ where
  done : A → Run A
  failed : PathBuf → Run A
  out_of_fuel : Run A

abbrev pub and_then {ℓ κ} : {A : Type ℓ} {B : Type κ} → Run A → (A → Run B) → Run B
and_then (done a) f = f a
and_then (failed p) f = failed p
and_then out_of_fuel f = out_of_fuel

abbrev pub or_else {ℓ} : {A : Type ℓ} → Option A → A → A
or_else none d = d
or_else (some a) d = a

abbrev pub joined : System → Option PathBuf → Text → Text → Text
joined sys none rest path = path
joined sys (some home) rest path = sys.join home rest

unfoldable pub expand_tilde : System → Text → Text
expand_tilde sys [] = []
expand_tilde sys (c ∷ []) = if c == b'~' then or_else sys.home_dir (c ∷ []) else c ∷ []
expand_tilde sys (c ∷ d ∷ rest) =
    if c == b'~' && (d == b'/' || d == 92)
    then joined sys sys.home_dir rest (c ∷ d ∷ rest)
    else c ∷ d ∷ rest

abbrev pub resolve_include : System → PathBuf → Text → PathBuf
resolve_include sys base_dir pattern =
    let p = expand_tilde sys pattern in if sys.is_absolute p then p else sys.join base_dir p

-- `Vec::sort`
abbrev pub insert : (PathBuf → PathBuf → Bool) → PathBuf → List PathBuf → List PathBuf
insert le p [] = p ∷ []
insert le p (q ∷ qs) = let rest = insert le p qs in if le p q then p ∷ q ∷ qs else q ∷ rest

unfoldable pub sort : (PathBuf → PathBuf → Bool) → List PathBuf → List PathBuf
sort le [] = []
sort le (p ∷ ps) = insert le p (sort le ps)

-- The files of a directory whose names have a prefix and a suffix.
unfoldable pub glob_matches : System → PathBuf → Text → Text → List Text → List PathBuf
glob_matches sys parent prefix suffix [] = []
glob_matches sys parent prefix suffix (s ∷ names) =
    let rest = glob_matches sys parent prefix suffix names in
    let full = sys.join parent s in
    if starts_with s prefix && ends_with s suffix && sys.is_file full then full ∷ rest else rest

abbrev pub sorted_matches :
    System → PathBuf → Text → Text → Option (List Text) → Option (List PathBuf)
sorted_matches sys parent prefix suffix none = none
sorted_matches sys parent prefix suffix (some names) =
    some (sort sys.path_le (glob_matches sys parent prefix suffix names))

abbrev pub glob_in : System → Option PathBuf → Option (Text × Text) → Option (List PathBuf)
glob_in sys (some parent) (some (prefix, suffix)) =
    if sys.is_dir parent
    then sorted_matches sys parent prefix suffix (sys.read_dir parent)
    else none
glob_in sys _ _ = none

abbrev pub glob_named : System → Option PathBuf → Option Text → Option (List PathBuf)
glob_named sys parent none = none
glob_named sys parent (some name) = glob_in sys parent (split_once b'*' name)

-- A name without a star has no `split_once`.
unfoldable pub expand_include_glob : System → PathBuf → Option (List PathBuf)
unfolding split_at sort glob_matches
expand_include_glob sys path = glob_named sys (sys.parent path) (sys.file_name path)

-- The files that one pattern of an Include line names.
unfoldable pub included : System → PathBuf → Text → List PathBuf
unfolding expand_tilde expand_include_glob
included sys base_dir pattern =
    let path = resolve_include sys base_dir pattern in
    if sys.is_file path then path ∷ [] else or_else (expand_include_glob sys path) []

-- A `#` that is not in quotes starts a comment.
unfoldable pub uncommented : Bool → Text → Text
uncommented in_quote [] = []
uncommented in_quote (c ∷ cs) =
    let rest = uncommented (if c == b'"' then not in_quote else in_quote) cs in
    if c == b'#' && not in_quote then [] else c ∷ rest

unfoldable pub strip_comment : Text → Text
unfolding uncommented
strip_comment line = uncommented false line

abbrev pub key_and_value : Text → Option (Text × Text) → Text × Text
key_and_value line none = (trim line, [])
key_and_value line (some (k, v)) = (trim k, trim v)

abbrev pub split_equals : Text → Option (Text × Text) → Text × Text
split_equals line none = key_and_value line (split_at is_whitespace line)
split_equals line (some kv) = key_and_value line (some kv)

unfoldable pub split_key_value : Text → Text × Text
unfolding split_at
split_key_value line = split_equals line (split_once b'=' line)

-- `parse_yes_no`: "yes", "true", "1" or "on"
unfoldable pub parse_yes_no : Text → Bool
unfolding to_ascii_lowercase
parse_yes_no value =
    let v = to_ascii_lowercase value in
    eq_text v (b'y' ∷ b'e' ∷ b's' ∷ [])
    || eq_text v (b't' ∷ b'r' ∷ b'u' ∷ b'e' ∷ [])
    || eq_text v (b'1' ∷ [])
    || eq_text v (b'o' ∷ b'n' ∷ [])
