-- ===== src/Files.antt =====
-- crates/ssh-core/src/sftp.rs: names and paths of files that a server lists.
--
-- A path is a text. What the server answers, what the local disk does and whether the cancel flag is
-- set are a world that each operation may change. Names of paths are those of Unix.
pub mod World
pub mod Copy
pub mod Download
pub mod Paths
pub mod Ensures
pub mod Inside
pub mod Contained
pub mod Delivered
mod Tests
use mshell.Prelude.{
  ℕ, ◌+◌, ◌-◌, Bool, true, false, ◌&&◌, ◌||◌, Option, none, some, List, [], ◌∷◌, ◌++◌, map, leb,
  ◌==◌, if◌then◌else◌,
}
use mshell.Prelude.Seen.{contains}
use mshell.Text.{Text, eq_text, is_empty, split, contains_char, starts_with, ends_with}

-- `path.to_string_lossy().replace('\\', "/")`
unfoldable pub remote_path_to_string : Text → Text
remote_path_to_string path = map (λ c. if c == b'\\' then b'/' else c) path

abbrev filled_or : Text → Option Text → Option Text
filled_or part (some later) = some later
filled_or part none = if is_empty part then none else some part

-- `rsplit('/').find(|s| !s.is_empty())`, on the parts in their order
unfoldable pub last_filled : List Text → Option Text
last_filled [] = none
last_filled (part ∷ parts) = filled_or part (last_filled parts)

abbrev or_whole : Text → Option Text → Text
or_whole full_path none = full_path
or_whole full_path (some part) = part

unfoldable pub entry_name : Text → Text
unfolding last_filled
entry_name full_path = or_whole full_path (last_filled (split b'/' full_path))

-- `trim_end_matches([' ', '.'])`
abbrev ends_name : ℕ → Text → Text
ends_name c [] = if c == b' ' || c == b'.' then [] else c ∷ []
ends_name c (d ∷ cs) = c ∷ d ∷ cs

unfoldable pub trim_end_dots : Text → Text
trim_end_dots [] = []
trim_end_dots (c ∷ cs) = ends_name c (trim_end_dots cs)

abbrev ascii_upper : ℕ → ℕ
ascii_upper c = if leb 97 c && leb c 122 then c - 32 else c

abbrev first_part : Text → List Text → Text
first_part whole [] = whole
first_part whole (part ∷ parts) = part

-- `trimmed.split('.').next().unwrap_or(trimmed).to_ascii_uppercase()`
unfoldable pub stem_of : Text → Text
stem_of trimmed = map ascii_upper (first_part trimmed (split b'.' trimmed))

-- COM1 to COM9, for `COM`
abbrev numbered : ℕ → ℕ → ℕ → List Text
numbered a b c =
    map (λ d. a ∷ b ∷ c ∷ d ∷ [])
      (b'1' ∷ b'2' ∷ b'3' ∷ b'4' ∷ b'5' ∷ b'6' ∷ b'7' ∷ b'8' ∷ b'9' ∷ [])

abbrev pub reserved_names : List Text
reserved_names =
    ((b'C' ∷ b'O' ∷ b'N' ∷ [])
      ∷ (b'P' ∷ b'R' ∷ b'N' ∷ [])
      ∷ (b'A' ∷ b'U' ∷ b'X' ∷ [])
      ∷ (b'N' ∷ b'U' ∷ b'L' ∷ [])
      ∷ [])
    ++ (numbered b'C' b'O' b'M' ++ numbered b'L' b'P' b'T')

-- The messages of the errors.
pub data Refusal : Type 0 where
  unsafe_name separator blank_name reserved_name too_deep : Refusal

-- `CoreError`, as far as it occurs: of the server, of the local disk, and `Other`.
pub data CoreError : Type 0 where
  ssh io : CoreError
  other : Refusal → CoreError

pub data Result (A : Type 0) : Type 0 where
  ok : A → Result A
  err : CoreError → Result A

unfoldable pub safe_entry_name : Text → Result (Unit {0})
unfolding trim_end_dots stem_of
safe_entry_name name =
    if is_empty name || eq_text name (b'.' ∷ []) || eq_text name (b'.' ∷ b'.' ∷ [])
    then err (other unsafe_name)
    else if contains_char b'/' name || contains_char b'\\' name || contains_char b':' name
    then err (other separator)
    else if is_empty (trim_end_dots name)
    then err (other blank_name)
    else if contains eq_text reserved_names (stem_of (trim_end_dots name))
    then err (other reserved_name)
    else ok tt

-- `Path::join`: an absolute path takes the place of the base.
unfoldable pub join : Text → Text → Text
join base path =
    if starts_with path (b'/' ∷ [])
    then path
    else if is_empty base || ends_with base (b'/' ∷ [])
    then base ++ path
    else base ++ (b'/' ∷ path)
