-- ===== src/Files/Tests.antt =====
-- A server that lists a name leading up, and a file of two reads.
use mshell.Prelude.{◌≡◌, refl, true, false, none, some, List, [], ◌∷◌, All, bytes_eq}
use mshell.Prelude.Seen.{contains}
use mshell.Text.{Text, split, contains_char, starts_with, ends_with}
use mshell.Files.{
  ok, err, other, separator, reserved_name, safe_entry_name, entry_name, last_filled, join,
  trim_end_dots, stem_of, remote_path_to_string,
}
use mshell.Files.World.{
  reads, Source, Stat, World, dir_made, parent_made, file_created, file_given, progress, State,
}
use mshell.Files.Copy.{done, copy_turns, copy_file_cumulative, copy_loop}
use mshell.Files.Download.{collect_remote, download_dir}
use mshell.Files.Inside.{IsContained}
use mshell.Files.Contained.{download_dir-IsContained}
use mshell.Files.Delivered.{Transferred, content, given, copy_loop-Transferred}

abbrev two_reads : Source
two_reads = record { turns = reads (1 ∷ 2 ∷ []) none ∷ reads (3 ∷ []) none ∷ []; flushes = true }

abbrev file : Stat
file = record { is_dir = false; size = some 3 }

-- "r/../up" and "r/a"
abbrev entries : List (Text × Stat)
entries =
    (b'r' ∷ b'/' ∷ b'.' ∷ b'.' ∷ b'/' ∷ b'u' ∷ b'p' ∷ [], file)
    ∷ (b'r' ∷ b'/' ∷ b'a' ∷ [], file)
    ∷ []

-- Every call succeeds.
abbrev server : World Unit
server = record {
  readdir = λ path w. (some entries, w);
  is_cancelled = λ w. (false, w);
  create_dir_all = λ path w. (true, w);
  create_parent = λ path w. (true, w);
  open_remote = λ path w. (some two_reads, w);
  create_file = λ path w. (true, w);
}

abbrev fresh : State Unit
fresh = record { world = tt; trace = [] }

-- The name leads up no longer.
downloads : download_dir server (b'r' ∷ []) (b'd' ∷ []) fresh ≡ (
  ok (done 6 (some 6)),
  record {
    world = tt;
    trace =
        progress 0 (some 6)
        ∷ dir_made (b'd' ∷ [])
        ∷ parent_made (b'd' ∷ b'/' ∷ b'u' ∷ b'p' ∷ [])
        ∷ file_created (b'd' ∷ b'/' ∷ b'u' ∷ b'p' ∷ [])
        ∷ file_given (b'd' ∷ b'/' ∷ b'u' ∷ b'p' ∷ []) (1 ∷ 2 ∷ [])
        ∷ file_given (b'd' ∷ b'/' ∷ b'u' ∷ b'p' ∷ []) (3 ∷ [])
        ∷ parent_made (b'd' ∷ b'/' ∷ b'a' ∷ [])
        ∷ file_created (b'd' ∷ b'/' ∷ b'a' ∷ [])
        ∷ file_given (b'd' ∷ b'/' ∷ b'a' ∷ []) (1 ∷ 2 ∷ [])
        ∷ file_given (b'd' ∷ b'/' ∷ b'a' ∷ []) (3 ∷ [])
        ∷ progress 6 (some 6)
        ∷ [];
  },
)
unfolding download_dir collect_remote copy_file_cumulative copy_turns safe_entry_name entry_name
    last_filled join contains split starts_with ends_with contains_char bytes_eq
    remote_path_to_string trim_end_dots stem_of
downloads = refl

download_dir-IsContained_example :
    All
      (IsContained ((b'h' ∷ []) ∷ []) (b'd' ∷ []))
      (download_dir server (b'r' ∷ []) (b'd' ∷ []) fresh).1.trace
download_dir-IsContained_example =
    download_dir-IsContained server ((b'h' ∷ []) ∷ []) (b'r' ∷ []) (b'd' ∷ []) tt

copy_loop-Transferred_example :
    Transferred [] (1 ∷ 2 ∷ 3 ∷ []) (copy_loop (b'd' ∷ []) two_reads (some 3) fresh)
unfolding content given
copy_loop-Transferred_example = copy_loop-Transferred (b'd' ∷ []) two_reads (some 3) fresh

-- "con.", "a:b"
device : safe_entry_name (b'c' ∷ b'o' ∷ b'n' ∷ b'.' ∷ []) ≡ err (other reserved_name)
unfolding safe_entry_name contains split contains_char bytes_eq trim_end_dots stem_of
device = refl

drive : safe_entry_name (b'a' ∷ b':' ∷ b'b' ∷ []) ≡ err (other separator)
unfolding safe_entry_name contains_char bytes_eq
drive = refl
