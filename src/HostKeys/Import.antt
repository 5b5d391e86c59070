-- ===== src/HostKeys/Import.antt =====
-- `import_openssh_known_hosts`: the entries that a known_hosts file of OpenSSH stands for.
use mshell.Prelude.{
  ℕ, Bool, true, ◌||◌, Option, none, some, List, [], ◌∷◌, ◌++◌, ◌==◌, if◌then◌else◌, Bytes,
}
use mshell.Text.{Text, trim, lines, split_whitespace, split_once_pair, split, starts_with}
use mshell.HostKeys.{Entry, Crates, File, Result, fingerprint_sha256, import_entries}

-- ":22"
abbrev pub with_default_port : Text → Text
with_default_port tok = tok ++ (b':' ∷ b'2' ∷ b'2' ∷ [])

abbrev pub bracketed : Text → Option (Text × Text) → Text
bracketed tok none = with_default_port tok
bracketed tok (some (host, port)) = host ++ (b':' ∷ port)

unfoldable pub normalize_known_host_token : Text → Option Text
unfolding split_once_pair
normalize_known_host_token [] = none
normalize_known_host_token (c ∷ cs) =
    let tok = c ∷ cs in
    if c == b'!'
    then none
    else if c == b'['
    then some (bracketed tok (split_once_pair b']' b':' cs))
    else some (with_default_port tok)

abbrev pub entry_for : Text → Text → Option Text → List Entry → List Entry
entry_for fingerprint key_type none rest = rest
entry_for fingerprint key_type (some host) rest =
    record { host = host; fingerprint = fingerprint; key_type = key_type } ∷ rest

-- The loop over the host tokens.
unfoldable pub entries_of : Text → Text → List Text → List Entry
unfolding normalize_known_host_token
entries_of fingerprint key_type [] = []
entries_of fingerprint key_type (tok ∷ toks) =
    entry_for fingerprint key_type (normalize_known_host_token tok)
      (entries_of fingerprint key_type toks)

abbrev pub keyed_entries : Crates → Text → Text → Option Bytes → List Entry
keyed_entries crates hosts key_type none = []
keyed_entries crates hosts key_type (some key_bytes) =
    entries_of (fingerprint_sha256 crates key_bytes) key_type (split b',' hosts)

-- "|1|" before a hashed name
abbrev pub hashed : Text
hashed = b'|' ∷ b'1' ∷ b'|' ∷ []

abbrev pub from_words : Crates → List Text → List Entry
from_words crates (hosts ∷ key_type ∷ key_b64 ∷ _) =
    if starts_with hosts hashed
    then []
    else keyed_entries crates hosts key_type (crates.base64_decode key_b64)
from_words crates _ = []

-- An empty line, a comment or a line with a marker is skipped.
abbrev pub is_skipped : Text → Bool
is_skipped [] = true
is_skipped (c ∷ cs) = c == b'#' || c == b'@'

unfoldable pub line_entries : Crates → Text → List Entry
unfolding trim split_whitespace starts_with split entries_of
line_entries crates raw =
    let line = trim raw in if is_skipped line then [] else from_words crates (split_whitespace line)

unfoldable pub all_line_entries : Crates → List Text → List Entry
unfolding line_entries
all_line_entries crates [] = []
all_line_entries crates (l ∷ ls) = line_entries crates l ++ all_line_entries crates ls

unfoldable pub parse_openssh_known_hosts : Crates → Text → List Entry
unfolding lines all_line_entries
parse_openssh_known_hosts crates content = all_line_entries crates (lines content)

unfoldable pub import_openssh_known_hosts : Crates → Bool → File → Text → File × Result ℕ
unfolding parse_openssh_known_hosts import_entries
import_openssh_known_hosts crates writes file content =
    import_entries writes file (parse_openssh_known_hosts crates content)
