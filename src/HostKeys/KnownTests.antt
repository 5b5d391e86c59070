-- ===== src/HostKeys/KnownTests.antt =====
-- An import of a file with a comment, a revoked key and a line of two names.
use mshell.Prelude.{◌≡◌, refl, true, some, List, [], ◌∷◌, bytes_eq, arith}
use mshell.Text.{is_whitespace}
use mshell.HostKeys.{
  strict, Entry, Crates, absent, ok, host_port_key, fingerprint_sha256, presented, load_known_hosts,
  find_entry, verify_host_key,
}
use mshell.HostKeys.Import.{parse_openssh_known_hosts, import_openssh_known_hosts}
use mshell.HostKeys.Known.{
  bare, bracket, Known, IsKnown, Line, known, comment, marker, print, IsBlank, all_entries,
  token_entries,
}
use mshell.HostKeys.Pinned.{pinned_answer}
use mshell.HostKeys.Imported.{last_for, import_openssh_known_hosts-pins}

abbrev crates : Crates
crates = record {
  sha256 = λ k. k;
  base64_encode = λ d. d;
  base64_decode = λ t. some t;
  decimal = λ n. b'2' ∷ b'2' ∷ [];
}

-- "h,[i]:9 t k", with a remark
abbrev two_names : Known
two_names = record {
  indent = 32 ∷ [];
  host = bare b'h' [];
  aliases = bracket (b'i' ∷ []) (b'9' ∷ []) ∷ [];
  gap = 32;
  spaces = [];
  key_type = b't' ∷ [];
  gap' = 32;
  spaces' = 32 ∷ [];
  key_b64 = b'k' ∷ [];
  tail = 32 ∷ b'#' ∷ [];
}

abbrev file_lines : List Line
file_lines = comment (b'c' ∷ []) ∷ marker (b'r' ∷ []) ∷ known two_names ∷ []

abbrev entry_h : Entry
entry_h = record {
  host = b'h' ∷ b':' ∷ b'2' ∷ b'2' ∷ [];
  fingerprint = fingerprint_sha256 crates (b'k' ∷ []);
  key_type = b't' ∷ [];
}

parses_names :
    parse_openssh_known_hosts crates (print file_lines)
    ≡ entry_h ∷ record entry_h { host = b'i' ∷ b':' ∷ b'9' ∷ [] } ∷ []
unfolding parse_openssh_known_hosts print is_whitespace
parses_names = refl

space-IsBlank : IsBlank 32
unfolding is_whitespace
space-IsBlank = (refl, omega arith)

two_names-IsKnown : IsKnown two_names
unfolding is_whitespace
two_names-IsKnown = record {
  indent_blank = (space-IsBlank, tt);
  host_right =
      (((refl, omega arith), omega arith, omega arith, omega arith, omega arith, omega arith), tt);
  aliases_right = ((((refl, omega arith), tt), (omega arith, tt), ((refl, omega arith), tt)), tt);
  gap_blank = space-IsBlank;
  spaces_blank = tt;
  type_word = (λ e. cc, (refl, tt));
  gap'_blank = space-IsBlank;
  spaces'_blank = (space-IsBlank, tt);
  key_word = (λ e. cc, (refl, tt));
  tail_right = refl;
  tail_line = (omega arith, (omega arith, tt));
}

last_is_h :
    last_for
      (find_entry [] (host_port_key crates (b'h' ∷ []) 22))
      (all_entries crates file_lines)
      (host_port_key crates (b'h' ∷ []) 22)
    ≡ some entry_h
unfolding last_for find_entry all_entries token_entries bytes_eq
last_is_h = refl

read_empty : load_known_hosts absent ≡ ok []
unfolding load_known_hosts
read_empty = refl

import_openssh_known_hosts-pins_example :
    let after = (import_openssh_known_hosts crates true absent (print file_lines)).0 in
    verify_host_key crates true after (b'h' ∷ []) 22 (b'l' ∷ []) [] strict
    ≡ (after, pinned_answer entry_h.fingerprint (presented crates (b'h' ∷ []) 22 (b'l' ∷ []) []))
import_openssh_known_hosts-pins_example =
    import_openssh_known_hosts-pins crates file_lines absent [] entry_h (b'h' ∷ []) 22 true
      (b'l' ∷ []) [] strict ((omega arith, tt), ((omega arith, tt), (two_names-IsKnown, tt)))
      read_empty last_is_h λ e. cc
