-- ===== src/KnownHosts/Read.antt =====
-- knownhost.c, `libssh2_knownhost_readline`: the entries of a line of OpenSSH's known_hosts.
--
-- A line is a C string as `fgets` gives it, with a line feed at its end or none, and `len` is its
-- length. `text` is the line without the line feed, `ending` the line feed or nothing. A function returns the collection,
-- which may have grown before an error, and the error's number without its sign; 0 is success.
use mshell.Prelude.{
  ℕ, ◌+◌, ◌-◌, ◌*◌, ◌^◌, ◌%◌, Bool, true, false, not, ◌&&◌, ◌||◌, Option, none, some, List, [], ◌∷◌,
  ◌++◌, ltb, leb, ◌==◌, if◌then◌else◌, Bytes, length, take, drop, bytes_eq,
}
use mshell.Text.{split_at, split_once}
use mshell.KnownHosts.{KnownHost, Library, plain, sha1, unknown_key}
use mshell.KnownHosts.Add.{Stored, stored, refused, knownhost_add}

abbrev pub is_blank : ℕ → Bool
is_blank c = c == 32 || c == 9

unfoldable pub split_line : Bytes → Bytes × Bytes
split_line [] = ([], [])
split_line (c ∷ cs) =
    let rest = split_line cs in if c == 10 then ([], c ∷ cs) else (c ∷ rest.0, rest.1)

-- `while(*cp == ' ' || *cp == '\t')`
unfoldable pub skip_blanks : Bytes → Bytes
skip_blanks [] = []
skip_blanks (c ∷ cs) = let rest = skip_blanks cs in if is_blank c then rest else c ∷ cs

-- What stands before the first blank, and from there on.
unfoldable pub split_word : Bytes → Bytes × Bytes
split_word [] = ([], [])
split_word (c ∷ cs) =
    let rest = split_word cs in if is_blank c then ([], c ∷ cs) else (c ∷ rest.0, rest.1)

-- `!strncmp(word, name, length of word)`
unfoldable pub is_prefix : Bytes → Bytes → Bool
is_prefix [] name = true
is_prefix (c ∷ word) [] = false
is_prefix (c ∷ word) (d ∷ name) = c == d && is_prefix word name

-- "ssh-ed25519", "ecdsa-sha2-nistp256", "…384", "…521", "ssh-rsa", "ssh-dss"
abbrev pub ssh_ed25519 : Bytes
ssh_ed25519 = b's' ∷ b's' ∷ b'h' ∷ b'-' ∷ b'e' ∷ b'd' ∷ b'2' ∷ b'5' ∷ b'5' ∷ b'1' ∷ b'9' ∷ []

abbrev pub ecdsa_sha2_nistp : Bytes → Bytes
ecdsa_sha2_nistp size =
    b'e' ∷ b'c' ∷ b'd' ∷ b's' ∷ b'a' ∷ b'-' ∷ b's' ∷ b'h' ∷ b'a' ∷ b'2' ∷ b'-' ∷ b'n' ∷ b'i' ∷ b's'
    ∷ b't' ∷ b'p' ∷ size

abbrev pub nistp256 : Bytes
nistp256 = ecdsa_sha2_nistp (b'2' ∷ b'5' ∷ b'6' ∷ [])

abbrev pub nistp384 : Bytes
nistp384 = ecdsa_sha2_nistp (b'3' ∷ b'8' ∷ b'4' ∷ [])

abbrev pub nistp521 : Bytes
nistp521 = ecdsa_sha2_nistp (b'5' ∷ b'2' ∷ b'1' ∷ [])

abbrev pub ssh_rsa : Bytes
ssh_rsa = b's' ∷ b's' ∷ b'h' ∷ b'-' ∷ b'r' ∷ b's' ∷ b'a' ∷ []

abbrev pub ssh_dss : Bytes
ssh_dss = b's' ∷ b's' ∷ b'h' ∷ b'-' ∷ b'd' ∷ b's' ∷ b's' ∷ []

-- The `LIBSSH2_KNOWNHOST_KEY_*` of a word, shifted down; `dsa` is the build's `LIBSSH2_DSA`.
unfoldable pub key_type_of : Bool → Bytes → ℕ
key_type_of dsa word =
    if is_prefix word ssh_ed25519
    then 7
    else if is_prefix word nistp256
    then 4
    else if is_prefix word nistp384
    then 5
    else if is_prefix word nistp521
    then 6
    else if is_prefix word ssh_rsa
    then 2
    else if dsa && is_prefix word ssh_dss
    then 3
    else unknown_key

-- What `hostline` takes out of the key part: `key` is a C string of which `keylen` bytes count.
pub record KeyPart : Type 0 where
  pub type : ℕ
  pub type_name : Option Bytes
  pub key : Bytes
  pub keylen : ℕ
  pub comment : Option Bytes

-- No blank is no comment, a blank is one, maybe an empty one.
abbrev pub comment_of : Bytes → Option Bytes
comment_of [] = none
comment_of (c ∷ cs) = some (skip_blanks (c ∷ cs))

unfoldable pub typed_key : Bool → Bytes → Bytes → KeyPart
unfolding is_prefix key_type_of skip_blanks split_word
typed_key dsa text ending =
    let word = split_word text in
    let key = skip_blanks word.1 in
    let body = split_word key in
    record {
      type = key_type_of dsa (word.0);
      type_name = some (word.0);
      key = key ++ ending;
      keylen = length (body.0);
      comment = comment_of (body.1);
    }

abbrev pub rsa1_key : Bytes → Bytes → KeyPart
rsa1_key text ending = record {
  type = 1;
  type_name = none;
  key = text ++ ending;
  keylen = length text;
  comment = none;
}

abbrev pub is_digit : ℕ → Bool
is_digit c = leb b'0' c && leb c b'9'

-- `switch(key[0])`
unfoldable pub key_part : Bool → Bytes → Bytes → KeyPart
unfolding typed_key
key_part dsa [] ending = typed_key dsa [] ending
key_part dsa (c ∷ text) ending =
    if is_digit c then rsa1_key (c ∷ text) ending else typed_key dsa (c ∷ text) ending

abbrev pub at_comma : Bytes → Bool
at_comma [] = true
at_comma (c ∷ cs) = c == b','

-- The names of a host part from the last to the first: the bytes before the cursor, the nearest one
-- first, and `name`, what was passed since the last comma. `skip` says that the next byte is a comma
-- to be passed. A comma that a comma or the end follows is part of the name before it.
unfoldable pub names_before : Bool → Bytes → Bytes → List Bytes
names_before skip [] name = []
names_before skip (c ∷ rev) name =
    let ends = not skip && at_comma rev in
    let rest = names_before ends rev (if skip || ends then [] else c ∷ name) in
    if ends then (c ∷ name) ∷ rest else rest

unfoldable pub reversed_onto : Bytes → Bytes → Bytes
reversed_onto [] acc = acc
reversed_onto (c ∷ cs) acc = reversed_onto cs (c ∷ acc)

abbrev pub Reading : Type 0
Reading = List KnownHost × ℕ

abbrev pub collected : List KnownHost → Stored (List KnownHost) → Reading
collected hosts (stored new) = (new, 0)
collected hosts (refused e) = (hosts, e)

abbrev pub and_then : Reading → (List KnownHost → Reading) → Reading
and_then (hosts, rc) f = if rc == 0 then f hosts else (hosts, rc)

-- `!memcmp(host, "|1|", 3)`
abbrev pub is_hashed : Bytes → Bool
is_hashed line = bytes_eq (take 3 line) (b'|' ∷ b'1' ∷ b'|' ∷ [])

module _ (lib : Library) (entry_size : ℕ) (dsa : Bool) where
  -- LIBSSH2_KNOWNHOST_TYPE_* | LIBSSH2_KNOWNHOST_KEYENC_BASE64 | the key's type
  abbrev pub read_mask : ℕ → KeyPart → ℕ
  read_mask type k = type + 2 ^ 17 + k.type * 2 ^ 18

  abbrev pub add_read : List KnownHost → Bytes → Bytes → ℕ → KeyPart → Reading
  add_read hosts name salt type k = collected hosts (
      knownhost_add lib entry_size hosts name salt k.type_name k.key k.keylen k.comment
        (read_mask type k))

  unfoldable pub add_names : KeyPart → List Bytes → List KnownHost → Reading
  add_names k [] hosts = (hosts, 0)
  add_names k (name ∷ names) hosts =
      if leb 255 (length name)
      then (hosts, 33)
      else and_then (add_read hosts name [] plain k) (add_names k names)

  abbrev pub oldstyle_hostline : List KnownHost → Bytes → KeyPart → Reading
  oldstyle_hostline hosts host k =
      if length host == 0
      then (hosts, 33)
      else add_names k (names_before false (reversed_onto host []) []) hosts

  abbrev pub hashed_parts : List KnownHost → ℕ → KeyPart → Option (Bytes × Bytes) → Reading
  hashed_parts hosts hostlen k none = (hosts, 0)
  hashed_parts hosts hostlen k (some (salt, after)) =
      let hashlen = (hostlen + 2 ^ 64 - (length salt + 1)) % 2 ^ 64 in
      if leb 31 (length salt)
      then (hosts, 33)
      else if leb 255 hashlen
      then (hosts, 33)
      else add_read hosts (take hashlen after) salt sha1 k

  -- `line` is the C string that starts with the host. `hostlen` is a `size_t`.
  unfoldable pub hashed_hostline : List KnownHost → Bytes → ℕ → KeyPart → Reading
  unfolding split_at
  hashed_hostline hosts line hostlen k =
      hashed_parts hosts ((hostlen + 2 ^ 64 - 3) % 2 ^ 64) k (split_once b'|' (drop 3 line))

  unfoldable pub hostline : List KnownHost → Bytes → Bytes → Bytes → Bytes → Reading
  unfolding key_part add_names names_before reversed_onto hashed_hostline
  hostline hosts line host key ending =
      if ltb (length key) 20
      then (hosts, 33)
      else if ltb 2 (length host) && not (is_hashed line)
      then oldstyle_hostline hosts host (key_part dsa key ending)
      else hashed_hostline hosts line (length host) (key_part dsa key ending)

  abbrev pub keyed_line : List KnownHost → Bytes → Bytes → Bytes → Bytes → Reading
  keyed_line hosts line host [] ending = (hosts, 33)
  keyed_line hosts line host (c ∷ key) ending = hostline hosts line host (c ∷ key) ending

  abbrev pub host_line : List KnownHost → Bytes → Bytes → Reading
  host_line hosts [] ending = (hosts, 0)
  host_line hosts (c ∷ text) ending =
      let word = split_word (c ∷ text) in
      if c == b'#'
      then (hosts, 0)
      else keyed_line hosts (c ∷ text ++ ending) (word.0) (skip_blanks word.1) ending

  -- The `type` is LIBSSH2_KNOWNHOST_FILE_OPENSSH; a line of another is refused.
  unfoldable pub knownhost_readline : List KnownHost → Bytes → ℕ → Reading
  unfolding split_line skip_blanks split_word hostline
  knownhost_readline hosts line type =
      let (text, ending) = split_line line in
      if type == 1 then host_line hosts (skip_blanks text) ending else (hosts, 33)
