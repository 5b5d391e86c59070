-- ===== src/KnownHosts/Write.antt =====
-- knownhost.c, `knownhost_writeline`: an entry as a line of OpenSSH's known_hosts.
use mshell.Prelude.{
  ℕ, ◌+◌, ◌-◌, Bool, Option, none, some, [], ◌∷◌, ◌++◌, leb, ◌==◌, if◌then◌else◌, Bytes, length,
}
use mshell.Base64.{encode}
use mshell.KnownHosts.{KnownHost, Library, name_type, key_type, sha1, unknown_key, if_encoded}
use mshell.KnownHosts.Read.{ssh_ed25519, nistp256, nistp384, nistp521, ssh_rsa, ssh_dss}

-- The line in the buffer with its length, the length that was wanted, or another error.
pub data Written : Type 0 where
  written : (line : Bytes) (outlen : ℕ) → Written
  too_small : (outlen : ℕ) → Written
  failed : ℕ → Written

-- `key_type_name` after the `switch`: none is an unsupported type, `some none` is NULL.
abbrev pub named : Option Bytes → Option (Option Bytes)
named none = none
named (some name) = some (some name)

unfoldable pub type_name_of : Bool → KnownHost → Option (Option Bytes)
type_name_of dsa node =
    let type = key_type node.typemask in
    if type == 1
    then some none
    else if type == 2
    then some (some ssh_rsa)
    else if type == 3
    then (if dsa then some (some ssh_dss) else none)
    else if type == 4
    then some (some nistp256)
    else if type == 5
    then some (some nistp384)
    else if type == 6
    then some (some nistp521)
    else if type == 7
    then some (some ssh_ed25519)
    else if type == unknown_key
    then named node.key_type_name
    else none

-- " %s" for a part that is there. A type's name of length 0 is not.
abbrev pub spaced : Option Bytes → Bytes
spaced none = []
spaced (some part) = 32 ∷ part

abbrev pub spaced_name : Option Bytes → Bytes
spaced_name none = []
spaced_name (some []) = []
spaced_name (some (c ∷ name)) = 32 ∷ c ∷ name

-- What `snprintf` prints for the formats, all of which are the host and the parts that are there.
abbrev pub printed : Bytes → Option Bytes → KnownHost → Bytes
printed host type_name node =
    host ++ (spaced_name type_name ++ (32 ∷ (node.key ++ (spaced node.comment ++ (10 ∷ [])))))

-- `required_size` counts the NUL.
abbrev pub put : Bytes → ℕ → Written
put line buflen =
    let required_size = length line + 1 in
    if leb required_size buflen
    then written line (required_size - 1)
    else too_small (required_size - 1)

abbrev pub hashed_name : Option Bytes → Option Bytes → Option Bytes
hashed_name none salt = none
hashed_name (some name) none = none
hashed_name (some name) (some salt) = some (b'|' ∷ b'1' ∷ b'|' ∷ (salt ++ (b'|' ∷ name)))

-- The host in the line; LIBSSH2_ERROR_ALLOC if it cannot be encoded.
abbrev pub host_text : Library → KnownHost → Option Bytes
host_text lib node =
    if name_type node.typemask == sha1
    then hashed_name (if_encoded (encode lib.alloc node.name (length node.name)))
        (if_encoded (encode lib.alloc node.salt (length node.salt)))
    else some node.name

abbrev pub put_host : Option Bytes → Option Bytes → KnownHost → ℕ → Written
put_host none type_name node buflen = failed 6
put_host (some host) type_name node buflen = put (printed host type_name node) buflen

abbrev pub put_named : Library → Option (Option Bytes) → KnownHost → ℕ → Written
put_named lib none node buflen = failed 33
put_named lib (some type_name) node buflen = put_host (host_text lib node) type_name node buflen

-- The `type` is LIBSSH2_KNOWNHOST_FILE_OPENSSH; another is refused.
unfoldable pub knownhost_writeline : Library → Bool → KnownHost → ℕ → ℕ → Written
unfolding type_name_of
knownhost_writeline lib dsa node buflen type =
    if type == 1 then put_named lib (type_name_of dsa node) node buflen else failed 33
