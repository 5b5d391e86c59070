-- ===== src/KnownHosts.antt =====
-- knownhost.c: the collection of known hosts, adding to it and checking a server's key against it.
--
-- A `char *` is the string's bytes without the NUL. A `typemask` is a natural number; the type of
-- the name is its low 16 bits, the key's encoding the next two, the key's type the next four.
pub mod Add
pub mod Read
pub mod Write
pub mod Words
pub mod Keyed
pub mod Readd
pub mod Reread
pub mod RoundTrip
pub mod Hashed
pub mod Short
pub mod Lookup
pub mod Added
mod Tests
mod LineTests
use mshell.Prelude.{
  ℕ, ◌+◌, ◌-◌, ◌*◌, ◌/◌, ◌%◌, ◌^◌, Bool, true, false, not, ◌&&◌, ◌||◌, Option, none, some, List, [],
  ◌∷◌, ◌++◌, leb, ltb, ◌==◌, if◌then◌else◌, Bytes, length, take, bytes_eq, ◌⊎◌, inl, inr,
}
use mshell.Base64.{decode, encode, c_string, ok, err, Error, Result}

-- `struct known_host`. `name` is the hash for a hashed entry; `key` is kept base64 encoded.
pub record KnownHost : Type 0 where
  pub name : Bytes
  pub typemask : ℕ
  pub salt : Bytes
  pub key : Bytes
  pub key_type_name : Option Bytes
  pub comment : Option Bytes

-- The allocator, `snprintf`'s "%d" and the HMAC-SHA1 of the crypto backend, from salt and text;
-- `none` is a failure of one of its steps.
pub record Library : Type 0 where
  pub alloc : ℕ → Bool
  pub decimal : ℕ → Bytes
  pub hmac_sha1 : Bytes → Bytes → Option Bytes

-- LIBSSH2_KNOWNHOST_TYPE_MASK, LIBSSH2_KNOWNHOST_KEYENC_BASE64, LIBSSH2_KNOWNHOST_KEY_MASK. The key
-- type is shifted down by LIBSSH2_KNOWNHOST_KEY_SHIFT.
abbrev pub name_type : ℕ → ℕ
name_type typemask = typemask % 2 ^ 16

abbrev pub is_base64 : ℕ → Bool
is_base64 typemask = typemask / 2 ^ 17 % 2 == 1

abbrev pub key_type : ℕ → ℕ
key_type typemask = typemask / 2 ^ 18 % 16

-- LIBSSH2_KNOWNHOST_TYPE_PLAIN, _SHA1, _CUSTOM; LIBSSH2_KNOWNHOST_KEY_UNKNOWN
abbrev pub plain : ℕ
plain = 1

abbrev pub sha1 : ℕ
sha1 = 2

abbrev pub custom : ℕ
custom = 3

abbrev pub unknown_key : ℕ
unknown_key = 15

-- A result of 0 from the encoder is a failure, also for an empty text.
abbrev pub if_encoded : Option Bytes → Option Bytes
if_encoded none = none
if_encoded (some []) = none
if_encoded (some (b ∷ bs)) = some (b ∷ bs)

-- The key that is compared: given in base64, or encoded here.
abbrev pub check_key : Library → Bytes → ℕ → ℕ → Option Bytes
check_key lib key keylen typemask =
    if is_base64 typemask then some (c_string key) else if_encoded (encode lib.alloc key keylen)

-- `memcmp(hash, node->name, SHA_DIGEST_LENGTH)`, after the length test.
abbrev pub hash_is : Option Bytes → Bytes → Bool
hash_is none name = false
hash_is (some hash) name = bytes_eq hash name

-- The `switch` of `knownhost_check`: whether an entry is for a host, the input being of a type.
unfoldable pub name_matches : Library → ℕ → Bytes → KnownHost → Bool
name_matches lib type host node =
    let stored = name_type node.typemask in
    if stored == plain
    then type == plain && bytes_eq host node.name
    else if stored == custom
    then type == custom && bytes_eq host node.name
    else if stored == sha1
    then type == plain && length node.name == 20 && hash_is (lib.hmac_sha1 node.salt host) node.name
    else false

-- The key types go together; an unknown type never does, and 0 does with every one.
abbrev pub types_match : ℕ → KnownHost → Bool
types_match host_key_type node =
    not (host_key_type == unknown_key)
    && (host_key_type == 0 || host_key_type == key_type node.typemask)

-- LIBSSH2_KNOWNHOST_CHECK_*, with the entry that `ext` gets.
pub data Check : Type 0 where
  match : KnownHost → Check
  mismatch : KnownHost → Check
  sha1_input : Check
  not_found : Check
  failure : Check

-- `if(!badkey) badkey = node;`
abbrev pub first_bad : Option KnownHost → KnownHost → Option KnownHost
first_bad none node = some node
first_bad (some bad) node = some bad

-- The inner loop, for one form of the host's name: the entry that matches, or `badkey`.
abbrev pub Scan : Type 0
Scan = KnownHost ⊎ Option KnownHost

-- Name and key type match.
unfoldable pub concerns : Library → ℕ → Bytes → KnownHost → Bool
concerns lib typemask host node =
    name_matches lib (name_type typemask) host node && types_match (key_type typemask) node

-- After the loops: `badkey`, or what the initial value of `rc` says.
abbrev pub scan_result : Scan → Check
scan_result (inl node) = match node
scan_result (inr (some bad)) = mismatch bad
scan_result (inr none) = not_found

abbrev pub scan_next : Scan → (Option KnownHost → Scan) → Scan
scan_next (inl node) f = inl node
scan_next (inr badkey) f = f badkey

module _ (lib : Library) (typemask : ℕ) (key : Bytes) where
  unfoldable pub scan : Bytes → Option KnownHost → List KnownHost → Scan
  scan host badkey [] = inr badkey
  scan host badkey (node ∷ nodes) =
      if concerns lib typemask host node
      then (if bytes_eq key node.key then inl node else scan host (first_bad badkey node) nodes)
      else scan host badkey nodes

  -- The outer loop, over the forms of the name.
  unfoldable pub scan_all : List KnownHost → Option KnownHost → List Bytes → Scan
  unfolding scan
  scan_all nodes badkey [] = inr badkey
  scan_all nodes badkey (host ∷ hosts) =
      scan_next (scan host badkey nodes) λ bad. scan_all nodes bad hosts

-- "[host]:port" in a buffer of 270 bytes, NUL included, and the plain name; `none` if it does not
-- fit. A negative port is `none`.
unfoldable pub host_forms : Library → Bytes → Option ℕ → Option (List Bytes)
host_forms lib host none = some (host ∷ [])
host_forms lib host (some port) =
    let with_port = b'[' ∷ host ++ (b']' ∷ b':' ∷ []) ++ lib.decimal port in
    if leb 270 (length with_port) then none else some (with_port ∷ host ∷ [])

abbrev pub check_with : Library → List KnownHost → ℕ → Option (List Bytes) → Option Bytes → Check
check_with lib nodes typemask none k = failure
check_with lib nodes typemask (some forms) none = failure
check_with lib nodes typemask (some forms) (some k) =
    scan_result (scan_all lib typemask k nodes none forms)

unfoldable pub knownhost_check : Library → List KnownHost → Bytes → Option ℕ → Bytes → ℕ → ℕ → Check
knownhost_check lib nodes host port key keylen typemask =
    if name_type typemask == sha1
    then sha1_input
    else check_with lib nodes typemask (host_forms lib host port)
        (check_key lib key keylen typemask)
