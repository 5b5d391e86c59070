-- ===== src/KnownHosts/Add.antt =====
-- knownhost.c, `knownhost_add`: a new entry from a name, a key and a comment.
use mshell.Prelude.{
  ℕ, ◌+◌, not, ◌||◌, Option, none, some, List, [], ◌∷◌, ◌++◌, ◌==◌, if◌then◌else◌, Bytes, length,
  take,
}
use mshell.Base64.{decode, encode, c_string, ok, err, Error, Result}
use mshell.KnownHosts.{
  KnownHost, Library, name_type, is_base64, key_type, plain, sha1, custom, unknown_key, if_encoded,
}

-- `struct known_host` before its name is stored.
abbrev pub new_entry : ℕ → KnownHost
new_entry typemask = record {
  name = [];
  typemask = typemask;
  salt = [];
  key = [];
  key_type_name = none;
  comment = none;
}

-- What each part of `knownhost_add` stores, or the error that it returns: LIBSSH2_ERROR_ALLOC (6),
-- LIBSSH2_ERROR_INVAL (34), LIBSSH2_ERROR_METHOD_NOT_SUPPORTED (33).
pub data Stored (A : Type 0) : Type 0 where
  stored : A → Stored A
  refused : ℕ → Stored A

infixl 5 ◌>>=◌
abbrev pub ◌>>=◌ : {A B : Type 0} → Stored A → (A → Stored B) → Stored B
stored a >>= f = f a
refused e >>= f = refused e

-- A buffer of `n` bytes and a NUL.
abbrev pub copied : {A : Type 0} → Library → ℕ → A → Stored A
copied lib n a = if lib.alloc (n + 1) then stored a else refused 6

abbrev pub decoded : Result → Stored Bytes
decoded (ok b) = stored b
decoded (err Error.alloc) = refused 6
decoded (err Error.inval) = refused 34

-- The `switch` over the type of the name.
unfoldable pub add_name : Library → Bytes → Bytes → KnownHost → Stored KnownHost
add_name lib host salt entry =
    let type = name_type entry.typemask in
    let hashed : Stored KnownHost = do
      hash ← decoded (decode lib.alloc host)
      salt_bytes ← decoded (decode lib.alloc salt)
      stored (record entry { name = hash; salt = salt_bytes })
    in if type == plain || type == custom
      then copied lib (length host) (record entry { name = host })
      else if type == sha1
      then hashed
      else refused 33

abbrev pub encoded_key : Option Bytes → Stored Bytes
encoded_key none = refused 6
encoded_key (some k) = stored k

-- A base64 key of length 0 is a C string; the copy is read up to its first NUL.
unfoldable pub add_key : Library → Bytes → ℕ → KnownHost → Stored KnownHost
add_key lib key keylen entry =
    let n = if keylen == 0 then length (c_string key) else keylen in
    let k =
      if is_base64 entry.typemask
      then copied lib n (c_string (take n key))
      else encoded_key (if_encoded (encode lib.alloc key keylen)) in
    k >>= λ key_text. stored (record entry { key = key_text })

-- The name of a key type is kept only if the type is unknown.
unfoldable pub add_key_type : Library → Option Bytes → KnownHost → Stored KnownHost
add_key_type lib none entry = stored entry
add_key_type lib (some name) entry =
    if key_type entry.typemask == unknown_key
    then copied lib (length name) (record entry { key_type_name = some name })
    else stored entry

unfoldable pub add_comment : Library → Option Bytes → KnownHost → Stored KnownHost
add_comment lib none entry = stored entry
add_comment lib (some text) entry = copied lib (length text) (record entry { comment = some text })

-- The four parts in their order.
unfoldable pub add_entry :
    Library → Bytes → Bytes → Option Bytes → Bytes → ℕ → Option Bytes → ℕ → Stored KnownHost
add_entry lib host salt key_type_name key keylen comment typemask = do
  named ← add_name lib host salt (new_entry typemask)
  keyed ← add_key lib key keylen named
  typed ← add_key_type lib key_type_name keyed
  add_comment lib comment typed

abbrev pub at_end : List KnownHost → Stored KnownHost → Stored (List KnownHost)
at_end hosts (stored entry) = stored (hosts ++ (entry ∷ []))
at_end hosts (refused e) = refused e

-- The collection with the new entry at its end. `sizeof(struct known_host)` depends on the machine.
unfoldable pub knownhost_add :
    Library
    → ℕ
    → List KnownHost
    → Bytes
    → Bytes
    → Option Bytes
    → Bytes
    → ℕ
    → Option Bytes
    → ℕ
    → Stored (List KnownHost)
unfolding add_entry
knownhost_add lib entry_size hosts host salt key_type_name key keylen comment typemask =
    if key_type typemask == 0
    then refused 34
    else if not (lib.alloc entry_size)
    then refused 6
    else at_end hosts (add_entry lib host salt key_type_name key keylen comment typemask)
