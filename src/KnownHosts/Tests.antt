-- ===== src/KnownHosts/Tests.antt =====
-- A collection with the name "ab", and the theorems on it.
use mshell.Prelude.{
  ℕ, ◌+◌, ◌*◌, ◌^◌, ◌≡◌, refl, true, none, some, List, [], ◌∷◌, ◌++◌, Bytes, bytes_eq,
}
use mshell.Base64.{encode, encode_groups, table64}
use mshell.KnownHosts.{
  KnownHost, Library, match, name_matches, concerns, scan, scan_all, host_forms, check_key,
  knownhost_check,
}
use mshell.KnownHosts.Add.{
  stored, knownhost_add, add_entry, add_name, add_key, add_key_type, add_comment, new_entry,
}
use mshell.KnownHosts.Lookup.{with_key, first, answer, candidates, knownhost_check-answer}
use mshell.KnownHosts.Added.{IsPlain, is_match, knownhost_add-check}

-- Memory without end, ports that are all 22, no HMAC.
abbrev lib : Library
lib = record { alloc = λ n. true; decimal = λ n. b'2' ∷ b'2' ∷ []; hmac_sha1 = λ salt host. none }

-- LIBSSH2_KNOWNHOST_TYPE_PLAIN, _KEYENC_RAW, _KEY_SSHRSA
abbrev plain_rsa : ℕ
plain_rsa = 1 + 2 ^ 16 + 2 * 2 ^ 18

abbrev host : Bytes
host = b'a' ∷ b'b' ∷ []

abbrev key : Bytes
key = 1 ∷ 2 ∷ 3 ∷ []

-- "AQID"
abbrev key_text : Bytes
key_text = b'A' ∷ b'Q' ∷ b'I' ∷ b'D' ∷ []

abbrev entry : Bytes → Bytes → KnownHost
entry name k = record (new_entry plain_rsa) { name = name; key = k }

-- Another key under "[ab]:22", and the key under "ab".
abbrev two_entries : List KnownHost
two_entries =
    entry (b'[' ∷ b'a' ∷ b'b' ∷ b']' ∷ b':' ∷ b'2' ∷ b'2' ∷ []) (b'Q' ∷ [])
    ∷ entry host key_text
    ∷ []

plain_rsa-IsPlain : IsPlain plain_rsa
plain_rsa-IsPlain = record {
  plain_name = refl;
  raw_key = refl;
  some_type = λ e. cc;
  known_type = λ e. cc;
}

key_encoded : check_key lib key 3 plain_rsa ≡ some key_text
unfolding encode encode_groups table64
key_encoded = refl

forms_with_port :
    host_forms lib host (some 22)
    ≡ some ((b'[' ∷ b'a' ∷ b'b' ∷ b']' ∷ b':' ∷ b'2' ∷ b'2' ∷ []) ∷ host ∷ [])
unfolding host_forms
forms_with_port = refl

knownhost_check-answer_example :
    let es =
      candidates lib plain_rsa two_entries
        ((b'[' ∷ b'a' ∷ b'b' ∷ b']' ∷ b':' ∷ b'2' ∷ b'2' ∷ []) ∷ host ∷ []) in
    knownhost_check lib two_entries host (some 22) key 3 plain_rsa
    ≡ answer (with_key key_text es) (first es)
knownhost_check-answer_example =
    knownhost_check-answer lib two_entries host (some 22) key key_text 3 plain_rsa _ (λ e. cc)
      forms_with_port key_encoded

-- The wrong key under the form with the port does not hide the right one under the name.
matches_the_second :
    knownhost_check lib two_entries host (some 22) key 3 plain_rsa ≡ match (entry host key_text)
unfolding knownhost_check host_forms scan_all scan concerns name_matches encode encode_groups
    table64 bytes_eq
matches_the_second = refl

adds_an_entry :
    knownhost_add lib 100 two_entries host [] none key 3 none plain_rsa
    ≡ stored (two_entries ++ (entry host key_text ∷ []))
unfolding knownhost_add add_entry add_name add_key add_key_type add_comment encode encode_groups
    table64
adds_an_entry = refl

knownhost_add-check_example :
    is_match
      (knownhost_check lib (two_entries ++ (entry host key_text ∷ [])) host none key 3 plain_rsa)
    ≡ true
knownhost_add-check_example =
    knownhost_add-check lib 100 two_entries _ host [] none key 3 none plain_rsa plain_rsa-IsPlain
      adds_an_entry
