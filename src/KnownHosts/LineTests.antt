-- ===== src/KnownHosts/LineTests.antt =====
-- Lines of a host with an Ed25519 key.
use mshell.Prelude.{
  ℕ, ◌+◌, ◌*◌, ◌^◌, ◌≡◌, refl, true, false, none, some, [], ◌∷◌, Bytes, bytes_eq, arith, length,
  ◌<◌,
}
use mshell.KnownHosts.{KnownHost, Library, plain, sha1}
use mshell.KnownHosts.Add.{new_entry}
use mshell.KnownHosts.Read.{
  is_prefix, key_type_of, names_before, reversed_onto, ssh_ed25519, knownhost_readline,
}
use mshell.KnownHosts.Write.{written, type_name_of, knownhost_writeline}
use mshell.KnownHosts.Keyed.{IsKeyed}
use mshell.KnownHosts.RoundTrip.{IsLineOf, IsPlainHost, knownhost_writeline-readline}
use mshell.KnownHosts.Hashed.{IsHashedHost, hashed_writeline-readline}
use mshell.KnownHosts.Short.{IsShortHost, short_writeline-readline}

abbrev lib : Library
lib = record { alloc = λ n. true; decimal = λ n. []; hmac_sha1 = λ salt host. none }

-- LIBSSH2_KNOWNHOST_KEYENC_BASE64, LIBSSH2_KNOWNHOST_KEY_ED25519, "AAAAC3Nz" and a comment
abbrev entry : ℕ → Bytes → Bytes → KnownHost
entry type name salt = record (new_entry (type + 2 ^ 17 + 7 * 2 ^ 18)) {
  name = name;
  salt = salt;
  key = b'A' ∷ b'A' ∷ b'A' ∷ b'A' ∷ b'C' ∷ b'3' ∷ b'N' ∷ b'z' ∷ [];
  comment = some (b'm' ∷ b'y' ∷ 32 ∷ b'p' ∷ b'c' ∷ []);
}

abbrev named_entry : KnownHost
named_entry = entry plain (b'h' ∷ b'o' ∷ b's' ∷ b't' ∷ []) []

abbrev hashed_entry : KnownHost
hashed_entry = entry sha1 (7 ∷ 255 ∷ 0 ∷ 9 ∷ []) (1 ∷ 2 ∷ [])

abbrev short_entry : KnownHost
short_entry = entry plain (b'p' ∷ b'i' ∷ []) []

entry-IsKeyed :
    (type : ℕ) (name salt : Bytes) → type < 4 → IsKeyed false (entry type name salt) ssh_ed25519
unfolding type_name_of key_type_of is_prefix
entry-IsKeyed type name salt k = record {
  typed = ground arith;
  same_type = omega arith;
  kept_name = ground arith;
  type_name = refl;
  type_word = ground arith;
  key_word = ground arith;
  key_ne = λ e. cc;
  comment_right = ground arith;
  long = omega arith;
}

named_entry-IsPlainHost : IsPlainHost named_entry
unfolding bytes_eq
named_entry-IsPlainHost = record {
  name_plain = refl;
  no_salt = refl;
  name_word = ground arith;
  one_name = ground arith;
  name_start = ground arith;
  not_hashed = refl;
  name_long = omega arith;
  name_short = omega arith;
}

hashed_entry-IsHashedHost : IsHashedHost hashed_entry
hashed_entry-IsHashedHost = record {
  name_hashed = refl;
  hash_bytes = ground arith;
  hash_ne = λ e. cc;
  hash_short = omega arith;
  salt_bytes = ground arith;
  salt_ne = λ e. cc;
  salt_short = omega arith;
}

short_entry-IsShortHost : IsShortHost short_entry ssh_ed25519
short_entry-IsShortHost = record {
  name_plain = refl;
  name_word = ground arith;
  name_start = ground arith;
  name_short = omega arith;
  no_bar = ground arith;
}

knownhost_writeline-readline_example :
    (line : Bytes) × IsLineOf lib 100 false (hashed_entry ∷ []) named_entry line
knownhost_writeline-readline_example =
    knownhost_writeline-readline lib 100 false (hashed_entry ∷ []) named_entry ssh_ed25519
      (λ n. refl) (entry-IsKeyed plain (b'h' ∷ b'o' ∷ b's' ∷ b't' ∷ []) [] (omega arith))
      named_entry-IsPlainHost

hashed_writeline-readline_example :
    (line : Bytes) × IsLineOf lib 100 false (named_entry ∷ []) hashed_entry line
hashed_writeline-readline_example =
    hashed_writeline-readline lib 100 false (named_entry ∷ []) hashed_entry ssh_ed25519 (λ n. refl)
      (entry-IsKeyed sha1 (7 ∷ 255 ∷ 0 ∷ 9 ∷ []) (1 ∷ 2 ∷ []) (omega arith))
      hashed_entry-IsHashedHost

short_writeline-readline_example :
    (line : Bytes) × ((buflen : ℕ)
      → length line < buflen
      → knownhost_writeline lib false short_entry buflen 1 ≡ written line (length line))
    × (knownhost_readline lib 100 false (named_entry ∷ []) line 1 ≡ (named_entry ∷ [], 0))
short_writeline-readline_example =
    short_writeline-readline lib 100 false (named_entry ∷ []) short_entry ssh_ed25519 (λ n. refl)
      (entry-IsKeyed plain (b'p' ∷ b'i' ∷ []) [] (omega arith)) short_entry-IsShortHost

-- "a,b" is read from its end; a comma at the end belongs to the name.
two_names :
    names_before false (reversed_onto (b'a' ∷ b',' ∷ b'b' ∷ []) []) []
    ≡ (b'b' ∷ []) ∷ (b'a' ∷ []) ∷ []
unfolding names_before reversed_onto
two_names = refl

comma_at_end : names_before false (reversed_onto (b'a' ∷ b',' ∷ []) []) [] ≡ (b'a' ∷ b',' ∷ []) ∷ []
unfolding names_before reversed_onto
comma_at_end = refl

-- "ssh" is taken for "ssh-ed25519".
prefix_type : key_type_of true (b's' ∷ b's' ∷ b'h' ∷ []) ≡ 7
unfolding key_type_of is_prefix
prefix_type = refl
