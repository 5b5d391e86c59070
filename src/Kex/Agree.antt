-- ===== src/Kex/Agree.antt =====
-- kex.c, `kex_agree_methods` and the functions that it calls: which method is used for each purpose.
--
-- A method's callbacks are never called here, so a method is its name and the facts that are
-- tested. The method tables depend on the build and are one record, `Tables`.
pub mod Choice
pub mod Pairs
use mshell.Prelude.{
  ℕ, ◌+◌, Bool, true, false, not, ◌&&◌, ◌||◌, Option, none, some, List, [], ◌∷◌, ltb, ◌==◌,
  if◌then◌else◌, Bytes, length, bytes_eq,
}
use mshell.StringBuf.{StringBuf, Reader, ◌>>=◌, pure, get_byte, get_string}
use mshell.Kex.NameList.{agree_instr}
use mshell.Kex.NameList.Spec.{first_name, found}

-- `LIBSSH2_COMMON_METHOD`: what the ciphers, MACs and compressions are told apart by.
pub record Method : Type 0 where
  pub name : Bytes

-- `encrypts` and `verifies`: the callbacks `encrypt` and `sig_verify` are not NULL.
pub record HostkeyMethod : Type 0 where
  pub name : Bytes
  pub encrypts : Bool
  pub verifies : Bool

-- The flags REQ_ENC_HOSTKEY and REQ_SIGN_HOSTKEY.
pub record KexMethod : Type 0 where
  pub name : Bytes
  pub req_enc : Bool
  pub req_sign : Bool

pub record Tables : Type 0 where
  pub kex_methods : List KexMethod
  pub hostkey_methods : List HostkeyMethod
  pub crypt_methods : List Method
  pub mac_methods : List Method
  pub comp_methods : List Method
  pub aes_gcm : Bool
  pub mac_aesgcm : Method

-- `libssh2_endpoint_data`, one direction of the connection.
pub record Endpoint : Type 0 where
  pub crypt_prefs : Option Bytes
  pub mac_prefs : Option Bytes
  pub comp_prefs : Option Bytes
  pub crypt : Option Method
  pub mac : Option Method
  pub comp : Option Method

pub record Session : Type 0 where
  pub kex_prefs : Option Bytes
  pub hostkey_prefs : Option Bytes
  pub kex_strict : Bool
  pub burn_optimistic_kexinit : ℕ
  pub kex : Option KexMethod
  pub hostkey : Option HostkeyMethod
  pub here : Endpoint
  pub remote : Endpoint

-- The names that `while(s && *s) { p = strchr(s, ','); … s = p ? p + 1 : NULL; }` goes through: an
-- empty rest behind the last comma ends the loop.
abbrev pub named : Bytes → List Bytes → List Bytes
named [] rest = []
named (c ∷ cs) rest = first_name (c ∷ cs) ∷ rest

unfoldable pub later_prefs : Bytes → List Bytes
unfolding first_name
later_prefs [] = []
later_prefs (c ∷ cs) = let rest = later_prefs cs in if c == b',' then named cs rest else rest

unfoldable pub pref_names : Bytes → List Bytes
unfolding later_prefs
pref_names prefs = named prefs (later_prefs prefs)

module _ {A : Type 0} (name : A → Bytes) where
  unfoldable pub get_method_by_name : Bytes → List A → Option A
  get_method_by_name n [] = none
  get_method_by_name n (m ∷ ms) = if bytes_eq (name m) n then some m else get_method_by_name n ms

  -- The loop over the preferences: an offered name that no method has is -1 at once.
  unfoldable pub by_prefs : List A → Bytes → List Bytes → Option A
  unfolding get_method_by_name
  by_prefs methods offered [] = none
  by_prefs methods offered (n ∷ ns) =
      let rest = by_prefs methods offered ns in
      if found (agree_instr offered n) then get_method_by_name n methods else rest

  -- The loop over the table, where there are no preferences.
  unfoldable pub by_table : Bytes → List A → Option A
  by_table offered [] = none
  by_table offered (m ∷ ms) =
      if found (agree_instr offered (name m)) then some m else by_table offered ms

  -- The body that `kex_agree_crypt`, `kex_agree_mac` and `kex_agree_comp` share.
  unfoldable pub agree : Option Bytes → List A → Bytes → Option A
  unfolding by_prefs by_table
  agree none methods offered = by_table offered methods
  agree (some prefs) methods offered = by_prefs methods offered (pref_names prefs)

-- The return code: `true` for 0, `false` for -1.
abbrev pub set_crypt : Endpoint → Option Method → Endpoint × Bool
set_crypt e none = (e, false)
set_crypt e (some m) = (record e { crypt = some m }, true)

abbrev pub set_mac : Endpoint → Option Method → Endpoint × Bool
set_mac e none = (e, false)
set_mac e (some m) = (record e { mac = some m }, true)

abbrev pub set_comp : Endpoint → Option Method → Endpoint × Bool
set_comp e none = (e, false)
set_comp e (some m) = (record e { comp = some m }, true)

unfoldable pub kex_agree_crypt : Tables → Endpoint → Bytes → Endpoint × Bool
kex_agree_crypt t e crypt = set_crypt e (agree (λ m. m.name) e.crypt_prefs t.crypt_methods crypt)

abbrev aes256_gcm : Bytes
aes256_gcm =
    97 ∷ 101 ∷ 115 ∷ 50 ∷ 53 ∷ 54 ∷ 45 ∷ 103 ∷ 99 ∷ 109 ∷ 64 ∷ 111 ∷ 112 ∷ 101 ∷ 110 ∷ 115 ∷ 115
    ∷ 104 ∷ 46 ∷ 99 ∷ 111 ∷ 109 ∷ []

abbrev aes128_gcm : Bytes
aes128_gcm =
    97 ∷ 101 ∷ 115 ∷ 49 ∷ 50 ∷ 56 ∷ 45 ∷ 103 ∷ 99 ∷ 109 ∷ 64 ∷ 111 ∷ 112 ∷ 101 ∷ 110 ∷ 115 ∷ 115
    ∷ 104 ∷ 46 ∷ 99 ∷ 111 ∷ 109 ∷ []

-- mac.c. (With no cipher chosen yet the C code would read through NULL; the callers choose first.)
unfoldable pub mac_override : Tables → Option Method → Option Method
mac_override t none = none
mac_override t (some crypt) =
    if t.aes_gcm && (bytes_eq crypt.name aes256_gcm || bytes_eq crypt.name aes128_gcm)
    then some t.mac_aesgcm
    else none

abbrev pub or_else : {A : Type 0} → Option A → Option A → Option A
or_else none other = other
or_else (some a) other = some a

unfoldable pub kex_agree_mac : Tables → Endpoint → Bytes → Endpoint × Bool
kex_agree_mac t e mac =
    set_mac e (or_else (mac_override t e.crypt) (agree (λ m. m.name) e.mac_prefs t.mac_methods mac))

unfoldable pub kex_agree_comp : Tables → Endpoint → Bytes → Endpoint × Bool
kex_agree_comp t e comp = set_comp e (agree (λ m. m.name) e.comp_prefs t.comp_methods comp)

-- Whether a host key can do what the key exchange needs of it.
abbrev pub suits : KexMethod → HostkeyMethod → Bool
suits kex m = (not kex.req_enc || m.encrypts) && (not kex.req_sign || m.verifies)

-- After an offered preference has been looked up: -1, taken, or on with the next one.
abbrev pub if_suits : KexMethod → Option HostkeyMethod → Option HostkeyMethod → Option HostkeyMethod
if_suits kex none rest = none
if_suits kex (some m) rest = if suits kex m then some m else rest

unfoldable pub hostkey_by_prefs : Tables → KexMethod → Bytes → List Bytes → Option HostkeyMethod
hostkey_by_prefs t kex hostkey [] = none
hostkey_by_prefs t kex hostkey (n ∷ ns) =
    let rest = hostkey_by_prefs t kex hostkey ns in
    if found (agree_instr hostkey n)
    then if_suits kex (get_method_by_name (λ m. m.name) n t.hostkey_methods) rest
    else rest

unfoldable pub hostkey_by_table : KexMethod → Bytes → List HostkeyMethod → Option HostkeyMethod
hostkey_by_table kex hostkey [] = none
hostkey_by_table kex hostkey (m ∷ ms) =
    if found (agree_instr hostkey m.name) && suits kex m
    then some m
    else hostkey_by_table kex hostkey ms

-- The host key method that is stored in the session, or -1.
unfoldable pub kex_agree_hostkey : Tables → Option Bytes → KexMethod → Bytes → Option HostkeyMethod
unfolding hostkey_by_prefs hostkey_by_table
kex_agree_hostkey t none kex hostkey = hostkey_by_table kex hostkey t.hostkey_methods
kex_agree_hostkey t (some prefs) kex hostkey = hostkey_by_prefs t kex hostkey (pref_names prefs)

-- A key exchange with the host key that works with it, and where its name stands in the offer.
abbrev pub Pair : Type 0
Pair = KexMethod × HostkeyMethod × ℕ

abbrev pub if_hostkey : KexMethod → ℕ → Option HostkeyMethod → Option Pair → Option Pair
if_hostkey m q none rest = rest
if_hostkey m q (some hk) rest = some (m, hk, q)

module _ (t : Tables) (hostkey_prefs : Option Bytes) (kex hostkey : Bytes) where
  abbrev pub try_pair : ℕ → Option KexMethod → Option Pair → Option Pair
  try_pair q none rest = none
  try_pair q (some m) rest = if_hostkey m q (kex_agree_hostkey t hostkey_prefs m hostkey) rest

  abbrev pub at_name : Option ℕ → Option KexMethod → Option Pair → Option Pair
  at_name none m rest = rest
  at_name (some q) m rest = try_pair q m rest

  unfoldable pub pair_by_prefs : List Bytes → Option Pair
  pair_by_prefs [] = none
  pair_by_prefs (n ∷ ns) =
      let rest = pair_by_prefs ns in
      at_name (agree_instr kex n) (get_method_by_name (λ m. m.name) n t.kex_methods) rest

  unfoldable pub pair_by_table : List KexMethod → Option Pair
  pair_by_table [] = none
  pair_by_table (m ∷ ms) =
      let rest = pair_by_table ms in at_name (agree_instr kex m.name) (some m) rest

  unfoldable pub agree_pair : Option Bytes → Option Pair
  unfolding pair_by_prefs pair_by_table
  agree_pair none = pair_by_table t.kex_methods
  agree_pair (some prefs) = pair_by_prefs (pref_names prefs)
