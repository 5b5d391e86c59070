-- ===== src/Kex/Negotiate/Tests.antt =====
-- A negotiation over small tables, and the theorems at it.
use mshell.Prelude.{ℕ, ◌==◌, ◌≡◌, refl, true, false, none, some, [], ◌∷◌, arith, Bytes, bytes_eq}
use mshell.Kex.NameList.{agree_instr}
use mshell.Kex.Agree.{
  Method, Tables, Endpoint, Session, agree, pref_names, agree_pair, kex_agree_hostkey,
  kex_agree_crypt, kex_agree_mac, kex_agree_comp, mac_override,
}
use mshell.Kex.Negotiate.{Offer, negotiate, kex_agree_methods, kex_agree_kex_hostkey}
use mshell.Kex.Negotiate.Stages.{Agreed}
use mshell.Kex.Negotiate.Sound.{negotiate-Agreed}
use mshell.Kex.Negotiate.Kexinit.{
  Kexinit, kexinit_bytes, offer_of, IsKexinit, kex_agree_methods-kexinit,
}
use mshell.Wire.{htonu32}
use mshell.Kex.NameList.Spec.{IsName}
use mshell.Kex.Agree.Pairs.{AreNamed}

abbrev method : Bytes → Method
method n = record { name = n }

abbrev tables : Tables
tables = record {
  kex_methods =
      record { name = b'k' ∷ []; req_enc = false; req_sign = true }
      ∷ record { name = b'l' ∷ []; req_enc = false; req_sign = true }
      ∷ [];
  hostkey_methods =
      record { name = b'h' ∷ []; encrypts = false; verifies = false }
      ∷ record { name = b'i' ∷ []; encrypts = false; verifies = true }
      ∷ [];
  crypt_methods = method (b'c' ∷ []) ∷ method (b'd' ∷ []) ∷ [];
  mac_methods = method (b'm' ∷ []) ∷ [];
  comp_methods = method (b'n' ∷ []) ∷ [];
  aes_gcm = true;
  mac_aesgcm = method [];
}

abbrev unset : Endpoint
unset = record {
  crypt_prefs = some (b'd' ∷ b',' ∷ b'c' ∷ []);
  mac_prefs = none;
  comp_prefs = none;
  crypt = none;
  mac = none;
  comp = none;
}

abbrev fresh : Session
fresh = record {
  kex_prefs = none;
  hostkey_prefs = none;
  kex_strict = false;
  burn_optimistic_kexinit = 0;
  kex = none;
  hostkey = none;
  here = unset;
  remote = unset;
}

abbrev offer : Offer
offer = record {
  kex = b'l' ∷ b',' ∷ b'x' ∷ [];
  hostkey = b'h' ∷ b',' ∷ b'i' ∷ [];
  crypt_cs = b'c' ∷ b',' ∷ b'd' ∷ [];
  crypt_sc = b'c' ∷ [];
  mac_cs = b'm' ∷ [];
  mac_sc = b'm' ∷ [];
  comp_cs = b'n' ∷ [];
  comp_sc = b'n' ∷ [];
  follows = 1;
}

abbrev done : Session
done = (negotiate tables offer fresh).0

-- The server guessed right, so its packet is kept; the client's order decides the cipher.
negotiate_run :
    ((negotiate tables offer fresh).1 ≡ true)
    × (done.burn_optimistic_kexinit ≡ 0)
    × (done.here.crypt ≡ some (method (b'd' ∷ [])))
    × (done.remote.crypt ≡ some (method (b'c' ∷ [])))
    × (done.hostkey ≡ some (record { name = b'i' ∷ []; encrypts = false; verifies = true }))
unfolding negotiate kex_agree_kex_hostkey agree_pair kex_agree_hostkey agree_instr agree
    kex_agree_crypt kex_agree_mac kex_agree_comp mac_override pref_names bytes_eq
negotiate_run = (refl, refl, refl, refl, refl)

letter : (c : ℕ) → (c == b',') ≡ false → IsName (c ∷ [])
letter c h = record { filled = λ e. cc; lacks = (h, tt) }

tables-AreNamed : AreNamed tables
tables-AreNamed = record {
  kex = (letter b'k' refl, (letter b'l' refl, tt));
  hostkey = (letter b'h' refl, (letter b'i' refl, tt));
  crypt = (letter b'c' refl, (letter b'd' refl, tt));
  mac = (letter b'm' refl, tt);
  comp = (letter b'n' refl, tt);
}

negotiate-Agreed_example : Agreed tables offer done
negotiate-Agreed_example = negotiate-Agreed tables tables-AreNamed offer fresh (negotiate_run.0)

abbrev cookie : Bytes
cookie = 1 ∷ 2 ∷ 3 ∷ 4 ∷ 5 ∷ 6 ∷ 7 ∷ 8 ∷ 9 ∷ 10 ∷ 11 ∷ 12 ∷ 13 ∷ 14 ∷ 15 ∷ 16 ∷ []

-- The packet says that a guessed packet follows.
abbrev kexinit : Kexinit
kexinit = record {
  cookie = cookie;
  kex = offer.kex;
  hostkey = offer.hostkey;
  crypt_cs = offer.crypt_cs;
  crypt_sc = offer.crypt_sc;
  mac_cs = offer.mac_cs;
  mac_sc = offer.mac_sc;
  comp_cs = offer.comp_cs;
  comp_sc = offer.comp_sc;
  lang_cs = b'e' ∷ b'n' ∷ [];
  lang_sc = [];
  first_kex_packet_follows = 1;
}

kexinit-IsKexinit : IsKexinit kexinit
unfolding kexinit_bytes htonu32
kexinit-IsKexinit = record {
  cookie = refl;
  lists = record {
    kex = omega arith;
    hostkey = omega arith;
    crypt_cs = omega arith;
    crypt_sc = omega arith;
    mac_cs = omega arith;
    mac_sc = omega arith;
    comp_cs = omega arith;
    comp_sc = omega arith;
  };
  lang_cs = omega arith;
  addressable = omega arith;
}

kex_agree_methods-kexinit_example :
    kex_agree_methods tables (kexinit_bytes kexinit) fresh
    ≡ negotiate tables (offer_of kexinit) fresh
kex_agree_methods-kexinit_example = kex_agree_methods-kexinit tables kexinit fresh kexinit-IsKexinit
