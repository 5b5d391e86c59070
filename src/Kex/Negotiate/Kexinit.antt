-- ===== src/Kex/Negotiate/Kexinit.antt =====
-- The negotiation, from a whole KEXINIT packet.
use mshell.Prelude.{
  ℕ, ◌^◌, ◌<◌, ◌≡◌, refl, ap, subst, ◌∙◌, [], ◌∷◌, ◌++◌, arith, Bytes, length, drop,
}
use mshell.Wire.{htonu32}
use mshell.StringBuf.Encode.{string_of}
use mshell.Kex.Agree.{Tables, Session}
use mshell.Kex.Negotiate.{Offer, negotiate, kex_agree_methods}
use mshell.Kex.Negotiate.Packet.{Fits, offer_bytes, kex_agree_methods-packet}

-- What a server says in its KEXINIT packet, by RFC 4253, 7.1.
pub record Kexinit : Type 0 where
  pub cookie : Bytes
  pub kex : Bytes
  pub hostkey : Bytes
  pub crypt_cs : Bytes
  pub crypt_sc : Bytes
  pub mac_cs : Bytes
  pub mac_sc : Bytes
  pub comp_cs : Bytes
  pub comp_sc : Bytes
  pub lang_cs : Bytes
  pub lang_sc : Bytes
  pub first_kex_packet_follows : ℕ

-- The bytes of the packet, as the format and `kexinit` in kex.c have them: the two language lists
-- stand before the flag, and four zero bytes behind it.
unfoldable pub kexinit_bytes : Kexinit → Bytes
kexinit_bytes m =
    20
    ∷ (m.cookie
        ++ (string_of m.kex
            ++ (string_of m.hostkey
                ++ (string_of m.crypt_cs
                    ++ (string_of m.crypt_sc
                        ++ (string_of m.mac_cs
                            ++ (string_of m.mac_sc
                                ++ (string_of m.comp_cs
                                    ++ (string_of m.comp_sc
                                        ++ (string_of m.lang_cs
                                            ++ (string_of m.lang_sc
                                                ++ m.first_kex_packet_follows ∷ 0 ∷ 0 ∷ 0 ∷ 0
                                                  ∷ [])))))))))))

-- The lists of the packet, for a server that has sent nothing on a guess.
abbrev pub offer_of : Kexinit → Offer
offer_of m = record {
  kex = m.kex;
  hostkey = m.hostkey;
  crypt_cs = m.crypt_cs;
  crypt_sc = m.crypt_sc;
  mac_cs = m.mac_cs;
  mac_sc = m.mac_sc;
  comp_cs = m.comp_cs;
  comp_sc = m.comp_sc;
  follows = 0;
}

pub record IsKexinit (m : Kexinit) : Type 0 where
  pub cookie : length m.cookie ≡ 16
  pub lists : Fits (offer_of m)
  pub lang_cs : length m.lang_cs < 2 ^ 24
  pub addressable : length (kexinit_bytes m) < 2 ^ 64

-- The first byte of the length of the language list stands where the flag is read.
abbrev behind_flag : Kexinit → Bytes
behind_flag m =
    drop 1 (string_of m.lang_cs)
    ++ (string_of m.lang_sc ++ m.first_kex_packet_follows ∷ 0 ∷ 0 ∷ 0 ∷ 0 ∷ [])

string_of-first :
    (s rest : Bytes) → length s < 2 ^ 24 → string_of s ++ rest ≡ 0 ∷ (drop 1 (string_of s) ++ rest)
unfolding htonu32
string_of-first s rest h = ap (λ b. b ∷ (drop 1 (string_of s) ++ rest)) (omega arith)

kexinit_bytes-offer_bytes :
    (m : Kexinit)
    → length m.lang_cs < 2 ^ 24
    → kexinit_bytes m ≡ 20 ∷ (m.cookie ++ offer_bytes (offer_of m) (behind_flag m))
unfolding kexinit_bytes
kexinit_bytes-offer_bytes m h =
    rw
      (string_of-first m.lang_cs
        (string_of m.lang_sc ++ m.first_kex_packet_follows ∷ 0 ∷ 0 ∷ 0 ∷ 0 ∷ []) h)
      refl

-- On a KEXINIT packet as the format has it, with a cookie of 16 bytes, lists of fewer than 2 ^ 32
-- bytes, a first language list of fewer than 2 ^ 24 bytes, and in all fewer than 2 ^ 64: the methods
-- are negotiated over the eight lists of the packet, and as if no guessed packet followed, whatever
-- the packet's flag says.
pub kex_agree_methods-kexinit :
    (t : Tables) (m : Kexinit) (s : Session)
    → IsKexinit m
    → kex_agree_methods t (kexinit_bytes m) s ≡ negotiate t (offer_of m) s
kex_agree_methods-kexinit t m s h =
    let same = kexinit_bytes-offer_bytes m h.lang_cs in
    ap (λ p. kex_agree_methods t p s) same
    ∙ kex_agree_methods-packet t (offer_of m) m.cookie (behind_flag m) s h.cookie h.lists
        (subst (λ p. length p < 2 ^ 64) same h.addressable)
