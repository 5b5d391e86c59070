-- ===== src/Kex/Negotiate/Packet.antt =====
-- The negotiation, from the bytes that `kex_agree_methods` reads.
use mshell.Prelude.{
  ℕ, ◌^◌, ◌<◌, ◌≡◌, refl, ap, sym, ◌∙◌, Bool, Bool-cases, inl, inr, ltb, if◌then◌else◌, false,
  Option, none, some, ◌∷◌, ◌++◌, arith, Bytes, length, length-append, drop, drop-append,
}
use mshell.StringBuf
use mshell.StringBuf.{StringBuf, get_byte, get_string}
use mshell.StringBuf.Spec
use mshell.StringBuf.Spec.{◌>>=◌}
use mshell.StringBuf.Refine.{Agrees, Refines, Refines-bind, get_string-Refines, get_byte-Refines}
use mshell.StringBuf.Encode.{string_of, string-string_of}
use mshell.Kex.Agree.{Tables, Session}
use mshell.Kex.Negotiate.{Offer, read_offer, negotiate, past_cookie, kex_agree_methods, if_read}

-- What the code reads, in the order of the code, over the bytes that are left: the flag is read right
-- behind the compression lists.
unfoldable pub parse_offer : Spec.Parser Offer
parse_offer = do
  kex ← Spec.string
  hostkey ← Spec.string
  crypt_cs ← Spec.string
  crypt_sc ← Spec.string
  mac_cs ← Spec.string
  mac_sc ← Spec.string
  comp_cs ← Spec.string
  comp_sc ← Spec.string
  follows ← Spec.byte
  Spec.pure (record {
    kex = kex;
    hostkey = hostkey;
    crypt_cs = crypt_cs;
    crypt_sc = crypt_sc;
    mac_cs = mac_cs;
    mac_sc = mac_sc;
    comp_cs = comp_cs;
    comp_sc = comp_sc;
    follows = follows;
  })

string_then :
    {B : Type 0} (f : Bytes → StringBuf → Option B × StringBuf) (q : Bytes → Spec.Parser B)
    → ((s : Bytes) → Refines (f s) (q s))
    → Refines (λ b. StringBuf.and_then (get_string b) f) (λ xs. Spec.then_parse (Spec.string xs) q)
string_then f q h = Refines-bind get_string Spec.string f q get_string-Refines h

read_offer-Refines : Refines read_offer parse_offer
unfolding read_offer parse_offer
read_offer-Refines = string_then _ _ λ a. string_then _ _ λ b. string_then _ _ λ c.
    string_then _ _ λ d. string_then _ _ λ e. string_then _ _ λ f. string_then _ _ λ g.
      string_then _ _
        λ h. Refines-bind get_byte Spec.byte _ _ get_byte-Refines λ i b v. (refl, refl, v)

abbrev pub if_parsed : Session → Option (Offer × Bytes) → (Offer → Session × Bool) → Session × Bool
if_parsed s none f = (s, false)
if_parsed s (some (o, rest)) f = f o

if_read-if_parsed :
    (s : Session) (f : Offer → Session × Bool) (r : Option Offer × StringBuf.StringBuf)
    (p : Option (Offer × Bytes))
    → Agrees r p
    → if_read s r.0 f ≡ if_parsed s p f
if_read-if_parsed s f (o, b) none h = rw (h.0)
if_read-if_parsed s f (o, b) (some (o', rest)) h = rw (h.0)

-- On every packet that fits the address space the pointers stay inside, and the reads are those of
-- `parse_offer`.
kex_agree_methods-parse :
    (t : Tables) (packet : Bytes) (s : Session)
    → length packet < 2 ^ 64
    → kex_agree_methods t packet s ≡ (
        if ltb (length packet) 17
        then (s, false)
        else if_parsed s (parse_offer (drop 17 packet)) (λ o. negotiate t o s))
unfolding kex_agree_methods
kex_agree_methods-parse t packet s h = elim (Bool-cases (ltb (length packet) 17)) [
  | inl short ↦ rw short
  | inr long ↦ rw long (
      if_read-if_parsed s (λ o. negotiate t o s) (read_offer (past_cookie packet)) _
        (read_offer-Refines (past_cookie packet)
          (record { whole = refl; within = ground arith; addressable = h })))
]

-- The eight lists, and a byte behind them.
abbrev pub offer_bytes : Offer → Bytes → Bytes
offer_bytes o rest =
    string_of o.kex
    ++ (string_of o.hostkey
        ++ (string_of o.crypt_cs
            ++ (string_of o.crypt_sc
                ++ (string_of o.mac_cs
                    ++ (string_of o.mac_sc
                        ++ (string_of o.comp_cs ++ (string_of o.comp_sc ++ o.follows ∷ rest)))))))

pub record Fits (o : Offer) : Type 0 where
  pub kex : length o.kex < 2 ^ 32
  pub hostkey : length o.hostkey < 2 ^ 32
  pub crypt_cs : length o.crypt_cs < 2 ^ 32
  pub crypt_sc : length o.crypt_sc < 2 ^ 32
  pub mac_cs : length o.mac_cs < 2 ^ 32
  pub mac_sc : length o.mac_sc < 2 ^ 32
  pub comp_cs : length o.comp_cs < 2 ^ 32
  pub comp_sc : length o.comp_sc < 2 ^ 32

parse_offer-offer_bytes :
    (o : Offer) (rest : Bytes) → Fits o → parse_offer (offer_bytes o rest) ≡ some (o, rest)
unfolding parse_offer Spec.byte
parse_offer-offer_bytes o rest h = rw (
  string-string_of o.kex _ h.kex,
  string-string_of o.hostkey _ h.hostkey,
  string-string_of o.crypt_cs _ h.crypt_cs,
  string-string_of o.crypt_sc _ h.crypt_sc,
  string-string_of o.mac_cs _ h.mac_cs,
  string-string_of o.mac_sc _ h.mac_sc,
  string-string_of o.comp_cs _ h.comp_cs,
  string-string_of o.comp_sc _ h.comp_sc,
)

drop_cookie :
    (kind : ℕ) (cookie body : Bytes) → length cookie ≡ 16 → drop 17 (kind ∷ (cookie ++ body)) ≡ body
drop_cookie kind cookie body h = ap (λ k. drop k (cookie ++ body)) (sym h) ∙ drop-append cookie body

-- The packet that leads to the negotiation over an offer.
pub kex_agree_methods-packet :
    (t : Tables) (o : Offer) (cookie rest : Bytes) (s : Session)
    → length cookie ≡ 16
    → Fits o
    → length (20 ∷ (cookie ++ offer_bytes o rest)) < 2 ^ 64
    → kex_agree_methods t (20 ∷ (cookie ++ offer_bytes o rest)) s ≡ negotiate t o s
kex_agree_methods-packet t o cookie rest s hc fits small =
    kex_agree_methods-parse t (20 ∷ (cookie ++ offer_bytes o rest)) s small
    ∙ rw (
      long_enough,
      drop_cookie 20 cookie (offer_bytes o rest) hc,
      parse_offer-offer_bytes o rest fits,
    )
  where
    long_enough : ltb (length (20 ∷ (cookie ++ offer_bytes o rest))) 17 ≡ false
    long_enough = ground (arith, length-append cookie (offer_bytes o rest))
