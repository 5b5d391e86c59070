-- ===== src/Kex/Negotiate/Stages.antt =====
-- One stage of the negotiation: what it promises if it returns 0, and what it leaves alone.
use mshell.Prelude.{
  ◌≡◌, refl, ◌⊎◌, inl, inr, Bool, true, false, Option, none, some, Bytes, ◌∙◌, ap, ℕ,
}
use mshell.Kex.Agree.{
  Method, HostkeyMethod, KexMethod, Tables, Endpoint, Session, Pair, suits, mac_override,
  kex_agree_crypt, kex_agree_mac, kex_agree_comp, set_crypt, set_mac, set_comp, or_else,
}
use mshell.Kex.Agree.Choice.{Offered, agree-Offered}
use mshell.Kex.Negotiate.{Offer, kex_agree_kex_hostkey, and_next, set_pair}
use mshell.Kex.Agree.Pairs.{AreNamed, pair_stage}

abbrev pub HasCrypt : Endpoint → Bytes → Type 0
HasCrypt e offered = (m : Method) × (e.crypt ≡ some m) × Offered offered m.name

-- The MAC is the cipher's own one, or one that the server offers.
abbrev pub HasMac : Tables → Endpoint → Bytes → Type 0
HasMac t e offered =
    (m : Method) × (e.mac ≡ some m) × ((mac_override t e.crypt ≡ some m) ⊎ Offered offered m.name)

abbrev pub HasComp : Endpoint → Bytes → Type 0
HasComp e offered = (m : Method) × (e.comp ≡ some m) × Offered offered m.name

abbrev pub HasPair : Session → Bytes → Bytes → Type 0
HasPair s kex hostkey =
    (m : KexMethod) × (hk : HostkeyMethod) × (s.kex ≡ some m)
    × (s.hostkey ≡ some hk)
    × Offered kex m.name
    × Offered hostkey hk.name
    × (suits m hk ≡ true)

pub record Agreed (t : Tables) (o : Offer) (s : Session) : Type 0 where
  pub pair : HasPair s o.kex o.hostkey
  pub crypt_here : HasCrypt s.here o.crypt_cs
  pub crypt_remote : HasCrypt s.remote o.crypt_sc
  pub mac_here : HasMac t s.here o.mac_cs
  pub mac_remote : HasMac t s.remote o.mac_sc
  pub comp_here : HasComp s.here o.comp_cs
  pub comp_remote : HasComp s.remote o.comp_sc

-- What holds of the session if 0 is returned.
abbrev pub Ensures {ℓ} : {S : Type 0} → (S → Type ℓ) → S × Bool → Type ℓ
Ensures P r = r.1 ≡ true → P r.0

pub Ensures-and_next :
    (P Q : Session → Type 0) (r : Session × Bool) (f : Session → Session × Bool)
    → Ensures P r
    → ((s : Session) → P s → Ensures Q (f s))
    → Ensures Q (and_next r f)
Ensures-and_next P Q (s, true) f h k = k s (h refl)
Ensures-and_next P Q (s, false) f h k = λ e. cc

-- One stage: what its step promises, and what it leaves alone.
set_crypt_lem :
    (offered : Bytes) (e : Endpoint) (r : Option Method)
    → ((m : Method) → r ≡ some m → Offered offered m.name)
    → Ensures (λ e'. HasCrypt e' offered × (e'.mac ≡ e.mac) × (e'.comp ≡ e.comp)) (set_crypt e r)
set_crypt_lem offered e none k = λ h. cc
set_crypt_lem offered e (some m) k = λ h. ((m, refl, k m refl), refl, refl)

set_mac_lem :
    (t : Tables) (offered : Bytes) (e : Endpoint) (r : Option Method)
    → ((m : Method) → r ≡ some m → (mac_override t e.crypt ≡ some m) ⊎ Offered offered m.name)
    → Ensures (λ e'. HasMac t e' offered × (e'.crypt ≡ e.crypt) × (e'.comp ≡ e.comp)) (set_mac e r)
set_mac_lem t offered e none k = λ h. cc
set_mac_lem t offered e (some m) k = λ h. ((m, refl, k m refl), refl, refl)

set_comp_lem :
    (offered : Bytes) (e : Endpoint) (r : Option Method)
    → ((m : Method) → r ≡ some m → Offered offered m.name)
    → Ensures (λ e'. HasComp e' offered × (e'.crypt ≡ e.crypt) × (e'.mac ≡ e.mac)) (set_comp e r)
set_comp_lem offered e none k = λ h. cc
set_comp_lem offered e (some m) k = λ h. ((m, refl, k m refl), refl, refl)

or_else-cases :
    {A : Type 0} (o r : Option A) (m : A) → or_else o r ≡ some m → (o ≡ some m) ⊎ (r ≡ some m)
or_else-cases none r m h = inr h
or_else-cases (some a) r m h = inl h

module _ (t : Tables) (named : AreNamed t) (offered : Bytes) (e : Endpoint) where
  pub crypt_stage :
      Ensures
        (λ e'. HasCrypt e' offered × (e'.mac ≡ e.mac) × (e'.comp ≡ e.comp))
        (kex_agree_crypt t e offered)
  unfolding kex_agree_crypt
  crypt_stage =
      set_crypt_lem offered e _
        λ m h. agree-Offered (λ x. x.name) e.crypt_prefs t.crypt_methods offered m named.crypt h

  pub mac_stage :
      Ensures
        (λ e'. HasMac t e' offered × (e'.crypt ≡ e.crypt) × (e'.comp ≡ e.comp))
        (kex_agree_mac t e offered)
  unfolding kex_agree_mac
  mac_stage = set_mac_lem t offered e _ λ m h. elim (or_else-cases (mac_override t e.crypt) _ m h) [
    | inl own ↦ inl own
    | inr chosen ↦
        inr (agree-Offered (λ x. x.name) e.mac_prefs t.mac_methods offered m named.mac chosen)
  ]

  pub comp_stage :
      Ensures
        (λ e'. HasComp e' offered × (e'.crypt ≡ e.crypt) × (e'.mac ≡ e.mac))
        (kex_agree_comp t e offered)
  unfolding kex_agree_comp
  comp_stage =
      set_comp_lem offered e _
        λ m h. agree-Offered (λ x. x.name) e.comp_prefs t.comp_methods offered m named.comp h

set_pair_lem :
    (s : Session) (kex hostkey : Bytes) (r : Option Pair)
    → ((m : KexMethod) (hk : HostkeyMethod) (q : ℕ)
        → r ≡ some (m, hk, q)
        → Offered kex m.name × Offered hostkey hk.name × (suits m hk ≡ true))
    → Ensures (λ s'. HasPair s' kex hostkey) (set_pair s r)
set_pair_lem s kex hostkey none k = λ h. cc
set_pair_lem s kex hostkey (some (m, hk, q)) k =
    λ h. let good = k m hk q refl in (m, hk, refl, refl, good.0, good.1, good.2)

pub kex_stage :
    (t : Tables) (named : AreNamed t) (kex hostkey : Bytes) (s : Session)
    → Ensures (λ s'. HasPair s' kex hostkey) (kex_agree_kex_hostkey t kex hostkey s)
unfolding kex_agree_kex_hostkey
kex_stage t named kex hostkey s =
    set_pair_lem _ kex hostkey _ λ m hk q e. pair_stage t named _ kex hostkey _ (m, hk, q) e

pub mac_same :
    (t : Tables) (e e' : Endpoint) (offered : Bytes)
    → e'.crypt ≡ e.crypt
    → e'.mac ≡ e.mac
    → HasMac t e offered
    → HasMac t e' offered
mac_same t e e' offered same_crypt same (m, h, inl own) =
    (m, same ∙ h, inl (ap (mac_override t) same_crypt ∙ own))
mac_same t e e' offered same_crypt same (m, h, inr k) = (m, same ∙ h, inr k)
