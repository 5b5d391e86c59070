-- ===== src/Kex/Agree/Pairs.antt =====
-- The key exchange and the host key that are agreed on suit one another, and both are offered.
use mshell.Prelude.{
  ◌≡◌, refl, ◌⊎◌, inl, inr, true, Option, none, some, arith, Bytes, subst, ℕ, Bool-cases, List, [],
  ◌∷◌,
}
use mshell.Kex.NameList.{agree_instr}
use mshell.Kex.NameList.Spec.{found}
use mshell.Kex.Agree.{
  Method, HostkeyMethod, KexMethod, Tables, Pair, suits, kex_agree_hostkey, hostkey_by_prefs,
  hostkey_by_table, pair_by_prefs, pair_by_table, agree_pair, pref_names, if_suits, if_hostkey,
  at_name,
}
use mshell.Kex.Agree.Choice.{Offered, AreNames, found-Offered, looked_up-Offered}

-- Every method of the tables has a name of at least one byte, without a comma.
pub record AreNamed (t : Tables) : Type 0 where
  pub kex : AreNames (λ (m : KexMethod). m.name) t.kex_methods
  pub hostkey : AreNames (λ (m : HostkeyMethod). m.name) t.hostkey_methods
  pub crypt : AreNames (λ (m : Method). m.name) t.crypt_methods
  pub mac : AreNames (λ (m : Method). m.name) t.mac_methods
  pub comp : AreNames (λ (m : Method). m.name) t.comp_methods

-- The host key that suits, and the key exchange that it is found for.
module _ (t : Tables) (named : AreNamed t) (kex : KexMethod) (offered : Bytes) where
  hostkey_by_table_lem :
      (ms : List HostkeyMethod) (hk : HostkeyMethod)
      → AreNames (λ (m : HostkeyMethod). m.name) ms
      → hostkey_by_table kex offered ms ≡ some hk
      → Offered offered hk.name × (suits kex hk ≡ true)
  unfolding hostkey_by_table
  hostkey_by_table_lem [] hk k h = cc
  hostkey_by_table_lem (m ∷ ms) hk k h =
      ground (arith, found-Offered offered m.name (k.0), hostkey_by_table_lem ms hk (k.1))

  if_suits_lem :
      (looked_up rest : Option HostkeyMethod) (hk : HostkeyMethod)
      → if_suits kex looked_up rest ≡ some hk
      → ((looked_up ≡ some hk) × (suits kex hk ≡ true)) ⊎ (rest ≡ some hk)
  if_suits_lem none rest hk h = cc
  if_suits_lem (some m) rest hk h = elim (Bool-cases (suits kex m)) [
    | inl e ↦ inl (ground arith)
    | inr e ↦ inr (ground arith)
  ]

  hostkey_by_prefs_lem :
      (ns : List Bytes) (hk : HostkeyMethod)
      → hostkey_by_prefs t kex offered ns ≡ some hk
      → Offered offered hk.name × (suits kex hk ≡ true)
  unfolding hostkey_by_prefs
  hostkey_by_prefs_lem [] hk h = cc
  hostkey_by_prefs_lem (n ∷ ns) hk h = elim (Bool-cases (found (agree_instr offered n))) [
    | inr e ↦ hostkey_by_prefs_lem ns hk (rw e at h)
    | inl e ↦ elim (if_suits_lem _ _ hk (rw e at h)) [
      | inr later ↦ hostkey_by_prefs_lem ns hk later
      | inl (taken, fits) ↦ (
        looked_up-Offered (λ x. x.name) offered n t.hostkey_methods hk named.hostkey taken e,
        fits,
      )
    ]
  ]

  hostkey_stage :
      (prefs : Option Bytes) (hk : HostkeyMethod)
      → kex_agree_hostkey t prefs kex offered ≡ some hk
      → Offered offered hk.name × (suits kex hk ≡ true)
  unfolding kex_agree_hostkey
  hostkey_stage none hk h = hostkey_by_table_lem t.hostkey_methods hk named.hostkey h
  hostkey_stage (some prefs) hk h = hostkey_by_prefs_lem (pref_names prefs) hk h

module _ (t : Tables) (named : AreNamed t) (prefs : Option Bytes) (kex hostkey : Bytes) where
  abbrev pub GoodPair : Pair → Type 0
  GoodPair p = Offered kex (p.0.name) × Offered hostkey (p.1.name) × (suits (p.0) (p.1) ≡ true)

  if_hostkey_lem :
      (m : KexMethod) (q : ℕ) (r : Option HostkeyMethod) (rest : Option Pair) (p : Pair)
      → if_hostkey m q r rest ≡ some p
      → ((hk : HostkeyMethod) × (r ≡ some hk) × ((m, hk, q) ≡ p)) ⊎ (rest ≡ some p)
  if_hostkey_lem m q none rest p h = inr h
  if_hostkey_lem m q (some hk) rest p h = inl (hk, refl, cc)

  -- One round of either loop.
  round_lem :
      (q : Option ℕ) (looked_up : Option KexMethod) (rest : Option Pair) (p : Pair)
      → ((m : KexMethod) → looked_up ≡ some m → found q ≡ true → Offered kex m.name)
      → (rest ≡ some p → GoodPair p)
      → at_name t prefs kex hostkey q looked_up rest ≡ some p
      → GoodPair p
  round_lem none looked_up rest p is_offered later h = later h
  round_lem (some q) none rest p is_offered later h = cc
  round_lem (some q) (some m) rest p is_offered later h =
      elim (if_hostkey_lem m q (kex_agree_hostkey t prefs m hostkey) rest p h) [
        | inr e ↦ later e
        | inl (hk, chosen, same) ↦
            let good = hostkey_stage t named m hostkey prefs hk chosen in
            subst GoodPair same (is_offered m refl refl, good.0, good.1)
      ]

  pair_by_prefs_lem :
      (ns : List Bytes) (p : Pair) → pair_by_prefs t prefs kex hostkey ns ≡ some p → GoodPair p
  unfolding pair_by_prefs
  pair_by_prefs_lem [] p h = cc
  pair_by_prefs_lem (n ∷ ns) p h =
      round_lem (agree_instr kex n) _ _ p
        (λ m e f. looked_up-Offered (λ x. x.name) kex n t.kex_methods m named.kex e f)
        (pair_by_prefs_lem ns p) h

  pair_by_table_lem :
      (ms : List KexMethod) (p : Pair)
      → AreNames (λ (m : KexMethod). m.name) ms
      → pair_by_table t prefs kex hostkey ms ≡ some p
      → GoodPair p
  unfolding pair_by_table
  pair_by_table_lem [] p k h = cc
  pair_by_table_lem (m ∷ ms) p k h =
      round_lem (agree_instr kex m.name) _ _ p
        (λ x e f.
          let same : m ≡ x = cc in
          subst (λ (y : KexMethod). Offered kex y.name) same (found-Offered kex m.name (k.0) f))
        (pair_by_table_lem ms p (k.1)) h

  pub pair_stage :
      (kex_prefs : Option Bytes) (p : Pair)
      → agree_pair t prefs kex hostkey kex_prefs ≡ some p
      → GoodPair p
  unfolding agree_pair
  pair_stage none p h = pair_by_table_lem t.kex_methods p named.kex h
  pair_stage (some names) p h = pair_by_prefs_lem (pref_names names) p h
