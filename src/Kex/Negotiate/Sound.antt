-- ===== src/Kex/Negotiate/Sound.antt =====
-- A negotiation that returns 0 has chosen every method, and each is one that the server offers.
use mshell.Prelude.{◌≡◌, true, ◌∙◌}
use mshell.Kex.Agree.{Tables, Session, kex_agree_crypt, kex_agree_mac, kex_agree_comp}
use mshell.Kex.Agree.Pairs.{AreNamed}
use mshell.Kex.Negotiate.{Offer, on_here, on_remote, negotiate}
use mshell.Kex.Negotiate.Stages.{
  HasCrypt, HasMac, HasComp, HasPair, Agreed, Ensures, Ensures-and_next, crypt_stage, mac_stage,
  comp_stage, mac_same, kex_stage,
}

-- The session after the first stages. A stage on one endpoint leaves the rest as it is.
module _ (t : Tables) (named : AreNamed t) (o : Offer) where
  abbrev After1 : Session → Type 0
  After1 s = HasPair s o.kex o.hostkey

  abbrev After2 : Session → Type 0
  After2 s = After1 s × HasCrypt s.here o.crypt_cs

  abbrev After3 : Session → Type 0
  After3 s = After1 s × HasCrypt s.here o.crypt_cs × HasCrypt s.remote o.crypt_sc

  abbrev After4 : Session → Type 0
  After4 s =
      After1 s
      × HasCrypt s.here o.crypt_cs
      × HasCrypt s.remote o.crypt_sc
      × HasMac t s.here o.mac_cs

  abbrev After5 : Session → Type 0
  After5 s =
      After1 s
      × HasCrypt s.here o.crypt_cs
      × HasCrypt s.remote o.crypt_sc
      × HasMac t s.here o.mac_cs
      × HasMac t s.remote o.mac_sc

  abbrev After6 : Session → Type 0
  After6 s =
      After1 s
      × HasCrypt s.here o.crypt_cs
      × HasCrypt s.remote o.crypt_sc
      × HasMac t s.here o.mac_cs
      × HasMac t s.remote o.mac_sc
      × HasComp s.here o.comp_cs

  to2 : (s : Session) → After1 s → Ensures After2 (on_here (λ e. kex_agree_crypt t e o.crypt_cs) s)
  to2 s a h = (a, (crypt_stage t named o.crypt_cs s.here h).0)

  to3 :
      (s : Session) → After2 s → Ensures After3 (on_remote (λ e. kex_agree_crypt t e o.crypt_sc) s)
  to3 s (a, b) h = (a, b, (crypt_stage t named o.crypt_sc s.remote h).0)

  to4 : (s : Session) → After3 s → Ensures After4 (on_here (λ e. kex_agree_mac t e o.mac_cs) s)
  to4 s (a, b, c) h =
      let (m, same, _) = mac_stage t named o.mac_cs s.here h in (a, (b.0, same ∙ b.1, b.2), c, m)

  to5 : (s : Session) → After4 s → Ensures After5 (on_remote (λ e. kex_agree_mac t e o.mac_sc) s)
  to5 s (a, b, c, d) h =
      let (m, same, _) = mac_stage t named o.mac_sc s.remote h in
      (a, b, (c.0, same ∙ c.1, c.2), d, m)

  to6 : (s : Session) → After5 s → Ensures After6 (on_here (λ e. kex_agree_comp t e o.comp_cs) s)
  to6 s (a, b, c, d, f) h =
      let (m, same_crypt, same) = comp_stage t named o.comp_cs s.here h in
      (
        a,
        (b.0, same_crypt ∙ b.1, b.2),
        c,
        mac_same t s.here (kex_agree_comp t s.here o.comp_cs).0 o.mac_cs same_crypt same d,
        f,
        m,
      )

  to7 :
      (s : Session)
      → After6 s
      → Ensures (Agreed t o) (on_remote (λ e. kex_agree_comp t e o.comp_sc) s)
  to7 s (a, b, c, d, f, g) h =
      let (m, same_crypt, same) = comp_stage t named o.comp_sc s.remote h in
      record {
        pair = a;
        crypt_here = b;
        crypt_remote = (c.0, same_crypt ∙ c.1, c.2);
        mac_here = d;
        mac_remote =
            mac_same t s.remote (kex_agree_comp t s.remote o.comp_sc).0 o.mac_sc same_crypt same f;
        comp_here = g;
        comp_remote = m;
      }

  -- Over tables whose methods all have a name of at least one byte without a comma: if the
  -- negotiation returns 0, the session has a key exchange method, a host key method that
  -- suits it, and a cipher, a MAC and a compression for each direction, and the name of each is one
  -- of the comma-separated names of the server's list for its purpose, but for a MAC that the cipher brings along.
  pub negotiate-Agreed : (s : Session) → (negotiate t o s).1 ≡ true → Agreed t o (negotiate t o s).0
  unfolding negotiate
  negotiate-Agreed s =
      Ensures-and_next After6 (Agreed t o) _ _
        (Ensures-and_next After5 After6 _ _
          (Ensures-and_next After4 After5 _ _
            (Ensures-and_next After3 After4 _ _
              (Ensures-and_next After2 After3 _ _
                (Ensures-and_next After1 After2 _ _ (kex_stage t named o.kex o.hostkey _) to2) to3)
              to4)
            to5)
          to6)
        to7
