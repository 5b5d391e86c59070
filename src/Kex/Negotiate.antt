-- ===== src/Kex/Negotiate.antt =====
-- kex.c, `kex_agree_kex_hostkey` and `kex_agree_methods`: from the server's KEXINIT packet to the
-- methods in the session. Every function returns the session and whether it returned 0; on -1 the
-- session keeps what was stored before.
pub mod Stages
pub mod Sound
pub mod Packet
pub mod Kexinit
mod Tests
use mshell.Prelude.{
  ℕ, Bool, true, false, not, ◌&&◌, Option, none, some, List, [], ◌∷◌, ltb, ◌==◌, if◌then◌else◌,
  Bytes, length,
}
use mshell.StringBuf.{StringBuf, Reader, ◌>>=◌, pure, get_byte, get_string}
use mshell.Kex.NameList.{agree_instr}
use mshell.Kex.NameList.Spec.{found}
use mshell.Kex.Agree.{
  Tables, Endpoint, Session, Pair, agree_pair, kex_agree_crypt, kex_agree_mac, kex_agree_comp,
}

-- "kex-strict-s-v00@openssh.com"
abbrev pub strict : Bytes
strict =
    b'k' ∷ b'e' ∷ b'x' ∷ b'-' ∷ b's' ∷ b't' ∷ b'r' ∷ b'i' ∷ b'c' ∷ b't' ∷ b'-' ∷ b's' ∷ b'-' ∷ b'v'
    ∷ b'0' ∷ b'0' ∷ b'@' ∷ b'o' ∷ b'p' ∷ b'e' ∷ b'n' ∷ b's' ∷ b's' ∷ b'h' ∷ b'.' ∷ b'c' ∷ b'o'
    ∷ b'm' ∷ []

-- A packet that the server guessed right, with its first method, is not thrown away.
abbrev pub burn_after : Session → ℕ → ℕ
burn_after s q =
    if not (s.burn_optimistic_kexinit == 0) && q == 0 then 0 else s.burn_optimistic_kexinit

abbrev pub set_pair : Session → Option Pair → Session × Bool
set_pair s none = (s, false)
set_pair s (some (m, hk, q)) =
    (record s { kex = some m; hostkey = some hk; burn_optimistic_kexinit = burn_after s q }, true)

abbrev pub note_strict : Session → Bool → Session
note_strict s true = record s { kex_strict = true }
note_strict s false = s

unfoldable pub kex_agree_kex_hostkey : Tables → Bytes → Bytes → Session → Session × Bool
kex_agree_kex_hostkey t kex hostkey s =
    let s' = note_strict s (found (agree_instr kex strict)) in
    set_pair s' (agree_pair t s'.hostkey_prefs kex hostkey s'.kex_prefs)

-- What `kex_agree_methods` reads from the packet: eight name lists, and the byte behind them, which it
-- takes for the flag of a packet that the server has sent on a guess.
pub record Offer : Type 0 where
  pub kex : Bytes
  pub hostkey : Bytes
  pub crypt_cs : Bytes
  pub crypt_sc : Bytes
  pub mac_cs : Bytes
  pub mac_sc : Bytes
  pub comp_cs : Bytes
  pub comp_sc : Bytes
  pub follows : ℕ

unfoldable pub read_offer : Reader Offer
read_offer = do
  kex ← get_string
  hostkey ← get_string
  crypt_cs ← get_string
  crypt_sc ← get_string
  mac_cs ← get_string
  mac_sc ← get_string
  comp_cs ← get_string
  comp_sc ← get_string
  follows ← get_byte
  pure (record {
    kex = kex;
    hostkey = hostkey;
    crypt_cs = crypt_cs;
    crypt_sc = crypt_sc;
    mac_cs = mac_cs;
    mac_sc = mac_sc;
    comp_cs = comp_cs;
    comp_sc = comp_sc;
    follows = follows;
  })

-- `if(f(…)) return -1;` in sequence.
abbrev pub and_next : Session × Bool → (Session → Session × Bool) → Session × Bool
and_next (s, true) f = f s
and_next (s, false) f = (s, false)

abbrev pub on_here : (Endpoint → Endpoint × Bool) → Session → Session × Bool
on_here f s = let (e, done) = f s.here in (record s { here = e }, done)

abbrev pub on_remote : (Endpoint → Endpoint × Bool) → Session → Session × Bool
on_remote f s = let (e, done) = f s.remote in (record s { remote = e }, done)

-- The choices, in the order of the code: the MACs after the ciphers, on which some depend.
unfoldable pub negotiate : Tables → Offer → Session → Session × Bool
negotiate t o s =
    let s1 =
      kex_agree_kex_hostkey t o.kex o.hostkey (record s { burn_optimistic_kexinit = o.follows }) in
    let s2 = and_next s1 (on_here λ e. kex_agree_crypt t e o.crypt_cs) in
    let s3 = and_next s2 (on_remote λ e. kex_agree_crypt t e o.crypt_sc) in
    let s4 = and_next s3 (on_here λ e. kex_agree_mac t e o.mac_cs) in
    let s5 = and_next s4 (on_remote λ e. kex_agree_mac t e o.mac_sc) in
    let s6 = and_next s5 (on_here λ e. kex_agree_comp t e o.comp_cs) in
    and_next s6 (on_remote λ e. kex_agree_comp t e o.comp_sc)

abbrev pub if_read : Session → Option Offer → (Offer → Session × Bool) → Session × Bool
if_read s none f = (s, false)
if_read s (some o) f = f o

-- The buffer of `data`, behind the packet type and the 16 bytes of the cookie.
abbrev pub past_cookie : Bytes → StringBuf
past_cookie data_ = record { bytes = data_; len = length data_; pos = 17 }

unfoldable pub kex_agree_methods : Tables → Bytes → Session → Session × Bool
kex_agree_methods t data_ s =
    if ltb (length data_) 17
    then (s, false)
    else if_read s (read_offer (past_cookie data_)).0 (λ o. negotiate t o s)
