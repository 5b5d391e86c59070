-- ===== src/Tunnel/Socks.antt =====
-- `socks5_handshake`: what is read from the client and written to it.
use mshell.Prelude.{
  ℕ, ◌+◌, ◌*◌, ◌/◌, ◌%◌, Bool, not, ◌&&◌, List, [], ◌∷◌, ◌++◌, leb, ◌==◌, if◌then◌else◌, Bytes,
  length, get_or, take, drop,
}
use mshell.Prelude.Seen.{contains}

-- The client's stream: the bytes that it sends before it closes, and what was written to it.
pub record Peer : Type 0 where
  pub input : Bytes
  pub sent : List Bytes

-- `InvalidData`, `PermissionDenied`, `InvalidInput`; `io` is an error of the stream.
pub data Error : Type 0 where
  invalid_data permission_denied invalid_input unexpected_eof io : Error

pub data Result (A : Type 0) : Type 0 where
  ok : A → Result A
  err : Error → Result A

abbrev pub Handshake : Type 0 → Type 0
Handshake A = Peer → Peer × Result A

abbrev pub and_then : {A B : Type 0} → Peer × Result A → (A → Handshake B) → Peer × Result B
and_then (s, ok a) f = f a s
and_then (s, err e) f = (s, err e)

infixl 5 ◌>>=◌ ◌>>◌
abbrev pub ◌>>=◌ : {A B : Type 0} → Handshake A → (A → Handshake B) → Handshake B
◌>>=◌ m f s = and_then (m s) f

abbrev pub ◌>>◌ : {A B : Type 0} → Handshake A → Handshake B → Handshake B
◌>>◌ m k s = and_then (m s) λ _. k

abbrev pub pure : {A : Type 0} → A → Handshake A
pure a s = (s, ok a)

abbrev pub fail : {A : Type 0} → Error → Handshake A
fail e s = (s, err e)

unfoldable pub read_exact : ℕ → Handshake Bytes
read_exact n s =
    if leb n (length s.input)
    then (record s { input = drop n s.input }, ok (take n s.input))
    else (record s { input = [] }, err unexpected_eof)

-- `writes` says which messages the stream takes whole.
unfoldable pub write_all : (Bytes → Bool) → Bytes → Handshake Unit
write_all writes m s =
    if writes m then (record s { sent = s.sent ++ m ∷ [] }, ok tt) else (s, err io)

-- `let _ = stream.write_all(…)`
unfoldable pub try_write : (Bytes → Bool) → Bytes → Handshake Unit
unfolding write_all
try_write writes m s = ((write_all writes m s).0, ok tt)

pub data SocketAddr : Type 0 where
  v4 : (octets : Bytes) (port : ℕ) → SocketAddr
  v6 : (octets : Bytes) (port : ℕ) → SocketAddr

-- `u16::to_be_bytes`, `u16::from_be_bytes`
abbrev pub to_be_bytes : ℕ → Bytes
to_be_bytes port = port / 256 % 256 ∷ port % 256 ∷ []

abbrev pub from_be_bytes : Bytes → ℕ
from_be_bytes p = get_or p 0 0 * 256 + get_or p 1 0

abbrev pub reply : ℕ → SocketAddr → Bytes
reply rep (v4 octets port) = 5 ∷ rep ∷ 0 ∷ 1 ∷ (octets ++ to_be_bytes port)
reply rep (v6 octets port) = 5 ∷ rep ∷ 0 ∷ 4 ∷ (octets ++ to_be_bytes port)

-- `String::from_utf8_lossy`, the texts of `u8` and of `Ipv6Addr`.
pub record Formats : Type 0 where
  pub decimal : ℕ → Bytes
  pub utf8_lossy : Bytes → Bytes
  pub ipv6_text : Bytes → Bytes

abbrev pub ipv4_text : Formats → Bytes → Bytes
ipv4_text fmt addr =
    fmt.decimal (get_or addr 0 0)
    ++ (b'.' ∷ fmt.decimal (get_or addr 1 0))
    ++ (b'.' ∷ fmt.decimal (get_or addr 2 0))
    ++ (b'.' ∷ fmt.decimal (get_or addr 3 0))

-- Methods are offered, and 0 is not among them.
abbrev pub refused : Bytes → Bool
refused methods = not (length methods == 0) && not (contains ◌==◌ methods 0)

module _ (fmt : Formats) (writes : Bytes → Bool) (bound_addr : SocketAddr) where
  unfoldable pub socks5_reply : ℕ → Handshake Unit
  unfolding write_all
  socks5_reply rep = write_all writes (reply rep bound_addr)

  -- The greeting. (`read_exact` of nothing reads nothing, as where `nmethods` is 0.)
  abbrev pub answer_method : Bool → Handshake Unit
  answer_method no_method = do
    if no_method then (try_write writes (5 ∷ 255 ∷ []) >> fail permission_denied) else pure tt
    write_all writes (5 ∷ 0 ∷ [])

  abbrev pub check : Bool → Error → Handshake Unit
  check right e = if right then pure tt else fail e

  abbrev pub greeting : Handshake Unit
  greeting = do
    hdr ← read_exact 2
    check (get_or hdr 0 0 == 5) invalid_data
    methods ← read_exact (get_or hdr 1 0)
    answer_method (refused methods)

  abbrev pub with_port : Bytes → Handshake (Bytes × ℕ)
  with_port host = do p ← read_exact 2; pure (host, from_be_bytes p)

  abbrev pub refuse : ℕ → Error → Handshake (Bytes × ℕ)
  refuse rep e = socks5_reply rep >> fail e

  -- The `match` on the type of the address.
  abbrev pub destination : ℕ → Handshake (Bytes × ℕ)
  destination atyp =
      if atyp == 1
      then (do addr ← read_exact 4; with_port (ipv4_text fmt addr))
      else if atyp == 3
      then (do
        len ← read_exact 1
        name ← read_exact (get_or len 0 0)
        with_port (fmt.utf8_lossy name))
      else if atyp == 4
      then (do addr ← read_exact 16; with_port (fmt.ipv6_text addr))
      else refuse 8 invalid_data

  abbrev pub request : Handshake (Bytes × ℕ)
  request = do
    req ← read_exact 4
    check (get_or req 0 0 == 5) invalid_data
    if get_or req 1 0 == 1 then destination (get_or req 3 0) else refuse 7 invalid_input

  unfoldable pub socks5_handshake : Handshake (Bytes × ℕ)
  unfolding read_exact try_write socks5_reply
  socks5_handshake = do greeting; target ← request; socks5_reply 0; pure target
