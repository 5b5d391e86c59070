-- ===== src/Tunnel/Accepts.antt =====
-- A SOCKS5 client, after RFC 1928, against `socks5_handshake`.
use mshell.Prelude.{
  ℕ, ◌<◌, ◌≡◌, ◌⊎◌, refl, sym, ap, subst, ◌∙◌, inl, inr, Bool, true, false, not, ◌&&◌, List, [],
  ◌∷◌, ◌++◌, ◌==◌, Bytes, length, take-append, drop-append, length-append, le→leb, append_assoc,
  arith,
}
use mshell.Prelude.Seen.{contains}
use mshell.Tunnel.Socks.{
  Peer, ok, Handshake, and_then, ◌>>=◌, ◌>>◌, pure, read_exact, write_all, SocketAddr, to_be_bytes,
  from_be_bytes, reply, Formats, ipv4_text, socks5_reply, refused, answer_method, greeting,
  with_port, request, socks5_handshake,
}

pub data Target : Type 0 where
  ipv4 : (addr : Bytes) (port : ℕ) → Target
  domain : (name : Bytes) (port : ℕ) → Target
  ipv6 : (addr : Bytes) (port : ℕ) → Target

abbrev pub IsTarget : Target → Type 0
IsTarget (ipv4 addr port) = (length addr ≡ 4) × (port < 65536)
IsTarget (domain name port) = (length name < 256) × (port < 65536)
IsTarget (ipv6 addr port) = (length addr ≡ 16) × (port < 65536)

abbrev pub typed_address : Target → Bytes
typed_address (ipv4 addr port) = 1 ∷ (addr ++ to_be_bytes port)
typed_address (domain name port) = 3 ∷ length name ∷ (name ++ to_be_bytes port)
typed_address (ipv6 addr port) = 4 ∷ (addr ++ to_be_bytes port)

-- The greeting offers `methods`; the third byte of the request is reserved.
abbrev pub greeting_of : Bytes → Bytes
greeting_of methods = 5 ∷ length methods ∷ methods

abbrev pub connect_to : ℕ → Target → Bytes
connect_to reserved target = 5 ∷ 1 ∷ reserved ∷ typed_address target

abbrev pub target_of : Formats → Target → Bytes × ℕ
target_of fmt (ipv4 addr port) = (ipv4_text fmt addr, port)
target_of fmt (domain name port) = (fmt.utf8_lossy name, port)
target_of fmt (ipv6 addr port) = (fmt.ipv6_text addr, port)

-- A client with the method 0, of no authentication, or with no method.
abbrev pub Offers : Bytes → Type 0
Offers methods = (methods ≡ []) ⊎ (contains ◌==◌ methods 0 ≡ true)

abbrev pub peer : Bytes → List Bytes → Peer
peer input sent = record { input = input; sent = sent }

read_exact-append :
    (n : ℕ) (xs rest : Bytes) (sent : List Bytes)
    → length xs ≡ n
    → read_exact n (peer (xs ++ rest) sent) ≡ (peer rest sent, ok xs)
unfolding read_exact
read_exact-append n xs rest sent h =
    subst (λ k. read_exact k (peer (xs ++ rest) sent) ≡ (peer rest sent, ok xs)) h
      (rw (le→leb (length xs) (length (xs ++ rest)) (omega (arith, length-append xs rest)))
        (rw (take-append xs rest) (rw (drop-append xs rest) refl)))

-- A read whose bytes are there goes on with them.
reads :
    {A : Type 0} (n : ℕ) (xs rest : Bytes) (sent : List Bytes) (f : Bytes → Handshake A)
    → length xs ≡ n
    → (read_exact n >>= f) (peer (xs ++ rest) sent) ≡ f xs (peer rest sent)
reads n xs rest sent f h = ap (λ r. and_then r f) (read_exact-append n xs rest sent h)

from_be_bytes-to_be_bytes : (port : ℕ) → port < 65536 → from_be_bytes (to_be_bytes port) ≡ port
from_be_bytes-to_be_bytes port h = omega arith

not_second : (a b : Bool) → b ≡ true → (a && not b) ≡ false
not_second true b h = rw h refl
not_second false b h = refl

Offers-refused : (methods : Bytes) → Offers methods → refused methods ≡ false
Offers-refused methods (inl e) = subst (λ m. refused m ≡ false) (sym e) refl
Offers-refused methods (inr c) = not_second (not (length methods == 0)) _ c

module _ (fmt : Formats) (writes : Bytes → Bool) (bound_addr : SocketAddr) where
  with_port-bytes :
      (host : Bytes) (port : ℕ) (rest : Bytes) (sent : List Bytes)
      → port < 65536
      → with_port fmt writes bound_addr host (peer (to_be_bytes port ++ rest) sent)
        ≡ (peer rest sent, ok (host, port))
  with_port-bytes host port rest sent h =
      reads 2 (to_be_bytes port) rest sent _ refl
      ∙ ap (λ p. (peer rest sent, ok (host, p))) (from_be_bytes-to_be_bytes port h)

  address-port :
      (n : ℕ) (addr : Bytes) (host : Bytes → Bytes) (port : ℕ) (rest : Bytes) (sent : List Bytes)
      → length addr ≡ n
      → port < 65536
      → (read_exact n >>= λ a. with_port fmt writes bound_addr (host a))
          (peer ((addr ++ to_be_bytes port) ++ rest) sent)
        ≡ (peer rest sent, ok (host addr, port))
  address-port n addr host port rest sent hn hp =
      ap (λ i. (read_exact n >>= λ a. with_port fmt writes bound_addr (host a)) (peer i sent))
        (append_assoc addr (to_be_bytes port) rest)
      ∙ reads n addr (to_be_bytes port ++ rest) sent _ hn
      ∙ with_port-bytes (host addr) port rest sent hp

  request-connect :
      (reserved : ℕ) (target : Target) (rest : Bytes) (sent : List Bytes)
      → IsTarget target
      → request fmt writes bound_addr (peer (connect_to reserved target ++ rest) sent)
        ≡ (peer rest sent, ok (target_of fmt target))
  request-connect reserved (ipv4 addr port) rest sent h =
      reads 4 (5 ∷ 1 ∷ reserved ∷ 1 ∷ []) ((addr ++ to_be_bytes port) ++ rest) sent _ refl
      ∙ address-port 4 addr (ipv4_text fmt) port rest sent (h.0) (h.1)
  request-connect reserved (domain name port) rest sent h =
      reads 4 (5 ∷ 1 ∷ reserved ∷ 3 ∷ []) (length name ∷ ((name ++ to_be_bytes port) ++ rest)) sent
        _ refl
      ∙ reads 1 (length name ∷ []) ((name ++ to_be_bytes port) ++ rest) sent _ refl
      ∙ address-port (length name) name (λ a. fmt.utf8_lossy a) port rest sent refl (h.1)
  request-connect reserved (ipv6 addr port) rest sent h =
      reads 4 (5 ∷ 1 ∷ reserved ∷ 4 ∷ []) ((addr ++ to_be_bytes port) ++ rest) sent _ refl
      ∙ address-port 16 addr (λ a. fmt.ipv6_text a) port rest sent (h.0) (h.1)

  write_all-sends :
      (m input : Bytes) (sent : List Bytes)
      → writes m ≡ true
      → write_all writes m (peer input sent) ≡ (peer input (sent ++ m ∷ []), ok tt)
  unfolding write_all
  write_all-sends m input sent w = rw w refl

  greeting-sends :
      (methods rest : Bytes)
      → Offers methods
      → writes (5 ∷ 0 ∷ []) ≡ true
      → greeting fmt writes bound_addr (peer (greeting_of methods ++ rest) [])
        ≡ (peer rest ((5 ∷ 0 ∷ []) ∷ []), ok tt)
  greeting-sends methods rest o w =
      reads 2 (5 ∷ length methods ∷ []) (methods ++ rest) [] _ refl
      ∙ reads (length methods) methods rest [] _ refl
      ∙ ap (λ b. answer_method fmt writes bound_addr b (peer rest [])) (Offers-refused methods o)
      ∙ write_all-sends (5 ∷ 0 ∷ []) rest [] w

-- A client that offers no method or, among others, the method 0, and then asks to be connected to an
-- IPv4 address, a name or an IPv6 address, is told of the method and of the success, if the stream
-- takes both messages; the handshake returns the address and the port, and leaves what the client
-- sends behind the request to the relay.
pub socks5_handshake-connect_to :
    (fmt : Formats) (writes : Bytes → Bool) (bound_addr : SocketAddr) (methods : Bytes)
    (reserved : ℕ) (target : Target) (rest : Bytes)
    → Offers methods
    → IsTarget target
    → writes (5 ∷ 0 ∷ []) ≡ true
    → writes (reply 0 bound_addr) ≡ true
    → let client = peer (greeting_of methods ++ (connect_to reserved target ++ rest)) [] in
      let served = peer rest ((5 ∷ 0 ∷ []) ∷ reply 0 bound_addr ∷ []) in
      socks5_handshake fmt writes bound_addr client ≡ (served, ok (target_of fmt target))
unfolding socks5_handshake socks5_reply
socks5_handshake-connect_to fmt writes bound_addr methods reserved target rest o t w w' =
    let told : List Bytes = (5 ∷ 0 ∷ []) ∷ [] in
    let finish : Bytes × ℕ → Handshake (Bytes × ℕ) =
      λ a. socks5_reply fmt writes bound_addr 0 >> pure a in
    ap (λ r. and_then r λ _. request fmt writes bound_addr >>= finish)
      (greeting-sends fmt writes bound_addr methods (connect_to reserved target ++ rest) o w)
    ∙ ap (λ r. and_then r finish)
        (request-connect fmt writes bound_addr reserved target rest told t)
    ∙ ap (λ r. and_then r λ _. pure (target_of fmt target))
        (write_all-sends fmt writes bound_addr (reply 0 bound_addr) rest told w')
