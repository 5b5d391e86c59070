-- ===== src/Tunnel/Tests.antt =====
-- A client that asks for a name, and a relay of three rounds.
use mshell.Prelude.{◌+◌, ◌≡◌, refl, inr, true, false, List, [], ◌∷◌, ◌++◌, Bytes, arith}
use mshell.Prelude.Seen.{contains}
use mshell.Tunnel.Socks.{
  ok, err, permission_denied, unexpected_eof, SocketAddr, v4, reply, Formats, socks5_handshake,
}
use mshell.Tunnel.Accepts.{
  domain, Offers, greeting_of, connect_to, target_of, peer, socks5_handshake-connect_to,
}
use mshell.Tunnel.Relay.{
  wrote, write_blocks, write_fails, got, read_blocks, Direction, Round, Relay, relay_bidirectional,
}
use mshell.Tunnel.Faithful.{IsRelay, relay_bidirectional-IsRelay}
use mshell.Tunnel.Delivers.{
  takes, IsOpen, stream_data, channel_data, relayed, relay_bidirectional-delivers,
}

abbrev formats : Formats
formats = record { decimal = λ n. (n + 48) ∷ []; utf8_lossy = λ b. b; ipv6_text = λ b. b }

abbrev bound : SocketAddr
bound = v4 (127 ∷ 0 ∷ 0 ∷ 1 ∷ []) 1080

abbrev methods : Bytes
methods = 2 ∷ 0 ∷ []

methods-Offers : Offers methods
unfolding contains
methods-Offers = inr refl

-- The name "ab", port 443, and two bytes of the connection
socks5_handshake-connect_to_example :
    socks5_handshake formats
      (λ m. true)
      bound
      (peer
        (greeting_of methods ++ (connect_to 0 (domain (b'a' ∷ b'b' ∷ []) 443) ++ (1 ∷ 2 ∷ [])))
        [])
    ≡ (
      peer (1 ∷ 2 ∷ []) ((5 ∷ 0 ∷ []) ∷ reply 0 bound ∷ []),
      ok (target_of formats (domain (b'a' ∷ b'b' ∷ []) 443)),
    )
socks5_handshake-connect_to_example =
    socks5_handshake-connect_to formats (λ m. true) bound methods 0 (domain (b'a' ∷ b'b' ∷ []) 443)
      (1 ∷ 2 ∷ []) methods-Offers (omega arith, omega arith) refl refl

refuses_passwords :
    socks5_handshake formats (λ m. true) bound (peer (5 ∷ 1 ∷ 2 ∷ 5 ∷ []) [])
    ≡ (peer (5 ∷ []) ((5 ∷ 255 ∷ []) ∷ []), err permission_denied)
unfolding socks5_handshake contains
refuses_passwords = refl

cut_short :
    socks5_handshake formats (λ m. true) bound (peer (5 ∷ 3 ∷ 0 ∷ []) [])
    ≡ (peer [] [], err unexpected_eof)
unfolding socks5_handshake contains
cut_short = refl

abbrev still : Direction
still = record { taken = []; given = [] }

abbrev idle : Relay
idle = record { to_channel = still; to_stream = still; running = true }

abbrev quiet : Round
quiet = record {
  stop = false;
  read_stream = read_blocks;
  channel_writes = [];
  read_channel = read_blocks;
  stream_writes = [];
  channel_eof = false;
}

-- A read that is written in two parts, and one of which a part is written.
abbrev rounds : List Round
rounds =
    record quiet {
      read_stream = got (1 ∷ 2 ∷ 3 ∷ []);
      channel_writes = wrote 2 ∷ write_blocks ∷ wrote 1 ∷ [];
    }
    ∷ quiet
    ∷ record quiet { read_channel = got (4 ∷ 5 ∷ []); stream_writes = wrote 1 ∷ write_fails ∷ [] }
    ∷ []

relays : relay_bidirectional rounds idle ≡ record {
  to_channel = record { taken = 1 ∷ 2 ∷ 3 ∷ []; given = 1 ∷ 2 ∷ 3 ∷ [] };
  to_stream = record { taken = 4 ∷ 5 ∷ []; given = 4 ∷ [] };
  running = false;
}
unfolding relay_bidirectional
relays = refl

idle-IsRelay : IsRelay idle
idle-IsRelay = (([], refl, λ h. refl), ([], refl, λ h. refl))

relay_bidirectional-IsRelay_example : IsRelay (relay_bidirectional rounds idle)
relay_bidirectional-IsRelay_example = relay_bidirectional-IsRelay rounds idle idle-IsRelay

-- Both sides give data, the writes are in parts and blocked.
abbrev flowing : Round
flowing = record quiet {
  read_stream = got (1 ∷ 2 ∷ 3 ∷ []);
  channel_writes = wrote 2 ∷ write_blocks ∷ wrote 1 ∷ wrote 1 ∷ [];
  read_channel = got (4 ∷ []);
  stream_writes = write_blocks ∷ wrote 7 ∷ [];
}

flowing-IsOpen : IsOpen flowing
unfolding takes
flowing-IsOpen = record { no_stop = refl; up = ground arith; down = ground arith; no_eof = refl }

quiet-IsOpen : IsOpen quiet
quiet-IsOpen = record { no_stop = refl; up = tt; down = tt; no_eof = refl }

relay_bidirectional-delivers_example :
    relay_bidirectional (flowing ∷ quiet ∷ flowing ∷ []) idle
    ≡ relayed still (1 ∷ 2 ∷ 3 ∷ 1 ∷ 2 ∷ 3 ∷ []) still (4 ∷ 4 ∷ [])
unfolding stream_data channel_data
relay_bidirectional-delivers_example =
    relay_bidirectional-delivers (flowing ∷ quiet ∷ flowing ∷ []) idle refl
      (flowing-IsOpen, (quiet-IsOpen, (flowing-IsOpen, tt)))
