-- ===== src/Channel.antt =====
-- channel.c, `struct _LIBSSH2_CHANNEL` and the session around it: the flow-controlled streams of a
-- session, and the functions that widen the window, read, write and number the channels.
--
-- A `size_t` is a number below 2 ^ 64 and a `uint32_t` one below 2 ^ 32. What `transport.c` does on
-- the socket is a parameter: nothing is assumed of it.
pub mod Ids
pub mod Window
pub mod Read
pub mod Write
mod Tests
use mshell.Prelude.{ℕ, ◌≡◌, ◌⊎◌, Bool, List, [], ◌∷◌, ◌++◌, Bytes}

-- `libssh2_nonblocking_states`
pub data NbState : Type 0 where
  idle : NbState
  allocated : NbState
  created : NbState
  sent0 : NbState
  sent1 : NbState
  sent2 : NbState
  sent3 : NbState
  sent4 : NbState
  sent5 : NbState
  sent6 : NbState
  sent7 : NbState
  jump1 : NbState
  jump2 : NbState
  jump3 : NbState
  jump4 : NbState
  jump5 : NbState
  error_closing : NbState
  end : NbState
  jumpauthagent : NbState

-- How a call ends: a result of 0 or more, LIBSSH2_ERROR_EAGAIN, or another error, by its absolute
-- value.
pub data Result (A : Type 0) : Type 0 where
  done : A → Result A
  would_block : Result A
  failed : ℕ → Result A

-- The fields of `local` and `remote` carry that word first; `local_window` is what may still be
-- sent, `remote_window` what the peer may still send.
pub record Channel : Type 0 where
  pub local_id : ℕ
  pub local_window : ℕ
  pub local_packet : ℕ
  pub local_close : Bool
  pub local_eof : Bool
  pub remote_id : ℕ
  pub remote_window : ℕ
  pub remote_window_initial : ℕ
  pub remote_close : Bool
  pub remote_eof : Bool
  pub merge : Bool
  pub adjust_queue : ℕ
  pub adjust_state : NbState
  pub adjust_packet : Bytes
  pub read_state : NbState
  pub read_avail : ℕ
  pub write_state : NbState
  pub write_packet : Bytes
  pub write_bufwrite : ℕ

-- `LIBSSH2_PACKET`: a message with the place of its payload's first unread byte.
pub record Packet : Type 0 where
  pub bytes : Bytes
  pub head : ℕ

-- A channel with the parts of its session that it works on: the packets that have come in for all
-- channels, oldest first, `socket_block_directions == LIBSSH2_SESSION_BLOCK_INBOUND`, and the
-- messages that the transport has taken.
pub record Link : Type 0 where
  pub channel : Channel
  pub packets : List Packet
  pub block_inbound : Bool
  pub sent : List Bytes

-- transport.c. `read_all` is `_libssh2_transport_read`, called until it returns 0 or less; it may
-- change the channel and the packets in any way. `send` is the result of `_libssh2_transport_send`.
pub record Transport : Type 0 where
  pub read_all : Link → Link × Result ℕ
  pub send : Link → Bytes → Result ℕ

-- A message is out when the transport returns 0; after EAGAIN the same call is made again.
abbrev pub sent_after : Link → Bytes → Result ℕ → Link
sent_after l m (done n) = record l { sent = l.sent ++ (m ∷ []) }
sent_after l m would_block = l
sent_after l m (failed e) = l

abbrev pub transport_send : Transport → Link → Bytes → Link × Result ℕ
transport_send tr l m = (sent_after l m (tr.send l m), tr.send l m)

-- After the transport has been read without an error.
abbrev pub NoError : Result ℕ → Type 0
NoError rc = (rc ≡ done 0) ⊎ (rc ≡ would_block)
