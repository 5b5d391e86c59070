-- ===== src/Channel/Tests.antt =====
-- Two sessions with concrete packets, and the theorems on them.
use mshell.Prelude.{◌≡◌, ◌≢◌, refl, inr, false, none, List, [], ◌∷◌, arith, Bytes}
use mshell.Channel.{Channel, Packet, Link, Transport, idle, done, would_block}
use mshell.Channel.Read.{channel_read, widen, deliver, collect, is_for}
use mshell.Channel.Read.Fifo.{stream}
use mshell.Wire.{ntohu32}
use mshell.Channel.Read.Deliver.{IsRead, CanRead, channel_read-IsRead}
use mshell.Channel.Window.{receive_window_adjust, adjust_prepare, adjust_send}
use mshell.Channel.Window.Credit.{
  IsBalanced, IsShort, announcing_in, receive_window_adjust_retry, receive_window_adjust-IsBalanced,
}
use mshell.Channel.Write.{channel_write, write_idle, write_send, write_prepared}
use mshell.Channel.Write.Limits.{CanWrite, IsWrite, channel_write-IsWrite}
use mshell.Channel.Ids.{Numbering, nextid, find_channel, nextid_collides}

abbrev one : Channel
one = record {
  local_id = 1;
  local_window = 4;
  local_packet = 100;
  local_close = false;
  local_eof = false;
  remote_id = 7;
  remote_window = 5000;
  remote_window_initial = 5000;
  remote_close = false;
  remote_eof = false;
  merge = false;
  adjust_queue = 0;
  adjust_state = idle;
  adjust_packet = [];
  read_state = idle;
  read_avail = 5;
  write_state = idle;
  write_packet = [];
  write_bufwrite = 0;
}

-- "abc", then a packet of another channel, then "de".
abbrev waiting_packets : List Packet
waiting_packets =
    record { bytes = 94 ∷ 0 ∷ 0 ∷ 0 ∷ 1 ∷ 0 ∷ 0 ∷ 0 ∷ 3 ∷ b'a' ∷ b'b' ∷ b'c' ∷ []; head = 9 }
    ∷ record { bytes = 94 ∷ 0 ∷ 0 ∷ 0 ∷ 2 ∷ 0 ∷ 0 ∷ 0 ∷ 1 ∷ b'x' ∷ []; head = 9 }
    ∷ record { bytes = 94 ∷ 0 ∷ 0 ∷ 0 ∷ 1 ∷ 0 ∷ 0 ∷ 0 ∷ 2 ∷ b'd' ∷ b'e' ∷ []; head = 9 }
    ∷ []

abbrev session : Link
session = record { channel = one; packets = waiting_packets; block_inbound = false; sent = [] }

-- A transport with nothing to read that takes every message.
abbrev quiet : Transport
quiet = record { read_all = λ l. (l, would_block); send = λ l m. done 0 }

-- One that has no room.
abbrev full : Transport
full = record { read_all = λ l. (l, would_block); send = λ l m. would_block }

abbrev text : Bytes
text = b'h' ∷ b'e' ∷ b'l' ∷ b'l' ∷ b'o' ∷ []

session-CanRead : CanRead 0 session
unfolding stream is_for ntohu32
session-CanRead = record {
  unread = (
    record { inside = omega arith; small = omega arith },
    (
      record { inside = omega arith; small = omega arith },
      (record { inside = omega arith; small = omega arith }, tt),
    ),
  );
  window = omega arith;
  window_word = omega arith;
  avail = omega arith;
  avail_word = omega arith;
}

no_widening : widen quiet session 4 ≡ (session, done 0)
unfolding widen
no_widening = refl

channel_read-IsRead_example :
    let out = channel_read quiet session 0 4 in IsRead 0 4 session would_block (out.0) (out.1)
channel_read-IsRead_example =
    channel_read-IsRead quiet session session session 0 4 would_block no_widening refl (inr refl)
      session-CanRead

reads_across_packets : (channel_read quiet session 0 4).1 ≡ done (b'a' ∷ b'b' ∷ b'c' ∷ b'd' ∷ [])
unfolding channel_read widen deliver collect is_for ntohu32
reads_across_packets = refl

widens_at_once : (receive_window_adjust quiet session 2000 false).1 ≡ done 0
unfolding receive_window_adjust adjust_prepare adjust_send
widens_at_once = refl

receive_window_adjust-IsBalanced_example :
    IsBalanced session 2000 ((receive_window_adjust quiet session 2000 false).0)
receive_window_adjust-IsBalanced_example =
    receive_window_adjust-IsBalanced quiet session 2000 false
      (record { is_idle = refl; fits = omega arith }) widens_at_once

session-CanWrite : CanWrite quiet session session would_block
session-CanWrite = record {
  is_idle = refl;
  is_open = refl;
  no_eof = refl;
  drained = refl;
  no_error = inr refl;
  room = λ e. cc;
  word = omega arith;
}

channel_write-IsWrite_example : IsWrite session 0 text (channel_write quiet session 0 text)
channel_write-IsWrite_example =
    channel_write-IsWrite quiet session session would_block 0 text session-CanWrite

writes_the_window : (channel_write quiet session 0 text).1 ≡ done 4
unfolding channel_write write_idle write_send write_prepared
writes_the_window = refl

-- After the numbers have wrapped.
abbrev wrapped : Numbering
wrapped = record { next_channel = 0; channels = one ∷ []; listeners = [] }

nextid_collides_example : find_channel ((nextid wrapped).1) wrapped.channels ≢ none
nextid_collides_example = nextid_collides wrapped [] [] one refl (omega arith)

-- 100 bytes are queued, and a message for 2100 waits.
abbrev queued_session : Link
queued_session = record session { channel = record one { adjust_queue = 100 } }

first_call_waits :
    receive_window_adjust full queued_session 2000 false
    ≡ (announcing_in queued_session 2000, would_block)
unfolding receive_window_adjust adjust_prepare adjust_send
first_call_waits = refl

receive_window_adjust_retry_example :
    IsShort queued_session 2000
      ((receive_window_adjust quiet (announcing_in queued_session 2000) 2000 false).0)
receive_window_adjust_retry_example =
    receive_window_adjust_retry quiet queued_session 2000 false
      (record { is_idle = refl; fits = omega arith }) refl
