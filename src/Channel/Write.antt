-- ===== src/Channel/Write.antt =====
-- channel.c, `_libssh2_channel_write`: one chunk of data into the peer's window.
pub mod Limits
use mshell.Prelude.{
  ℕ, ◌+◌, ◌-◌, ◌%◌, ◌^◌, Bool, true, false, List, [], ◌∷◌, ◌++◌, leb, min, ◌==◌, if◌then◌else◌,
  Bytes, length, take,
}
use mshell.Wire.{htonu32}
use mshell.Channel.{
  Channel, Link, Transport, NbState, idle, created, jump1, Result, done, would_block, failed,
  transport_send,
}

-- The most that one call sends.
abbrev pub max_chunk : ℕ
max_chunk = 32700

-- `write_bufwrite`: the chunk, cut to the window and then to the packet size.
abbrev pub chunk : Channel → ℕ → ℕ
chunk c buflen = min (min (min buflen max_chunk) c.local_window) c.local_packet

-- SSH_MSG_CHANNEL_DATA or SSH_MSG_CHANNEL_EXTENDED_DATA, up to the payload.
abbrev pub data_header : Channel → ℕ → ℕ → Bytes
data_header c stream_id n =
    (if stream_id == 0 then 94 else 95) ∷ htonu32 c.remote_id
    ++ (if stream_id == 0 then [] else htonu32 stream_id)
    ++ htonu32 n

abbrev pub with_channel : Link → Channel → Link
with_channel l c = record l { channel = c }

-- The packet is ready to send.
unfoldable pub write_prepared : Channel → ℕ → ℕ → Channel
write_prepared c stream_id buflen = record c {
  write_bufwrite = chunk c buflen;
  write_packet = data_header c stream_id (chunk c buflen);
  write_state = created;
}

abbrev pub write_done : Channel → Channel
write_done c = record c {
  local_window = (c.local_window + 2 ^ 32 - c.write_bufwrite % 2 ^ 32) % 2 ^ 32;
  write_state = idle;
}

abbrev pub write_settle : Link × Result ℕ → Link × Result ℕ
write_settle (l, done n) = (with_channel l (write_done l.channel), done l.channel.write_bufwrite)
write_settle (l, would_block) = (l, would_block)
write_settle (l, failed e) = (with_channel l (record l.channel { write_state = idle }), failed e)

-- The state `created`: the prepared header, and the first `write_bufwrite` bytes at `buf`.
unfoldable pub write_send : Transport → Link → Bytes → Link × Result ℕ
write_send tr l buf =
    write_settle (transport_send tr l (l.channel.write_packet ++ take l.channel.write_bufwrite buf))

-- No room: EAGAIN if the transport said so, 0 otherwise.
abbrev pub no_room : Result ℕ → Result ℕ
no_room would_block = would_block
no_room (done n) = done 0
no_room (failed e) = done 0

abbrev pub write_room : Transport → ℕ → Bytes → Link → Result ℕ → Link × Result ℕ
write_room tr stream_id buf l rc =
    if l.channel.local_window == 0
    then (record l { block_inbound = true }, no_room rc)
    else write_send tr (with_channel l (write_prepared l.channel stream_id (length buf))) buf

abbrev pub write_drained : Transport → ℕ → Bytes → Link × Result ℕ → Link × Result ℕ
write_drained tr stream_id buf (l, failed e) = (l, failed e)
write_drained tr stream_id buf (l, done n) = write_room tr stream_id buf l (done n)
write_drained tr stream_id buf (l, would_block) = write_room tr stream_id buf l would_block

-- LIBSSH2_ERROR_CHANNEL_CLOSED, LIBSSH2_ERROR_CHANNEL_EOF_SENT
unfoldable pub write_idle : Transport → Link → ℕ → Bytes → Link × Result ℕ
write_idle tr l stream_id buf =
    if l.channel.local_close
    then (l, failed 26)
    else if l.channel.local_eof
    then (l, failed 27)
    else write_drained tr stream_id buf (tr.read_all l)

-- `buflen` is the length of `buf`. LIBSSH2_ERROR_INVAL in a state that is neither of the two.
abbrev pub write_in : NbState → Transport → Link → ℕ → Bytes → Link × Result ℕ
write_in idle tr l stream_id buf = write_idle tr l stream_id buf
write_in created tr l stream_id buf = write_send tr l buf
write_in _ tr l stream_id buf = (l, failed 34)

unfoldable pub channel_write : Transport → Link → ℕ → Bytes → Link × Result ℕ
channel_write tr l stream_id buf = write_in l.channel.write_state tr l stream_id buf
