-- ===== src/Channel/Read.antt =====
-- channel.c, `_libssh2_channel_read` and `_libssh2_channel_packet_data_len`: the payload of the
-- packets that have come in for one stream of a channel.
pub mod Fifo
pub mod Deliver
use mshell.Prelude.{
  ℕ, ◌+◌, ◌-◌, ◌*◌, ◌/◌, ◌%◌, ◌^◌, Bool, true, false, not, ◌&&◌, ◌||◌, List, [], ◌∷◌, ◌++◌, ltb,
  leb, ◌==◌, if◌then◌else◌, Bytes, length, get_or, take, drop,
}
use mshell.Wire.{ntohu32}
use mshell.Channel.{
  Channel, Packet, Link, Transport, NbState, idle, created, jump1, Result, done, would_block,
  failed,
}
use mshell.Channel.Window.{min_adjust, receive_window_adjust}

-- The test of the two loops, a packet of less than five bytes being skipped. The stream 0 is the
-- standard one; the others come as extended data, which `merge` puts into the standard one.
unfoldable pub is_for : Channel → ℕ → Packet → Bool
is_for c stream_id p =
    let kind = get_or p.bytes 0 0 in
    let ours = c.local_id == ntohu32 p.bytes 1 in
    let standard = stream_id == 0 in
    leb 5 (length p.bytes)
    && ((not standard
          && kind == 95
          && ours
          && leb 9 (length p.bytes)
          && stream_id == ntohu32 p.bytes 5)
        || (standard && kind == 94 && ours)
        || (standard && kind == 95 && ours && c.merge))

-- `data_len - data_head`, of type `size_t`.
abbrev pub remaining : Packet → ℕ
remaining p = (length p.bytes + 2 ^ 64 - p.head) % 2 ^ 64

abbrev pub advanced : Packet → ℕ → Packet
advanced p n = record p { head = p.head + n }

-- `bytes_want` for the next packet, `left` being `buflen - bytes_read`.
abbrev pub bytes_want : Channel → ℕ → ℕ → Packet → ℕ
bytes_want c stream_id left p =
    if is_for c stream_id p then (if leb (remaining p) left then remaining p else left) else 0

-- The copy from one packet, before the rest of the list.
abbrev pub collect_step : Channel → ℕ → ℕ → Packet → Bytes × List Packet → Bytes × List Packet
collect_step c stream_id left p (got, rest) =
    if is_for c stream_id p
    then (
      take (bytes_want c stream_id left p) (drop p.head p.bytes) ++ got,
      if leb (remaining p) left then rest else advanced p (bytes_want c stream_id left p) ∷ rest,
    )
    else (got, p ∷ rest)

-- The loop over `session->packets`: the bytes that are copied and the packets that stay.
unfoldable pub collect : Channel → ℕ → ℕ → List Packet → Bytes × List Packet
collect c stream_id left [] = ([], [])
collect c stream_id left (p ∷ ps) =
    let rest = collect c stream_id (left - bytes_want c stream_id left p) ps in
    if left == 0 then ([], p ∷ ps) else collect_step c stream_id left p rest

-- The window has become too narrow for the read, or an earlier widening is not done.
abbrev pub widens : Channel → ℕ → Bool
widens c buflen = elim c.read_state [
  | jump1 ↦ true
  | _ ↦ ltb c.remote_window ((c.remote_window_initial / 4 * 3 + buflen) % 2 ^ 64)
]

-- The amount of the widening.
abbrev pub widening : Channel → ℕ → ℕ
widening c buflen =
    let adjustment = (c.remote_window_initial + buflen + 2 ^ 64 - c.remote_window) % 2 ^ 32 in
    if ltb adjustment min_adjust then min_adjust else adjustment

abbrev pub with_read_state : Link → NbState → Link
with_read_state l s = record l { channel = record l.channel { read_state = s } }

unfoldable pub widen : Transport → Link → ℕ → Link × Result ℕ
widen tr l buflen =
    if widens l.channel buflen
    then receive_window_adjust tr (with_read_state l jump1) (widening l.channel buflen) false
    else (l, done 0)

-- `read_avail` and the window are counted down by what was read.
abbrev pub consumed : Channel → ℕ → Channel
consumed c n = record c {
  read_avail = (c.read_avail + 2 ^ 64 - n) % 2 ^ 64;
  remote_window = (c.remote_window + 2 ^ 32 - n % 2 ^ 32) % 2 ^ 32;
}

-- With nothing read: 0 at the end of the stream or where the transport did not block.
abbrev pub nothing_read : Channel → Result ℕ → Result Bytes
nothing_read c would_block = if c.remote_eof || c.remote_close then done [] else would_block
nothing_read c (done n) = done []
nothing_read c (failed e) = done []

abbrev pub delivered : Link → Result ℕ → Bytes × List Packet → Link × Result Bytes
delivered l rc ([], ps) = (record l { packets = ps }, nothing_read l.channel rc)
delivered l rc (b ∷ bs, ps) =
    (record l { packets = ps; channel = consumed l.channel (length (b ∷ bs)) }, done (b ∷ bs))

unfoldable pub deliver : ℕ → ℕ → Link × Result ℕ → Link × Result Bytes
deliver stream_id buflen (l, failed e) = (l, failed e)
deliver stream_id buflen (l, done n) =
    delivered l (done n) (collect l.channel stream_id buflen l.packets)
deliver stream_id buflen (l, would_block) =
    delivered l would_block (collect l.channel stream_id buflen l.packets)

abbrev pub after_widen : Transport → ℕ → ℕ → Link × Result ℕ → Link × Result Bytes
after_widen tr stream_id buflen (l, done n) =
    deliver stream_id buflen (tr.read_all (with_read_state l idle))
after_widen tr stream_id buflen (l, would_block) = (l, would_block)
after_widen tr stream_id buflen (l, failed e) = (l, failed e)

unfoldable pub channel_read : Transport → Link → ℕ → ℕ → Link × Result Bytes
channel_read tr l stream_id buflen = after_widen tr stream_id buflen (widen tr l buflen)

-- What the first packet of the stream still holds, or 0.
unfoldable pub packet_data_len : Channel → ℕ → List Packet → ℕ
packet_data_len c stream_id [] = 0
packet_data_len c stream_id (p ∷ ps) =
    let rest = packet_data_len c stream_id ps in if is_for c stream_id p then remaining p else rest
