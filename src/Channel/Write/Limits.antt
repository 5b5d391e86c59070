-- ===== src/Channel/Write/Limits.antt =====
-- What a write sends, and how it stays within the limits that the peer has set.
use mshell.Prelude.{
  min, ℕ, ◌+◌, ◌^◌, ◌≤◌, ◌<◌, ◌≡◌, ◌≢◌, refl, false, [], ◌∷◌, ◌++◌, inl, inr, arith, Bytes, length,
  take, ne→==,
}
use mshell.Channel.{
  Channel, Link, Transport, idle, NoError, Result, done, would_block, failed, sent_after,
}
use mshell.Channel.Write.{
  chunk, data_header, with_channel, write_prepared, write_settle, write_send, write_room,
  write_drained, write_idle, channel_write,
}

-- A write that returns `n` and has not stopped for want of room: one message, `n` bytes of the
-- buffer, and a window that is smaller by `n`.
pub record IsChunk (l : Link) (sid : ℕ) (buf : Bytes) (n : ℕ) (l' : Link) : Type 0 where
  pub count : n ≡ min (min (min (length buf) 32700) l.channel.local_window) l.channel.local_packet
  pub message : l'.sent ≡ l.sent ++ ((data_header l.channel sid n ++ take n buf) ∷ [])
  pub window : l'.channel.local_window + n ≡ l.channel.local_window
  pub again : l'.channel.write_state ≡ idle

-- What a write with room leaves: a chunk that is out, a chunk that is prepared and waits, or an
-- error with a channel that is idle again.
pub data IsWrite (l : Link) (sid : ℕ) (buf : Bytes) : Link × Result ℕ → Type 0 where
  chunk_out : (l' : Link) (n : ℕ) → IsChunk l sid buf n l' → IsWrite l sid buf (l', done n)
  chunk_waits :
      (l' : Link)
      → l'.sent ≡ l.sent
      → l'.channel ≡ write_prepared l.channel sid (length buf)
      → IsWrite l sid buf (l', would_block)
  gives_up :
      (l' : Link) (e : ℕ)
      → l'.sent ≡ l.sent
      → l'.channel.local_window ≡ l.channel.local_window
      → l'.channel.write_state ≡ idle
      → IsWrite l sid buf (l', failed e)

chunk-le-window : (c : Channel) (n : ℕ) → chunk c n ≤ c.local_window
chunk-le-window c n = omega arith

settled-IsWrite :
    (l : Link) (sid : ℕ) (buf : Bytes) (r : Result ℕ)
    → l.channel.local_window < 2 ^ 32
    → let c = write_prepared l.channel sid (length buf) in
      IsWrite l sid buf (
        write_settle
          (sent_after (with_channel l c) (c.write_packet ++ take c.write_bufwrite buf) r, r))
unfolding write_prepared
settled-IsWrite l sid buf (done n) h = chunk_out _ _ (record {
  count = refl;
  message = refl;
  window = ground (arith, chunk-le-window l.channel (length buf));
  again = refl;
})
settled-IsWrite l sid buf would_block h = chunk_waits _ refl refl
settled-IsWrite l sid buf (failed e) h = gives_up _ e refl refl refl

room-IsWrite :
    (tr : Transport) (l : Link) (sid : ℕ) (buf : Bytes) (rc : Result ℕ)
    → l.channel.local_window ≢ 0
    → l.channel.local_window < 2 ^ 32
    → IsWrite l sid buf (write_room tr sid buf l rc)
unfolding write_send
room-IsWrite tr l sid buf rc z h = rw (ne→== (l.channel.local_window) 0 z) (
    let c = write_prepared l.channel sid (length buf) in
    settled-IsWrite l sid buf
      (tr.send (with_channel l c) (c.write_packet ++ take c.write_bufwrite buf)) h)

-- A write on an open channel, after the transport has been read without an error and there is room.
pub record CanWrite (tr : Transport) (l l1 : Link) (rc : Result ℕ) : Type 0 where
  pub is_idle : l.channel.write_state ≡ idle
  pub is_open : l.channel.local_close ≡ false
  pub no_eof : l.channel.local_eof ≡ false
  pub drained : tr.read_all l ≡ (l1, rc)
  pub no_error : NoError rc
  pub room : l1.channel.local_window ≢ 0
  pub word : l1.channel.local_window < 2 ^ 32

drained-IsWrite :
    (tr : Transport) (l : Link) (sid : ℕ) (buf : Bytes) (rc : Result ℕ)
    → NoError rc
    → l.channel.local_window ≢ 0
    → l.channel.local_window < 2 ^ 32
    → IsWrite l sid buf (write_drained tr sid buf (l, rc))
drained-IsWrite tr l sid buf (done n) e z h = room-IsWrite tr l sid buf (done n) z h
drained-IsWrite tr l sid buf would_block e z h = room-IsWrite tr l sid buf would_block z h
drained-IsWrite tr l sid buf (failed n) e z h = elim e [ inl p ↦ cc | inr p ↦ cc ]

-- A write on an idle, open channel with room, the transport having been read without an error,
-- sends one chunk and counts it, or leaves it prepared on EAGAIN, or gives up with the window as it
-- was and the channel idle.
pub channel_write-IsWrite :
    (tr : Transport) (l l1 : Link) (rc : Result ℕ) (sid : ℕ) (buf : Bytes)
    → CanWrite tr l l1 rc
    → IsWrite l1 sid buf (channel_write tr l sid buf)
unfolding channel_write write_idle
channel_write-IsWrite tr l l1 rc sid buf h =
    simp (h.is_idle, h.is_open, h.no_eof, h.drained)
      (drained-IsWrite tr l1 sid buf rc h.no_error h.room h.word)

-- A session whose channel waits with the chunk of a write at `l`; the packets may have changed.
abbrev pub waiting : Link → ℕ → Bytes → Link → Link
waiting l sid buf l0 = record l0 {
  channel = write_prepared l.channel sid (length buf);
  sent = l.sent;
}

settled-retry :
    (l l0 : Link) (sid : ℕ) (buf : Bytes) (m : ℕ) (r : Result ℕ)
    → l.channel.local_window < 2 ^ 32
    → r ≡ done m
    → let n = chunk l.channel (length buf) in
      let l1 = waiting l sid buf l0 in
      let out = write_settle (sent_after l1 (data_header l.channel sid n ++ take n buf) r, r) in
      IsChunk l sid buf n (out.0) × (out.1 ≡ done n)
unfolding write_prepared
settled-retry l l0 sid buf m (done k) h s = (
  record {
    count = refl;
    message = refl;
    window = ground (arith, chunk-le-window l.channel (length buf));
    again = refl;
  },
  refl,
)
settled-retry l l0 sid buf m would_block h s = cc
settled-retry l l0 sid buf m (failed e) h s = cc

-- A write of the same buffer on a channel that waits, whose message the transport now takes, sends
-- the chunk that the first write has prepared, counts it once and returns its size.
channel_write-retry :
    (tr : Transport) (l l0 : Link) (sid : ℕ) (buf : Bytes) (m : ℕ)
    → l.channel.local_window < 2 ^ 32
    → let n = chunk l.channel (length buf) in
      let l1 = waiting l sid buf l0 in
      tr.send l1 (data_header l.channel sid n ++ take n buf) ≡ done m
      → let out = channel_write tr l1 sid buf in IsChunk l sid buf n (out.0) × (out.1 ≡ done n)
unfolding channel_write write_send write_prepared
channel_write-retry tr l l0 sid buf m h s =
    let n = chunk l.channel (length buf) in
    let message = data_header l.channel sid n ++ take n buf in
    settled-retry l l0 sid buf m (tr.send (waiting l sid buf l0) message) h s
