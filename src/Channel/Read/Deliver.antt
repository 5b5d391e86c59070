-- ===== src/Channel/Read/Deliver.antt =====
-- What a read hands to its caller, and what it leaves in the session.
use mshell.Prelude.{
  ℕ, ◌+◌, ◌^◌, ◌≤◌, ◌<◌, ◌≡◌, refl, List, [], ◌∷◌, ◌++◌, inl, inr, min, arith, Bytes, length, All,
}
use mshell.Channel.{
  Channel, Packet, Link, Transport, NoError, idle, Result, done, would_block, failed,
}
use mshell.Channel.Read.{
  collect, deliver, delivered, nothing_read, channel_read, widen, with_read_state,
}
use mshell.Channel.Read.Fifo.{IsUnread, stream, others, IsFifo, collect-IsFifo}

-- The answer to a read that finds `got`, the transport having ended with `rc`.
abbrev pub answer : Channel → Result ℕ → Bytes → Result Bytes
answer c rc [] = nothing_read c rc
answer c rc (b ∷ bs) = done (b ∷ bs)

-- The two counts of the channel go down by what was read.
abbrev pub Counted : Channel → ℕ → Channel → Type 0
Counted before n after =
    (after.remote_window + n ≡ before.remote_window) × (after.read_avail + n ≡ before.read_avail)

-- What is in the session before the copy.
pub record CanRead (sid : ℕ) (l : Link) : Type 0 where
  pub unread : All IsUnread l.packets
  pub window : length (stream l.channel sid l.packets) ≤ l.channel.remote_window
  pub window_word : l.channel.remote_window < 2 ^ 32
  pub avail : length (stream l.channel sid l.packets) ≤ l.channel.read_avail
  pub avail_word : l.channel.read_avail < 2 ^ 64

pub record IsRead (sid buflen : ℕ) (l : Link) (rc : Result ℕ) (l' : Link) (r : Result Bytes)
    : Type 0 where
  pub got : Bytes
  pub in_order : stream l.channel sid l.packets ≡ got ++ stream l.channel sid l'.packets
  pub as_much : length got ≡ min buflen (length (stream l.channel sid l.packets))
  pub no_other : others l.channel sid l'.packets ≡ others l.channel sid l.packets
  pub returned : r ≡ answer l.channel rc got
  pub accounted : Counted l.channel (length got) l'.channel

delivered-IsRead :
    (sid buflen : ℕ) (l : Link) (rc : Result ℕ) (r : Bytes × List Packet)
    → CanRead sid l
    → IsFifo l.channel sid buflen l.packets r
    → IsRead sid buflen l rc ((delivered l rc r).0) ((delivered l rc r).1)
delivered-IsRead sid buflen l rc ([], ps) h f = record {
  got = [];
  in_order = f.0;
  as_much = f.1;
  no_other = f.2;
  returned = refl;
  accounted = (omega arith, omega arith);
}
delivered-IsRead sid buflen l rc (b ∷ bs, ps) h f = record {
  got = b ∷ bs;
  in_order = f.0;
  as_much = f.1;
  no_other = f.2;
  returned = refl;
  accounted =
      (ground (arith, h.window, h.window_word, f.1), ground (arith, h.avail, h.avail_word, f.1));
}

deliver-IsRead :
    (sid buflen : ℕ) (l : Link) (rc : Result ℕ)
    → NoError rc
    → CanRead sid l
    → let out = deliver sid buflen (l, rc) in IsRead sid buflen l rc (out.0) (out.1)
unfolding deliver
deliver-IsRead sid buflen l (done n) e h =
    delivered-IsRead sid buflen l (done n) (collect l.channel sid buflen l.packets) h
      (collect-IsFifo l.channel sid buflen l.packets h.unread)
deliver-IsRead sid buflen l would_block e h =
    delivered-IsRead sid buflen l would_block (collect l.channel sid buflen l.packets) h
      (collect-IsFifo l.channel sid buflen l.packets h.unread)
deliver-IsRead sid buflen l (failed n) e h = elim e [ inl p ↦ cc | inr p ↦ cc ]

-- A read whose widening is done and whose transport ends without an error, on packets with their
-- payload inside and counts that cover the stream, returns the oldest unread bytes of the stream,
-- as many as fit; the rest and the other packets stay, and both counts go down by what was read.
pub channel_read-IsRead :
    (tr : Transport) (l l1 l2 : Link) (sid buflen : ℕ) (rc : Result ℕ)
    → widen tr l buflen ≡ (l1, done 0)
    → tr.read_all (with_read_state l1 idle) ≡ (l2, rc)
    → NoError rc
    → CanRead sid l2
    → let out = channel_read tr l sid buflen in IsRead sid buflen l2 rc (out.0) (out.1)
unfolding channel_read
channel_read-IsRead tr l l1 l2 sid buflen rc w d e h =
    rw w (rw d (deliver-IsRead sid buflen l2 rc e h))
