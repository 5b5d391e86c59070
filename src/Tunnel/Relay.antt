-- ===== src/Tunnel/Relay.antt =====
-- `relay_bidirectional`: what the loop moves between the stream and the channel.
--
-- Which reads and writes succeed, and how far, is a list of outcomes; where a list is at its end, the
-- loop is still at work.
use mshell.Prelude.{
  ℕ, zero, suc, Bool, true, false, List, [], ◌∷◌, ◌++◌, if◌then◌else◌, Bytes, take, drop,
}

-- `Ok(n)`, `Err(WouldBlock)`, any other `Err`. (The data has at least `n` bytes.)
pub data Write : Type 0 where
  wrote : ℕ → Write
  write_blocks write_fails : Write

-- `Ok` with the bytes, none at the end of the stream; `Err(WouldBlock)`; any other `Err`.
pub data Read : Type 0 where
  got : Bytes → Read
  read_blocks read_fails : Read

pub data Status : Type 0 where
  finished failed waiting : Status

abbrev pub accepted : Bytes → Bytes × Status → Bytes × Status
accepted data_ (rest, status) = (data_ ++ rest, status)

-- `write_all_stream` and `write_all_channel`: the bytes that were taken.
unfoldable pub write_all : List Write → Bytes → Bytes × Status
write_all os [] = ([], finished)
write_all [] (b ∷ bs) = ([], waiting)
write_all (wrote zero ∷ os) (b ∷ bs) = ([], failed)
write_all (wrote (suc n) ∷ os) (b ∷ bs) =
    accepted (take (suc n) (b ∷ bs)) (write_all os (drop (suc n) (b ∷ bs)))
write_all (write_blocks ∷ os) (b ∷ bs) = write_all os (b ∷ bs)
write_all (write_fails ∷ os) (b ∷ bs) = ([], failed)

-- All that one side was read, and all that the other took.
pub record Direction : Type 0 where
  pub taken : Bytes
  pub given : Bytes

abbrev pub goes_on : Status → Bool
goes_on finished = true
goes_on failed = false
goes_on waiting = false

abbrev pub moved : Bytes → Bytes × Status → Direction → Direction × Bool
moved data_ (sent, status) d =
    (record { taken = d.taken ++ data_; given = d.given ++ sent }, goes_on status)

-- One direction of a round, and whether the loop goes on.
unfoldable pub pass : Read → List Write → Direction → Direction × Bool
unfolding write_all
pass (got []) ws d = (d, false)
pass (got (b ∷ bs)) ws d = moved (b ∷ bs) (write_all ws (b ∷ bs)) d
pass read_blocks ws d = (d, true)
pass read_fails ws d = (d, false)

pub record Round : Type 0 where
  pub stop : Bool
  pub read_stream : Read
  pub channel_writes : List Write
  pub read_channel : Read
  pub stream_writes : List Write
  pub channel_eof : Bool

pub record Relay : Type 0 where
  pub to_channel : Direction
  pub to_stream : Direction
  pub running : Bool

abbrev pub second_half : Round → Direction → Direction × Bool → Relay
second_half r up (down, on) = record {
  to_channel = up;
  to_stream = down;
  running = if on then (if r.channel_eof then false else true) else false;
}

abbrev pub first_half : Round → Direction → Direction × Bool → Relay
first_half r down (up, true) = second_half r up (pass r.read_channel r.stream_writes down)
first_half r down (up, false) = record { to_channel = up; to_stream = down; running = false }

unfoldable pub round : Round → Relay → Relay
unfolding pass
round r s =
    if r.stop
    then record s { running = false }
    else first_half r s.to_stream (pass r.read_stream r.channel_writes s.to_channel)

-- The loop, as far as the rounds go. What it does at its end is to close both sides.
unfoldable pub relay_bidirectional : List Round → Relay → Relay
unfolding round
relay_bidirectional [] s = s
relay_bidirectional (r ∷ rs) s = if s.running then relay_bidirectional rs (round r s) else s
