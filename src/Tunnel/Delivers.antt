-- ===== src/Tunnel/Delivers.antt =====
-- A relay whose sides stay open and whose writes come through.
use mshell.Prelude.{
  ℕ, zero, suc, ◌≤◌, ◌≡◌, refl, sym, ap, ◌∙◌, true, false, List, [], ◌∷◌, ◌++◌, Bytes, length,
  length-drop, take, drop, take-append-drop, append-nil, append_assoc, All, arith,
}
use mshell.Tunnel.Relay.{
  Write, wrote, write_blocks, write_fails, Read, got, read_blocks, read_fails, finished, accepted,
  write_all, Direction, moved, pass, Round, Relay, second_half, first_half, round,
  relay_bidirectional,
}

-- A write that blocks or takes a byte at least.
abbrev IsMove : Write → Type 0
IsMove (wrote zero) = ⊥
IsMove (wrote (suc n)) = Unit
IsMove write_blocks = Unit
IsMove write_fails = ⊥

-- The writes that do not block.
unfoldable pub takes : List Write → ℕ
takes [] = 0
takes (write_blocks ∷ os) = takes os
takes (_ ∷ os) = suc (takes os)

-- Enough writes for any data of a length, if each takes one byte only.
abbrev pub Suffices : List Write → ℕ → Type 0
Suffices os n = All IsMove os × (n ≤ takes os)

-- What a side gives is more data, which the writes suffice for, or nothing yet.
abbrev pub Flows : Read → List Write → Type 0
Flows (got []) os = ⊥
Flows (got (b ∷ bs)) os = Suffices os (length (b ∷ bs))
Flows read_blocks os = Unit
Flows read_fails os = ⊥

pub record IsOpen (r : Round) : Type 0 where
  pub no_stop : r.stop ≡ false
  pub up : Flows r.read_stream r.channel_writes
  pub down : Flows r.read_channel r.stream_writes
  pub no_eof : r.channel_eof ≡ false

write_all-finished :
    (os : List Write) (data_ : Bytes)
    → All IsMove os
    → length data_ ≤ takes os
    → write_all os data_ ≡ (data_, finished)
unfolding write_all takes
write_all-finished os [] h k = refl
write_all-finished [] (b ∷ bs) h k = absurd (omega arith)
write_all-finished (wrote zero ∷ os) (b ∷ bs) h k = elim h.0 [ ]
write_all-finished (wrote (suc n) ∷ os) (b ∷ bs) h k =
    ap (accepted (take (suc n) (b ∷ bs)))
      (write_all-finished os (drop n bs) (h.1) (omega (arith, length-drop n bs)))
    ∙ ap (λ t. (t, finished)) (take-append-drop (suc n) (b ∷ bs))
write_all-finished (write_blocks ∷ os) (b ∷ bs) h k = write_all-finished os (b ∷ bs) (h.1) k
write_all-finished (write_fails ∷ os) (b ∷ bs) h k = elim h.0 [ ]

abbrev pub data_of : Read → Bytes
data_of (got bs) = bs
data_of read_blocks = []
data_of read_fails = []

-- All that the reads gave.
unfoldable pub stream_data : List Round → Bytes
stream_data [] = []
stream_data (r ∷ rs) = data_of r.read_stream ++ stream_data rs

unfoldable pub channel_data : List Round → Bytes
channel_data [] = []
channel_data (r ∷ rs) = data_of r.read_channel ++ channel_data rs

abbrev pub passed : Direction → Bytes → Direction
passed d bs = record { taken = d.taken ++ bs; given = d.given ++ bs }

passed-nil : (d : Direction) → d ≡ passed d []
passed-nil d =
    ap (λ t. record d { taken = t }) (sym (append-nil d.taken))
    ∙ ap (λ t. record { taken = d.taken ++ []; given = t }) (sym (append-nil d.given))

passed-passed : (d : Direction) (a b : Bytes) → passed (passed d a) b ≡ passed d (a ++ b)
passed-passed d a b =
    ap (λ t. record { taken = t; given = (d.given ++ a) ++ b }) (append_assoc d.taken a b)
    ∙ ap (λ t. record { taken = d.taken ++ (a ++ b); given = t }) (append_assoc d.given a b)

pass-passed :
    (r : Read) (os : List Write) (d : Direction)
    → Flows r os
    → pass r os d ≡ (passed d (data_of r), true)
unfolding pass
pass-passed (got []) os d h = elim h [ ]
pass-passed (got (b ∷ bs)) os d h =
    ap (λ w. moved (b ∷ bs) w d) (write_all-finished os (b ∷ bs) (h.0) (h.1))
pass-passed read_blocks os d h = ap (λ t. (t, true)) (passed-nil d)
pass-passed read_fails os d h = elim h [ ]

abbrev pub relayed : Direction → Bytes → Direction → Bytes → Relay
relayed up a down b = record { to_channel = passed up a; to_stream = passed down b; running = true }

round-relayed :
    (r : Round) (s : Relay)
    → IsOpen r
    → round r s ≡ relayed s.to_channel (data_of r.read_stream) s.to_stream (data_of r.read_channel)
unfolding round
round-relayed r s h = rw h.no_stop (
    ap (first_half r s.to_stream) (pass-passed r.read_stream r.channel_writes s.to_channel h.up)
    ∙ ap (second_half r (passed s.to_channel (data_of r.read_stream)))
        (pass-passed r.read_channel r.stream_writes s.to_stream h.down)
    ∙ rw h.no_eof refl)

-- As long as nobody stops the relay, both sides give data or block, the channel is not at its end
-- and each round's writes, some of them blocked, take as many times a byte or more as there are
-- bytes to write, the relay goes on, and every byte that was read from one side has been given to
-- the other, in order.
pub relay_bidirectional-delivers :
    (rs : List Round) (s : Relay)
    → s.running ≡ true
    → All IsOpen rs
    → relay_bidirectional rs s ≡ relayed s.to_channel (stream_data rs) s.to_stream (channel_data rs)
unfolding relay_bidirectional stream_data channel_data
relay_bidirectional-delivers [] s on h =
    ap (λ t. record s { running = t }) on
    ∙ ap (λ d. record { to_channel = d; to_stream = s.to_stream; running = true })
        (passed-nil s.to_channel)
    ∙ ap (λ d. record { to_channel = passed s.to_channel []; to_stream = d; running = true })
        (passed-nil s.to_stream)
relay_bidirectional-delivers (r ∷ rs) s on h =
    let a = data_of r.read_stream in
    let b = data_of r.read_channel in
    rw on (
      ap (relay_bidirectional rs) (round-relayed r s (h.0))
      ∙ relay_bidirectional-delivers rs (relayed s.to_channel a s.to_stream b) refl (h.1)
      ∙ ap
          (λ d. record {
            to_channel = d;
            to_stream = passed (passed s.to_stream b) (channel_data rs);
            running = true;
          })
          (passed-passed s.to_channel a (stream_data rs))
      ∙ ap
          (λ d. record {
            to_channel = passed s.to_channel (a ++ stream_data rs);
            to_stream = d;
            running = true;
          })
          (passed-passed s.to_stream b (channel_data rs)))
