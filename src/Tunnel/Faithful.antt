-- ===== src/Tunnel/Faithful.antt =====
-- What the relay of a tunnel has taken and given.
use mshell.Prelude.{
  zero, suc, ◌≡◌, refl, sym, ap, subst, ◌∙◌, Bool, true, false, List, [], ◌∷◌, ◌++◌, if◌then◌else◌,
  Bytes, take, drop, take-append-drop, append-nil, append_assoc, if-all, if-cases,
}
use mshell.Tunnel.Relay.{
  Write, wrote, write_blocks, write_fails, Read, got, read_blocks, read_fails, Status, accepted,
  write_all, Direction, goes_on, moved, pass, Round, Relay, second_half, first_half, round,
  relay_bidirectional,
}

-- What was given is the beginning of what was taken, and all of it while the loop goes on.
abbrev pub IsFaithful : Direction → Bool → Type 0
IsFaithful d on = (rest : Bytes) × (d.given ++ rest ≡ d.taken) × (on ≡ true → rest ≡ [])

abbrev Splits : Bytes → Bytes × Status → Type 0
Splits data_ (sent, status) =
    (rest : Bytes) × (sent ++ rest ≡ data_) × (goes_on status ≡ true → rest ≡ [])

accepted-Splits : (a b : Bytes) (r : Bytes × Status) → Splits b r → Splits (a ++ b) (accepted a r)
accepted-Splits a b (sent, status) (rest, e, f) =
    (rest, append_assoc a sent rest ∙ ap (λ t. a ++ t) e, f)

write_all-Splits : (os : List Write) (data_ : Bytes) → Splits data_ (write_all os data_)
unfolding write_all
write_all-Splits os [] = ([], refl, λ h. refl)
write_all-Splits [] (b ∷ bs) = (b ∷ bs, refl, λ h. cc)
write_all-Splits (wrote zero ∷ os) (b ∷ bs) = (b ∷ bs, refl, λ h. cc)
write_all-Splits (wrote (suc n) ∷ os) (b ∷ bs) =
    subst (λ t. Splits t (write_all (wrote (suc n) ∷ os) (b ∷ bs)))
      (take-append-drop (suc n) (b ∷ bs))
      (accepted-Splits (take (suc n) (b ∷ bs)) (drop (suc n) (b ∷ bs)) _
        (write_all-Splits os (drop (suc n) (b ∷ bs))))
write_all-Splits (write_blocks ∷ os) (b ∷ bs) = write_all-Splits os (b ∷ bs)
write_all-Splits (write_fails ∷ os) (b ∷ bs) = (b ∷ bs, refl, λ h. cc)

moved-IsFaithful :
    (data_ : Bytes) (r : Bytes × Status) (d : Direction)
    → d.given ≡ d.taken
    → Splits data_ r
    → IsFaithful (moved data_ r d).0 (moved data_ r d).1
moved-IsFaithful data_ (sent, status) d h (rest, e, f) =
    (rest, append_assoc d.given sent rest ∙ ap (λ t. d.given ++ t) e ∙ ap (λ t. t ++ data_) h, f)

same-IsFaithful : (d : Direction) (on : Bool) → d.given ≡ d.taken → IsFaithful d on
same-IsFaithful d on h = ([], append-nil d.given ∙ h, λ _. refl)

pass-IsFaithful :
    (r : Read) (ws : List Write) (d : Direction)
    → d.given ≡ d.taken
    → IsFaithful (pass r ws d).0 (pass r ws d).1
unfolding pass
pass-IsFaithful (got []) ws d h = same-IsFaithful d false h
pass-IsFaithful (got (b ∷ bs)) ws d h =
    moved-IsFaithful (b ∷ bs) (write_all ws (b ∷ bs)) d h (write_all-Splits ws (b ∷ bs))
pass-IsFaithful read_blocks ws d h = same-IsFaithful d true h
pass-IsFaithful read_fails ws d h = same-IsFaithful d false h

-- Both directions of a relay.
abbrev pub IsRelay : Relay → Type 0
IsRelay s = IsFaithful s.to_channel s.running × IsFaithful s.to_stream s.running

IsFaithful-running : (d : Direction) → IsFaithful d true → d.given ≡ d.taken
IsFaithful-running d (rest, e, f) =
    sym (append-nil d.given) ∙ ap (λ t. d.given ++ t) (sym (f refl)) ∙ e

IsFaithful-stopped :
    (d : Direction) (on on' : Bool) → (on' ≡ true → on ≡ true) → IsFaithful d on → IsFaithful d on'
IsFaithful-stopped d on on' less (rest, e, f) = (rest, e, λ h. f (less h))

on_before :
    (on eof : Bool) → (if on then (if eof then false else true) else false) ≡ true → on ≡ true
on_before true eof h = refl
on_before false eof h = cc

second_half-IsRelay :
    (r : Round) (up : Direction) (p : Direction × Bool)
    → up.given ≡ up.taken
    → IsFaithful p.0 p.1
    → IsRelay (second_half r up p)
second_half-IsRelay r up (down, on) h k =
    (same-IsFaithful up _ h, IsFaithful-stopped down on _ (on_before on r.channel_eof) k)

first_half-IsRelay :
    (r : Round) (down : Direction) (p : Direction × Bool)
    → down.given ≡ down.taken
    → IsFaithful p.0 p.1
    → IsRelay (first_half r down p)
first_half-IsRelay r down (up, true) h k =
    second_half-IsRelay r up (pass r.read_channel r.stream_writes down) (IsFaithful-running up k)
      (pass-IsFaithful r.read_channel r.stream_writes down h)
first_half-IsRelay r down (up, false) h k = (k, same-IsFaithful down false h)

round-IsRelay : (r : Round) (s : Relay) → s.running ≡ true → IsRelay s → IsRelay (round r s)
unfolding round
round-IsRelay r s on (up, down) =
    let up_even = IsFaithful-running s.to_channel (subst (IsFaithful s.to_channel) on up) in
    let down_even = IsFaithful-running s.to_stream (subst (IsFaithful s.to_stream) on down) in
    if-all IsRelay r.stop
      (same-IsFaithful s.to_channel false up_even, same-IsFaithful s.to_stream false down_even)
      (first_half-IsRelay r s.to_stream _ down_even
        (pass-IsFaithful r.read_stream r.channel_writes s.to_channel up_even))

-- However the reads and writes of both sides come out, in parts, blocked or failing, what the relay
-- has given to either side is the beginning of what it has taken from the other, byte by byte and in
-- order; and it is all of it at the end of each round after which the loop goes on.
pub relay_bidirectional-IsRelay :
    (rounds : List Round) (s : Relay) → IsRelay s → IsRelay (relay_bidirectional rounds s)
unfolding relay_bidirectional
relay_bidirectional-IsRelay [] s h = h
relay_bidirectional-IsRelay (r ∷ rs) s h =
    if-cases IsRelay s.running
      (λ on. relay_bidirectional-IsRelay rs (round r s) (round-IsRelay r s on h)) λ off. h
