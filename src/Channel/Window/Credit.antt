-- ===== src/Channel/Window/Credit.antt =====
-- The window is a balance: what the peer is told it may send is what the channel counts.
use mshell.Prelude.{
  ℕ, zero, suc, ◌+◌, ◌%◌, ◌^◌, ◌<◌, ◌≡◌, refl, ap, Bool, not, ◌&&◌, [], ◌∷◌, ◌++◌, inl, inr, ltb,
  ◌==◌, arith, Bool-cases,
}
use mshell.Channel.{Channel, Link, Transport, idle, Result, done, would_block, failed, sent_after}
use mshell.Channel.Window.{
  min_adjust, adjust_message, announcing, adjust_prepare, adjust_send, adjust_from, adjust_settle,
  receive_window_adjust,
}

-- What the channel has promised or will promise to the peer, before and after a call.
abbrev pub balance : Channel → ℕ
balance c = c.remote_window + c.adjust_queue

-- A call that returns 0, for an amount of the caller: either nothing is sent and the amount is
-- queued below the minimum, or one message announces the amount and the queue together.
pub data IsGranted (l : Link) (adjustment : ℕ) : Link → Type 0 where
  queued :
      (l' : Link)
      → l'.sent ≡ l.sent
      → l'.channel.remote_window ≡ l.channel.remote_window
      → IsGranted l adjustment l'
  announced :
      (l' : Link)
      → l'.sent ≡ l.sent ++ (adjust_message l.channel (adjustment + l.channel.adjust_queue) ∷ [])
      → l'.channel.remote_window ≡ l.channel.remote_window + (adjustment + l.channel.adjust_queue)
      → l'.channel.adjust_queue ≡ 0
      → IsGranted l adjustment l'

-- No word overflows.
pub record CanGrant (c : Channel) (adjustment : ℕ) : Type 0 where
  pub is_idle : c.adjust_state ≡ idle
  pub fits : c.remote_window + adjustment + c.adjust_queue < 2 ^ 32

-- What a call leaves.
pub record IsBalanced (l : Link) (adjustment : ℕ) (l' : Link) : Type 0 where
  pub granted : IsGranted l adjustment l'
  pub balanced : balance l'.channel ≡ balance l.channel + adjustment
  pub still_idle : l'.channel.adjust_state ≡ idle

abbrev pub total : Channel → ℕ → ℕ
total c adjustment = (adjustment + c.adjust_queue) % 2 ^ 32

total-fits :
    (c : Channel) (adjustment : ℕ)
    → CanGrant c adjustment
    → total c adjustment ≡ adjustment + c.adjust_queue
total-fits c adjustment h = ground arith

module _ (tr : Transport) (l : Link) (adjustment : ℕ) (h : CanGrant l.channel adjustment) where
  announced-IsBalanced :
      (r : Result ℕ)
      → let c = announcing l.channel (total l.channel adjustment) in
        let l1 = record l { channel = c } in
        let out = adjust_settle (total l.channel adjustment) (sent_after l1 c.adjust_packet r, r) in
        out.1 ≡ done 0 → IsBalanced l adjustment (out.0)
  announced-IsBalanced (done (suc n)) e = cc
  announced-IsBalanced (done zero) e =
      let fits = total-fits l.channel adjustment h in
      record {
        granted =
            announced _ (ap (λ k. l.sent ++ (adjust_message l.channel k ∷ [])) fits)
              (ground (arith, h.fits)) refl;
        balanced = ground (arith, h.fits);
        still_idle = refl;
      }
  announced-IsBalanced would_block e = cc
  announced-IsBalanced (failed n) e = cc

  prepared-IsBalanced :
      (force : Bool)
      → let out = adjust_from tr l (adjust_prepare l.channel adjustment force) in
        out.1 ≡ done 0 → IsBalanced l adjustment (out.0)
  unfolding adjust_prepare adjust_send
  prepared-IsBalanced force =
      elim (Bool-cases (not force && ltb (total l.channel adjustment) min_adjust)) [
        | inl e ↦ rw e (λ _. record {
          granted = queued _ refl refl;
          balanced = ground (arith, h.fits);
          still_idle = h.is_idle;
        })
        | inr e ↦ rw e (elim (Bool-cases (adjustment == 0 && l.channel.adjust_queue == 0)) [
          | inl f ↦ rw f (λ _. record {
            granted = queued _ refl refl;
            balanced = ground arith;
            still_idle = h.is_idle;
          })
          | inr f ↦ rw f (
              announced-IsBalanced (
                tr.send (record l { channel = announcing l.channel (total l.channel adjustment) })
                  (adjust_message l.channel (total l.channel adjustment))))
        ])
      ]

-- A call on an idle channel that returns 0, where window, amount and queue add up to less than 2 ^ 32,
-- promises the peer exactly the
-- caller's amount more: queued, or announced with the queue in one message and counted as announced.
pub receive_window_adjust-IsBalanced :
    (tr : Transport) (l : Link) (adjustment : ℕ) (force : Bool)
    → CanGrant l.channel adjustment
    → let out = receive_window_adjust tr l adjustment force in
      out.1 ≡ done 0 → IsBalanced l adjustment (out.0)
unfolding receive_window_adjust
receive_window_adjust-IsBalanced tr l adjustment force h =
    simp (h.is_idle) (prepared-IsBalanced tr l adjustment h force)

-- A retry that goes out: the message announces the queue too, the channel counts only the amount
-- that the caller gives again.
pub record IsShort (l : Link) (adjustment : ℕ) (l' : Link) : Type 0 where
  pub promised :
      l'.sent ≡ l.sent ++ (adjust_message l.channel (adjustment + l.channel.adjust_queue) ∷ [])
  pub short : balance l'.channel + l.channel.adjust_queue ≡ balance l.channel + adjustment

-- The session after a first call that did not get its message out.
abbrev pub announcing_in : Link → ℕ → Link
announcing_in l adjustment = record l {
  channel = announcing l.channel (adjustment + l.channel.adjust_queue);
}

retried-IsShort :
    (l : Link) (adjustment : ℕ)
    → CanGrant l.channel adjustment
    → (r : Result ℕ) → r ≡ done 0
    → let l1 = announcing_in l adjustment in
      IsShort l adjustment
        ((adjust_settle adjustment (sent_after l1 l1.channel.adjust_packet r, r)).0)
retried-IsShort l adjustment h (done (suc n)) e = cc
retried-IsShort l adjustment h (done zero) e = record {
  promised = refl;
  short = ground (arith, h.fits);
}
retried-IsShort l adjustment h would_block e = cc
retried-IsShort l adjustment h (failed n) e = cc

-- When window, amount and queue add up to less than 2 ^ 32, and a call that began on an idle channel
-- is made again after EAGAIN and its message goes out, the window is counted short of what the message
-- announces by what had been queued.
pub receive_window_adjust_retry :
    (tr : Transport) (l : Link) (adjustment : ℕ) (force : Bool)
    → CanGrant l.channel adjustment
    → let l1 = announcing_in l adjustment in
      tr.send l1 l1.channel.adjust_packet ≡ done 0
      → IsShort l adjustment ((receive_window_adjust tr l1 adjustment force).0)
unfolding receive_window_adjust adjust_send
receive_window_adjust_retry tr l adjustment force h e =
    let l1 = announcing_in l adjustment in
    retried-IsShort l adjustment h (tr.send l1 l1.channel.adjust_packet) e
