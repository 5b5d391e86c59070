-- ===== src/Userauth/Steps.antt =====
-- How a property goes through the turns of the conversation.
use mshell.Prelude.{◌≡◌, refl, if-all}
use mshell.Userauth.{Nb, idle, created, sent, sent1, Kbd, Heap}
use mshell.Userauth.Interactive.{
  Send, send_done, send_blocks, send_fails, Turn, gave_up, Callback, Step, returns, to_send,
  to_cleanup, cleaned, wait_step, send_step, Out, after_cleanup, finish_send, finish_wait, turn,
}

module _ (heap : Heap) (callback : Callback) (I J : Kbd → Type 0)
    (Q : Out heap callback → Type 0) where
  -- What a step leads to: a result, or a session to go on with.
  abbrev pub Good : Step → Type 0
  Good (returns r k) = Q (r, k)
  Good (to_send k) = I k
  Good (to_cleanup k) = J k

  -- What the code behind `cleanup` makes of a session.
  abbrev pub Cleans : Type 0
  Cleans =
      (k : Kbd)
      → J k
      → I (record (cleaned k) { state = sent }) × Q (gave_up, record (cleaned k) { state = idle })

  module _ (next : Kbd → Out heap callback) (hn : (k : Kbd) → I k → Q (next k)) (hc : Cleans) where
    after_cleanup-Q : (k : Kbd) → J k → Q (after_cleanup heap callback next k)
    after_cleanup-Q k j = if-all Q k.auth_failure ((hc k j).1) (hn _ ((hc k j).0))

    module _ (send : Send) (hs : (k : Kbd) → I k → Good (send_step heap callback send k)) where
      finish_send-Q :
          (s : Step)
          → ((k : Kbd) → s ≡ to_send k → ⊥)
          → Good s
          → Q (finish_send heap callback next s)
      finish_send-Q (returns r k) n g = g
      finish_send-Q (to_send k) n g = absurd (n k refl)
      finish_send-Q (to_cleanup k) n g = after_cleanup-Q k g

      no_second_send : (s : Send) (k k' : Kbd) → send_step heap callback s k ≡ to_send k' → ⊥
      no_second_send send_done k k' e = cc
      no_second_send send_blocks k k' e = cc
      no_second_send send_fails k k' e = cc

      sending-Q :
          (k : Kbd) → I k → Q (finish_send heap callback next (send_step heap callback send k))
      sending-Q k i =
          finish_send-Q (send_step heap callback send k) (no_second_send send k) (hs k i)

      finish_wait-Q : (s : Step) → Good s → Q (finish_wait heap callback next send s)
      finish_wait-Q (returns r k) g = g
      finish_wait-Q (to_send k) g = sending-Q k g
      finish_wait-Q (to_cleanup k) g = after_cleanup-Q k g

    pub turn-Q :
        (t : Turn) (n : Nb) (k : Kbd)
        → k.state ≡ n
        → I k
        → J k
        → ((k' : Kbd) → I k' → Good (send_step heap callback t.send k'))
        → (k.state ≡ sent → Good (wait_step heap callback t.wait k))
        → Q (turn heap callback next t n k)
    turn-Q t sent k e i j hs hw = finish_wait-Q t.send hs (wait_step heap callback t.wait k) (hw e)
    turn-Q t sent1 k e i j hs hw = sending-Q t.send hs k i
    turn-Q t idle k e i j hs hw = after_cleanup-Q k j
    turn-Q t created k e i j hs hw = after_cleanup-Q k j
