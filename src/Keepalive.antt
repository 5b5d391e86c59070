-- ===== src/Keepalive.antt =====
-- keepalive.c: the clock of a session's keepalive messages.
pub mod Deadline
mod Tests
use mshell.Prelude.{
  ℕ, zero, suc, ◌+◌, ◌-◌, ◌%◌, ◌^◌, Bool, true, false, List, [], ◌∷◌, ◌++◌, ltb, leb, ◌==◌,
  if◌then◌else◌, Bytes,
}
use mshell.Channel.{Result, done, would_block, failed}

-- The fields of the session, and the messages that the transport was asked to send. The interval is
-- an `int`: the number below 2 ^ 32 with the same bits.
pub record Clock : Type 0 where
  pub keepalive_interval : ℕ
  pub keepalive_want_reply : ℕ
  pub keepalive_last_sent : ℕ
  pub asked : List Bytes

unfoldable pub keepalive_config : Clock → Bool → ℕ → Clock
keepalive_config s want_reply interval = record s {
  keepalive_interval = (if interval == 1 then 2 else interval) % 2 ^ 32;
  keepalive_want_reply = if want_reply then 1 else 0;
}

-- SSH_MSG_GLOBAL_REQUEST, "keepalive@libssh2.org" behind its length, whether a reply is wanted.
abbrev pub keepalive_data : ℕ → Bytes
keepalive_data want_reply =
    80 ∷ 0 ∷ 0 ∷ 0 ∷ 21 ∷ b'k' ∷ b'e' ∷ b'e' ∷ b'p' ∷ b'a' ∷ b'l' ∷ b'i' ∷ b'v' ∷ b'e' ∷ b'@' ∷ b'l'
    ∷ b'i' ∷ b'b' ∷ b's' ∷ b's' ∷ b'h' ∷ b'2' ∷ b'.' ∷ b'o' ∷ b'r' ∷ b'g' ∷ want_reply ∷ []

abbrev pub sent_at : Clock → ℕ → Clock
sent_at s now = record s { keepalive_last_sent = now }

-- EAGAIN counts as sent; every other result but 0, of either sign, is an error.
abbrev pub keepalive_after : Clock → ℕ → Result ℕ → Clock × Result ℕ
keepalive_after s now (done zero) = (sent_at s now, done s.keepalive_interval)
keepalive_after s now (done (suc n)) = (s, failed (suc n))
keepalive_after s now would_block = (sent_at s now, done s.keepalive_interval)
keepalive_after s now (failed e) = (s, failed e)

abbrev pub ask : Clock → Clock
ask s = record s { asked = s.asked ++ (keepalive_data s.keepalive_want_reply ∷ []) }

-- `keepalive_last_sent + keepalive_interval <= now`, in the 64 bits of `time_t`: bits from 2 ^ 31 on
-- are those of a negative interval.
unfoldable pub is_due : Clock → ℕ → Bool
is_due s now =
    if ltb s.keepalive_interval (2 ^ 31)
    then leb (s.keepalive_last_sent + s.keepalive_interval) now
    else leb s.keepalive_last_sent (now + (2 ^ 32 - s.keepalive_interval))

-- `now` is `time(NULL)`, `send` what `_libssh2_transport_send` answers. The result is that of
-- `*seconds_to_next`, which is not NULL; its `int` is the number below 2 ^ 32 with the same bits.
unfoldable pub keepalive_send : (Bytes → Result ℕ) → ℕ → Clock → Clock × Result ℕ
keepalive_send send now s =
    if s.keepalive_interval == 0
    then (s, done 0)
    else if is_due s now
    then keepalive_after (ask s) now (send (keepalive_data s.keepalive_want_reply))
    else (s, done ((s.keepalive_last_sent + s.keepalive_interval - now) % 2 ^ 32))
