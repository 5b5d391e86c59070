-- ===== src/Keepalive/Deadline.antt =====
-- When the next keepalive is due.
use mshell.Prelude.{ℕ, ◌+◌, ◌≤◌, ◌<◌, ◌≡◌, [], ◌∷◌, ◌++◌}
use mshell.Channel.{Result, done, failed}
use mshell.Keepalive.{Clock, keepalive_data}

-- A call that reports no error: a message was asked for exactly if one was due, and the seconds
-- reported lead to the next time that one is due, which lies ahead.
pub data IsDeadline (s : Clock) (now : ℕ) : Clock × Result ℕ → Type 0 where
  was_due :
      (s' : Clock)
      → s.keepalive_last_sent + s.keepalive_interval ≤ now
      → s'.asked ≡ s.asked ++ (keepalive_data s.keepalive_want_reply ∷ [])
      → s'.keepalive_last_sent ≡ now
      → IsDeadline s now (s', done s.keepalive_interval)
  waits :
      (seconds : ℕ)
      → 0 < seconds
      → now + seconds ≡ s.keepalive_last_sent + s.keepalive_interval
      → IsDeadline s now (s, done seconds)
  cannot_send :
      (s' : Clock) (e : ℕ)
      → s.keepalive_last_sent + s.keepalive_interval ≤ now
      → s'.keepalive_last_sent ≡ s.keepalive_last_sent
      → IsDeadline s now (s', failed e)
