-- ===== src/Keepalive/Tests.antt =====
-- A session with an interval of 30 seconds.
use mshell.Prelude.{◌≡◌, refl, true, [], ◌∷◌}
use mshell.Channel.{done}
use mshell.Keepalive.{Clock, keepalive_data, is_due, keepalive_config, keepalive_send}

abbrev clock : Clock
clock = record {
  keepalive_interval = 30;
  keepalive_want_reply = 1;
  keepalive_last_sent = 1000;
  asked = [];
}

ten_seconds_left : (keepalive_send (λ m. done 0) 1020 clock).1 ≡ done 10
unfolding keepalive_send is_due
ten_seconds_left = refl

one_second_is_two : (keepalive_config clock true 1).keepalive_interval ≡ 2
unfolding keepalive_config
one_second_is_two = refl

-- An interval from 2 ^ 31 on is negative, and a message is asked for at once.
negative_is_due :
    (keepalive_send (λ m. done 0) 1001 (keepalive_config clock true 3000000000)).0.asked
    ≡ keepalive_data 1 ∷ []
unfolding keepalive_config keepalive_send is_due
negative_is_due = refl
