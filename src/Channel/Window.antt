-- ===== src/Channel/Window.antt =====
-- channel.c, `_libssh2_channel_receive_window_adjust`: granting the peer more to send.
pub mod Credit
use mshell.Prelude.{
  ℕ, zero, suc, ◌+◌, ◌-◌, ◌*◌, ◌%◌, ◌^◌, Bool, true, false, not, ◌&&◌, Option, none, some, List, [],
  ◌∷◌, ◌++◌, ltb, ◌==◌, if◌then◌else◌, Bytes,
}
use mshell.Wire.{htonu32}
use mshell.Channel.{
  Channel, Link, Transport, NbState, idle, created, jump1, Result, done, would_block, failed,
  transport_send,
}

-- LIBSSH2_CHANNEL_MINADJUST
abbrev pub min_adjust : ℕ
min_adjust = 1024

-- SSH_MSG_CHANNEL_WINDOW_ADJUST, the peer's number of the channel, the amount.
abbrev pub adjust_message : Channel → ℕ → Bytes
adjust_message c amount = 93 ∷ htonu32 c.remote_id ++ htonu32 amount

abbrev pub announcing : Channel → ℕ → Channel
announcing c amount = record c {
  adjust_queue = 0;
  adjust_packet = adjust_message c amount;
  adjust_state = created;
}

-- The part for a channel that is idle: `none` where the function returns 0 without a packet, or the
-- amount to announce, the packet being ready.
unfoldable pub adjust_prepare : Channel → ℕ → Bool → Channel × Option ℕ
adjust_prepare c adjustment force =
    let total = (adjustment + c.adjust_queue) % 2 ^ 32 in
    if not force && ltb total min_adjust
    then (record c { adjust_queue = total }, none)
    else if adjustment == 0 && c.adjust_queue == 0
    then (c, none)
    else (announcing c total, some total)

-- LIBSSH2_ERROR_SOCKET_SEND
abbrev pub adjust_fails : ℕ → Link → Link × Result ℕ
adjust_fails amount l =
    (record l { channel = record l.channel { adjust_queue = amount } }, failed 7)

-- Every result but 0 and EAGAIN is an error.
abbrev pub adjust_settle : ℕ → Link × Result ℕ → Link × Result ℕ
adjust_settle amount (l, done zero) = (
  record l {
    channel = record l.channel {
      remote_window = (l.channel.remote_window + amount) % 2 ^ 32;
      adjust_state = idle;
    };
  },
  done 0,
)
adjust_settle amount (l, would_block) = (l, would_block)
adjust_settle amount (l, done (suc n)) = adjust_fails amount l
adjust_settle amount (l, failed e) = adjust_fails amount l

unfoldable pub adjust_send : Transport → Link → ℕ → Link × Result ℕ
adjust_send tr l amount = adjust_settle amount (transport_send tr l l.channel.adjust_packet)

abbrev pub adjust_from : Transport → Link → Channel × Option ℕ → Link × Result ℕ
adjust_from tr l (c, none) = (record l { channel = c }, done 0)
adjust_from tr l (c, some amount) = adjust_send tr (record l { channel = c }) amount

-- A channel that is not idle sends the packet that it has, and counts the caller's amount.
abbrev pub adjust_in : NbState → Transport → Link → ℕ → Bool → Link × Result ℕ
adjust_in idle tr l adjustment force = adjust_from tr l (adjust_prepare l.channel adjustment force)
adjust_in _ tr l adjustment force = adjust_send tr l adjustment

-- `store`, which would get the window's size on entry, is NULL.
unfoldable pub receive_window_adjust : Transport → Link → ℕ → Bool → Link × Result ℕ
receive_window_adjust tr l adjustment force = adjust_in l.channel.adjust_state tr l adjustment force
