-- ===== src/Userauth/Interactive.antt =====
-- userauth.c, `userauth_keyboard_interactive`: the conversation, which a call that would block leaves
-- and the next call goes on with.
use mshell.Prelude.{
  ℕ, zero, suc, ◌+◌, ◌-◌, ◌^◌, ◌%◌, Bool, true, false, Option, none, some, List, [], ◌∷◌, ◌++◌, leb,
  ◌==◌, if◌then◌else◌, Bytes, length,
}
use mshell.Wire.{htonu32}
use mshell.Userauth.{
  Prompt, Nb, idle, created, sent, sent1, asked, message, Kbd, Heap, decode_info_request,
}

-- What `_libssh2_transport_send` returns, and `_libssh2_packet_requirev` with its packet.
pub data Send : Type 0 where
  send_done send_blocks send_fails : Send

pub data Wait : Type 0 where
  packet : Bytes → Wait
  wait_blocks wait_fails : Wait

-- What a turn of the loop meets. A turn that starts with a message to send does not wait.
pub record Turn : Type 0 where
  pub wait : Wait
  pub send : Send

-- 0, LIBSSH2_ERROR_EAGAIN, another error, or still at work where the turns are at their end.
pub data Return : Type 0 where
  success would_block no_memory not_sent refused gave_up at_work : Return

-- The callback's answers for a name, an instruction and prompts.
abbrev pub Callback : Type 0
Callback = Bytes → Bytes → List Prompt → List Bytes

-- The answers in an array of a length.
unfoldable pub filled : ℕ → List Bytes → List Bytes
filled zero rs = []
filled (suc n) [] = [] ∷ filled n []
filled (suc n) (r ∷ rs) = r ∷ filled n rs

abbrev pub filled_in : ℕ → Option (List Bytes) → List Bytes → Option (List Bytes)
filled_in n none answers = none
filled_in n (some rs) answers = some (filled n answers)

-- `userauth_kybd_packet_len`, if its test lets it pass. The length of a response is an `unsigned int`.
unfoldable pub response_len : ℕ → List Bytes → Option ℕ
response_len n [] = some n
response_len n (r ∷ rs) =
    let rest = response_len ((n + 4 + length r) % 2 ^ 64) rs in
    if leb (length r) ((2 ^ 64 - 1 - 4 + 2 ^ 64 - n) % 2 ^ 64) then rest else none

abbrev pub string_of : Bytes → Bytes
string_of s = htonu32 (length s) ++ s

unfoldable pub strings_of : List Bytes → Bytes
strings_of [] = []
strings_of (r ∷ rs) = string_of r ++ strings_of rs

-- SSH_MSG_USERAUTH_INFO_RESPONSE
abbrev pub info_response : ℕ → List Bytes → Bytes
info_response n rs = 61 ∷ (htonu32 n ++ strings_of rs)

-- SSH_MSG_USERAUTH_REQUEST of `ssh-connection` and `keyboard-interactive`
abbrev pub request : Bytes → Bytes
request username =
    50
    ∷ (string_of username
        ++ (string_of (
              b's' ∷ b's' ∷ b'h' ∷ b'-' ∷ b'c' ∷ b'o' ∷ b'n' ∷ b'n' ∷ b'e' ∷ b'c' ∷ b't' ∷ b'i'
              ∷ b'o' ∷ b'n' ∷ [])
            ++ (string_of (
                  b'k' ∷ b'e' ∷ b'y' ∷ b'b' ∷ b'o' ∷ b'a' ∷ b'r' ∷ b'd' ∷ b'-' ∷ b'i' ∷ b'n' ∷ b't'
                  ∷ b'e' ∷ b'r' ∷ b'a' ∷ b'c' ∷ b't' ∷ b'i' ∷ b'v' ∷ b'e' ∷ [])
                ++ (htonu32 0 ++ htonu32 0))))

abbrev pub or_nil {ℓ} : {A : Type ℓ} → Option (List A) → List A
or_nil none = []
or_nil (some as_) = as_

-- What a part of a turn leads to.
pub data Step : Type 0 where
  returns : Return → Kbd → Step
  to_send to_cleanup : Kbd → Step

-- The part behind `cleanup`, up to the test of `auth_failure`.
abbrev pub cleaned : Kbd → Kbd
cleaned k = record k {
  data_ = none;
  auth_name = [];
  auth_instruction = [];
  prompts = none;
  responses = none;
}

module _ (heap : Heap) (callback : Callback) where
  abbrev pub respond : Kbd → Option ℕ → Step
  respond k none = to_cleanup k
  respond k (some len) =
      if heap.alloc len
      then to_send (record k {
        data_ = some (info_response k.num_prompts (or_nil k.responses));
        state = sent1;
      })
      else to_cleanup (record k { data_ = none })

  abbrev pub answered : Kbd → Kbd
  answered k =
      let ps = or_nil k.prompts in
      record k {
        responses =
            filled_in k.num_prompts k.responses (callback k.auth_name k.auth_instruction ps);
        log = k.log ++ (asked k.auth_name k.auth_instruction ps ∷ []);
      }

  abbrev pub converse : Kbd × Bool → Step
  converse (k, false) = to_cleanup k
  converse (k, true) = let a = answered k in respond a (response_len 5 (or_nil a.responses))

  -- The part from the state `sent` on.
  abbrev pub wait_step : Wait → Kbd → Step
  wait_step wait_blocks k = returns would_block k
  wait_step wait_fails k = returns refused (record k { state = idle })
  wait_step (packet []) k = returns refused (record k { state = idle; data_ = some [] })
  wait_step (packet (type ∷ rest)) k =
      if type == 52
      then returns success (record k { data_ = none; authenticated = true; state = idle })
      else if type == 51
      then returns refused (record k { data_ = none; state = idle })
      else converse
          (decode_info_request heap (record k { data_ = some (type ∷ rest) }) (type ∷ rest))

  -- The part from the state `sent1` on.
  abbrev pub send_step : Send → Kbd → Step
  send_step send_blocks k = returns would_block k
  send_step send_fails k = to_cleanup k
  send_step send_done k =
      to_cleanup (record k { auth_failure = false; log = k.log ++ (message (or_nil k.data_) ∷ []) })

  abbrev pub Out : Type 0
  Out = Return × Kbd

  abbrev pub after_cleanup : (Kbd → Out) → Kbd → Out
  after_cleanup next k =
      if k.auth_failure
      then (gave_up, record (cleaned k) { state = idle })
      else next (record (cleaned k) { state = sent })

  abbrev pub finish_send : (Kbd → Out) → Step → Out
  finish_send next (returns r k) = (r, k)
  finish_send next (to_send k) = after_cleanup next k
  finish_send next (to_cleanup k) = after_cleanup next k

  abbrev pub finish_wait : (Kbd → Out) → Send → Step → Out
  finish_wait next send (returns r k) = (r, k)
  finish_wait next send (to_send k) = finish_send next (send_step send k)
  finish_wait next send (to_cleanup k) = after_cleanup next k

  abbrev pub turn : (Kbd → Out) → Turn → Nb → Kbd → Out
  turn next t sent k = finish_wait next t.send (wait_step t.wait k)
  turn next t sent1 k = finish_send next (send_step t.send k)
  turn next t idle k = after_cleanup next k
  turn next t created k = after_cleanup next k

  -- `for(;;)`
  unfoldable pub converse_loop : List Turn → Kbd → Out
  unfolding filled response_len
  converse_loop [] k = (at_work, k)
  converse_loop (t ∷ ts) k = turn (converse_loop ts) t k.state k

  abbrev pub opened : Kbd → Kbd
  opened k = record k {
    auth_name = [];
    auth_instruction = [];
    num_prompts = 0;
    auth_failure = true;
    prompts = none;
    responses = none;
  }

  -- The parts from the states `created` and `idle` on.
  abbrev pub created_step : Send → List Turn → Kbd → Out
  created_step send_blocks ts k = (would_block, k)
  created_step send_fails ts k = (not_sent, record k { data_ = none; state = idle })
  created_step send_done ts k =
      converse_loop ts
        (record k { data_ = none; state = sent; log = k.log ++ (message (or_nil k.data_) ∷ []) })

  abbrev pub idle_step : Bytes → Send → List Turn → Kbd → Out
  idle_step username send ts k =
      let packet = request username in
      if heap.alloc (length packet)
      then created_step send ts (record (opened k) { data_ = some packet; state = created })
      else (no_memory, record (opened k) { data_ = none })

  abbrev pub from_state : Bytes → Send → List Turn → Nb → Kbd → Out
  from_state username send ts idle k = idle_step username send ts k
  from_state username send ts created k = created_step send ts k
  from_state username send ts sent k = converse_loop ts k
  from_state username send ts sent1 k = converse_loop ts k

  -- A call; `send` is for the first message, if it is sent.
  unfoldable pub keyboard_interactive : Bytes → Send → List Turn → Kbd → Out
  unfolding converse_loop
  keyboard_interactive username send ts k = from_state username send ts k.state k
