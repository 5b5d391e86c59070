-- ===== src/Userauth/Tests.antt =====
-- A conversation of one request with one prompt.
use mshell.Prelude.{arith, ◌≡◌, ◌≢◌, refl, true, false, none, [], ◌∷◌, Bytes}
use mshell.Wire.{htonu32, ntohu32}
use mshell.StringBuf.{
  check_length, get_byte, get_string, get_slice, copy_string, get_u32, get_boolean,
}
use mshell.Userauth.{idle, sent1, asked, message, Kbd, Heap, decode_info_request}
use mshell.Userauth.Interactive.{
  send_done, send_blocks, packet, wait_blocks, Turn, success, would_block, Callback, strings_of,
  keyboard_interactive, request,
}
use mshell.Userauth.Sound.{IsKbd, keyboard_interactive-IsKbd}
use mshell.Userauth.Trust.{Told, Fine, keyboard_interactive-Fine}
use mshell.Userauth.RoundTrip.{info_request, requested, decode_info_request-info_request}
use mshell.Userauth.Resume.{blocked, again, keyboard_interactive-resumes}

abbrev heap : Heap
heap = record { alloc = λ n. true; prompt_size = 24; response_size = 16 }

-- The user answers "ok".
abbrev callback : Callback
callback name instruction prompts = (b'o' ∷ b'k' ∷ []) ∷ []

abbrev fresh : Kbd
fresh = record {
  state = idle;
  data_ = none;
  auth_name = [];
  auth_instruction = [];
  num_prompts = 0;
  auth_failure = false;
  prompts = none;
  responses = none;
  authenticated = false;
  log = [];
}

-- SSH_MSG_USERAUTH_INFO_REQUEST with the prompt "p", SSH_MSG_USERAUTH_SUCCESS
abbrev one_prompt : Bytes
one_prompt =
    60 ∷ 0 ∷ 0 ∷ 0 ∷ 0 ∷ 0 ∷ 0 ∷ 0 ∷ 0 ∷ 0 ∷ 0 ∷ 0 ∷ 0 ∷ 0 ∷ 0 ∷ 0 ∷ 1 ∷ 0 ∷ 0 ∷ 0 ∷ 1 ∷ b'p' ∷ 1
    ∷ []

abbrev ask : Turn
ask = record { wait = packet one_prompt; send = send_done }

abbrev accept : Turn
accept = record { wait = packet (52 ∷ []); send = send_done }

-- A request of one byte.
abbrev malformed : Turn
malformed = record { wait = packet (60 ∷ []); send = send_done }

fresh-IsKbd : IsKbd fresh
fresh-IsKbd = record { prompts_sized = tt; responses_sized = tt; at_rest = (refl, refl) }

succeeds : keyboard_interactive heap callback [] send_done (ask ∷ accept ∷ []) fresh ≡ (
  success,
  record fresh {
    authenticated = true;
    num_prompts = 1;
    log =
        message (request [])
        ∷ asked [] [] (record { text = b'p' ∷ []; echo = 1 } ∷ [])
        ∷ message (61 ∷ 0 ∷ 0 ∷ 0 ∷ 1 ∷ 0 ∷ 0 ∷ 0 ∷ 2 ∷ b'o' ∷ b'k' ∷ [])
        ∷ [];
  },
)
unfolding keyboard_interactive decode_info_request htonu32 strings_of check_length get_byte
    get_string get_slice copy_string get_u32 get_boolean ntohu32
succeeds = refl

blocks :
    (keyboard_interactive heap callback [] send_done (ask ∷ (blocked ask ∷ [])) fresh).0
    ≡ would_block
unfolding keyboard_interactive decode_info_request htonu32 strings_of check_length get_byte
    get_string get_slice copy_string get_u32 get_boolean ntohu32
blocks = refl

-- A request that cannot be read ends the first turn, but not the second.
first_malformed :
    (keyboard_interactive heap callback [] send_done (malformed ∷ accept ∷ []) fresh).0 ≢ success
unfolding keyboard_interactive decode_info_request
first_malformed e = cc

second_malformed :
    (keyboard_interactive heap callback [] send_done (ask ∷ malformed ∷ accept ∷ []) fresh).0
    ≡ success
unfolding keyboard_interactive decode_info_request htonu32 strings_of check_length get_byte
    get_string get_slice copy_string get_u32 get_boolean ntohu32
second_malformed = refl

keyboard_interactive-IsKbd_example :
    IsKbd (keyboard_interactive heap callback [] send_done (blocked ask ∷ []) fresh).1
keyboard_interactive-IsKbd_example =
    keyboard_interactive-IsKbd heap callback [] send_done (blocked ask ∷ []) fresh fresh-IsKbd

keyboard_interactive-Fine_example :
    Fine heap callback false
      (Told (ask ∷ accept ∷ []))
      (keyboard_interactive heap callback [] send_done (ask ∷ accept ∷ []) fresh)
keyboard_interactive-Fine_example =
    keyboard_interactive-Fine heap callback [] send_done (ask ∷ accept ∷ []) fresh fresh-IsKbd

-- The first request is answered; the answer to the second is held up.
keyboard_interactive-resumes_example :
    let k1 = (keyboard_interactive heap callback [] send_done (ask ∷ (blocked ask ∷ [])) fresh).1 in
    (k1.state ≡ sent1)
    × (keyboard_interactive heap callback [] send_blocks (again wait_blocks ask ∷ accept ∷ []) k1
        ≡ keyboard_interactive heap callback [] send_done (ask ∷ (ask ∷ accept ∷ [])) fresh)
keyboard_interactive-resumes_example =
    keyboard_interactive-resumes heap callback [] send_done send_blocks (ask ∷ []) ask (accept ∷ [])
      fresh wait_blocks (λ e. cc) (((λ e. cc), (λ e. cc)), tt) (λ e. cc) blocks

decode_info_request-info_request_example :
    decode_info_request heap fresh
      (info_request (b'n' ∷ []) [] (b'e' ∷ b'n' ∷ []) (record { text = b'p' ∷ []; echo = 1 } ∷ []))
    ≡ (requested fresh (b'n' ∷ []) [] (record { text = b'p' ∷ []; echo = 1 } ∷ []), true)
decode_info_request-info_request_example =
    decode_info_request-info_request heap fresh (b'n' ∷ []) [] (b'e' ∷ b'n' ∷ [])
      (record { text = b'p' ∷ []; echo = 1 } ∷ []) (λ n. refl) (omega arith) (omega arith)
      (omega arith) ((omega arith, omega arith), tt) (omega arith) (unfold htonu32 in omega arith)
