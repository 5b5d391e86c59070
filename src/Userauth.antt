-- ===== src/Userauth.antt =====
-- userauth_kbd_packet.c and userauth.c: keyboard-interactive authentication.
--
-- A pointer that is NULL is `none`, or the empty text for a name. The fields of `LIBSSH2_SESSION` lose
-- the prefix `userauth_kybd_`.
pub mod Interactive
pub mod Steps
pub mod Decoded
pub mod Sound
pub mod Trust
pub mod Resume
pub mod RoundTrip
mod Tests
use mshell.Prelude.{
  ℕ, zero, suc, ◌+◌, ◌*◌, ◌^◌, ◌-◌, ◌||◌, not, Bool, true, false, Option, none, some, List, [], ◌∷◌,
  ◌++◌, ltb, leb, ◌==◌, if◌then◌else◌, Bytes, length,
}
use mshell.StringBuf.{StringBuf, get_byte, get_string, copy_string, get_u32, get_boolean}

-- LIBSSH2_USERAUTH_KBDINT_PROMPT
pub record Prompt : Type 0 where
  pub text : Bytes
  pub echo : ℕ

abbrev pub blank : Prompt
blank = record { text = []; echo = 0 }

-- `libssh2_nonblocking_states`
pub data Nb : Type 0 where
  idle created sent sent1 : Nb

-- What is done outside: the callback asked, a message given to the transport.
pub data Effect : Type 0 where
  asked : (name instruction : Bytes) (prompts : List Prompt) → Effect
  message : Bytes → Effect

pub record Kbd : Type 0 where
  pub state : Nb
  pub data_ : Option Bytes
  pub auth_name : Bytes
  pub auth_instruction : Bytes
  pub num_prompts : ℕ
  pub auth_failure : Bool
  pub prompts : Option (List Prompt)
  pub responses : Option (List Bytes)
  pub authenticated : Bool
  pub log : List Effect

-- What is `calloc`ed, before it is filled.
unfoldable pub blanks {ℓ} : {A : Type ℓ} → ℕ → A → List A
blanks zero a = []
blanks (suc n) a = a ∷ blanks n a

-- The allocator, and the sizes of a prompt and of a response, which depend on the machine.
pub record Heap : Type 0 where
  pub alloc : ℕ → Bool
  pub prompt_size : ℕ
  pub response_size : ℕ

module _ (heap : Heap) where
  abbrev pub Prompts : Type 0
  Prompts = List Prompt × Bool

  abbrev pub before : Prompt → Prompts → Prompts
  before p (ps, ok) = (p ∷ ps, ok)

  abbrev pub echo_step : ℕ → (StringBuf → Prompts) → Bytes → Option ℕ × StringBuf → Prompts
  echo_step n go text (none, b) = (record { text = text; echo = 0 } ∷ blanks n blank, false)
  echo_step n go text (some echo, b) = before (record { text = text; echo = echo }) (go b)

  abbrev pub text_step : ℕ → (StringBuf → Prompts) → Option Bytes × StringBuf → Prompts
  text_step n go (none, b) = (blanks (suc n) blank, false)
  text_step n go (some text, b) = echo_step n go text (get_boolean b)

  -- The loop over the prompts, as the array that it leaves, and whether it comes to its end.
  unfoldable pub read_prompts : ℕ → StringBuf → Prompts
  unfolding blanks
  read_prompts zero b = ([], true)
  read_prompts (suc n) b = text_step n (read_prompts n) (copy_string heap.alloc b)

  abbrev pub with_prompts : Kbd → Prompts → Kbd × Bool
  with_prompts k (ps, ok) = (record k { prompts = some ps }, ok)

  abbrev pub allocate_step : Kbd → StringBuf → Kbd × Bool
  allocate_step k b =
      let n = k.num_prompts in
      if n == 0
      then (k, true)
      else if not (heap.alloc (heap.prompt_size * n))
      then (k, false)
      else if not (heap.alloc (heap.response_size * n))
      then (record k { prompts = some (blanks n blank) }, false)
      else with_prompts (record k { responses = some (blanks n []) }) (read_prompts n b)

  abbrev pub count_step : Kbd → Option ℕ × StringBuf → Kbd × Bool
  count_step k (none, b) = (k, false)
  count_step k (some n, b) =
      let k' = record k { num_prompts = n } in if ltb 100 n then (k', false) else allocate_step k' b

  abbrev pub language_step : Kbd → Option Bytes × StringBuf → Kbd × Bool
  language_step k (none, b) = (k, false)
  language_step k (some language_tag, b) = count_step k (get_u32 b)

  abbrev pub instruction_step : Kbd → Option Bytes × StringBuf → Kbd × Bool
  instruction_step k (none, b) = (k, false)
  instruction_step k (some text, b) =
      language_step (record k { auth_instruction = text }) (get_string b)

  abbrev pub name_step : Kbd → Option Bytes × StringBuf → Kbd × Bool
  name_step k (none, b) = (k, false)
  name_step k (some text, b) =
      instruction_step (record k { auth_name = text }) (copy_string heap.alloc b)

  -- `true` is 0, `false` is -1. The type of the packet is not looked at.
  unfoldable pub decode_info_request : Kbd → Bytes → Kbd × Bool
  unfolding read_prompts blanks
  decode_info_request k packet =
      let decoded : StringBuf = record { bytes = packet; len = length packet; pos = 0 } in
      if ltb (length packet) 17
      then (k, false)
      else name_step k (copy_string heap.alloc (get_byte decoded).1)
