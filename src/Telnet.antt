-- ===== src/Telnet.antt =====
-- crates/ssh-core/src/telnet.rs: the Telnet options are taken out of what a terminal reads.
--
-- A position in `data` is the list of bytes from there on. What is sent back is collected: the
-- first send that fails ends the call, and nothing after it is seen.
pub mod Steps
pub mod Chunks
pub mod Session
pub mod Full
mod Tests
use mshell.Prelude.{
  ℕ, zero, suc, ◌+◌, ◌-◌, Bool, true, false, ◌&&◌, ◌||◌, Option, none, some, List, [], ◌∷◌, ◌++◌,
  ltb, leb, ◌==◌, if◌then◌else◌, Bytes, length,
}

abbrev pub iac : ℕ
iac = 255

abbrev pub dont_ : ℕ
dont_ = 254

abbrev pub do_ : ℕ
do_ = 253

abbrev pub wont : ℕ
wont = 252

abbrev pub will : ℕ
will = 251

abbrev pub sb : ℕ
sb = 250

abbrev pub se : ℕ
se = 240

abbrev pub nop : ℕ
nop = 241

abbrev pub echo : ℕ
echo = 1

abbrev pub suppress_go_ahead : ℕ
suppress_go_ahead = 3

abbrev pub status : ℕ
status = 5

-- The answer to `IAC cmd opt`, for the four commands with an option; DONT and WONT have none.
unfoldable pub replies : ℕ → ℕ → List Bytes
replies cmd opt =
    if cmd == will
    then (iac ∷ (if opt == suppress_go_ahead || opt == echo then do_ else dont_) ∷ opt ∷ []) ∷ []
    else if cmd == do_
    then (iac
        ∷ (if opt == echo || opt == suppress_go_ahead || opt == status then will else wont)
        ∷ opt
        ∷ [])
      ∷ []
    else []

abbrev pub has_option : ℕ → Bool
has_option cmd = cmd == will || cmd == do_ || cmd == dont_ || cmd == wont

-- What follows the first `IAC SE`: `windows(2).position(…)`.
unfoldable pub past_se : Bytes → Option Bytes
past_se [] = none
past_se (a ∷ []) = none
past_se (a ∷ b ∷ bs) = let rest = past_se (b ∷ bs) in if a == iac && b == se then some bs else rest

-- What one round of the loop finds at the start of the data: an unfinished sequence; a sequence
-- that it passes, with an answer; an escaped byte 255; or a byte of text.
pub data Round : Type 0 where
  partial : Round
  passed : (answers : List Bytes) (rest : Bytes) → Round
  escaped : (rest : Bytes) → Round
  text : (byte : ℕ) (rest : Bytes) → Round

abbrev pub subnegotiation : Option Bytes → Round
subnegotiation none = partial
subnegotiation (some rest) = passed [] rest

abbrev pub with_option : ℕ → Bytes → Round
with_option cmd [] = partial
with_option cmd (opt ∷ rest) = passed (replies cmd opt) rest

abbrev pub command : ℕ → Bytes → Round
command cmd rest =
    if has_option cmd
    then with_option cmd rest
    else if cmd == sb
    then subnegotiation (past_se rest)
    else if cmd == iac
    then escaped rest
    else passed [] rest

abbrev pub after_iac : Bytes → Round
after_iac [] = partial
after_iac (cmd ∷ rest) = command cmd rest

unfoldable pub round : ℕ → Bytes → Round
unfolding past_se replies
round b bs = if b == iac then after_iac bs else text b bs

-- The loop's end: the bytes for the caller, the answers in their order, and `self.buf`.
pub record Outcome : Type 0 where
  pub out : Bytes
  pub answers : List Bytes
  pub buf : Bytes

abbrev pub emit : ℕ → Outcome → Outcome
emit b o = record o { out = b ∷ o.out }

abbrev pub answer : List Bytes → Outcome → Outcome
answer ms o = record o { answers = ms ++ o.answers }

abbrev pub stop : Bytes → Outcome
stop buf = record { out = []; answers = []; buf = buf }

-- One round. `cap` is the room that is left in the caller's buffer, which is not empty (the code
-- would panic). Behind an escaped byte that fills the buffer, the loop ends without keeping the rest.
abbrev pub step : (ℕ → Bytes → Outcome) → ℕ → Bytes → Round → Outcome
step loop cap here partial = stop here
step loop cap here (passed ms rest) = answer ms (loop cap rest)
step loop cap here (escaped rest) = emit iac (if leb cap 1 then stop [] else loop (cap - 1) rest)
step loop cap here (text c rest) = emit c (if leb cap 1 then stop rest else loop (cap - 1) rest)

-- The `while` loop. Every round takes a byte, so the length of the data is enough fuel.
unfoldable pub process : ℕ → ℕ → Bytes → Outcome
unfolding round
process zero cap here = stop here
process (suc fuel) cap [] = stop []
process (suc fuel) cap (b ∷ bs) = step (process fuel) cap (b ∷ bs) (round b bs)

-- What the socket gives to a `read` of 4096 bytes.
pub data Incoming : Type 0 where
  eof no_data broken : Incoming
  chunk : Bytes → Incoming

-- `Ok(None)`, `Ok(Some(n))` with the bytes, `Err`
pub data Read : Type 0 where
  nothing_yet : Read
  got : Bytes → Read
  failed : Read

pub record Call : Type 0 where
  pub buf : Bytes
  pub sent : List Bytes
  pub result : Read

abbrev pub as_read : Bytes → Read
as_read [] = nothing_yet
as_read (b ∷ bs) = got (b ∷ bs)

-- The answers go out one by one; with the first that fails the call ends, its `self.buf` taken.
unfoldable pub send_all : (Bytes → Bool) → List Bytes → List Bytes × Bool
send_all sends [] = ([], true)
send_all sends (m ∷ ms) =
    let rest = send_all sends ms in if sends m then (m ∷ rest.0, rest.1) else ([], false)

abbrev pub finish : Outcome → List Bytes × Bool → Call
finish o (sent, true) = record { buf = o.buf; sent = sent; result = as_read o.out }
finish o (sent, false) = record { buf = []; sent = sent; result = failed }

-- `sends` says which writes succeed, `cap` is the length of the caller's buffer.
unfoldable pub try_read : (Bytes → Bool) → ℕ → Bytes → Incoming → Call
unfolding process send_all
try_read sends cap buf eof = record { buf = buf; sent = []; result = got [] }
try_read sends cap buf no_data = record { buf = buf; sent = []; result = nothing_yet }
try_read sends cap buf broken = record { buf = buf; sent = []; result = failed }
try_read sends cap buf (chunk raw) =
    let o = process (length (buf ++ raw)) cap (buf ++ raw) in finish o (send_all sends o.answers)
