-- ===== src/StringBuf/Tests.antt =====
-- Reads from a small packet, and the theorems at it.
use mshell.Prelude.{◌≡◌, refl, none, some, [], ◌∷◌, arith}
use mshell.StringBuf.{StringBuf, get_string, get_u32, get_slice, check_length}
use mshell.Wire.{ntohu32}
use mshell.StringBuf.Spec
use mshell.StringBuf.Refine.{remaining, Agrees, get_string-Refines}

-- A string of two bytes behind one byte that has been read.
abbrev packet : StringBuf
packet = record { bytes = 20 ∷ 0 ∷ 0 ∷ 0 ∷ 2 ∷ 7 ∷ 8 ∷ 9 ∷ []; len = 8; pos = 1 }

-- The length says three bytes, and two are there.
abbrev cut : StringBuf
cut = record { bytes = 0 ∷ 0 ∷ 0 ∷ 3 ∷ 7 ∷ 8 ∷ []; len = 6; pos = 0 }

read_packet : get_string packet ≡ (some (7 ∷ 8 ∷ []), record packet { pos = 7 })
unfolding get_string get_u32 get_slice check_length ntohu32
read_packet = refl

read_cut : get_string cut ≡ (none, record cut { pos = 4 })
unfolding get_string get_u32 get_slice check_length ntohu32
read_cut = refl

get_string-Refines_example : Agrees (get_string packet) (Spec.string (remaining packet))
get_string-Refines_example = get_string-Refines packet (omega arith)
