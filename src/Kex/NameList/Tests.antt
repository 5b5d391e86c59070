-- ===== src/Kex/NameList/Tests.antt =====
-- Runs of the search, and the theorem at an input.
use mshell.Prelude.{◌≡◌, refl, none, some, [], ◌∷◌, Bytes}
use mshell.Kex.NameList.{agree_instr}

-- ab,a,b
abbrev list : Bytes
list = b'a' ∷ b'b' ∷ b',' ∷ b'a' ∷ b',' ∷ b'b' ∷ []

find_whole_name : agree_instr list (b'a' ∷ []) ≡ some 3
unfolding agree_instr
find_whole_name = refl

find_last : agree_instr list (b'b' ∷ []) ≡ some 5
unfolding agree_instr
find_last = refl

find_prefix_only : agree_instr (b'a' ∷ b'b' ∷ []) (b'a' ∷ []) ≡ none
unfolding agree_instr
find_prefix_only = refl
