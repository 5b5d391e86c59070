-- ===== src/Kex/NameList.antt =====
-- kex.c, `_libssh2_kex_agree_instr`: finding a name in a comma-separated list.
--
-- A pointer into the list is its offset; what it points at is the rest of the list. `strncmp` stops
-- at a NUL, which no method name has, so it compares bytes.
pub mod Spec
pub mod Correct
mod Tests
use mshell.Prelude.{
  ℕ, ◌+◌, Bool, true, false, ◌&&◌, ◌||◌, Option, none, some, List, [], ◌∷◌, ltb, leb, ◌==◌,
  if◌then◌else◌, Bytes, length, get_or,
}

-- `strncmp(s, needle, needle_len) == 0`
unfoldable pub starts_with : Bytes → Bytes → Bool
starts_with [] s = true
starts_with (n ∷ ns) [] = false
starts_with (n ∷ ns) (c ∷ s) = n == c && starts_with ns s

-- The needle stands at the pointer and the list or the name ends behind it.
unfoldable pub stands_at : Bytes → Bytes → Bool
unfolding starts_with
stands_at needle s =
    starts_with needle s && (length needle == length s || get_or s (length needle) 0 == b',')

-- `while((s = memchr(s, ',', left)) != NULL)`: to the next comma, and a test behind it. The loop
-- gives up where fewer bytes are left behind the comma than the needle has.
unfoldable pub next_names : Bytes → ℕ → Bytes → Option ℕ
unfolding stands_at
next_names needle at [] = none
next_names needle at (c ∷ s) =
    let rest = next_names needle (at + 1) s in
    if c == b','
    then (if ltb (length needle) (length (c ∷ s))
        then (if stands_at needle s then some (at + 1) else rest)
        else none)
    else rest

unfoldable pub agree_instr : Bytes → Bytes → Option ℕ
unfolding next_names
agree_instr haystack needle =
    if ltb (length haystack) (length needle) || length needle == 0
    then none
    else if stands_at needle haystack
    then some 0
    else next_names needle 0 haystack
