-- ===== src/Kex/NameList/Correct.antt =====
-- The search finds a name exactly where the list has it.
use mshell.Prelude.{
  ℕ, ◌+◌, ◌≤◌, ◌<◌, ◌≡◌, ◌≢◌, ◌↔◌, refl, ap, false, some, [], ◌∷◌, arith, Bytes, length, bytes_eq,
  bytes_eq_iff,
}
use mshell.Kex.NameList.{stands_at, next_names, agree_instr}
use mshell.Kex.NameList.Spec.{first_name, later_names, names, contains, found, LacksComma, IsName}

stands_at-first_name : (n s : Bytes) → LacksComma n → stands_at n s ≡ bytes_eq n (first_name s)
unfolding stands_at first_name bytes_eq
stands_at-first_name [] [] h = refl
stands_at-first_name [] (c ∷ s) h = ground arith
stands_at-first_name (x ∷ n) [] h = refl
stands_at-first_name (x ∷ n) (c ∷ s) h = ground (arith, stands_at-first_name n s (h.1))

length-first_name-le : (s : Bytes) → length (first_name s) ≤ length s
unfolding first_name
length-first_name-le [] = omega arith
length-first_name-le (c ∷ s) = ground (arith, length-first_name-le s)

bytes_eq_long : (n m : Bytes) → length m < length n → bytes_eq n m ≡ false
unfolding bytes_eq
bytes_eq_long [] m h = absurd (omega arith)
bytes_eq_long (x ∷ n) [] h = refl
bytes_eq_long (x ∷ n) (y ∷ m) h = ground (arith, bytes_eq_long n m)

later_names_long : (n s : Bytes) → length s < length n → contains n (later_names s) ≡ false
unfolding later_names contains
later_names_long n [] h = refl
later_names_long n (c ∷ s) h =
    ground (arith, later_names_long n s, bytes_eq_long n (first_name s), length-first_name-le s)

next_names-found :
    (n : Bytes) (at : ℕ) (s : Bytes)
    → LacksComma n
    → found (next_names n at s) ≡ contains n (later_names s)
unfolding later_names contains next_names
next_names-found n at [] h = refl
next_names-found n at (c ∷ s) h = ground (
  arith,
  next_names-found n (at + 1) s h,
  stands_at-first_name n s h,
  later_names_long n s,
  bytes_eq_long n (first_name s),
  length-first_name-le s,
)

next_names-ne-zero : (n : Bytes) (at : ℕ) (s : Bytes) → next_names n at s ≢ some 0
unfolding next_names
next_names-ne-zero n at [] e = cc
next_names-ne-zero n at (c ∷ s) e = ground (arith, next_names-ne-zero n (at + 1) s)

length-pos : (n : Bytes) → n ≢ [] → 0 < length n
length-pos [] h = absurd (h refl)
length-pos (x ∷ n) h = omega arith

-- A method name is found in a name list exactly if it is one of the list's names, and at offset 0
-- exactly if it is the first of them.
pub agree_instr-names :
    (haystack n : Bytes)
    → IsName n
    → (found (agree_instr haystack n) ≡ contains n (names haystack))
      × ((agree_instr haystack n ≡ some 0) ↔ (n ≡ first_name haystack))
unfolding agree_instr contains
agree_instr-names haystack n h = (
  ground (
    arith,
    length-pos n h.filled,
    stands_at-first_name n haystack h.lacks,
    next_names-found n 0 haystack h.lacks,
    later_names_long n haystack,
    bytes_eq_long n (first_name haystack),
    length-first_name-le haystack,
  ),
  (
    λ e. ground (
      arith,
      stands_at-first_name n haystack h.lacks,
      next_names-ne-zero n 0 haystack,
      bytes_eq_iff n (first_name haystack),
    ),
    λ e. ground (
      arith,
      length-pos n h.filled,
      stands_at-first_name n haystack h.lacks,
      ap length e,
      length-first_name-le haystack,
      bytes_eq_iff n (first_name haystack),
    ),
  ),
)
