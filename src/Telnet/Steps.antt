-- ===== src/Telnet/Steps.antt =====
-- What the loop makes of its data where the caller's buffer has room, as a function of the data.
use mshell.Prelude.{
  if-all, if-both, ℕ, zero, suc, ◌+◌, ◌≤◌, ◌≡◌, subst, refl, ap, Option, none, some, [], ◌∷◌, ◌++◌,
  ◌==◌, ◌&&◌, Bytes, length, arith,
}
use mshell.Telnet.{
  iac, sb, se, Round, partial, passed, escaped, text, Outcome, emit, answer, stop, has_option,
  past_se, subnegotiation, with_option, command, after_iac, round,
}

abbrev pub read_step : (Bytes → Outcome) → Bytes → Round → Outcome
read_step loop here partial = stop here
read_step loop here (passed ms rest) = answer ms (loop rest)
read_step loop here (escaped rest) = emit iac (loop rest)
read_step loop here (text c rest) = emit c (loop rest)

unfoldable pub read_from : ℕ → Bytes → Outcome
read_from zero here = stop here
read_from (suc fuel) [] = stop []
read_from (suc fuel) (b ∷ bs) = read_step (read_from fuel) (b ∷ bs) (round b bs)

-- All that the data decode to.
unfoldable pub decode : Bytes → Outcome
unfolding read_from
decode here = read_from (length here) here

-- The bytes that a round leaves.
abbrev pub Leaves : ℕ → Round → Type 0
Leaves n partial = Unit
Leaves n (passed ms rest) = length rest ≤ n
Leaves n (escaped rest) = length rest ≤ n
Leaves n (text c rest) = length rest ≤ n

abbrev Shorter : ℕ → Option Bytes → Type 0
Shorter n none = Unit
Shorter n (some rest) = length rest ≤ n

Shorter-suc : (n : ℕ) (o : Option Bytes) → Shorter n o → Shorter (suc n) o
Shorter-suc n none h = tt
Shorter-suc n (some rest) h = omega arith

past_se-Shorter : (bs : Bytes) → Shorter (length bs) (past_se bs)
unfolding past_se
past_se-Shorter [] = tt
past_se-Shorter (a ∷ []) = tt
past_se-Shorter (a ∷ b ∷ bs) =
    if-all (Shorter (length (a ∷ b ∷ bs))) (a == iac && b == se) (omega arith)
      (Shorter-suc _ _ (past_se-Shorter (b ∷ bs)))

subnegotiation-Leaves : (n : ℕ) (o : Option Bytes) → Shorter n o → Leaves (n + 1) (subnegotiation o)
subnegotiation-Leaves n none h = tt
subnegotiation-Leaves n (some rest) h = omega arith

with_option-Leaves : (cmd : ℕ) (rest : Bytes) → Leaves (length rest + 1) (with_option cmd rest)
with_option-Leaves cmd [] = tt
with_option-Leaves cmd (opt ∷ rest) = omega arith

command-Leaves : (cmd : ℕ) (rest : Bytes) → Leaves (length rest + 1) (command cmd rest)
command-Leaves cmd rest =
    let P = Leaves (length rest + 1) in
    if-all P (has_option cmd) (with_option-Leaves cmd rest) (
      if-all P (cmd == sb) (subnegotiation-Leaves _ _ (past_se-Shorter rest))
        (if-all P (cmd == iac) (omega arith) (omega arith)))

after_iac-Leaves : (bs : Bytes) → Leaves (length bs) (after_iac bs)
after_iac-Leaves [] = tt
after_iac-Leaves (cmd ∷ bs) =
    subst (λ n. Leaves n (command cmd bs)) {x = length bs + 1} (omega arith) (command-Leaves cmd bs)

pub round-Leaves : (b : ℕ) (bs : Bytes) → Leaves (length bs) (round b bs)
unfolding round
round-Leaves b bs = if-all (Leaves (length bs)) (b == iac) (after_iac-Leaves bs) (omega arith)

-- A round that is not partial is the same where more data follow.
abbrev pub Extends : Bytes → Round → Round → Type 0
Extends ys partial r = Unit
Extends ys (passed ms rest) r = r ≡ passed ms (rest ++ ys)
Extends ys (escaped rest) r = r ≡ escaped (rest ++ ys)
Extends ys (text c rest) r = r ≡ text c (rest ++ ys)

abbrev Found : Bytes → Option Bytes → Option Bytes → Type 0
Found ys none o = Unit
Found ys (some rest) o = o ≡ some (rest ++ ys)

module _ (ys : Bytes) where
  past_se-Found : (bs : Bytes) → Found ys (past_se bs) (past_se (bs ++ ys))
  unfolding past_se
  past_se-Found [] = tt
  past_se-Found (a ∷ []) = tt
  past_se-Found (a ∷ b ∷ bs) =
      if-both (Found ys) (a == iac && b == se) refl (past_se-Found (b ∷ bs))

  subnegotiation-Extends :
      (o o' : Option Bytes) → Found ys o o' → Extends ys (subnegotiation o) (subnegotiation o')
  subnegotiation-Extends none o' h = tt
  subnegotiation-Extends (some rest) o' h = ap subnegotiation h

  with_option-Extends :
      (cmd : ℕ) (rest : Bytes) → Extends ys (with_option cmd rest) (with_option cmd (rest ++ ys))
  with_option-Extends cmd [] = tt
  with_option-Extends cmd (opt ∷ rest) = refl

  command-Extends :
      (cmd : ℕ) (rest : Bytes) → Extends ys (command cmd rest) (command cmd (rest ++ ys))
  command-Extends cmd rest = if-both (Extends ys) (has_option cmd) (with_option-Extends cmd rest) (
      if-both (Extends ys) (cmd == sb) (subnegotiation-Extends _ _ (past_se-Found rest))
        (if-both (Extends ys) (cmd == iac) refl refl))

  after_iac-Extends : (bs : Bytes) → Extends ys (after_iac bs) (after_iac (bs ++ ys))
  after_iac-Extends [] = tt
  after_iac-Extends (cmd ∷ bs) = command-Extends cmd bs

  pub round-Extends : (b : ℕ) (bs : Bytes) → Extends ys (round b bs) (round b (bs ++ ys))
  unfolding round
  round-Extends b bs = if-both (Extends ys) (b == iac) (after_iac-Extends bs) refl
