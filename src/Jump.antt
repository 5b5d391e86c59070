-- ===== src/Jump.antt =====
-- crates/ssh-core/src/jump.rs: the connections that a session goes through to its target.
pub mod Route
pub mod Ends
mod Tests
use mshell.Prelude.{
  ℕ, zero, suc, Bool, true, false, Option, none, some, List, [], ◌∷◌, ◌++◌, ◌==◌, if◌then◌else◌,
}
use mshell.Prelude.Seen.{contains}

-- `Connection`, as far as the chain goes; a `Uuid` is its number.
pub record Connection : Type 0 where
  pub id : ℕ
  pub jump_host : Option ℕ

-- `Ok` with the chain, or the message of `CoreError::Other` with its identifier. `out_of_fuel` is
-- the model's own.
pub data Outcome : Type 0 where
  chain : List Connection → Outcome
  cycle : ℕ → Outcome
  not_found : ℕ → Outcome
  out_of_fuel : Outcome

-- The `while` loop, `chain_rev` with its last element first. `next` continues it.
abbrev pub after_lookup :
    (Option ℕ → List Connection → Outcome) → ℕ → List Connection → Option Connection → Outcome
after_lookup next jump_id chain_rev none = not_found jump_id
after_lookup next jump_id chain_rev (some jump) = next jump.jump_host (jump ∷ chain_rev)

unfoldable pub follow : (ℕ → Option Connection) → ℕ → List ℕ → Option ℕ → List Connection → Outcome
follow lookup fuel seen none chain_rev = chain chain_rev
follow lookup zero seen (some jump_id) chain_rev = out_of_fuel
follow lookup (suc fuel) seen (some jump_id) chain_rev =
    let next = follow lookup fuel (jump_id ∷ seen) in
    if contains ◌==◌ seen jump_id
    then cycle jump_id
    else after_lookup next jump_id chain_rev (lookup jump_id)

-- The list starts with its last element in `chain_rev`, so `chain_rev.reverse()` leaves it as it is.
unfoldable pub resolve_jump_chain : (ℕ → Option Connection) → ℕ → Connection → Outcome
unfolding follow
resolve_jump_chain lookup fuel target =
    follow lookup fuel (target.id ∷ []) target.jump_host (target ∷ [])
