-- ===== src/Jump/Ends.antt =====
-- The loop over the jump hosts ends.
use mshell.Prelude.{
  ℕ, zero, suc, ◌+◌, ◌<◌, ◌≡◌, ◌≢◌, true, Option, none, some, List, [], ◌∷◌, ◌==◌, length, arith,
  Bool-cases, Option-cases, inl, inr, ==_iff,
}
use mshell.Prelude.Seen.{contains, unseen, unseen-le, unseen-cons-lt}
use mshell.Jump.{Connection, out_of_fuel, follow, resolve_jump_chain}

-- Every connection that the look-up finds is one of a list.
abbrev pub IsFinite : (ℕ → Option Connection) → List ℕ → Type 0
IsFinite lookup ids = (j : ℕ) (c : Connection) → lookup j ≡ some c → contains ◌==◌ ids j ≡ true

follow-ends :
    (lookup : ℕ → Option Connection) (ids : List ℕ)
    → IsFinite lookup ids
    → (fuel : ℕ) (seen : List ℕ) (current : Option ℕ) (chain_rev : List Connection)
    → unseen ◌==◌ seen ids < fuel
    → follow lookup fuel seen current chain_rev ≢ out_of_fuel
unfolding follow
follow-ends lookup ids f zero seen none chain_rev h = λ e. cc
follow-ends lookup ids f (suc fuel) seen none chain_rev h = λ e. cc
follow-ends lookup ids f zero seen (some j) chain_rev h = absurd (omega arith)
follow-ends lookup ids f (suc fuel) seen (some j) chain_rev h =
    elim (Bool-cases (contains ◌==◌ seen j)) [
      | inl s ↦ rw s (λ e. cc)
      | inr n ↦ rw n (elim (Option-cases (lookup j)) [
        | inl m ↦ rw m (λ e. cc)
        | inr (c, m) ↦ rw m (
            follow-ends lookup ids f fuel (j ∷ seen) c.jump_host (c ∷ chain_rev)
              (omega (arith, unseen-cons-lt ◌==◌ ==_iff j seen ids n (f j c m))))
      ])
    ]

-- Over a store of finitely many connections, one round more than these is enough: the chain, a
-- cycle or a missing connection is found.
pub resolve_jump_chain-ends :
    (lookup : ℕ → Option Connection) (ids : List ℕ) (target : Connection)
    → IsFinite lookup ids
    → resolve_jump_chain lookup (length ids + 1) target ≢ out_of_fuel
unfolding resolve_jump_chain
resolve_jump_chain-ends lookup ids target f =
    follow-ends lookup ids f (length ids + 1) (target.id ∷ []) target.jump_host (target ∷ [])
      (omega (arith, unseen-le ◌==◌ (target.id ∷ []) ids))
