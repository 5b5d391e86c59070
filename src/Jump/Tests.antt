-- ===== src/Jump/Tests.antt =====
-- A target behind two jump hosts, and two connections that go through each other.
use mshell.Prelude.{
  ℕ, ◌+◌, ◌≡◌, ◌≢◌, refl, Option, none, some, List, [], ◌∷◌, ◌==◌, if◌then◌else◌, arith, length,
}
use mshell.Prelude.Seen.{contains}
use mshell.Jump.{Connection, chain, cycle, out_of_fuel, follow, resolve_jump_chain}
use mshell.Jump.Ends.{IsFinite, resolve_jump_chain-ends}
use mshell.Jump.Route.{IsExact, IsRoute, resolve_jump_chain-IsRoute}

abbrev conn : ℕ → Option ℕ → Connection
conn id jump = record { id = id; jump_host = jump }

abbrev lookup : ℕ → Option Connection
lookup id = if id == 1 then some (conn 1 none) else if id == 2 then some (conn 2 (some 1)) else none

abbrev target : Connection
target = conn 3 (some 2)

abbrev ids : List ℕ
ids = 1 ∷ 2 ∷ []

lookup-IsFinite : IsFinite lookup ids
unfolding contains
lookup-IsFinite j c h = ground arith

lookup-IsExact : IsExact lookup
lookup-IsExact j c h = ground arith

resolves : resolve_jump_chain lookup 3 target ≡ chain (conn 1 none ∷ conn 2 (some 1) ∷ target ∷ [])
unfolding resolve_jump_chain follow contains
resolves = refl

resolve_jump_chain-ends_example : resolve_jump_chain lookup (length ids + 1) target ≢ out_of_fuel
resolve_jump_chain-ends_example = resolve_jump_chain-ends lookup ids target lookup-IsFinite

resolve_jump_chain-IsRoute_example :
    IsRoute lookup target (conn 1 none ∷ conn 2 (some 1) ∷ target ∷ [])
resolve_jump_chain-IsRoute_example =
    resolve_jump_chain-IsRoute lookup 3 target _ lookup-IsExact resolves

finds_the_cycle : resolve_jump_chain (λ id. some (conn id (some 3))) 9 target ≡ cycle 3
unfolding resolve_jump_chain follow contains
finds_the_cycle = refl
