-- ===== src/Jump/Route.antt =====
-- What a chain is.
use mshell.Prelude.{
  ◌==◌, ℕ, zero, suc, ◌≡◌, refl, sym, ap, subst, ◌∙◌, false, Option, none, some, List, [], ◌∷◌,
  ◌++◌, map, Bool-cases, Option-cases, inl, inr,
}
use mshell.Prelude.Seen.{contains}
use mshell.Jump.{Connection, chain, follow, resolve_jump_chain}

chain-inj : (a b : List Connection) → chain a ≡ chain b → a ≡ b
chain-inj a b e = cc

contains-empty : (i : ℕ) → contains ◌==◌ [] i ≡ false
unfolding contains
contains-empty i = refl

abbrev pub ids_of : List Connection → List ℕ
ids_of cs = map (λ c. c.id) cs

-- No connection twice.
abbrev pub IsDistinct : List Connection → Type 0
IsDistinct [] = Unit
IsDistinct (c ∷ cs) = (contains ◌==◌ (ids_of cs) c.id ≡ false) × IsDistinct cs

abbrev pub starts : List Connection → Option ℕ
starts [] = none
starts (c ∷ cs) = c.jump_host

module _ (lookup : ℕ → Option Connection) where
  abbrev pub IsHop : Connection → List Connection → Type 0
  IsHop c [] = Unit
  IsHop c (d ∷ ds) = (d.jump_host ≡ some c.id) × (lookup c.id ≡ some c)

  -- Each connection is the jump host of the next one.
  abbrev pub IsLinked : List Connection → Type 0
  IsLinked [] = Unit
  IsLinked (c ∷ cs) = IsHop c cs × IsLinked cs

  -- From a connection that needs none to the target.
  pub record IsRoute (target : Connection) (cs : List Connection) : Type 0 where
    pub direct : starts cs ≡ none
    pub linked : IsLinked cs
    pub distinct : IsDistinct cs
    pub last : (before : List Connection) × (cs ≡ before ++ (target ∷ []))

  -- A chain that is not finished: everything but that it starts with a direct connection.
  record IsPart (target : Connection) (cs : List Connection) : Type 0 where
    linked : IsLinked cs
    distinct : IsDistinct cs
    last : (before : List Connection) × (cs ≡ before ++ (target ∷ []))

  IsLinked-cons :
      (c : Connection) (cs : List Connection) (j : ℕ)
      → lookup j ≡ some c
      → c.id ≡ j
      → some j ≡ starts cs
      → IsLinked cs
      → IsLinked (c ∷ cs)
  IsLinked-cons c [] j l e s h = (tt, h)
  IsLinked-cons c (d ∷ cs) j l e s h =
      ((sym s ∙ ap some (sym e), subst (λ k. lookup k ≡ some c) (sym e) l), h)

  IsPart-cons :
      (target c : Connection) (cs : List Connection) (j : ℕ)
      → lookup j ≡ some c
      → c.id ≡ j
      → contains ◌==◌ (ids_of cs) j ≡ false
      → some j ≡ starts cs
      → IsPart target cs
      → IsPart target (c ∷ cs)
  IsPart-cons target c cs j l e n s h = record {
    linked = IsLinked-cons c cs j l e s h.linked;
    distinct = (subst (λ k. contains ◌==◌ (ids_of cs) k ≡ false) (sym e) n, h.distinct);
    last = (c ∷ (h.last.0), ap (λ ds. c ∷ ds) (h.last.1));
  }

  -- The look-up gives the connection that was asked for.
  abbrev pub IsExact : Type 0
  IsExact = (j : ℕ) (c : Connection) → lookup j ≡ some c → c.id ≡ j

  follow-IsRoute :
      (target : Connection)
      → IsExact
      → (fuel : ℕ) (current : Option ℕ) (cs out : List Connection) → current ≡ starts cs
      → IsPart target cs
      → follow lookup fuel (ids_of cs) current cs ≡ chain out
      → IsRoute target out
  unfolding follow
  follow-IsRoute target x zero none cs out s h = λ e.
      subst (IsRoute target) (chain-inj cs out e)
        (record { direct = sym s; linked = h.linked; distinct = h.distinct; last = h.last })
  follow-IsRoute target x (suc fuel) none cs out s h = λ e.
      subst (IsRoute target) (chain-inj cs out e)
        (record { direct = sym s; linked = h.linked; distinct = h.distinct; last = h.last })
  follow-IsRoute target x zero (some j) cs out s h = λ e. cc
  follow-IsRoute target x (suc fuel) (some j) cs out s h =
      elim (Bool-cases (contains ◌==◌ (ids_of cs) j)) [
        | inl q ↦ rw q (λ e. cc)
        | inr n ↦ rw n (elim (Option-cases (lookup j)) [
          | inl m ↦ rw m (λ e. cc)
          | inr (c, m) ↦ rw m (λ e.
              follow-IsRoute target x fuel c.jump_host (c ∷ cs) out refl
                (IsPart-cons target c cs j m (x j c m) n s h)
                (ap (λ k. follow lookup fuel (k ∷ ids_of cs) c.jump_host (c ∷ cs)) (x j c m) ∙ e))
        ])
      ]

-- A chain that is returned goes from a connection that needs no jump host, each one the jump host of
-- the next, none twice, to the target; the look-up gives the connections that it is asked for.
pub resolve_jump_chain-IsRoute :
    (lookup : ℕ → Option Connection) (fuel : ℕ) (target : Connection) (cs : List Connection)
    → IsExact lookup
    → resolve_jump_chain lookup fuel target ≡ chain cs
    → IsRoute lookup target cs
unfolding resolve_jump_chain
resolve_jump_chain-IsRoute lookup fuel target cs x e =
    follow-IsRoute lookup target x fuel target.jump_host (target ∷ []) cs refl
      (record { linked = (tt, tt); distinct = (contains-empty target.id, tt); last = ([], refl) }) e
