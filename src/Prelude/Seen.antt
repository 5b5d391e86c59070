-- ===== src/Prelude/Seen.antt =====
-- Lists of what has been seen, for any type with a test of equality.
use Prim.Native.Nat.{ℕ, ◌+◌, ◌≤◌, ◌<◌}
use mathlib.Core.Path.{◌≡◌, refl, sym, subst}
use mathlib.Core.Logic.{◌≢◌, ◌↔◌, inl, inr}
use mathlib.Core.Bool.{Bool, true, false}
use mathlib.Core.List.{List, [], ◌∷◌}
use native.Mathlib.Omega.{arith}
use mshell.Prelude.Tests.{if◌then◌else◌, Bool-cases}
use mshell.Prelude.Lists.{length}

module _ {ℓ} {A : Type ℓ} (eq : A → A → Bool) where
  unfoldable pub contains : List A → A → Bool
  contains [] x = false
  contains (s ∷ seen) x = let rest = contains seen x in if eq s x then true else rest

  -- How many of the elements of a list have not been seen.
  unfoldable pub unseen : List A → List A → ℕ
  unseen seen [] = 0
  unseen seen (x ∷ xs) = let rest = unseen seen xs in if contains seen x then rest else rest + 1

  pub unseen-le : (seen xs : List A) → unseen seen xs ≤ length xs
  unfolding unseen
  unseen-le seen [] = omega arith
  unseen-le seen (x ∷ xs) = ground (arith, unseen-le seen xs)

  contains-cons :
      (s : A) (seen : List A) (x : A) → contains seen x ≡ true → contains (s ∷ seen) x ≡ true
  unfolding contains
  contains-cons s seen x h = ground arith

  pub unseen-cons-le : (s : A) (seen xs : List A) → unseen (s ∷ seen) xs ≤ unseen seen xs
  unfolding unseen
  unseen-cons-le s seen [] = omega arith
  unseen-cons-le s seen (x ∷ xs) = ground (arith, unseen-cons-le s seen xs, contains-cons s seen x)

  contains-nil : (x : A) → contains [] x ≢ true
  unfolding contains
  contains-nil x e = cc

  contains-tail :
      (x : A) (xs : List A) (s : A)
      → eq x s ≡ false
      → contains (x ∷ xs) s ≡ true
      → contains xs s ≡ true
  unfolding contains
  contains-tail x xs s q = rw q (λ m. m)

  module _ (eq_iff : (x y : A) → (eq x y ≡ true) ↔ (x ≡ y)) where
    contains-head : (s : A) (seen : List A) → contains (s ∷ seen) s ≡ true
    unfolding contains
    contains-head s seen = rw ((eq_iff s s).1 refl) refl

    pub unseen-cons-lt :
        (s : A) (seen xs : List A)
        → contains seen s ≡ false
        → contains xs s ≡ true
        → unseen (s ∷ seen) xs < unseen seen xs
    unfolding unseen
    unseen-cons-lt s seen [] h m = absurd (contains-nil s m)
    unseen-cons-lt s seen (x ∷ xs) h m = elim (Bool-cases (eq x s)) [
      | inl q ↦
          let same = (eq_iff x s).0 q in
          let old : contains seen x ≡ false = subst (λ k. contains seen k ≡ false) (sym same) h in
          let new : contains (s ∷ seen) x ≡ true =
            subst (λ k. contains (s ∷ seen) k ≡ true) (sym same) (contains-head s seen) in
          ground (arith, old, new, unseen-cons-le s seen xs)
      | inr q ↦
          ground
            (arith, contains-cons s seen x, unseen-cons-lt s seen xs h (contains-tail x xs s q m))
    ]
