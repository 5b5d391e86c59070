-- ===== src/Store/Secrets.antt =====
-- `check_no_raw_password`: the test on the text before it is written.
use mshell.Prelude.{
  ℕ, zero, suc, ◌≡◌, refl, subst, Bool, true, false, ◌&&◌, not, Option, none, some, List, [], ◌∷◌,
  if◌then◌else◌, Bool-cases, Option-cases, inl, inr,
}
use mshell.Text.{Text, eq_text}

-- `serde_json::Value`; the values that hold no others are one here.
mutual
  pub data Json : Type 0 where
    scalar : Json
    array : Items → Json
    object : Fields → Json

  pub data Items : Type 0 where
    no_items : Items
    item : Json → Items → Items

  pub data Fields : Type 0 where
    no_fields : Fields
    field : (key : Text) → Json → Fields → Fields

abbrev pub password : Text
password = b'p' ∷ b'a' ∷ b's' ∷ b's' ∷ b'w' ∷ b'o' ∷ b'r' ∷ b'd' ∷ []

-- Whether the walk returns `Ok`.
unfoldable mutual
  pub walk_no_raw_password : Json → Bool
  walk_no_raw_password scalar = true
  walk_no_raw_password (array xs) = walk_items xs
  walk_no_raw_password (object fs) = walk_fields fs

  pub walk_items : Items → Bool
  walk_items no_items = true
  walk_items (item x xs) = walk_no_raw_password x && walk_items xs

  pub walk_fields : Fields → Bool
  walk_fields no_fields = true
  walk_fields (field k v fs) = not (eq_text k password) && walk_no_raw_password v && walk_fields fs

-- A text that does not parse passes.
unfoldable pub check_no_raw_password : Option Json → Bool
unfolding walk_no_raw_password
check_no_raw_password none = true
check_no_raw_password (some value) = walk_no_raw_password value

-- A place in a value: an index of an array or a key of an object, one below the other.
pub data Step : Type 0 where
  index : ℕ → Step
  key_of : Text → Step

unfoldable pub nth : Items → ℕ → Option Json
nth no_items i = none
nth (item x xs) zero = some x
nth (item x xs) (suc i) = nth xs i

unfoldable pub value_of : Fields → Text → Option Json
value_of no_fields key = none
value_of (field k v fs) key = let rest = value_of fs key in if eq_text k key then some v else rest

abbrev pub child : Json → Step → Option Json
child (array xs) (index i) = nth xs i
child (object fs) (key_of k) = value_of fs k
child _ _ = none

abbrev pub below : (Json → Option Json) → Option Json → Option Json
below f none = none
below f (some v) = f v

unfoldable pub at : List Step → Json → Option Json
at [] v = some v
at (s ∷ path) v = below (at path) (child v s)

-- Wherever one looks, there is no field "password".
abbrev pub IsClean : Json → Type 0
IsClean v = (path : List Step) (w : Json) → at path v ≡ some w → child w (key_of password) ≡ none

both : (a b : Bool) → (a && b) ≡ true → (a ≡ true) × (b ≡ true)
both true b h = (refl, h)
both false b h = cc

nth-walk :
    (xs : Items) (i : ℕ) (v : Json)
    → walk_items xs ≡ true
    → nth xs i ≡ some v
    → walk_no_raw_password v ≡ true
unfolding nth walk_no_raw_password
nth-walk no_items i v h e = cc
nth-walk (item x xs) zero v h e = cc ((both (walk_no_raw_password x) (walk_items xs) h).0, e)
nth-walk (item x xs) (suc i) v h e =
    nth-walk xs i v ((both (walk_no_raw_password x) (walk_items xs) h).1) e

field-walk :
    (k : Text) (v : Json) (fs : Fields)
    → walk_fields (field k v fs) ≡ true
    → (eq_text k password ≡ false) × (walk_no_raw_password v ≡ true) × (walk_fields fs ≡ true)
unfolding walk_no_raw_password
field-walk k v fs h = elim (Bool-cases (eq_text k password)) [
  | inl q ↦
      absurd (cc (subst (λ b. ((not b && walk_no_raw_password v) && walk_fields fs) ≡ true) q h))
  | inr q ↦
      let rest : ((true && walk_no_raw_password v) && walk_fields fs) ≡ true =
        subst (λ b. ((not b && walk_no_raw_password v) && walk_fields fs) ≡ true) q h in
      let parts = both (walk_no_raw_password v) (walk_fields fs) rest in (q, parts.0, parts.1)
]

value_of-walk :
    (fs : Fields) (key : Text) (v : Json)
    → walk_fields fs ≡ true
    → value_of fs key ≡ some v
    → walk_no_raw_password v ≡ true
unfolding value_of
value_of-walk no_fields key v h e = cc
value_of-walk (field k x fs) key v h e =
    let (q, here, rest) = field-walk k x fs h in
    elim (Bool-cases (eq_text k key)) [
      | inl same ↦ cc (here, subst (λ b. (if b then some x else value_of fs key) ≡ some v) same e)
      | inr other ↦
          value_of-walk fs key v rest
            (subst (λ b. (if b then some x else value_of fs key) ≡ some v) other e)
    ]

value_of-password : (fs : Fields) → walk_fields fs ≡ true → value_of fs password ≡ none
unfolding value_of
value_of-password no_fields h = refl
value_of-password (field k x fs) h =
    let (q, here, rest) = field-walk k x fs h in rw q (value_of-password fs rest)

child-walk :
    (v w : Json) (s : Step)
    → walk_no_raw_password v ≡ true
    → child v s ≡ some w
    → walk_no_raw_password w ≡ true
unfolding walk_no_raw_password
child-walk (array xs) w (index i) h e = nth-walk xs i w h e
child-walk (object fs) w (key_of k) h e = value_of-walk fs k w h e
child-walk scalar w (index i) h e = cc
child-walk scalar w (key_of k) h e = cc
child-walk (array xs) w (key_of k) h e = cc
child-walk (object fs) w (index i) h e = cc

child-password : (v : Json) → walk_no_raw_password v ≡ true → child v (key_of password) ≡ none
unfolding walk_no_raw_password
child-password scalar h = refl
child-password (array xs) h = refl
child-password (object fs) h = value_of-password fs h

at-walk :
    (path : List Step) (v w : Json)
    → walk_no_raw_password v ≡ true
    → at path v ≡ some w
    → walk_no_raw_password w ≡ true
unfolding at
at-walk [] v w h e = cc
at-walk (s ∷ path) v w h e = elim (Option-cases (child v s)) [
  | inl n ↦ absurd (cc (subst (λ o. below (at path) o ≡ some w) n e))
  | inr (u, m) ↦
      at-walk path u w (child-walk v u s h m) (subst (λ o. below (at path) o ≡ some w) m e)
]

pub check-IsClean : (v : Json) → check_no_raw_password (some v) ≡ true → IsClean v
unfolding check_no_raw_password
check-IsClean v h path w e = child-password w (at-walk path v w h e)
