-- ===== src/Kex/NameList/Spec.antt =====
-- A comma-separated list as the list of its names.
use mshell.Prelude.{
  Bool, false, ◌||◌, Option, List, [], ◌∷◌, ◌==◌, if◌then◌else◌, Bytes, bytes_eq, none, some, ◌≡◌,
  ◌≢◌,
}

unfoldable pub first_name : Bytes → Bytes
first_name [] = []
first_name (c ∷ cs) = let rest = first_name cs in if c == b',' then [] else c ∷ rest

-- The name behind each comma.
unfoldable pub later_names : Bytes → List Bytes
later_names [] = []
later_names (c ∷ cs) = let rest = later_names cs in if c == b',' then first_name cs ∷ rest else rest

abbrev pub names : Bytes → List Bytes
names cs = first_name cs ∷ later_names cs

unfoldable pub contains : Bytes → List Bytes → Bool
contains n [] = false
contains n (m ∷ ms) = bytes_eq n m || contains n ms

abbrev pub found {ℓ} : {A : Type ℓ} → Option A → Bool
found none = false
found (some a) = Bool.true

-- The name has a byte, and no comma.
abbrev pub LacksComma : Bytes → Type 0
LacksComma [] = Unit
LacksComma (c ∷ cs) = ((c == b',') ≡ false) × LacksComma cs

pub record IsName (n : Bytes) : Type 0 where
  pub filled : n ≢ []
  pub lacks : LacksComma n
