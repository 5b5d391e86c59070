-- ===== src/Kex/Agree/Choice.antt =====
-- Which method `agree` picks.
use mshell.Prelude.{
  ◌≡◌, refl, ap, sym, ◌∙◌, subst, Bool, true, false, Option, none, some, List, [], ◌∷◌, ◌++◌, arith,
  if◌then◌else◌, Bytes, bytes_eq, bytes_eq_iff, All, Bool-cases, inl, inr,
}
use mshell.Kex.NameList.{agree_instr}
use mshell.Kex.NameList.Spec.{names, contains, found, IsName}
use mshell.Kex.NameList.Correct.{agree_instr-names}
use mshell.Kex.Agree.{get_method_by_name, by_prefs, by_table, agree, pref_names}

-- The first of a sequence that passes a test, or none of it.
abbrev pub FirstOf : {A : Type 0} → (A → Bool) → List A → Option A → Type 0
FirstOf ok ms none = All (λ x. ok x ≡ false) ms
FirstOf {A} ok ms (some m) =
    (before : List A) × (after : List A) × (ms ≡ before ++ m ∷ after)
    × All (λ x. ok x ≡ false) before
    × (ok m ≡ true)

FirstOf-here :
    {A : Type 0} (ok : A → Bool) (m : A) (ms : List A) → ok m ≡ true → FirstOf ok (m ∷ ms) (some m)
FirstOf-here ok m ms h = ([], ms, refl, tt, h)

FirstOf-later :
    {A : Type 0} (ok : A → Bool) (m : A) (ms : List A) (r : Option A)
    → ok m ≡ false
    → FirstOf ok ms r
    → FirstOf ok (m ∷ ms) r
FirstOf-later ok m ms none h f = (h, f)
FirstOf-later ok m ms (some x) h (before, after, e, skipped, passed) =
    (m ∷ before, after, ap (λ l. m ∷ l) e, (h, skipped), passed)

-- The name is one of the names of the server's list.
abbrev pub Offered : Bytes → Bytes → Type 0
Offered list name = contains name (names list) ≡ true

pub found-Offered :
    (list name : Bytes) → IsName name → found (agree_instr list name) ≡ true → Offered list name
found-Offered list name n h = sym ((agree_instr-names list name n).0) ∙ h

-- The first name of a sequence that the server offers.
unfoldable pub first_offered : Bytes → List Bytes → Option Bytes
first_offered offered [] = none
first_offered offered (n ∷ ns) =
    let rest = first_offered offered ns in if contains n (names offered) then some n else rest

module _ {A : Type 0} (name : A → Bytes) where
  abbrev pub is_offered : Bytes → A → Bool
  is_offered offered m = contains (name m) (names offered)

  -- Without preferences the first method of the table is agreed on whose name is one of the names
  -- of the server's list, and none only if the server's list has none of them.
  agree_default :
      (methods : List A) (offered : Bytes)
      → All (λ m. IsName (name m)) methods
      → FirstOf (is_offered offered) methods (agree name none methods offered)
  unfolding agree
  agree_default [] offered h = tt
  agree_default (m ∷ ms) offered h = elim (Bool-cases (contains (name m) (names offered))) [
    | inl e ↦
        rw ((agree_instr-names offered (name m) (h.0)).0, e)
          (FirstOf-here (is_offered offered) m ms e)
    | inr e ↦
        rw ((agree_instr-names offered (name m) (h.0)).0, e)
          (FirstOf-later (is_offered offered) m ms _ e (agree_default ms offered (h.1)))
  ]

  abbrev pub found_method : List A → Option Bytes → Option A
  found_method methods none = none
  found_method methods (some n) = get_method_by_name name n methods

  by_prefs-first_offered :
      (methods : List A) (offered : Bytes) (ns : List Bytes)
      → All IsName ns
      → by_prefs name methods offered ns ≡ found_method methods (first_offered offered ns)
  unfolding by_prefs first_offered
  by_prefs-first_offered methods offered [] h = refl
  by_prefs-first_offered methods offered (n ∷ ns) h = ground (
    arith,
    (agree_instr-names offered n (h.0)).0,
    by_prefs-first_offered methods offered ns (h.1),
  )

  -- With preferences the method is the one named by the first preferred name that the server's
  -- list has: the server's order does not matter.
  agree_preferred :
      (methods : List A) (offered prefs : Bytes)
      → All IsName (pref_names prefs)
      → agree name (some prefs) methods offered
        ≡ found_method methods (first_offered offered (pref_names prefs))
  unfolding agree
  agree_preferred methods offered prefs h =
      by_prefs-first_offered methods offered (pref_names prefs) h

  pub get_method_by_name_sound :
      (n : Bytes) (ms : List A) (m : A) → get_method_by_name name n ms ≡ some m → name m ≡ n
  unfolding get_method_by_name
  get_method_by_name_sound n [] m h = cc
  get_method_by_name_sound n (x ∷ ms) m h =
      ground (arith, bytes_eq_iff (name x) n, get_method_by_name_sound n ms m)

  abbrev pub AreNames : List A → Type 0
  AreNames methods = All (λ m. IsName (name m)) methods

  pub get_method_by_name-IsName :
      (n : Bytes) (ms : List A) (m : A)
      → AreNames ms
      → get_method_by_name name n ms ≡ some m
      → IsName (name m)
  unfolding get_method_by_name
  get_method_by_name-IsName n [] m k h = cc
  get_method_by_name-IsName n (x ∷ ms) m k h = elim (Bool-cases (bytes_eq (name x) n)) [
    | inl e ↦
        let taken : some x ≡ some m = rw e at h in
        let same : x ≡ m = cc in subst (λ y. IsName (name y)) same (k.0)
    | inr e ↦ get_method_by_name-IsName n ms m (k.1) (rw e at h)
  ]

  -- A method that is looked up by a name that the search finds.
  pub looked_up-Offered :
      (list n : Bytes) (ms : List A) (m : A)
      → AreNames ms
      → get_method_by_name name n ms ≡ some m
      → found (agree_instr list n) ≡ true
      → Offered list (name m)
  looked_up-Offered list n ms m k h e =
      found-Offered list (name m) (get_method_by_name-IsName n ms m k h)
        (rw (get_method_by_name_sound n ms m h) e)

  by_prefs-Offered :
      (methods : List A) (offered : Bytes) (ns : List Bytes) (m : A)
      → AreNames methods
      → by_prefs name methods offered ns ≡ some m
      → Offered offered (name m)
  unfolding by_prefs
  by_prefs-Offered methods offered [] m k h = cc
  by_prefs-Offered methods offered (n ∷ ns) m k h =
      elim (Bool-cases (found (agree_instr offered n))) [
        | inl e ↦
            looked_up-Offered offered n methods m k (unfold get_method_by_name in ground arith) e
        | inr e ↦ by_prefs-Offered methods offered ns m k (ground arith)
      ]

  by_table-Offered :
      (methods : List A) (offered : Bytes) (m : A)
      → AreNames methods
      → by_table name offered methods ≡ some m
      → Offered offered (name m)
  unfolding by_table
  by_table-Offered [] offered m k h = cc
  by_table-Offered (x ∷ ms) offered m k h =
      elim (Bool-cases (found (agree_instr offered (name x)))) [
        | inl e ↦
            let taken : some x ≡ some m = rw e at h in
            let same : x ≡ m = cc in
            subst (λ y. Offered offered (name y)) same (found-Offered offered (name x) (k.0) e)
        | inr e ↦ by_table-Offered ms offered m (k.1) (rw e at h)
      ]

  -- A method that is agreed on has a name that is in the server's list.
  pub agree-Offered :
      (prefs : Option Bytes) (methods : List A) (offered : Bytes) (m : A)
      → AreNames methods
      → agree name prefs methods offered ≡ some m
      → Offered offered (name m)
  unfolding agree
  agree-Offered none methods offered m k h = by_table-Offered methods offered m k h
  agree-Offered (some prefs) methods offered m k h =
      by_prefs-Offered methods offered (pref_names prefs) m k h
