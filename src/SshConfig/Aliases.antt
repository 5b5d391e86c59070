-- ===== src/SshConfig/Aliases.antt =====
-- Which connections an import gives.
use mshell.Prelude.{
  ◌≡◌, refl, sym, ap, subst, ◌∙◌, true, ◌&&◌, Option, List, [], ◌∷◌, ◌++◌, map, if◌then◌else◌,
  Bool-cases, inl, inr, bytes_eq_iff,
}
use mshell.Text.{Text, eq_text, contains_char}
use mshell.SshConfig.{SshConfigHost}
use mshell.SshConfig.Connections.{
  Connection, all_stars, is_wildcard_only, connection_of, is_pattern, of_aliases,
  hosts_to_connections,
}

-- Every alias of every block, with its block.
unfoldable pub aliases_of : SshConfigHost → List Text → List (SshConfigHost × Text)
aliases_of h [] = []
aliases_of h (alias ∷ aliases) = (h, alias) ∷ aliases_of h aliases

unfoldable pub all_aliases : List SshConfigHost → List (SshConfigHost × Text)
unfolding aliases_of
all_aliases [] = []
all_aliases (h ∷ hosts) = aliases_of h h.patterns ++ all_aliases hosts

unfoldable pub concrete : List (SshConfigHost × Text) → List (SshConfigHost × Text)
concrete [] = []
concrete ((h, alias) ∷ as_) =
    let rest = concrete as_ in if is_pattern alias then rest else (h, alias) ∷ rest

abbrev pub connect : Option Text → SshConfigHost × Text → Connection
connect whoami (h, alias) = connection_of whoami h alias

concrete-append :
    (xs ys : List (SshConfigHost × Text)) → concrete (xs ++ ys) ≡ concrete xs ++ concrete ys
unfolding concrete
concrete-append [] ys = refl
concrete-append ((h, alias) ∷ xs) ys = elim (Bool-cases (is_pattern alias)) [
  | inl p ↦ rw p (concrete-append xs ys)
  | inr n ↦ rw n (ap (λ t. (h, alias) ∷ t) (concrete-append xs ys))
]

map_append {ℓ κ} :
    {A : Type ℓ} {B : Type κ} (f : A → B) (xs ys : List A) → map f (xs ++ ys) ≡ map f xs ++ map f ys
map_append f [] ys = refl
map_append f (x ∷ xs) ys = ap (λ t. f x ∷ t) (map_append f xs ys)

star-is_pattern : (p : Text) → eq_text p (b'*' ∷ []) ≡ true → is_pattern p ≡ true
unfolding contains_char
star-is_pattern p q = subst (λ t. is_pattern t ≡ true) (sym ((bytes_eq_iff p _).0 q)) refl

module _ (whoami : Option Text) where
  of_aliases-concrete :
      (h : SshConfigHost) (aliases : List Text)
      → of_aliases whoami h aliases ≡ map (connect whoami) (concrete (aliases_of h aliases))
  unfolding of_aliases concrete aliases_of
  of_aliases-concrete h [] = refl
  of_aliases-concrete h (alias ∷ aliases) = elim (Bool-cases (is_pattern alias)) [
    | inl p ↦ rw p (of_aliases-concrete h aliases)
    | inr n ↦ rw n (ap (λ t. connection_of whoami h alias ∷ t) (of_aliases-concrete h aliases))
  ]

  -- A block that is skipped has no concrete alias.
  of_aliases-stars :
      (h : SshConfigHost) (ps : List Text) → all_stars ps ≡ true → of_aliases whoami h ps ≡ []
  unfolding of_aliases all_stars
  of_aliases-stars h [] s = refl
  of_aliases-stars h (p ∷ ps) s = elim (Bool-cases (eq_text p (b'*' ∷ []))) [
    | inl q ↦
        rw (star-is_pattern p q)
          (of_aliases-stars h ps (subst (λ b. (b && all_stars ps) ≡ true) q s))
    | inr n ↦ absurd (cc (subst (λ b. (b && all_stars ps) ≡ true) n s))
  ]

  wildcard_only-stars : (ps : List Text) → is_wildcard_only ps ≡ true → all_stars ps ≡ true
  unfolding is_wildcard_only
  wildcard_only-stars [] s = cc
  wildcard_only-stars (p ∷ ps) s = s

  skipped :
      (h : SshConfigHost) (hosts : List SshConfigHost)
      → (is_wildcard_only h.patterns ≡ true → of_aliases whoami h h.patterns ≡ [])
      → hosts_to_connections whoami (h ∷ hosts)
        ≡ of_aliases whoami h h.patterns ++ hosts_to_connections whoami hosts
  unfolding hosts_to_connections
  skipped h hosts wild = elim (Bool-cases (is_wildcard_only h.patterns)) [
    | inl q ↦ rw q (ap (λ t. t ++ hosts_to_connections whoami hosts) (sym (wild q)))
    | inr n ↦ rw n refl
  ]

  -- The test for blocks that are only `*` takes nothing away.
  pub hosts_to_connections-concrete :
      (hosts : List SshConfigHost)
      → hosts_to_connections whoami hosts ≡ map (connect whoami) (concrete (all_aliases hosts))
  unfolding hosts_to_connections all_aliases concrete
  hosts_to_connections-concrete [] = refl
  hosts_to_connections-concrete (h ∷ hosts) =
      skipped h hosts (λ q. of_aliases-stars h h.patterns (wildcard_only-stars h.patterns q))
      ∙ ap (λ t. t ++ hosts_to_connections whoami hosts) (of_aliases-concrete h h.patterns)
      ∙ ap (λ t. map (connect whoami) (concrete (aliases_of h h.patterns)) ++ t)
          (hosts_to_connections-concrete hosts)
      ∙ sym (
          ap (map (connect whoami)) (concrete-append (aliases_of h h.patterns) (all_aliases hosts))
          ∙ map_append (connect whoami) (concrete (aliases_of h h.patterns))
              (concrete (all_aliases hosts)))
