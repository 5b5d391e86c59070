-- ===== src/SshConfig/Imported.antt =====
-- Which connections an import gives, field by field.
use mshell.Prelude.{
  ℕ, ◌≡◌, ◌≢◌, ◌⊎◌, ◌==◌, ==_iff, All, arith, refl, sym, ap, subst, ◌∙◌, true, false, Option, none,
  some, List, [], ◌∷◌, ◌++◌, map, Bool-cases, inl, inr,
}
use mshell.Text.{Text, contains_char}
use mshell.SshConfig.{SshConfigHost, or_else}
use mshell.SshConfig.Connections.{
  root, auth_of, agent, private_key, certificate, Connection, connection_of, is_pattern,
  hosts_to_connections,
}
use mshell.SshConfig.Aliases.{all_aliases, concrete, connect, hosts_to_connections-concrete}

-- Which aliases are patterns.
abbrev pub IsWildcard : Text → Type 0
IsWildcard alias =
    (before : Text) × (c : ℕ) × (after : Text) × (alias ≡ before ++ (c ∷ after))
    × ((c ≡ b'*') ⊎ (c ≡ b'?'))

abbrev pub IsConcrete : Text → Type 0
IsConcrete alias = All (λ c. (c ≢ b'*') × (c ≢ b'?')) alias

-- A connection for an alias of a block: what the block sets, or else the alias, port 22, and the user
-- who imports or "root"; a certificate counts only with a key.
pub record IsFrom (whoami : Option Text) (h : SshConfigHost) (alias : Text) (c : Connection)
    : Type 0 where
  pub name : c.name ≡ alias
  pub set_host : (v : Text) → h.host_name ≡ some v → c.host ≡ v
  pub own_host : h.host_name ≡ none → c.host ≡ alias
  pub set_port : (n : ℕ) → h.port ≡ some n → c.port ≡ n
  pub default_port : h.port ≡ none → c.port ≡ 22
  pub set_user : (v : Text) → h.user ≡ some v → c.username ≡ v
  pub current_user : (v : Text) → h.user ≡ none → whoami ≡ some v → c.username ≡ v
  pub no_user : h.user ≡ none → whoami ≡ none → c.username ≡ root
  pub no_key : h.identity_file ≡ none → c.auth ≡ agent
  pub key_alone :
      (v : Text) → h.identity_file ≡ some v → h.certificate_file ≡ none → c.auth ≡ private_key v
  pub key_and_certificate :
      (v w : Text)
      → h.identity_file ≡ some v
      → h.certificate_file ≡ some w
      → c.auth ≡ certificate v w
  pub source : c.source_path ≡ h.source_path

-- The connections for a sequence of aliases, in its order.
pub data IsImported (whoami : Option Text)
    : List (SshConfigHost × Text) → List Connection → Type 0 where
  nothing : IsImported whoami [] []
  pattern_ :
      {h : SshConfigHost} {alias : Text} {as_ : List (SshConfigHost × Text)} {cs : List Connection}
      → IsWildcard alias
      → IsImported whoami as_ cs
      → IsImported whoami ((h, alias) ∷ as_) cs
  connection :
      {h : SshConfigHost} {alias : Text} {as_ : List (SshConfigHost × Text)} {c : Connection}
      {cs : List Connection}
      → IsConcrete alias
      → IsFrom whoami h alias c
      → IsImported whoami as_ cs
      → IsImported whoami ((h, alias) ∷ as_) (c ∷ cs)

contains_char-split :
    (x : ℕ) (t : Text)
    → contains_char x t ≡ true
    → (before : Text) × (after : Text) × (t ≡ before ++ (x ∷ after))
unfolding contains_char
contains_char-split x [] h = cc
contains_char-split x (c ∷ cs) h = elim (Bool-cases (c == x)) [
  | inl e ↦ ([], cs, ap (λ k. k ∷ cs) ((==_iff c x).0 e))
  | inr e ↦
      let (before, after, p) = contains_char-split x cs (rw e at h) in
      (c ∷ before, after, ap (λ l. c ∷ l) p)
]

contains_char-none :
    (t : Text) → contains_char b'*' t ≡ false → contains_char b'?' t ≡ false → IsConcrete t
unfolding contains_char
contains_char-none [] h k = tt
contains_char-none (c ∷ cs) h k = ground (arith, contains_char-none cs)

connection_of-IsFrom :
    (whoami : Option Text) (h : SshConfigHost) (alias : Text)
    → IsFrom whoami h alias (connection_of whoami h alias)
connection_of-IsFrom whoami h alias = record {
  name = refl;
  set_host = λ v e. ap (λ o. or_else o alias) e;
  own_host = λ e. ap (λ o. or_else o alias) e;
  set_port = λ n e. ap (λ o. or_else o 22) e;
  default_port = λ e. ap (λ o. or_else o 22) e;
  set_user = λ v e. ap (λ o. or_else o (or_else whoami root)) e;
  current_user = λ v e f. ap (λ o. or_else o (or_else whoami root)) e ∙ ap (λ o. or_else o root) f;
  no_user = λ e f. ap (λ o. or_else o (or_else whoami root)) e ∙ ap (λ o. or_else o root) f;
  no_key = λ e. ap (λ o. auth_of o h.certificate_file) e;
  key_alone = λ v e f. ap (λ o. auth_of o h.certificate_file) e ∙ ap (auth_of (some v)) f;
  key_and_certificate =
      λ v w e f. ap (λ o. auth_of o h.certificate_file) e ∙ ap (auth_of (some v)) f;
  source = refl;
}

is_pattern-IsWildcard : (alias : Text) → is_pattern alias ≡ true → IsWildcard alias
is_pattern-IsWildcard alias h = elim (Bool-cases (contains_char b'*' alias)) [
  | inl e ↦
      let (before, after, p) = contains_char-split b'*' alias e in
      (before, b'*', after, p, inl refl)
  | inr e ↦
      let (before, after, p) = contains_char-split b'?' alias (rw e at h) in
      (before, b'?', after, p, inr refl)
]

not_pattern-IsConcrete : (alias : Text) → is_pattern alias ≡ false → IsConcrete alias
not_pattern-IsConcrete alias h = elim (Bool-cases (contains_char b'*' alias)) [
  | inl e ↦ absurd (cc (rw e at h))
  | inr e ↦ contains_char-none alias e (rw e at h)
]

concrete-IsImported :
    (whoami : Option Text) (as_ : List (SshConfigHost × Text))
    → IsImported whoami as_ (map (connect whoami) (concrete as_))
unfolding concrete
concrete-IsImported whoami [] = nothing
concrete-IsImported whoami ((h, alias) ∷ as_) = elim (Bool-cases (is_pattern alias)) [
  | inl e ↦ rw e (pattern_ (is_pattern-IsWildcard alias e) (concrete-IsImported whoami as_))
  | inr e ↦ rw e (
      connection (not_pattern-IsConcrete alias e) (connection_of-IsFrom whoami h alias)
        (concrete-IsImported whoami as_))
]

-- For the aliases of all blocks in the order of the file, an import has a connection for each alias
-- without `*` and `?`, in that order, and for no other: named as the alias, to the block's HostName
-- or else the alias, at its Port or 22, as its User or else the user who imports or "root", with its
-- key and certificate, its key alone, or the agent where it names no key.
pub hosts_to_connections-IsImported :
    (whoami : Option Text) (hosts : List SshConfigHost)
    → IsImported whoami (all_aliases hosts) (hosts_to_connections whoami hosts)
hosts_to_connections-IsImported whoami hosts =
    subst (IsImported whoami (all_aliases hosts)) (sym (hosts_to_connections-concrete whoami hosts))
      (concrete-IsImported whoami (all_aliases hosts))
