-- ===== src/SshConfig/Connections.antt =====
-- `hosts_to_connections` and `import_ssh_config`: the connections that a list of Host blocks stands
-- for.
use mshell.Prelude.{
  ℕ, Bool, true, not, ◌&&◌, ◌||◌, Option, none, some, List, [], ◌∷◌, ◌++◌, if◌then◌else◌,
}
use mshell.Text.{Text, eq_text, is_empty, trim, contains_char}
use mshell.SshConfig.{PathBuf, SshConfigHost, System, Run, done, and_then, or_else, expand_tilde}
use mshell.SshConfig.Parse.{parse_ssh_config}

-- `passphrase_credential_id` is always `None` here.
pub data AuthMethod : Type 0 where
  certificate : (key_path cert_path : Text) → AuthMethod
  private_key : (path : Text) → AuthMethod
  agent : AuthMethod

-- `Connection`, without the fresh `id` and the fields that are the same for all.
pub record Connection : Type 0 where
  pub name : Text
  pub host : Text
  pub port : ℕ
  pub username : Text
  pub auth : AuthMethod
  pub source_path : PathBuf
  pub host_alias : Text
  pub notes : Option Text

unfoldable pub all_stars : List Text → Bool
all_stars [] = true
all_stars (p ∷ ps) = eq_text p (b'*' ∷ []) && all_stars ps

unfoldable pub is_wildcard_only : List Text → Bool
unfolding all_stars
is_wildcard_only patterns = not (is_empty patterns) && all_stars patterns

abbrev pub nonempty : Option Text → Option Text
nonempty none = none
nonempty (some s) = if is_empty s then none else some s

abbrev pub first_set : Option Text → Option Text → Option Text
first_set none o = o
first_set (some s) o = some s

-- From the environment variables USERNAME and USER. One that is set to nothing hides the other.
unfoldable pub whoami_user : Option Text → Option Text → Option Text
whoami_user username user = nonempty (first_set username user)

-- "root"
abbrev pub root : Text
root = b'r' ∷ b'o' ∷ b'o' ∷ b't' ∷ []

abbrev pub auth_of : Option Text → Option Text → AuthMethod
auth_of (some key) (some cert) = certificate key cert
auth_of (some key) none = private_key key
auth_of none cert = agent

-- "ProxyJump=" before the value
abbrev pub proxy_note : Option Text → List Text
proxy_note none = []
proxy_note (some pj) =
    (b'P' ∷ b'r' ∷ b'o' ∷ b'x' ∷ b'y' ∷ b'J' ∷ b'u' ∷ b'm' ∷ b'p' ∷ b'=' ∷ pj) ∷ []

-- "ForwardAgent=yes"
abbrev pub agent_note : Option Bool → List Text
agent_note (some true) =
    (b'F' ∷ b'o' ∷ b'r' ∷ b'w' ∷ b'a' ∷ b'r' ∷ b'd' ∷ b'A' ∷ b'g' ∷ b'e' ∷ b'n' ∷ b't' ∷ b'=' ∷ b'y'
      ∷ b'e' ∷ b's' ∷ [])
    ∷ []
agent_note _ = []

-- `join("; ")` of a list that is not empty
abbrev pub join : Text → List Text → Text
join n [] = n
join n (m ∷ ms) = n ++ (b';' ∷ 32 ∷ join m ms)

-- `None` if there are no parts
abbrev pub joined_notes : List Text → Option Text
joined_notes [] = none
joined_notes (n ∷ ns) = some (join n ns)

abbrev pub connection_of : Option Text → SshConfigHost → Text → Connection
connection_of whoami h alias = record {
  name = alias;
  host = or_else h.host_name alias;
  port = or_else h.port 22;
  username = or_else h.user (or_else whoami root);
  auth = auth_of h.identity_file h.certificate_file;
  source_path = h.source_path;
  host_alias = alias;
  notes = joined_notes (proxy_note h.proxy_jump ++ agent_note h.forward_agent);
}

abbrev pub is_pattern : Text → Bool
is_pattern alias = contains_char b'*' alias || contains_char b'?' alias

-- The inner loop.
unfoldable pub of_aliases : Option Text → SshConfigHost → List Text → List Connection
unfolding contains_char
of_aliases whoami h [] = []
of_aliases whoami h (alias ∷ aliases) =
    let rest = of_aliases whoami h aliases in
    if is_pattern alias then rest else connection_of whoami h alias ∷ rest

unfoldable pub hosts_to_connections : Option Text → List SshConfigHost → List Connection
unfolding is_wildcard_only of_aliases
hosts_to_connections whoami [] = []
hosts_to_connections whoami (h ∷ hosts) =
    let rest = hosts_to_connections whoami hosts in
    if is_wildcard_only h.patterns then rest else of_aliases whoami h h.patterns ++ rest

-- `resolve_ssh_config_path` for a configured path; `default_path` is `~/.ssh/config`.
unfoldable pub resolve_ssh_config_path : System → PathBuf → Option Text → PathBuf
unfolding trim expand_tilde
resolve_ssh_config_path sys default_path none = default_path
resolve_ssh_config_path sys default_path (some p) =
    if is_empty (trim p) then default_path else expand_tilde sys (trim p)

-- `exists` says whether the path exists.
unfoldable pub import_ssh_config :
    System → (PathBuf → Bool) → PathBuf → Option Text → ℕ → Option Text → Run (List Connection)
unfolding resolve_ssh_config_path parse_ssh_config hosts_to_connections
import_ssh_config sys exists default_path whoami fuel configured_path =
    let path = resolve_ssh_config_path sys default_path configured_path in
    let connections = λ (hosts : List SshConfigHost). done (hosts_to_connections whoami hosts) in
    if exists path then and_then (parse_ssh_config sys fuel path) connections else done []
