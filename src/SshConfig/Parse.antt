-- ===== src/SshConfig/Parse.antt =====
-- `parse_ssh_config`: the Host blocks of a file and of the files that it includes.
use mshell.Prelude.{ℕ, zero, suc, Option, none, some, List, [], ◌∷◌, ◌++◌, if◌then◌else◌}
use mshell.Prelude.Seen.{contains}
use mshell.Text.{
  Text, eq_text, is_empty, trim, lines, split_whitespace, to_ascii_lowercase, parse_u16,
}
use mshell.SshConfig.{
  PathBuf, SshConfigHost, System, Run, done, failed, out_of_fuel, and_then, or_else, expand_tilde,
  included, strip_comment, split_key_value, parse_yes_no,
}

-- The keywords of the `match`; every other one is ignored.
pub data Keyword : Type 0 where
  host include hostname user port identityfile certificatefile proxyjump forwardagent : Keyword
  unsupported : Keyword

abbrev pub keywords : List (Text × Keyword)
keywords =
    (b'h' ∷ b'o' ∷ b's' ∷ b't' ∷ [], host)
    ∷ (b'i' ∷ b'n' ∷ b'c' ∷ b'l' ∷ b'u' ∷ b'd' ∷ b'e' ∷ [], include)
    ∷ (b'h' ∷ b'o' ∷ b's' ∷ b't' ∷ b'n' ∷ b'a' ∷ b'm' ∷ b'e' ∷ [], hostname)
    ∷ (b'u' ∷ b's' ∷ b'e' ∷ b'r' ∷ [], user)
    ∷ (b'p' ∷ b'o' ∷ b'r' ∷ b't' ∷ [], port)
    ∷ (
      b'i' ∷ b'd' ∷ b'e' ∷ b'n' ∷ b't' ∷ b'i' ∷ b't' ∷ b'y' ∷ b'f' ∷ b'i' ∷ b'l' ∷ b'e' ∷ [],
      identityfile,
    )
    ∷ (
      b'c' ∷ b'e' ∷ b'r' ∷ b't' ∷ b'i' ∷ b'f' ∷ b'i' ∷ b'c' ∷ b'a' ∷ b't' ∷ b'e' ∷ b'f' ∷ b'i'
          ∷ b'l' ∷ b'e' ∷ [],
      certificatefile,
    )
    ∷ (b'p' ∷ b'r' ∷ b'o' ∷ b'x' ∷ b'y' ∷ b'j' ∷ b'u' ∷ b'm' ∷ b'p' ∷ [], proxyjump)
    ∷ (
      b'f' ∷ b'o' ∷ b'r' ∷ b'w' ∷ b'a' ∷ b'r' ∷ b'd' ∷ b'a' ∷ b'g' ∷ b'e' ∷ b'n' ∷ b't' ∷ [],
      forwardagent,
    )
    ∷ []

unfoldable pub find_keyword : List (Text × Keyword) → Text → Keyword
find_keyword [] key = unsupported
find_keyword ((word, k) ∷ table) key =
    let rest = find_keyword table key in if eq_text word key then k else rest

unfoldable pub keyword_of : Text → Keyword
unfolding to_ascii_lowercase find_keyword
keyword_of key = find_keyword keywords (to_ascii_lowercase key)

-- The variables of the loop; the last path visited is the first of `visited`.
pub record State : Type 0 where
  pub hosts : List SshConfigHost
  pub current : Option SshConfigHost
  pub visited : List PathBuf

abbrev pub pushed : List SshConfigHost → Option SshConfigHost → List SshConfigHost
pushed hosts none = hosts
pushed hosts (some h) = hosts ++ h ∷ []

-- `if let Some(h) = current.take() { hosts.push(h); }`
abbrev pub flush : State → State
flush st = record st { hosts = pushed st.hosts st.current; current = none }

abbrev pub empty_host : PathBuf → List Text → SshConfigHost
empty_host path patterns = record {
  patterns = patterns;
  host_name = none;
  user = none;
  port = none;
  identity_file = none;
  certificate_file = none;
  proxy_jump = none;
  forward_agent = none;
  source_path = path;
}

abbrev pub opened : PathBuf → List Text → State → State
opened path [] st = st
opened path (p ∷ patterns) st = record st { current = some (empty_host path (p ∷ patterns)) }

abbrev pub changed : (SshConfigHost → SshConfigHost) → Option SshConfigHost → Option SshConfigHost
changed f none = none
changed f (some h) = some (f h)

abbrev pub on_current : (SshConfigHost → SshConfigHost) → State → State
on_current f st = record st { current = changed f st.current }

-- A port that does not parse changes nothing.
abbrev pub new_value {ℓ} : {A : Type ℓ} → Option A → Option A → Option A
new_value none old = old
new_value (some a) old = some a

-- The arms of the `match` but Include, which needs the parser.
unfoldable pub setting : System → PathBuf → Keyword → Text → State → State
unfolding split_whitespace parse_u16 expand_tilde parse_yes_no
setting sys path host value st = opened path (split_whitespace value) (flush st)
setting sys path hostname value st = on_current (λ h. record h { host_name = some value }) st
setting sys path user value st = on_current (λ h. record h { user = some value }) st
setting sys path port value st =
    on_current (λ h. record h { port = new_value (parse_u16 value) h.port }) st
setting sys path identityfile value st =
    on_current
      (λ h. record h { identity_file = new_value h.identity_file (some (expand_tilde sys value)) })
      st
setting sys path certificatefile value st =
    on_current
      (λ h. record h {
        certificate_file = new_value h.certificate_file (some (expand_tilde sys value));
      })
      st
setting sys path proxyjump value st = on_current (λ h. record h { proxy_jump = some value }) st
setting sys path forwardagent value st =
    on_current (λ h. record h { forward_agent = some (parse_yes_no value) }) st
setting sys path include value st = st
setting sys path unsupported value st = st

-- A call of the parser: the path and the paths visited to the hosts and the paths visited.
abbrev pub Parser : Type 0
Parser = PathBuf → List PathBuf → Run (List SshConfigHost × List PathBuf)

unfoldable pub include_files : Parser → List PathBuf → State → Run State
include_files parser [] st = done st
include_files parser (p ∷ ps) st =
    and_then (parser p st.visited)
      λ r. include_files parser ps (record st { hosts = st.hosts ++ r.0; visited = r.1 })

unfoldable pub include_patterns : System → Parser → PathBuf → List Text → State → Run State
unfolding include_files
include_patterns sys parser base_dir [] st = done st
include_patterns sys parser base_dir (pattern ∷ patterns) st =
    and_then (include_files parser (included sys base_dir pattern) st)
      λ st'. include_patterns sys parser base_dir patterns st'

abbrev pub dot : PathBuf
dot = b'.' ∷ []

abbrev pub run_keyword : System → Parser → PathBuf → Keyword → Text → State → Run State
run_keyword sys parser path include value st =
    include_patterns sys parser (or_else (sys.parent path) dot) (split_whitespace value) (flush st)
run_keyword sys parser path k value st = done (setting sys path k value st)

abbrev pub run_pair : System → Parser → PathBuf → Text × Text → State → Run State
run_pair sys parser path (key, value) st =
    if is_empty key then done st else run_keyword sys parser path (keyword_of key) value st

-- One round of the loop.
unfoldable pub run_line : System → Parser → PathBuf → Text → State → Run State
unfolding strip_comment trim split_key_value setting include_patterns
run_line sys parser path raw_line st =
    let line = trim (strip_comment raw_line) in
    if is_empty line then done st else run_pair sys parser path (split_key_value line) st

unfoldable pub run_lines : System → Parser → PathBuf → List Text → State → Run State
unfolding run_line
run_lines sys parser path [] st = done st
run_lines sys parser path (l ∷ ls) st =
    and_then (run_line sys parser path l st) λ st'. run_lines sys parser path ls st'

abbrev pub finished : State → Run (List SshConfigHost × List PathBuf)
finished st = done (pushed st.hosts st.current, st.visited)

abbrev pub run_text :
    System → Parser → PathBuf → List PathBuf → Option Text → Run (List SshConfigHost × List PathBuf)
run_text sys parser path visited none = failed path
run_text sys parser path visited (some text) =
    and_then
      (run_lines sys parser path (lines text)
        (record { hosts = []; current = none; visited = visited }))
      finished

abbrev pub canonical : System → PathBuf → PathBuf
canonical sys path = or_else (sys.canonicalize path) path

unfoldable pub parse_ssh_config_inner : System → ℕ → Parser
unfolding contains lines run_lines
parse_ssh_config_inner sys zero path visited = out_of_fuel
parse_ssh_config_inner sys (suc fuel) path visited =
    if contains eq_text visited (canonical sys path)
    then done ([], visited)
    else run_text sys (parse_ssh_config_inner sys fuel) path (canonical sys path ∷ visited)
        (sys.read_to_string path)

unfoldable pub parse_ssh_config : System → ℕ → PathBuf → Run (List SshConfigHost)
unfolding parse_ssh_config_inner
parse_ssh_config sys fuel path = and_then (parse_ssh_config_inner sys fuel path []) λ r. done (r.0)
