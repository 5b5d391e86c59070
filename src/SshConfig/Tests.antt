-- ===== src/SshConfig/Tests.antt =====
-- Two files that include each other, and a line in an odd layout.
use mshell.Prelude.{
  bytes_eq, ◌<◌, if◌then◌else◌, ℕ, ◌≡◌, ◌≢◌, refl, true, false, Option, none, some, [], ◌∷◌, arith,
}
use mshell.Prelude.Seen.{contains}
use mshell.Text.{Text, eq_text, lines, is_whitespace}
use mshell.SshConfig.{PathBuf, SshConfigHost, System, done, out_of_fuel, included}
use mshell.SshConfig.Parse.{
  keyword_of, State, empty_host, run_lines, parse_ssh_config_inner, parse_ssh_config,
}
use mshell.SshConfig.Ends.{IsFinite, parse_ssh_config-ends}
use mshell.SshConfig.Layout.{
  Line, setting_of, equals, comment, print, IsBlank, IsKeyChar, IsValueChar, IsLine, run_bodies,
}
use mshell.SshConfig.Layout.Correct.{run_lines-print}
use mshell.SshConfig.Connections.{hosts_to_connections}
use mshell.SshConfig.Aliases.{all_aliases}
use mshell.SshConfig.Imported.{IsImported, hosts_to_connections-IsImported}

abbrev path_a : PathBuf
path_a = b'a' ∷ []

abbrev path_b : PathBuf
path_b = b'b' ∷ []

-- "Host x *" and "Port 23", each a line
abbrev host_lines : Text
host_lines =
    b'H' ∷ b'o' ∷ b's' ∷ b't' ∷ 32 ∷ b'x' ∷ 32 ∷ b'*' ∷ 10 ∷ b'P' ∷ b'o' ∷ b'r' ∷ b't' ∷ 32 ∷ b'2'
    ∷ b'3' ∷ 10 ∷ []

-- "Include " before a path
abbrev include_line : PathBuf → Text → Text
include_line [] rest = rest
include_line (c ∷ cs) rest = b'I' ∷ b'n' ∷ b'c' ∷ b'l' ∷ b'u' ∷ b'd' ∷ b'e' ∷ 32 ∷ c ∷ 10 ∷ rest

abbrev text_of : PathBuf → Option Text
text_of p =
    if eq_text p path_a
    then some (include_line path_b [])
    else some (include_line path_a host_lines)

abbrev system : System
system = record {
  home_dir = none;
  join = λ base p. p;
  is_absolute = λ p. false;
  parent = λ p. none;
  file_name = λ p. some p;
  canonicalize = λ p. some p;
  read_to_string = text_of;
  is_file = contains eq_text (path_a ∷ path_b ∷ []);
  is_dir = λ p. false;
  read_dir = λ p. none;
  path_le = λ p q. true;
}

abbrev host_x : SshConfigHost
host_x = record (empty_host path_b ((b'x' ∷ []) ∷ (b'*' ∷ []) ∷ [])) { port = some 23 }

system-IsFinite : IsFinite system (path_a ∷ path_b ∷ [])
system-IsFinite p h = h

parses_includes : parse_ssh_config system 4 path_a ≡ done (host_x ∷ [])
unfolding parse_ssh_config bytes_eq is_whitespace keyword_of included
parses_includes = refl

parse_ssh_config-ends_example : parse_ssh_config system 4 path_a ≢ out_of_fuel
parse_ssh_config-ends_example =
    parse_ssh_config-ends system (path_a ∷ path_b ∷ []) path_a system-IsFinite

-- "  Port = 22 # x", ended with CR LF
abbrev odd_line : Line
odd_line = record {
  indent = 32 ∷ 32 ∷ [];
  body =
      setting_of (b'P' ∷ b'o' ∷ b'r' ∷ b't' ∷ []) (equals (32 ∷ []) (32 ∷ [])) (b'2' ∷ b'2' ∷ []);
  trailing = 32 ∷ [];
  remark = comment (32 ∷ b'x' ∷ []);
  crlf = true;
}

space-IsBlank : IsBlank 32
unfolding is_whitespace
space-IsBlank = (refl, omega arith)

odd_line-IsLine : IsLine odd_line
unfolding is_whitespace
odd_line-IsLine =
    let two : IsValueChar b'2' = (omega arith, omega arith) in
    let key : (c : ℕ) → is_whitespace c ≡ false → c < 124 → 64 < c → IsKeyChar c =
      λ c w h k. (w, omega arith, omega arith) in
    record {
      indent_blank = (space-IsBlank, (space-IsBlank, tt));
      body_right = (
        λ e. cc,
        (
          key b'P' refl (omega arith) (omega arith),
          (
            key b'o' refl (omega arith) (omega arith),
            (
              key b'r' refl (omega arith) (omega arith),
              (key b't' refl (omega arith) (omega arith), tt),
            ),
          ),
        ),
        ((space-IsBlank, tt), (space-IsBlank, tt)),
        refl,
        refl,
        (two, (two, tt)),
      );
      trailing_blank = (space-IsBlank, tt);
      remark_right = (omega arith, (omega arith, tt));
    }

abbrev start : State
start = record { hosts = []; current = some (empty_host path_a []); visited = [] }

run_lines-print_example :
    run_lines system (parse_ssh_config_inner system 0) path_a (lines (print (odd_line ∷ []))) start
    ≡ run_bodies system (parse_ssh_config_inner system 0) path_a (odd_line ∷ []) start
run_lines-print_example =
    run_lines-print system (parse_ssh_config_inner system 0) path_a (odd_line ∷ []) start
      (odd_line-IsLine, tt)

hosts_to_connections-IsImported_example :
    IsImported none (all_aliases (host_x ∷ [])) (hosts_to_connections none (host_x ∷ []))
hosts_to_connections-IsImported_example = hosts_to_connections-IsImported none (host_x ∷ [])
