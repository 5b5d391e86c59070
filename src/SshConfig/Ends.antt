-- ===== src/SshConfig/Ends.antt =====
-- How deep the parser of the configuration nests, and whether it ends.
use mshell.Prelude.{
  if-all, ℕ, zero, suc, ◌+◌, ◌≤◌, ◌<◌, ◌≡◌, ◌≢◌, refl, subst, true, false, Option, none, some, List,
  [], ◌∷◌, ◌++◌, length, arith, Bool-cases, inl, inr, All, bytes_eq_iff,
}
use mshell.Prelude.Seen.{contains, unseen, unseen-le, unseen-cons-le, unseen-cons-lt}
use mshell.Text.{Text, eq_text, is_empty, trim, lines, split_whitespace}
use mshell.SshConfig.{
  PathBuf, SshConfigHost, System, Run, done, failed, out_of_fuel, and_then, or_else, strip_comment,
  split_key_value,
}
use mshell.SshConfig.Files.{IsFile, included-IsFile}
use mshell.SshConfig.Parse.{
  Keyword, host, include, hostname, user, port, identityfile, certificatefile, proxyjump,
  forwardagent, unsupported, keyword_of, State, flush, opened, setting, Parser, include_files,
  include_patterns, dot, run_keyword, run_pair, run_line, run_lines, run_text, canonical,
  parse_ssh_config_inner, parse_ssh_config,
}

-- A run that is decided, its value with a property.
abbrev Decided {ℓ} : {A : Type ℓ} → (A → Type 0) → Run A → Type 0
Decided P (done a) = P a
Decided P (failed p) = Unit
Decided P out_of_fuel = ⊥

and_then-Decided {ℓ κ} :
    {A : Type ℓ} {B : Type κ} (P : A → Type 0) (Q : B → Type 0) (r : Run A) (f : A → Run B)
    → Decided P r
    → ((a : A) → P a → Decided Q (f a))
    → Decided Q (and_then r f)
and_then-Decided P Q (done a) f h next = next a h
and_then-Decided P Q (failed p) f h next = tt
and_then-Decided P Q out_of_fuel f h next = elim h [ ]

Decided-result :
    (P : List SshConfigHost × List PathBuf → Type 0) (r : Run (List SshConfigHost × List PathBuf))
    → Decided P r
    → and_then r (λ x. done (x.0)) ≢ out_of_fuel
Decided-result P (done r) h e = cc
Decided-result P (failed p) h e = cc
Decided-result P out_of_fuel h e = elim h [ ]

-- Whatever is a file is one of a list.
abbrev pub IsFinite : System → List PathBuf → Type 0
IsFinite sys files = (p : PathBuf) → IsFile sys p → contains eq_text files (canonical sys p) ≡ true

module _ (sys : System) where
  module _ (files : List PathBuf) where
    abbrev left : List PathBuf → ℕ
    left visited = unseen eq_text visited files

    -- A run that leaves at most `n` files to be visited.
    abbrev Leaves : ℕ → Run (List SshConfigHost × List PathBuf) → Type 0
    Leaves n = Decided (λ r. left (r.1) ≤ n)

    abbrev Keeps : ℕ → Run State → Type 0
    Keeps n = Decided (λ st. left st.visited ≤ n)

    module _ (n : ℕ) (parser : Parser)
        (parser-Leaves : (p : PathBuf) (v : List PathBuf)
          → IsFile sys p
          → left v ≤ n
          → Leaves n (parser p v)) where
      include_files-Keeps :
          (ps : List PathBuf) (st : State)
          → All (IsFile sys) ps
          → left st.visited ≤ n
          → Keeps n (include_files parser ps st)
      unfolding include_files
      include_files-Keeps [] st fs h = h
      include_files-Keeps (p ∷ ps) st fs h =
          and_then-Decided (λ r. left (r.1) ≤ n) (λ s. left s.visited ≤ n) _ _
            (parser-Leaves p st.visited (fs.0) h)
            λ r hr.
              include_files-Keeps ps (record st { hosts = st.hosts ++ r.0; visited = r.1 }) (fs.1)
                hr

      include_patterns-Keeps :
          (base_dir : PathBuf) (patterns : List Text) (st : State)
          → left st.visited ≤ n
          → Keeps n (include_patterns sys parser base_dir patterns st)
      unfolding include_patterns
      include_patterns-Keeps base_dir [] st h = h
      include_patterns-Keeps base_dir (pattern ∷ patterns) st h =
          and_then-Decided (λ s. left s.visited ≤ n) (λ s. left s.visited ≤ n) _ _
            (include_files-Keeps _ st (included-IsFile sys base_dir pattern) h)
            λ s hs. include_patterns-Keeps base_dir patterns s hs

      opened-visited :
          (path : PathBuf) (ps : List Text) (st : State) → (opened path ps st).visited ≡ st.visited
      opened-visited path [] st = refl
      opened-visited path (p ∷ ps) st = refl

      run_keyword-Keeps :
          (path : PathBuf) (k : Keyword) (value : Text) (st : State)
          → left st.visited ≤ n
          → Keeps n (run_keyword sys parser path k value st)
      unfolding setting
      run_keyword-Keeps path include value st h =
          include_patterns-Keeps (or_else (sys.parent path) dot) (split_whitespace value) (flush st)
            h
      run_keyword-Keeps path host value st h =
          rw (opened-visited path (split_whitespace value) (flush st)) h
      run_keyword-Keeps path hostname value st h = h
      run_keyword-Keeps path user value st h = h
      run_keyword-Keeps path port value st h = h
      run_keyword-Keeps path identityfile value st h = h
      run_keyword-Keeps path certificatefile value st h = h
      run_keyword-Keeps path proxyjump value st h = h
      run_keyword-Keeps path forwardagent value st h = h
      run_keyword-Keeps path unsupported value st h = h

      run_pair-Keeps :
          (path : PathBuf) (kv : Text × Text) (st : State)
          → left st.visited ≤ n
          → Keeps n (run_pair sys parser path kv st)
      run_pair-Keeps path (key, value) st h =
          if-all (Keeps n) (is_empty key) h (run_keyword-Keeps path (keyword_of key) value st h)

      run_line-Keeps :
          (path : PathBuf) (l : Text) (st : State)
          → left st.visited ≤ n
          → Keeps n (run_line sys parser path l st)
      unfolding run_line
      run_line-Keeps path l st h =
          let line = trim (strip_comment l) in
          if-all (Keeps n) (is_empty line) h (run_pair-Keeps path (split_key_value line) st h)

      run_lines-Keeps :
          (path : PathBuf) (ls : List Text) (st : State)
          → left st.visited ≤ n
          → Keeps n (run_lines sys parser path ls st)
      unfolding run_lines
      run_lines-Keeps path [] st h = h
      run_lines-Keeps path (l ∷ ls) st h =
          and_then-Decided (λ s. left s.visited ≤ n) (λ s. left s.visited ≤ n) _ _
            (run_line-Keeps path l st h) λ s hs. run_lines-Keeps path ls s hs

      run_text-Leaves :
          (path : PathBuf) (visited : List PathBuf) (text : Option Text)
          → left visited ≤ n
          → Leaves n (run_text sys parser path visited text)
      run_text-Leaves path visited none h = tt
      run_text-Leaves path visited (some text) h =
          and_then-Decided (λ s. left s.visited ≤ n) (λ r. left (r.1) ≤ n) _ _
            (run_lines-Keeps path (lines text)
              (record { hosts = []; current = none; visited = visited }) h)
            λ s hs. hs

    Leaves-le :
        (m n : ℕ) (r : Run (List SshConfigHost × List PathBuf)) → m ≤ n → Leaves m r → Leaves n r
    Leaves-le m n (done r) h k = omega arith
    Leaves-le m n (failed p) h k = tt
    Leaves-le m n out_of_fuel h k = elim k [ ]

    -- The parser with this fuel is decided on files, if the fuel is more than what is left.
    abbrev Parses : ℕ → Type 0
    Parses fuel =
        (n : ℕ) (p : PathBuf) (v : List PathBuf)
        → IsFile sys p
        → left v ≤ n
        → n < fuel
        → Leaves n (parse_ssh_config_inner sys fuel p v)

    step-Leaves :
        (fuel : ℕ) (p : PathBuf) (v : List PathBuf)
        → Parses fuel
        → (contains eq_text v (canonical sys p) ≡ false → left (canonical sys p ∷ v) < fuel)
        → Leaves (left v) (parse_ssh_config_inner sys (suc fuel) p v)
    unfolding parse_ssh_config_inner
    step-Leaves fuel p v parses less =
        let c = canonical sys p in
        let n = left (c ∷ v) in
        elim (Bool-cases (contains eq_text v c)) [
          | inl q ↦ rw q (omega arith)
          | inr q ↦ rw q (
              Leaves-le n (left v) _ (unseen-cons-le eq_text c v files) (
                run_text-Leaves n (parse_ssh_config_inner sys fuel)
                  (λ p' v' f h. parses n p' v' f h (less q)) p (c ∷ v) (sys.read_to_string p)
                  (omega arith)))
        ]

    module _ (finite : IsFinite sys files) where
      inner-Parses : (fuel : ℕ) → Parses fuel
      inner-Parses zero n p v f h k = absurd (omega arith)
      inner-Parses (suc fuel) n p v f h k = Leaves-le (left v) n _ h (
          step-Leaves fuel p v (inner-Parses fuel) λ q.
            let less =
              unseen-cons-lt eq_text bytes_eq_iff (canonical sys p) v files q (finite p f) in
            omega (arith, less))

-- Where the files of the system are among `files`, by their canonical paths, the parser comes to an
-- end: the includes are nested no deeper than there are files, one more call for the path that is
-- asked for, and one for an include that was visited.
pub parse_ssh_config-ends :
    (sys : System) (files : List PathBuf) (path : PathBuf)
    → IsFinite sys files
    → parse_ssh_config sys (length files + 2) path ≢ out_of_fuel
unfolding parse_ssh_config
parse_ssh_config-ends sys files path finite =
    let fuel = length files + 1 in
    let run =
      step-Leaves sys files fuel path [] (inner-Parses sys files finite fuel)
        λ q. omega (arith, unseen-le eq_text (canonical sys path ∷ []) files) in
    subst (λ f. parse_ssh_config sys f path ≢ out_of_fuel) {x = suc fuel} (omega arith)
      (Decided-result _ (parse_ssh_config_inner sys (suc fuel) path []) run)
