-- ===== src/Files/Inside.antt =====
-- The paths that a walk over a server's directories collects.
use mshell.Prelude.{
  ℕ, zero, suc, ◌+◌, ◌≤◌, ◌<◌, ◌≡◌, refl, ap, ◌∙◌, List, [], ◌∷◌, ◌++◌, All, length, length-append,
  append_assoc, arith, if-all,
}
use mshell.Text.{Text}
use mshell.Text.Trim.{All-append}
use mshell.Files.{
  other, too_deep, Result, ok, err, join, safe_entry_name, remote_path_to_string, entry_name,
}
use mshell.Files.World.{
  Stat, World, Effect, dir_made, parent_made, file_created, file_given, progress, Run, lifted, call,
}
use mshell.Files.Download.{
  Found, found_file, is_navigation, collect_checked, collect_entry, collect_entries, collect_remote,
}
use mshell.Files.Ensures.{Post, Ensures, Ensures-bind, Ensures-pure, Ensures-fail, Ensures-call}
use mshell.Files.Paths.{resolve, safe_entry_name-IsName, resolve-join}

-- Directories that a path leads to, from the working directory: `n` names below `dir`, each of which
-- is safe.
abbrev pub IsBelow : List Text → Text → ℕ → Text → Type 0
IsBelow cwd dir n path =
    (names : List Text) × (resolve cwd path ≡ resolve cwd dir ++ names)
    × (length names ≡ n)
    × All (λ name. safe_entry_name name ≡ ok tt) names

-- The file is in the directory, at most 65 levels deep.
abbrev pub IsInside : List Text → Text → Text → Type 0
IsInside cwd dir path = (n : ℕ) × (0 < n) × (n ≤ 65) × IsBelow cwd dir n path

-- The directory itself is made, and directories for the files in it, and only such files are written.
abbrev pub IsContained : List Text → Text → Effect → Type 0
IsContained cwd dir (dir_made path) = path ≡ dir
IsContained cwd dir (parent_made path) = IsInside cwd dir path
IsContained cwd dir (file_created path) = IsInside cwd dir path
IsContained cwd dir (file_given path data_) = IsInside cwd dir path
IsContained cwd dir (progress bytes total) = Unit

module _ {S : Type 0} (world : World S) (cwd : List Text) (dir : Text) where
  abbrev pub P : Effect → Type 0
  P = IsContained cwd dir

  abbrev pub Files : Found → Type 0
  Files f = All (λ p. IsInside cwd dir p.1) f.out

  join-IsBelow :
      (n : ℕ) (base name : Text)
      → IsBelow cwd dir n base
      → safe_entry_name name ≡ ok tt
      → IsBelow cwd dir (n + 1) (join base name)
  join-IsBelow n base name (names, e, k, h) safe = (
    names ++ (name ∷ []),
    resolve-join cwd name (safe_entry_name-IsName name safe) base
        ∙ ap (λ d. d ++ (name ∷ [])) e
        ∙ append_assoc (resolve cwd dir) names (name ∷ []),
    omega (arith, length-append names (name ∷ []), k),
    All-append (λ t. safe_entry_name t ≡ ok tt) names (name ∷ []) h (safe, tt),
  )

  lifted-safe :
      (name : Text)
      → Ensures {S = S} P
          (λ (u : Unit). safe_entry_name name ≡ ok tt)
          (lifted (safe_entry_name name))
  lifted-safe name s t = (t, post (safe_entry_name name))
    where
      post : (r : Result Unit) → Post (λ (u : Unit). r ≡ ok tt) r
      post (ok tt) = refl
      post (err e) = tt

  found_file-Files :
      (st : Stat) (full local_ : Text) (f : Found)
      → IsInside cwd dir local_
      → Files f
      → Files (found_file st full local_ f)
  found_file-Files st full local_ f i h =
      All-append (λ p. IsInside cwd dir p.1) f.out ((full, local_) ∷ []) h (i, tt)

  module _ (n : ℕ) (n_small : n < 65) (descend : Text → Text → Found → Run S Found)
      (hd : (d l : Text) (f : Found)
        → IsBelow cwd dir (n + 1) l
        → Files f
        → Ensures P Files (descend d l f))
      (base : Text) (hb : IsBelow cwd dir n base) where
    collect_checked-Files :
        (full name : Text) (st : Stat) (f : Found)
        → Files f
        → Ensures P Files (collect_checked world descend base full name st f)
    collect_checked-Files full name st f h =
        Ensures-bind P (λ u. safe_entry_name name ≡ ok tt) Files (lifted (safe_entry_name name)) _
          (lifted-safe name)
          (λ u safe.
            let below = join-IsBelow n base name hb safe in
            if-all (λ m. Ensures P Files m) st.is_dir (hd full (join base name) f below h)
              (Ensures-pure P Files (found_file st full (join base name) f) (
                found_file-Files st full (join base name) f
                  (n + 1, omega arith, omega (arith, n_small), below) h)))

    collect_entry-Files :
        (e : Text × Stat) (f : Found)
        → Files f
        → Ensures P Files (collect_entry world descend base e f)
    collect_entry-Files (entry_path, st) f h =
        let full = remote_path_to_string entry_path in
        if-all (λ m. Ensures P Files m) (is_navigation (entry_name full)) (Ensures-pure P Files f h)
          (collect_checked-Files full (entry_name full) st f h)

    collect_entries-Files :
        (es : List (Text × Stat)) (f : Found)
        → Files f
        → Ensures P Files (collect_entries world descend base es f)
    unfolding collect_entries
    collect_entries-Files [] f h = Ensures-pure P Files f h
    collect_entries-Files (e ∷ es) f h =
        Ensures-bind P Files Files (collect_entry world descend base e f) _
          (collect_entry-Files e f h) (λ g k. collect_entries-Files es g k)

  pub collect_remote-Files :
      (left n : ℕ) (remote_dir base : Text) (f : Found)
      → left + n ≡ 65
      → IsBelow cwd dir n base
      → Files f
      → Ensures P Files (collect_remote world left remote_dir base f)
  unfolding collect_remote
  collect_remote-Files zero n remote_dir base f e b h = Ensures-fail P Files (other too_deep)
  collect_remote-Files (suc left) n remote_dir base f e b h =
      Ensures-bind P (λ es. Unit) Files (call (world.readdir remote_dir)) _
        (Ensures-call P (world.readdir remote_dir))
        (λ es u.
          collect_entries-Files n (omega (arith, e)) (collect_remote world left)
            (λ d l g k i. collect_remote-Files left (n + 1) d l g (omega (arith, e)) k i) base b es
            f h)
