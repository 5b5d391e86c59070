-- ===== src/Files/Download.antt =====
-- `collect_remote` and `download_dir`: a directory of the server copied to the local disk.
use mshell.Prelude.{
  ℕ, zero, suc, ◌+◌, ◌^◌, ◌%◌, Bool, true, false, ◌||◌, Option, none, some, List, [], ◌∷◌, ◌++◌,
  if◌then◌else◌,
}
use mshell.Text.{Text, eq_text}
use mshell.Files.{other, too_deep, remote_path_to_string, entry_name, safe_entry_name, join}
use mshell.Files.World.{
  Stat, World, Run, dir_made, parent_made, file_created, progress, pure, fail, note, call, act,
  look, lifted, ◌>>=◌, ◌>>◌,
}
use mshell.Files.Copy.{Count, TransferOutcome, done, cancelled, copy_file_cumulative}

-- `out` and `total`: the remote and the local path of each file, and the sum of their sizes.
pub record Found : Type 0 where
  pub out : List (Text × Text)
  pub total : ℕ

abbrev size_of : Stat → ℕ
size_of st = or_zero st.size
  where
    or_zero : Option ℕ → ℕ
    or_zero none = 0
    or_zero (some n) = n

abbrev pub found_file : Stat → Text → Text → Found → Found
found_file st full local_ f = record {
  out = f.out ++ ((full, local_) ∷ []);
  total = (f.total + size_of st) % 2 ^ 64;
}

-- A name that is passed over.
abbrev pub is_navigation : Text → Bool
is_navigation name = eq_text name (b'.' ∷ []) || eq_text name (b'.' ∷ b'.' ∷ [])

module _ {S : Type 0} (world : World S) where
  module _ (descend : Text → Text → Found → Run S Found) (local_base : Text) where
    abbrev pub collect_checked : Text → Text → Stat → Found → Run S Found
    collect_checked full name st f =
        let local_ = join local_base name in
        lifted (safe_entry_name name)
        >> (if st.is_dir then descend full local_ f else pure (found_file st full local_ f))

    abbrev pub collect_entry : Text × Stat → Found → Run S Found
    collect_entry (entry_path, st) f =
        let full = remote_path_to_string entry_path in
        let name = entry_name full in
        if is_navigation name then pure f else collect_checked full name st f

    -- The loop over a directory's entries.
    unfoldable pub collect_entries : List (Text × Stat) → Found → Run S Found
    collect_entries [] f = pure f
    collect_entries (e ∷ es) f = collect_entry e f >>= collect_entries es

  -- The number is MAX_COLLECT_DEPTH + 1 less the depth.
  unfoldable pub collect_remote : ℕ → Text → Text → Found → Run S Found
  unfolding collect_entries
  collect_remote zero remote_dir local_base f = fail (other too_deep)
  collect_remote (suc left) remote_dir local_base f = call (world.readdir remote_dir) >>= λ es.
      collect_entries (collect_remote left) local_base es f

  -- `None` is a transfer that was cancelled.
  abbrev pub download_found : ℕ → Text → Text → Count → Run S (Bool × Count)
  download_found total remote_file local_path c = do
    act (parent_made local_path) (world.create_parent local_path)
    source ← call (world.open_remote remote_file)
    act (file_created local_path) (world.create_file local_path)
    copy_file_cumulative local_path source total c

  abbrev pub next_file : (Count → Run S TransferOutcome) → ℕ → Bool × Count → Run S TransferOutcome
  next_file go total (true, c) = go c
  next_file go total (false, c) = pure (cancelled c.bytes (some total))

  unfoldable pub download_files : ℕ → List (Text × Text) → Count → Run S TransferOutcome
  download_files total [] c =
      note (progress c.bytes (some total)) >> pure (done c.bytes (some total))
  download_files total ((remote_file, local_path) ∷ files) c = look world.is_cancelled >>= λ stop.
      if stop
      then pure (cancelled c.bytes (some total))
      else (download_found total remote_file local_path c >>= λ r.
          next_file (download_files total files) total r)

  unfoldable pub download_dir : Text → Text → Run S TransferOutcome
  unfolding collect_remote download_files
  download_dir remote_dir local_dir = do
    f ← collect_remote 65 remote_dir local_dir (record { out = []; total = 0 })
    note (progress 0 (some f.total))
    act (dir_made local_dir) (world.create_dir_all local_dir)
    download_files f.total f.out (record { bytes = 0; last_report = 0 })
