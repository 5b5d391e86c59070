-- ===== src/Files/Contained.antt =====
-- Where a download writes.
use mshell.Prelude.{
  ℕ, refl, sym, Bool, true, false, Option, none, some, List, [], ◌∷◌, if◌then◌else◌, All, Bytes,
  length, append-nil, if-all, take,
}
use mshell.Text.{Text}
use mshell.Files.{io}
use mshell.Files.World.{
  Turn, cancel_set, reads, read_fails, World, Effect, dir_made, parent_made, file_created,
  file_given, progress, Run, pure, fail, note, call, look, act, ◌>>=◌, ◌>>◌,
}
use mshell.Files.Copy.{
  Count, is_due, report, counted, copy_turns, copy_file_cumulative, TransferOutcome, done,
  cancelled,
}
use mshell.Files.Download.{
  Found, collect_remote, download_found, next_file, download_files, download_dir,
}
use mshell.Files.Ensures.{Keeps, Ensures-then, Keeps-bind, Keeps-note, Keeps-call, Keeps-act}
use mshell.Files.Paths.{resolve}
use mshell.Files.Inside.{IsBelow, IsInside, IsContained, Files, collect_remote-Files}

module _ {S : Type 0} (world : World S) (cwd : List Text) (dir : Text) where
  abbrev P : Effect → Type 0
  P = IsContained cwd dir

  report-Contained : (total : Option ℕ) (c : Count) → Keeps {S = S} P (report total c)
  report-Contained total c =
      if-all (λ m. Keeps {S = S} P m) (is_due c)
        (Keeps-bind P (note (progress c.bytes total))
          (λ u. pure (record c { last_report = c.bytes }))
          (Keeps-note P (progress c.bytes total) tt) (λ u s t. t))
        (λ s t. t)

  module _ (dest : Text) (inside : IsInside cwd dir dest) (total : Option ℕ) (flushes : Bool) where
    abbrev ended : Count → Run S (Bool × Count)
    ended c = if flushes then pure (true, c) else fail io

    ended-Contained : (c : Count) → Keeps P (ended c)
    ended-Contained c =
        if-all (λ (m : Run S (Bool × Count)). Keeps P m) flushes (λ s t. t) (λ s t. t)

    given-Contained : (data_ : Bytes) → Keeps {S = S} P (note (file_given dest data_))
    given-Contained data_ = Keeps-note P (file_given dest data_) inside

    copy_turns-Contained :
        (ts : List Turn) (c : Count) → Keeps {S = S} P (copy_turns dest total flushes ts c)
    unfolding copy_turns
    copy_turns-Contained [] c = ended-Contained c
    copy_turns-Contained (cancel_set ∷ ts) c = λ s t. t
    copy_turns-Contained (read_fails ∷ ts) c = λ s t. t
    copy_turns-Contained (reads [] w ∷ ts) c = ended-Contained c
    copy_turns-Contained (reads (b ∷ bs) (some n) ∷ ts) c =
        Keeps-bind P {B = Bool × Count} (note (file_given dest (take n (b ∷ bs)))) (λ u. fail io)
          (given-Contained (take n (b ∷ bs))) (λ u s t. t)
    copy_turns-Contained (reads (b ∷ bs) none ∷ ts) c =
        let reported = report total (counted (length (b ∷ bs)) c) in
        Keeps-bind P (note (file_given dest (b ∷ bs)) >> reported)
          (copy_turns dest total flushes ts)
          (Keeps-bind P (note (file_given dest (b ∷ bs))) (λ u. reported) (given-Contained (b ∷ bs))
            (λ u. report-Contained total (counted (length (b ∷ bs)) c)))
          (λ c'. copy_turns-Contained ts c')

  download_found-Contained :
      (total : ℕ) (remote_file dest : Text) (c : Count)
      → IsInside cwd dir dest
      → Keeps P (download_found world total remote_file dest c)
  unfolding copy_file_cumulative
  download_found-Contained total remote_file dest c i =
      Keeps-bind P (act (parent_made dest) (world.create_parent dest)) _
        (Keeps-act P (parent_made dest) (world.create_parent dest) i)
        (λ u.
          Keeps-bind P (call (world.open_remote remote_file)) _
            (Keeps-call P (world.open_remote remote_file))
            (λ source.
              Keeps-bind P (act (file_created dest) (world.create_file dest)) _
                (Keeps-act P (file_created dest) (world.create_file dest) i)
                (λ u. copy_turns-Contained dest i (some total) source.flushes source.turns c)))

  next_file-Contained :
      (total : ℕ) (go : Count → Run S TransferOutcome)
      → ((c : Count) → Keeps P (go c))
      → (r : Bool × Count) → Keeps P (next_file world go total r)
  next_file-Contained total go k (true, c') = k c'
  next_file-Contained total go k (false, c') = λ s t. t

  download_files-Contained :
      (total : ℕ) (files : List (Text × Text)) (c : Count)
      → All (λ p. IsInside cwd dir p.1) files
      → Keeps P (download_files world total files c)
  unfolding download_files
  download_files-Contained total [] c h =
      Keeps-bind P (note (progress c.bytes (some total))) (λ u. pure (done c.bytes (some total)))
        (Keeps-note P (progress c.bytes (some total)) tt) (λ u s t. t)
  download_files-Contained total ((remote_file, dest) ∷ files) c h =
      let go = download_files world total files in
      let stopped : Run S TransferOutcome = pure (cancelled c.bytes (some total)) in
      let goes_on : Run S TransferOutcome =
        download_found world total remote_file dest c >>= λ r. next_file world go total r in
      Keeps-bind P (look world.is_cancelled) (λ stop. if stop then stopped else goes_on) (λ s t. t)
        (λ stop.
          if-all (λ (m : Run S TransferOutcome). Keeps P m) stop {x = stopped} {y = goes_on}
            (λ s t. t)
            (Keeps-bind P (download_found world total remote_file dest c)
              (λ r. next_file world go total r)
              (download_found-Contained total remote_file dest c (h.0))
              (next_file-Contained total go (λ c'. download_files-Contained total files c' (h.1)))))

  root-IsBelow : IsBelow cwd dir 0 dir
  root-IsBelow = ([], sym (append-nil (resolve cwd dir)), refl, tt)

  download_dir-Contained : (remote_dir : Text) → Keeps P (download_dir world remote_dir dir)
  unfolding download_dir
  download_dir-Contained remote_dir =
      let nothing : Found = record { out = []; total = 0 } in
      let files : Found → Run S TransferOutcome =
        λ f. download_files world f.total f.out (record { bytes = 0; last_report = 0 }) in
      let made : Found → Run S TransferOutcome =
        λ f. act (dir_made dir) (world.create_dir_all dir) >> files f in
      Ensures-then P (Files world cwd dir) (collect_remote world 65 remote_dir dir nothing)
        (λ f. note (progress 0 (some f.total)) >> made f)
        (collect_remote-Files world cwd dir 65 0 remote_dir dir nothing refl root-IsBelow tt)
        (λ f h.
          Keeps-bind P (note (progress 0 (some f.total))) (λ u. made f)
            (Keeps-note P (progress 0 (some f.total)) tt)
            (λ u.
              Keeps-bind P (act (dir_made dir) (world.create_dir_all dir)) (λ u. files f)
                (Keeps-act P (dir_made dir) (world.create_dir_all dir) refl)
                (λ u.
                  download_files-Contained f.total f.out (record { bytes = 0; last_report = 0 })
                    h)))

-- Whatever directories a server lists, and however its answers change from call to call, the download
-- of a directory makes that directory, and otherwise only creates and writes files, and makes the
-- directories for them, whose paths lead from the working directory into it, by one to 65 safe names.
pub download_dir-IsContained :
    {S : Type 0} (world : World S) (cwd : List Text) (remote_dir local_dir : Text) (w : S)
    → All
        (IsContained cwd local_dir)
        (download_dir world remote_dir local_dir (record { world = w; trace = [] })).1.trace
download_dir-IsContained world cwd remote_dir local_dir w =
    download_dir-Contained world cwd local_dir remote_dir (record { world = w; trace = [] }) tt
