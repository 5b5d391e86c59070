-- ===== src/Files/Copy.antt =====
-- The loops that copy a file, of one transfer and of a directory's.
use mshell.Prelude.{
  ℕ, ◌+◌, ◌-◌, ◌*◌, ◌^◌, ◌%◌, Bool, true, false, Option, none, some, List, [], ◌∷◌, leb,
  if◌then◌else◌, length, take,
}
use mshell.Text.{Text}
use mshell.Files.{io}
use mshell.Files.World.{
  Turn, cancel_set, reads, read_fails, Source, Run, file_given, progress, pure, fail, note, ◌>>=◌,
  ◌>>◌,
}

-- PROGRESS_INTERVAL
abbrev pub progress_interval : ℕ
progress_interval = 1024 * 1024

-- Where a loop stands: the bytes so far, and the bytes at the last report. Both are `u64`.
pub record Count : Type 0 where
  pub bytes : ℕ
  pub last_report : ℕ

abbrev pub counted : ℕ → Count → Count
counted n c = record c { bytes = (c.bytes + n) % 2 ^ 64 }

abbrev pub is_due : Count → Bool
is_due c = leb progress_interval ((c.bytes + 2 ^ 64 - c.last_report) % 2 ^ 64)

abbrev pub report : {S : Type 0} → Option ℕ → Count → Run S Count
report total c =
    if is_due c
    then (note (progress c.bytes total) >> pure (record c { last_report = c.bytes }))
    else pure c

module _ {S : Type 0} (dest : Text) (total : Option ℕ) where
  -- The loop of both, `false` being a copy that was cancelled.
  unfoldable pub copy_turns : Bool → List Turn → Count → Run S (Bool × Count)
  copy_turns flushes [] c = if flushes then pure (true, c) else fail io
  copy_turns flushes (cancel_set ∷ ts) c = pure (false, c)
  copy_turns flushes (read_fails ∷ ts) c = fail io
  copy_turns flushes (reads [] w ∷ ts) c = if flushes then pure (true, c) else fail io
  copy_turns flushes (reads (b ∷ bs) (some n) ∷ ts) c =
      note (file_given dest (take n (b ∷ bs))) >> fail io
  copy_turns flushes (reads (b ∷ bs) none ∷ ts) c =
      note (file_given dest (b ∷ bs))
      >> report total (counted (length (b ∷ bs)) c)
      >>= copy_turns flushes ts

-- `copy_file_cumulative`, with `done` and `last_report` given and given back
unfoldable pub copy_file_cumulative :
    {S : Type 0} → Text → Source → ℕ → Count → Run S (Bool × Count)
unfolding copy_turns
copy_file_cumulative dest source total c =
    copy_turns dest (some total) source.flushes source.turns c

pub data TransferOutcome : Type 0 where
  done cancelled : (bytes : ℕ) (total : Option ℕ) → TransferOutcome

abbrev pub outcome : {S : Type 0} → Option ℕ → Bool × Count → Run S TransferOutcome
outcome total (true, c) = note (progress c.bytes total) >> pure (done c.bytes total)
outcome total (false, c) = pure (cancelled c.bytes total)

unfoldable pub copy_loop : {S : Type 0} → Text → Source → Option ℕ → Run S TransferOutcome
unfolding copy_turns
copy_loop dest source total =
    note (progress 0 total)
    >> copy_turns dest total source.flushes source.turns (record { bytes = 0; last_report = 0 })
    >>= outcome total
