-- ===== src/Files/World.antt =====
-- The calls that a transfer makes, and what it makes of them.
use mshell.Prelude.{ℕ, Bool, true, false, Option, none, some, List, [], ◌∷◌, ◌++◌, Bytes}
use mshell.Text.{Text}
use mshell.Files.{CoreError, ssh, io, Result, ok, err}

-- What a turn of the copying loop meets: the cancel flag set; bytes read, none at the end of the
-- file, of which `write_all` writes all or, before it fails, a number; a read that fails.
pub data Turn : Type 0 where
  cancel_set : Turn
  reads : Bytes → Option ℕ → Turn
  read_fails : Turn

-- The turns of a file's copying, at the end of which its end is read, and whether `flush` succeeds.
pub record Source : Type 0 where
  pub turns : List Turn
  pub flushes : Bool

-- A `FileStat`.
pub record Stat : Type 0 where
  pub is_dir : Bool
  pub size : Option ℕ

-- `sftp.readdir`, the cancel flag, `create_dir_all` of a path and of a path's parent, `sftp.open`
-- with what the copying will meet, and `File::create`. A call may change the world.
pub record World (S : Type 0) : Type 0 where
  pub readdir : Text → S → Option (List (Text × Stat)) × S
  pub is_cancelled : S → Bool × S
  pub create_dir_all : Text → S → Bool × S
  pub create_parent : Text → S → Bool × S
  pub open_remote : Text → S → Option Source × S
  pub create_file : Text → S → Bool × S

-- What is done to the local disk, with the reports between.
pub data Effect : Type 0 where
  dir_made : Text → Effect
  parent_made : Text → Effect
  file_created : Text → Effect
  file_given : Text → Bytes → Effect
  progress : ℕ → Option ℕ → Effect

pub record State (S : Type 0) : Type 0 where
  pub world : S
  pub trace : List Effect

abbrev pub Run : Type 0 → Type 0 → Type 0
Run S A = State S → Result A × State S

abbrev pub and_then : {S A B : Type 0} → Result A × State S → (A → Run S B) → Result B × State S
and_then (ok a, s) f = f a s
and_then (err e, s) f = (err e, s)

infixl 5 ◌>>=◌ ◌>>◌
abbrev pub ◌>>=◌ : {S A B : Type 0} → Run S A → (A → Run S B) → Run S B
◌>>=◌ m f s = and_then (m s) f

abbrev pub ◌>>◌ : {S A B : Type 0} → Run S A → Run S B → Run S B
m >> k = m >>= λ _. k

abbrev pub pure : {S A : Type 0} → A → Run S A
pure a s = (ok a, s)

abbrev pub fail : {S A : Type 0} → CoreError → Run S A
fail e s = (err e, s)

-- `?` on a value.
abbrev pub lifted : {S A : Type 0} → Result A → Run S A
lifted r s = (r, s)

abbrev pub note : {S : Type 0} → Effect → Run S (Unit {0})
note e s = (ok tt, record s { trace = s.trace ++ (e ∷ []) })

abbrev answered : {S A : Type 0} → CoreError → List Effect → Option A × S → Result A × State S
answered e t (none, w) = (err e, record { world = w; trace = t })
answered e t (some a, w) = (ok a, record { world = w; trace = t })

-- A call of the server.
abbrev pub call : {S A : Type 0} → (S → Option A × S) → Run S A
call f s = answered ssh s.trace (f s.world)

abbrev seen : {S : Type 0} → List Effect → Bool × S → Result Bool × State S
seen t (b, w) = (ok b, record { world = w; trace = t })

abbrev pub look : {S : Type 0} → (S → Bool × S) → Run S Bool
look f s = seen s.trace (f s.world)

-- A call of the local disk, with its effect where it succeeds.
abbrev did : {S : Type 0} → Effect → List Effect → Bool × S → Result (Unit {0}) × State S
did e t (true, w) = (ok tt, record { world = w; trace = t ++ (e ∷ []) })
did e t (false, w) = (err io, record { world = w; trace = t })

abbrev pub act : {S : Type 0} → Effect → (S → Bool × S) → Run S (Unit {0})
act e f s = did e s.trace (f s.world)
