-- ===== src/HostKeys/Atomic.antt =====
-- `atomic_write`: the store is replaced whole, wherever the process stops.
use mshell.Prelude.{
  ℕ, ◌≡◌, ◌⊎◌, refl, ◌∙◌, inl, inr, Bool, true, false, Option, none, some, List, [], ◌∷◌, Bytes,
  take, All,
}

-- The target's path and the temporary one beside it.
pub record Disk : Type 0 where
  pub target : Option Bytes
  pub tmp : Option Bytes

-- What the file system does: whether the temporary file is created, how many bytes of it are
-- written before a fault, if there is one, whether `sync_all` and `rename` succeed, and whether the
-- clean-up after them does. `rename` replaces the target in one step.
pub record Faults : Type 0 where
  pub creates : Bool
  pub writes : Option ℕ
  pub syncs : Bool
  pub renames : Bool
  pub removes : Bool

abbrev pub removed : Bool → Disk → Disk
removed true d = record d { tmp = none }
removed false d = d

abbrev pub written : Bytes → Option ℕ → Disk → Disk
written data_ none d = record d { tmp = some data_ }
written data_ (some n) d = record d { tmp = some (take n data_) }

-- The states of the disk that the call passes through, and whether it returns `Ok`.
abbrev pub rename_steps : Bool → Bool → Bytes → Disk → List Disk × Bool
rename_steps true removes data_ d = (record d { target = d.tmp; tmp = none } ∷ [], true)
rename_steps false removes data_ d = (removed removes d ∷ [], false)

abbrev pub sync_steps : Bool → Bool → Bool → Bytes → Disk → List Disk × Bool
sync_steps true renames removes data_ d = rename_steps renames removes data_ d
sync_steps false renames removes data_ d = ([], false)

abbrev pub before : Disk → List Disk × Bool → List Disk × Bool
before d (ds, ok) = (d ∷ ds, ok)

abbrev pub write_steps : Faults → Bytes → Disk → Option ℕ → List Disk × Bool
write_steps f data_ d none =
    let w = written data_ none d in before w (sync_steps f.syncs f.renames f.removes data_ w)
write_steps f data_ d (some n) = (written data_ (some n) d ∷ [], false)

abbrev pub create_steps : Bool → Faults → Bytes → Disk → List Disk × Bool
create_steps true f data_ d =
    let c = record d { tmp = some [] } in before c (write_steps f data_ c f.writes)
create_steps false f data_ d = ([], false)

-- A stale temporary file is removed first.
unfoldable pub atomic_write : Faults → Bytes → Disk → List Disk × Bool
atomic_write f data_ d =
    let clean = removed f.removes d in before clean (create_steps f.creates f data_ clean)

abbrev pub last : Disk → List Disk → Disk
last d [] = d
last d (e ∷ ds) = last e ds

-- The old contents or all of the new ones.
abbrev pub IsWhole : Option Bytes → Bytes → Disk → Type 0
IsWhole old data_ d = (d.target ≡ old) ⊎ (d.target ≡ some data_)

-- What holds of the states after `d`.
abbrev Ends : Option Bytes → Bytes → Disk → List Disk × Bool → Type 0
Ends old data_ d (ds, ok) =
    All (IsWhole old data_) ds
    × (ok ≡ true → (last d ds).target ≡ some data_)
    × (ok ≡ true → (last d ds).tmp ≡ none)

removed-target : (m : Bool) (d : Disk) → (removed m d).target ≡ d.target
removed-target true d = refl
removed-target false d = refl

module _ (old : Option Bytes) (data_ : Bytes) where
  rename-Ends :
      (renames removes : Bool) (d : Disk)
      → d.target ≡ old
      → d.tmp ≡ some data_
      → Ends old data_ d (rename_steps renames removes data_ d)
  rename-Ends true removes d t w = ((inr w, tt), λ _. w, λ _. refl)
  rename-Ends false removes d t w = ((inl (removed-target removes d ∙ t), tt), λ e. cc, λ e. cc)

  sync-Ends :
      (syncs renames removes : Bool) (d : Disk)
      → d.target ≡ old
      → d.tmp ≡ some data_
      → Ends old data_ d (sync_steps syncs renames removes data_ d)
  sync-Ends true renames removes d t w = rename-Ends renames removes d t w
  sync-Ends false renames removes d t w = (tt, λ e. cc, λ e. cc)

  before-Ends :
      (d e : Disk) (r : List Disk × Bool)
      → e.target ≡ old
      → Ends old data_ e r
      → Ends old data_ d (before e r)
  before-Ends d e (ds, ok) t h = ((inl t, h.0), h.1, h.2)

  write-Ends :
      (f : Faults) (d : Disk) (writes : Option ℕ)
      → d.target ≡ old
      → Ends old data_ d (write_steps f data_ d writes)
  write-Ends f d none t =
      before-Ends d _ _ t (sync-Ends f.syncs f.renames f.removes (written data_ none d) t refl)
  write-Ends f d (some n) t = ((inl t, tt), λ e. cc, λ e. cc)

  create-Ends :
      (creates : Bool) (f : Faults) (d : Disk)
      → d.target ≡ old
      → Ends old data_ d (create_steps creates f data_ d)
  create-Ends true f d t =
      before-Ends d _ _ t (write-Ends f (record d { tmp = some [] }) f.writes t)
  create-Ends false f d t = (tt, λ e. cc, λ e. cc)

-- Wherever `atomic_write` is stopped, by a crash or by a fault, the target has its old contents or
-- all of the new ones; and if it returns `Ok`, it ends with the new ones and no temporary file.
pub atomic_write-IsWhole :
    (f : Faults) (data_ : Bytes) (d : Disk)
    → let (ds, ok) = atomic_write f data_ d in
      All (IsWhole d.target data_) ds
      × (ok ≡ true → (last d ds).target ≡ some data_)
      × (ok ≡ true → (last d ds).tmp ≡ none)
unfolding atomic_write
atomic_write-IsWhole f data_ d =
    let clean = removed f.removes d in
    let t = removed-target f.removes d in
    before-Ends d.target data_ d clean _ t (create-Ends d.target data_ f.creates f clean t)
