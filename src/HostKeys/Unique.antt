-- ===== src/HostKeys/Unique.antt =====
-- No host has two entries in the store.
use mshell.Prelude.{
  sym, ap, subst, Bool, true, false, Option, none, some, List, [], ◌∷◌, if◌then◌else◌, bytes_eq,
}
use mshell.HostKeys.{
  Policy, store_and_compare, strict, accept_all, Entry, File, absent, unreadable, holds, Result, ok,
  load_known_hosts, save_known_hosts, with_file, saved, trust_host_key, remove_host_key,
  import_entries, compare_entry,
}
use mshell.HostKeys.Entries.{IsUnique, upsert-IsUnique, upsert_all-IsUnique, without-IsUnique}
use mshell.HostKeys.Calls.{Call, verify, trust, remove, import, apply, apply_all}
use mshell.HostKeys.Pinned.{same_file}

abbrev pub IsUniqueFile : File → Type 0
IsUniqueFile (holds es) = IsUnique es
IsUniqueFile _ = Unit

save-IsUnique :
    (writes : Bool) (file : File) (es : List Entry)
    → IsUniqueFile file
    → IsUnique es
    → IsUniqueFile (save_known_hosts writes file es).0
unfolding save_known_hosts
save-IsUnique true file es f u = u
save-IsUnique false file es f u = f

saved-IsUnique :
    {A : Type 0} (a : A) (writes : Bool) (file : File) (es : List Entry)
    → IsUniqueFile file
    → IsUnique es
    → IsUniqueFile (saved a (save_known_hosts writes file es)).0
unfolding save_known_hosts
saved-IsUnique a true file es f u = u
saved-IsUnique a false file es f u = f

-- What a call loads has no host twice, and what it makes of that neither.
with_file-IsUnique :
    {A : Type 0} (file : File) (f : List Entry → File × Result A)
    → IsUniqueFile file
    → ((es : List Entry) → IsUnique es → IsUniqueFile (f es).0)
    → IsUniqueFile (with_file file (load_known_hosts file) f).0
unfolding load_known_hosts
with_file-IsUnique absent f u keep = keep [] tt
with_file-IsUnique unreadable f u keep = tt
with_file-IsUnique (holds es) f u keep = keep es u

compare-IsUnique :
    (writes : Bool) (policy : Policy) (file : File) (es : List Entry) (new : Entry)
    (o : Option Entry)
    → IsUniqueFile file
    → IsUnique es
    → IsUniqueFile (compare_entry writes policy file es new o).0
compare-IsUnique writes policy file es new (some e) f u =
    subst IsUniqueFile
      (sym (ap (λ r. r.0) (same_file (bytes_eq e.fingerprint new.fingerprint) file _ _))) f
compare-IsUnique writes strict file es new none f u = f
compare-IsUnique writes store_and_compare file es new none f u =
    saved-IsUnique _ writes file _ f (upsert-IsUnique es new u)
compare-IsUnique writes accept_all file es new none f u =
    saved-IsUnique _ writes file _ f (upsert-IsUnique es new u)

removed-IsUnique :
    (writes same : Bool) (file : File) (kept : List Entry)
    → IsUniqueFile file
    → IsUnique kept
    → let r : File × Result Bool =
        if same then (file, ok false) else saved true (save_known_hosts writes file kept) in
      IsUniqueFile r.0
removed-IsUnique writes true file kept f u = f
removed-IsUnique writes false file kept f u = saved-IsUnique true writes file kept f u

apply-IsUnique : (c : Call) (file : File) → IsUniqueFile file → IsUniqueFile (apply c file)
unfolding trust_host_key remove_host_key import_entries
apply-IsUnique (verify writes accept_all new) file u = u
apply-IsUnique (verify writes strict new) file u =
    with_file-IsUnique file _ u (λ es v. compare-IsUnique writes strict file es new _ u v)
apply-IsUnique (verify writes store_and_compare new) file u =
    with_file-IsUnique file _ u
      (λ es v. compare-IsUnique writes store_and_compare file es new _ u v)
apply-IsUnique (trust writes new) file u =
    with_file-IsUnique file _ u (λ es v. save-IsUnique writes file _ u (upsert-IsUnique es new v))
apply-IsUnique (remove writes host) file u =
    with_file-IsUnique file _ u
      (λ es v. removed-IsUnique writes _ file _ u (without-IsUnique es host v))
apply-IsUnique (import writes new) file u =
    with_file-IsUnique file _ u
      (λ es v. saved-IsUnique _ writes file _ u (upsert_all-IsUnique es new v))

-- No sequence of checks, trusts, removals and imports, writes failing or not, stores a host twice.
pub apply_all-IsUnique :
    (calls : List Call) (file : File) → IsUniqueFile file → IsUniqueFile (apply_all calls file)
unfolding apply_all
apply_all-IsUnique [] file u = u
apply_all-IsUnique (c ∷ calls) file u =
    apply_all-IsUnique calls (apply c file) (apply-IsUnique c file u)
