-- ===== src/HostKeys/Calls.antt =====
-- Sequences of calls of host_key.rs, and the entry under which the store knows a host.
use mshell.Prelude.{◌≡◌, ◌≢◌, Bool, some, List, [], ◌∷◌, Bytes, All}
use mshell.HostKeys.{
  Policy, Entry, File, absent, unreadable, holds, find_entry, trust_host_key, remove_host_key,
  import_entries, verify_entry,
}

-- A call, with whether the file system lets it write.
-- (The entries of `verify` and `trust` are made from the arguments of the call.)
pub data Call : Type 0 where
  verify : (writes : Bool) (policy : Policy) (new : Entry) → Call
  trust : (writes : Bool) (new : Entry) → Call
  remove : (writes : Bool) (host : Bytes) → Call
  import : (writes : Bool) (new : List Entry) → Call

abbrev pub apply : Call → File → File
apply (verify writes policy new) file = (verify_entry writes policy file new).0
apply (trust writes new) file = (trust_host_key writes file new).0
apply (remove writes host) file = (remove_host_key writes file host).0
apply (import writes new) file = (import_entries writes file new).0

unfoldable pub apply_all : List Call → File → File
apply_all [] file = file
apply_all (c ∷ calls) file = apply_all calls (apply c file)

-- A check is never against the pin; the user's calls are, if they name the host.
abbrev pub Spares : Bytes → Call → Type 0
Spares host (verify writes policy new) = Unit
Spares host (trust writes new) = new.host ≢ host
Spares host (remove writes gone) = gone ≢ host
Spares host (import writes new) = All (λ e. e.host ≢ host) new

-- The entry under which the store knows a host.
abbrev pub Pins : Bytes → Bytes → File → Type 0
Pins host fingerprint absent = ⊥
Pins host fingerprint unreadable = ⊥
Pins host fingerprint (holds es) =
    (e : Entry) × (find_entry es host ≡ some e) × (e.fingerprint ≡ fingerprint)
