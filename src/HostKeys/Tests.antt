-- ===== src/HostKeys/Tests.antt =====
-- A host that shows one key and then another.
use mshell.Prelude.{◌≡◌, refl, true, none, some, List, [], ◌∷◌, Bytes, All}
use mshell.HostKeys.{
  store_and_compare, strict, Entry, Crates, absent, ok, host_port_key, fingerprint_sha256,
  presented, load_known_hosts, save_known_hosts, find_entry, verify_host_key,
}
use mshell.HostKeys.Calls.{Call, trust, remove, apply_all, Spares}
use mshell.HostKeys.Pinned.{pinned_answer, verify_host_key-pins}
use mshell.HostKeys.Unique.{IsUniqueFile, apply_all-IsUnique}
use mshell.HostKeys.Atomic.{Disk, Faults, atomic_write, IsWhole, last, atomic_write-IsWhole}

-- Keys are their own digests; every port is "22".
abbrev crates : Crates
crates = record {
  sha256 = λ k. k;
  base64_encode = λ d. d;
  base64_decode = λ t. some t;
  decimal = λ n. b'2' ∷ b'2' ∷ [];
}

abbrev host : Bytes
host = b'h' ∷ []

abbrev other : Entry
other = record { host = b'o' ∷ []; fingerprint = b'f' ∷ []; key_type = [] }

-- Another host is trusted and removed in between.
abbrev calls : List Call
calls = trust true other ∷ remove true (b'o' ∷ []) ∷ []

accepts_first :
    (verify_host_key crates true absent host 22 (b'k' ∷ []) [] store_and_compare).1
    ≡ ok (fingerprint_sha256 crates (b'k' ∷ []))
unfolding verify_host_key load_known_hosts find_entry save_known_hosts
accepts_first = refl

calls_spare : All (Spares (host_port_key crates host 22)) calls
calls_spare = (λ e. cc, (λ e. cc, tt))

verify_host_key-pins_example :
    let first = verify_host_key crates true absent host 22 (b'k' ∷ []) [] store_and_compare in
    let later = apply_all calls first.0 in
    verify_host_key crates true later host 22 (b'l' ∷ []) [] strict ≡ (
      later,
      pinned_answer
          (fingerprint_sha256 crates (b'k' ∷ []))
          (presented crates host 22 (b'l' ∷ []) []),
    )
verify_host_key-pins_example =
    verify_host_key-pins crates host 22 absent calls true true (b'k' ∷ []) [] (b'l' ∷ []) [] _
      store_and_compare strict (λ e. cc) (λ e. cc) accepts_first calls_spare

apply_all-IsUnique_example : IsUniqueFile (apply_all calls absent)
apply_all-IsUnique_example = apply_all-IsUnique calls absent tt

-- The disk is full after one byte.
abbrev full : Faults
full = record { creates = true; writes = some 1; syncs = true; renames = true; removes = true }

abbrev disk : Disk
disk = record { target = some (b'o' ∷ []); tmp = none }

atomic_write-IsWhole_example :
    let (ds, success) = atomic_write full (b'a' ∷ b'b' ∷ []) disk in
    All (IsWhole disk.target (b'a' ∷ b'b' ∷ [])) ds
    × (success ≡ true → (last disk ds).target ≡ some (b'a' ∷ b'b' ∷ []))
    × (success ≡ true → (last disk ds).tmp ≡ none)
atomic_write-IsWhole_example = atomic_write-IsWhole full (b'a' ∷ b'b' ∷ []) disk
