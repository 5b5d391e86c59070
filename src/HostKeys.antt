-- ===== src/HostKeys.antt =====
-- crates/ssh-core/src/host_key.rs: the fingerprints of known hosts, and the check of a host's key.
--
-- A string is the list of its code points, a key of its bytes. The file known_hosts.json is what `serde_json` makes of it; a
-- call holds KNOWN_HOSTS_LOCK from its load to its save, so calls follow each other.
pub mod Import
pub mod Known
pub mod Words
pub mod Lines
pub mod Imported
pub mod Entries
pub mod Calls
pub mod Pinned
pub mod Unique
pub mod Atomic
mod Tests
mod KnownTests
use mshell.Prelude.{
  ℕ, Bool, true, false, not, ◌&&◌, Option, none, some, List, [], ◌∷◌, ◌++◌, ◌==◌, if◌then◌else◌,
  Bytes, length, bytes_eq,
}

-- `KnownHostsPolicy`
pub data Policy : Type 0 where
  store_and_compare strict accept_all : Policy

-- `KnownHostEntry`
pub record Entry : Type 0 where
  pub host : Bytes
  pub fingerprint : Bytes
  pub key_type : Bytes

-- The crates sha2 and base64, and the formatting of a port.
pub record Crates : Type 0 where
  pub sha256 : Bytes → Bytes
  pub base64_encode : Bytes → Bytes
  pub base64_decode : Bytes → Option Bytes
  pub decimal : ℕ → Bytes

-- What the path of the store holds; a file of white space only is `holds []`.
pub data File : Type 0 where
  absent : File
  unreadable : File
  holds : List Entry → File

-- The variants of `CoreError` that this code returns, I/O and JSON errors being one.
pub data Error : Type 0 where
  host_key_changed : (fingerprint : Bytes) (host : Bytes) → Error
  host_key_unknown : (fingerprint : Bytes) (host : Bytes) → Error
  io : Error

pub data Result (A : Type 0) : Type 0 where
  ok : A → Result A
  err : Error → Result A

abbrev pub host_port_key : Crates → Bytes → ℕ → Bytes
host_port_key crates host port = host ++ (b':' ∷ []) ++ crates.decimal port

-- "SHA256:"
abbrev pub fingerprint_sha256 : Crates → Bytes → Bytes
fingerprint_sha256 crates key_bytes =
    (b'S' ∷ b'H' ∷ b'A' ∷ b'2' ∷ b'5' ∷ b'6' ∷ b':' ∷ [])
    ++ crates.base64_encode (crates.sha256 key_bytes)

abbrev pub fingerprints_equal : Bytes → Bytes → Bool
fingerprints_equal a b = bytes_eq a b

unfoldable pub load_known_hosts : File → Result (List Entry)
load_known_hosts absent = ok []
load_known_hosts unreadable = err io
load_known_hosts (holds es) = ok es

-- `writes` says whether the file system lets the new file be written; if not, the old one stays.
unfoldable pub save_known_hosts : Bool → File → List Entry → File × Result Unit
save_known_hosts true file es = (holds es, ok tt)
save_known_hosts false file es = (file, err io)

unfoldable pub find_entry : List Entry → Bytes → Option Entry
find_entry [] host_key = none
find_entry (e ∷ es) host_key =
    let rest = find_entry es host_key in if bytes_eq e.host host_key then some e else rest

-- The first entry with the host is replaced, or the new one is pushed.
unfoldable pub upsert_entry : List Entry → Entry → List Entry
upsert_entry [] entry = entry ∷ []
upsert_entry (e ∷ es) entry =
    let rest = upsert_entry es entry in if bytes_eq e.host entry.host then entry ∷ es else e ∷ rest

-- `retain(|e| e.host != host)`
unfoldable pub without_host : List Entry → Bytes → List Entry
without_host [] host = []
without_host (e ∷ es) host =
    let rest = without_host es host in if bytes_eq e.host host then rest else e ∷ rest

abbrev pub with_file :
    {A : Type 0} → File → Result (List Entry) → (List Entry → File × Result A) → File × Result A
with_file file (ok es) f = f es
with_file file (err e) f = (file, err e)

abbrev pub saved : {A : Type 0} → A → File × Result Unit → File × Result A
saved a (file, ok u) = (file, ok a)
saved a (file, err e) = (file, err e)

unfoldable pub trust_host_key : Bool → File → Entry → File × Result Unit
trust_host_key writes file entry =
    with_file file (load_known_hosts file)
      λ es. save_known_hosts writes file (upsert_entry es entry)

-- The file is written only if an entry went.
unfoldable pub remove_host_key : Bool → File → Bytes → File × Result Bool
remove_host_key writes file host = with_file file (load_known_hosts file) λ es.
    let kept = without_host es host in
    if length kept == length es
    then (file, ok false)
    else saved true (save_known_hosts writes file kept)

unfoldable pub upsert_all : List Entry → List Entry → List Entry
upsert_all es [] = es
upsert_all es (n ∷ new) = upsert_all (upsert_entry es n) new

-- `import_openssh_known_hosts`, from the entries that the text has.
unfoldable pub import_entries : Bool → File → List Entry → File × Result ℕ
import_entries writes file new =
    with_file file (load_known_hosts file)
      λ es. saved (length new) (save_known_hosts writes file (upsert_all es new))

-- The `match` on the stored entry.
abbrev pub compare_entry :
    Bool → Policy → File → List Entry → Entry → Option Entry → File × Result Bytes
compare_entry writes policy file es new (some existing) =
    if fingerprints_equal existing.fingerprint new.fingerprint
    then (file, ok new.fingerprint)
    else (file, err (host_key_changed new.fingerprint new.host))
compare_entry writes strict file es new none =
    (file, err (host_key_unknown new.fingerprint new.host))
compare_entry writes _ file es new none =
    saved new.fingerprint (save_known_hosts writes file (upsert_entry es new))

abbrev pub presented : Crates → Bytes → ℕ → Bytes → Bytes → Entry
presented crates host port key_bytes key_type = record {
  host = host_port_key crates host port;
  fingerprint = fingerprint_sha256 crates key_bytes;
  key_type = key_type;
}

abbrev pub verify_entry : Bool → Policy → File → Entry → File × Result Bytes
verify_entry writes accept_all file new = (file, ok new.fingerprint)
verify_entry writes policy file new =
    with_file file (load_known_hosts file)
      λ es. compare_entry writes policy file es new (find_entry es new.host)

unfoldable pub verify_host_key :
    Crates → Bool → File → Bytes → ℕ → Bytes → Bytes → Policy → File × Result Bytes
verify_host_key crates writes file host port key_bytes key_type policy =
    verify_entry writes policy file (presented crates host port key_bytes key_type)
