-- ===== src/HostKeys/Imported.antt =====
-- What a check makes of a host after an import.
use mshell.Prelude.{
  ℕ, ◌≡◌, ◌≢◌, refl, sym, ap, subst, ◌∙◌, Bool, true, Option, some, List, [], ◌∷◌, if◌then◌else◌,
  Bytes, length, bytes_eq, bytes_eq_iff, Bool-cases, inl, inr, All,
}
use mshell.HostKeys.{
  Policy, accept_all, Entry, Crates, File, holds, ok, host_port_key, presented, load_known_hosts,
  save_known_hosts, find_entry, upsert_entry, upsert_all, with_file, saved, import_entries,
  verify_host_key,
}
use mshell.HostKeys.Entries.{find-upsert_same, find-upsert_other}
use mshell.HostKeys.Import.{import_openssh_known_hosts}
use mshell.HostKeys.Known.{Line, print, IsLine, all_entries}
use mshell.HostKeys.Lines.{parse_openssh_known_hosts-print}
use mshell.HostKeys.Calls.{Pins}
use mshell.HostKeys.Pinned.{pinned_answer, pinned-verify}

-- The last entry for a host, else the one before the list.
unfoldable pub last_for : Option Entry → List Entry → Bytes → Option Entry
last_for o [] host = o
last_for o (e ∷ es) host = last_for (if bytes_eq e.host host then some e else o) es host

find-upsert :
    (es : List Entry) (e : Entry) (host : Bytes)
    → find_entry (upsert_entry es e) host
      ≡ (if bytes_eq e.host host then some e else find_entry es host)
find-upsert es e host = elim (Bool-cases (bytes_eq e.host host)) [
  | inl q ↦
      subst (λ h. find_entry (upsert_entry es e) h ≡ some e) ((bytes_eq_iff e.host host).0 q)
        (find-upsert_same es e)
      ∙ rw q refl
  | inr q ↦ find-upsert_other es e host (λ p. cc (q, (bytes_eq_iff e.host host).1 p)) ∙ rw q refl
]

find-upsert_all :
    (es new : List Entry) (host : Bytes)
    → find_entry (upsert_all es new) host ≡ last_for (find_entry es host) new host
unfolding upsert_all last_for
find-upsert_all es [] host = refl
find-upsert_all es (e ∷ new) host =
    find-upsert_all (upsert_entry es e) new host
    ∙ ap (λ o. last_for o new host) (find-upsert es e host)

imported-file :
    (crates : Crates) (ls : List Line) (file : File) (es : List Entry)
    → All IsLine ls
    → load_known_hosts file ≡ ok es
    → (import_openssh_known_hosts crates true file (print ls)).0
      ≡ holds (upsert_all es (all_entries crates ls))
unfolding import_openssh_known_hosts import_entries save_known_hosts
imported-file crates ls file es h loaded =
    ap (λ new. (import_entries true file new).0) (parse_openssh_known_hosts-print crates ls h)
    ∙ ap
        (λ r.
          (with_file file r λ es'.
            saved (length (all_entries crates ls))
              (save_known_hosts true file (upsert_all es' (all_entries crates ls)))).0)
        loaded

-- After known_hosts text is imported into a store that can be read and written, a check of a server
-- of which the text or the store before has a key accepts exactly the keys with the fingerprint of
-- the last one, that of the text if it has one, and calls every other key changed. The lines of the
-- text are entries with any white space, several names, ports in brackets, excluded names and more
-- behind the key, which stand for one key under each name not excluded, or for nothing where the
-- key is no base64; or comments and lines with a marker, which stand for nothing.
pub import_openssh_known_hosts-pins :
    (crates : Crates) (ls : List Line) (file : File) (es : List Entry) (e : Entry) (host : Bytes)
    (port : ℕ) (writes : Bool) (key type : Bytes) (policy : Policy)
    → All IsLine ls
    → load_known_hosts file ≡ ok es
    → let server = host_port_key crates host port in
      last_for (find_entry es server) (all_entries crates ls) server ≡ some e
      → policy ≢ accept_all
      → let after = (import_openssh_known_hosts crates true file (print ls)).0 in
        verify_host_key crates writes after host port key type policy
        ≡ (after, pinned_answer e.fingerprint (presented crates host port key type))
unfolding verify_host_key
import_openssh_known_hosts-pins crates ls file es e host port writes key type policy h loaded last
      p =
    let server = host_port_key crates host port in
    let new = all_entries crates ls in
    let pins : Pins server e.fingerprint (holds (upsert_all es new)) =
      (e, find-upsert_all es new server ∙ last, refl) in
    pinned-verify writes policy _ (presented crates host port key type) e.fingerprint p
      (subst (Pins server e.fingerprint) (sym (imported-file crates ls file es h loaded)) pins)
