-- ===== src/HostKeys/Pinned.antt =====
-- Trust on first use: the key that a host has shown first stays its key, through any calls that are
-- not about that host.
use mshell.Prelude.{
  ℕ, ◌≡◌, ◌≢◌, refl, sym, ap, subst, ◌∙◌, Bool, true, false, Option, none, some, List, [], ◌∷◌,
  if◌then◌else◌, Bytes, length, bytes_eq, bytes_eq_iff, Bool-cases, inl, inr, ◌==◌, All,
}
use mshell.HostKeys.{
  Policy, store_and_compare, strict, accept_all, Entry, Crates, File, absent, unreadable, holds,
  host_key_changed, Result, ok, err, host_port_key, fingerprint_sha256, presented, load_known_hosts,
  save_known_hosts, find_entry, upsert_entry, upsert_all, without_host, saved, trust_host_key,
  remove_host_key, import_entries, compare_entry, verify_entry, verify_host_key,
}
use mshell.HostKeys.Calls.{Call, verify, trust, remove, import, apply, apply_all, Spares, Pins}
use mshell.HostKeys.Entries.{find-upsert_same, find-upsert_other, find-without_other}

module _ (host fingerprint : Bytes) where
  saved-Pins :
      (writes : Bool) (es es' : List Entry)
      → Pins host fingerprint (holds es)
      → find_entry es' host ≡ find_entry es host
      → Pins host fingerprint (save_known_hosts writes (holds es) es').0
  unfolding save_known_hosts
  saved-Pins true es es' (e, f, q) same = (e, same ∙ f, q)
  saved-Pins false es es' h same = h

  upsert_all-find :
      (es new : List Entry)
      → All (λ e. e.host ≢ host) new
      → find_entry (upsert_all es new) host ≡ find_entry es host
  unfolding upsert_all
  upsert_all-find es [] h = refl
  upsert_all-find es (n ∷ new) h =
      upsert_all-find (upsert_entry es n) new (h.1) ∙ find-upsert_other es n host (h.0)

  saved-file : {A : Type 0} (a : A) (r : File × Result Unit) → (saved a r).0 ≡ r.0
  saved-file a (file, ok u) = refl
  saved-file a (file, err e) = refl

  first-Pins :
      (writes : Bool) (es : List Entry) (new : Entry)
      → find_entry es new.host ≡ none
      → Pins host fingerprint (holds es)
      → Pins host fingerprint
          (saved new.fingerprint (save_known_hosts writes (holds es) (upsert_entry es new))).0
  first-Pins writes es new q h =
      let other : new.host ≢ host =
        λ p. absurd (cc (q, subst (λ k. find_entry es k ≡ some (h.0)) (sym p) (h.1))) in
      subst (Pins host fingerprint) (sym (saved-file new.fingerprint _))
        (saved-Pins writes es (upsert_entry es new) h (find-upsert_other es new host other))

  -- A first key is stored beside the pins that there are.
  compare-Pins :
      (writes : Bool) (policy : Policy) (es : List Entry) (new : Entry) (o : Option Entry)
      → find_entry es new.host ≡ o
      → Pins host fingerprint (holds es)
      → Pins host fingerprint (compare_entry writes policy (holds es) es new o).0
  compare-Pins writes policy es new (some x) q h =
      elim (Bool-cases (bytes_eq x.fingerprint new.fingerprint)) [ inl e ↦ rw e h | inr e ↦ rw e h ]
  compare-Pins writes strict es new none q h = h
  compare-Pins writes store_and_compare es new none q h = first-Pins writes es new q h
  compare-Pins writes accept_all es new none q h = first-Pins writes es new q h

  removed-Pins :
      (writes : Bool) (es : List Entry) (gone : Bytes) (same : Bool)
      → gone ≢ host
      → Pins host fingerprint (holds es)
      → let r = saved true (save_known_hosts writes (holds es) (without_host es gone)) in
        Pins host fingerprint (if same then (holds es, ok false) else r).0
  removed-Pins writes es gone true s h = h
  removed-Pins writes es gone false s h =
      subst (Pins host fingerprint) (sym (saved-file true _))
        (saved-Pins writes es (without_host es gone) h (find-without_other es gone host s))

  apply-Pins :
      (c : Call) (file : File)
      → Spares host c
      → Pins host fingerprint file
      → Pins host fingerprint (apply c file)
  unfolding load_known_hosts trust_host_key remove_host_key import_entries
  apply-Pins c absent s h = elim h [ ]
  apply-Pins c unreadable s h = elim h [ ]
  apply-Pins (verify writes accept_all new) (holds es) s h = h
  apply-Pins (verify writes store_and_compare new) (holds es) s h =
      compare-Pins writes store_and_compare es new (find_entry es new.host) refl h
  apply-Pins (verify writes strict new) (holds es) s h =
      compare-Pins writes strict es new (find_entry es new.host) refl h
  apply-Pins (trust writes new) (holds es) s h =
      saved-Pins writes es (upsert_entry es new) h (find-upsert_other es new host s)
  apply-Pins (remove writes gone) (holds es) s h =
      removed-Pins writes es gone (length (without_host es gone) == length es) s h
  apply-Pins (import writes new) (holds es) s h =
      subst (Pins host fingerprint) (sym (saved-file (length new) _))
        (saved-Pins writes es (upsert_all es new) h (upsert_all-find es new s))

  pub apply_all-Pins :
      (calls : List Call) (file : File)
      → All (Spares host) calls
      → Pins host fingerprint file
      → Pins host fingerprint (apply_all calls file)
  unfolding apply_all
  apply_all-Pins [] file s h = h
  apply_all-Pins (c ∷ calls) file s h =
      apply_all-Pins calls (apply c file) (s.1) (apply-Pins c file (s.0) h)

stored-Pins :
    (writes : Bool) (file : File) (es : List Entry) (new : Entry) (fp : Bytes)
    → let r = saved new.fingerprint (save_known_hosts writes file (upsert_entry es new)) in
      r.1 ≡ ok fp → Pins new.host new.fingerprint r.0
unfolding save_known_hosts
stored-Pins true file es new fp h = (new, find-upsert_same es new, refl)
stored-Pins false file es new fp h = cc

matched-Pins :
    (es : List Entry) (new e : Entry) (fp : Bytes) (same : Bool)
    → bytes_eq e.fingerprint new.fingerprint ≡ same
    → find_entry es new.host ≡ some e
    → (if same then ok new.fingerprint else err (host_key_changed new.fingerprint new.host)) ≡ ok fp
    → Pins new.host new.fingerprint (holds es)
matched-Pins es new e fp true q f h = (e, f, (bytes_eq_iff _ _).0 q)
matched-Pins es new e fp false q f h = cc

-- The answer to a pinned host.
abbrev pub pinned_answer : Bytes → Entry → Result Bytes
pinned_answer fingerprint new =
    if bytes_eq fingerprint new.fingerprint
    then ok new.fingerprint
    else err (host_key_changed new.fingerprint new.host)

pub same_file :
    {A : Type 0} (b : Bool) (file : File) (x y : A)
    → let p : File × A = if b then (file, x) else (file, y) in p ≡ (file, if b then x else y)
same_file true file x y = refl
same_file false file x y = refl

compare-some :
    (writes : Bool) (policy : Policy) (es : List Entry) (new e : Entry)
    → compare_entry writes policy (holds es) es new (some e)
      ≡ (holds es, pinned_answer e.fingerprint new)
compare-some writes policy es new e =
    same_file (bytes_eq e.fingerprint new.fingerprint) (holds es) _ _

compare-accepted :
    (writes : Bool) (policy : Policy) (es : List Entry) (new : Entry) (fp : Bytes)
    (o : Option Entry)
    → find_entry es new.host ≡ o
    → (compare_entry writes policy (holds es) es new o).1 ≡ ok fp
    → Pins new.host new.fingerprint (compare_entry writes policy (holds es) es new o).0
compare-accepted writes policy es new fp (some e) f h = rw (compare-some writes policy es new e) (
    matched-Pins es new e fp _ refl f
      (sym (ap (λ r. r.1) (compare-some writes policy es new e)) ∙ h))
compare-accepted writes strict es new fp none f h = cc
compare-accepted writes store_and_compare es new fp none f h =
    stored-Pins writes (holds es) es new fp h
compare-accepted writes accept_all es new fp none f h = stored-Pins writes (holds es) es new fp h

-- A check that accepts leaves the entry pinned, unless everything is accepted.
accepted-Pins :
    (writes : Bool) (policy : Policy) (file : File) (new : Entry) (fp : Bytes)
    → policy ≢ accept_all
    → (verify_entry writes policy file new).1 ≡ ok fp
    → Pins new.host new.fingerprint (verify_entry writes policy file new).0
unfolding load_known_hosts find_entry
accepted-Pins writes accept_all file new fp p h = absurd (p refl)
accepted-Pins writes strict absent new fp p h = cc
accepted-Pins writes strict unreadable new fp p h = cc
accepted-Pins writes strict (holds es) new fp p h =
    compare-accepted writes strict es new fp _ refl h
accepted-Pins writes store_and_compare absent new fp p h = stored-Pins writes absent [] new fp h
accepted-Pins writes store_and_compare unreadable new fp p h = cc
accepted-Pins writes store_and_compare (holds es) new fp p h =
    compare-accepted writes store_and_compare es new fp _ refl h

pinned-compare :
    (writes : Bool) (policy : Policy) (es : List Entry) (new : Entry) (fingerprint : Bytes)
    → Pins new.host fingerprint (holds es)
    → compare_entry writes policy (holds es) es new (find_entry es new.host)
      ≡ (holds es, pinned_answer fingerprint new)
pinned-compare writes policy es new fingerprint (e, f, q) =
    ap (compare_entry writes policy (holds es) es new) f
    ∙ compare-some writes policy es new e
    ∙ ap (λ k. (holds es, pinned_answer k new)) q

pub pinned-verify :
    (writes : Bool) (policy : Policy) (file : File) (new : Entry) (fingerprint : Bytes)
    → policy ≢ accept_all
    → Pins new.host fingerprint file
    → verify_entry writes policy file new ≡ (file, pinned_answer fingerprint new)
unfolding load_known_hosts
pinned-verify writes policy absent new fingerprint p h = elim h [ ]
pinned-verify writes policy unreadable new fingerprint p h = elim h [ ]
pinned-verify writes accept_all (holds es) new fingerprint p h = absurd (p refl)
pinned-verify writes strict (holds es) new fingerprint p h =
    pinned-compare writes strict es new fingerprint h
pinned-verify writes store_and_compare (holds es) new fingerprint p h =
    pinned-compare writes store_and_compare es new fingerprint h

-- Once a check, under a policy that does not accept everything, has accepted a key of a server, and
-- whatever checks, trusts, removals and imports of other hosts follow, each later check of that
-- server leaves the file alone; it accepts exactly the keys with the same fingerprint, and calls
-- every other one changed.
pub verify_host_key-pins :
    (crates : Crates) (host : Bytes) (port : ℕ) (file : File) (calls : List Call)
    (writes writes' : Bool) (key type key' type' fp : Bytes) (policy policy' : Policy)
    → policy ≢ accept_all
    → policy' ≢ accept_all
    → let first = verify_host_key crates writes file host port key type policy in
      first.1 ≡ ok fp
      → All (Spares (host_port_key crates host port)) calls
      → let later = apply_all calls first.0 in
        verify_host_key crates writes' later host port key' type' policy' ≡ (
          later,
          pinned_answer (fingerprint_sha256 crates key) (presented crates host port key' type'),
        )
unfolding verify_host_key
verify_host_key-pins crates host port file calls writes writes' key type key' type' fp policy
      policy' p p' ok1 s =
    let new = presented crates host port key type in
    let accepted = accepted-Pins writes policy file new fp p ok1 in
    pinned-verify writes' policy' _ (presented crates host port key' type') _ p'
      (apply_all-Pins _ _ calls _ s accepted)
