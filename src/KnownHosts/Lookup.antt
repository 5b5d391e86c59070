-- ===== src/KnownHosts/Lookup.antt =====
-- The check as a look-up: first the entries that are for the host, then a key among them.
use mshell.Prelude.{
  ℕ, ◌≡◌, ◌≢◌, refl, sym, ap, ◌∙◌, inl, inr, Option, none, some, List, [], ◌∷◌, ◌++◌, if◌then◌else◌,
  Bytes, bytes_eq, Bool-cases, ne→==, fun_ext,
}
use mshell.KnownHosts.{
  KnownHost, Library, Check, match, mismatch, not_found, name_type, sha1, concerns, scan, scan_all,
  Scan, scan_result, scan_next, first_bad, host_forms, check_key, check_with, knownhost_check,
}

-- The first entry with the key.
unfoldable pub with_key : Bytes → List KnownHost → Option KnownHost
with_key key [] = none
with_key key (e ∷ es) = let rest = with_key key es in if bytes_eq key e.key then some e else rest

abbrev pub first : List KnownHost → Option KnownHost
first [] = none
first (e ∷ es) = some e

-- A match is reported before a mismatch, whatever their order.
abbrev pub answer : Option KnownHost → Option KnownHost → Check
answer (some e) h = match e
answer none (some e) = mismatch e
answer none none = not_found

module _ (lib : Library) (typemask : ℕ) where
  -- The entries that are for one form of the name, in order.
  unfoldable pub entries_for : List KnownHost → Bytes → List KnownHost
  entries_for [] host = []
  entries_for (e ∷ es) host =
      let rest = entries_for es host in if concerns lib typemask host e then e ∷ rest else rest

  -- Those for the forms of the name, a form with a port before the plain one.
  unfoldable pub candidates : List KnownHost → List Bytes → List KnownHost
  unfolding entries_for
  candidates nodes [] = []
  candidates nodes (host ∷ hosts) = entries_for nodes host ++ candidates nodes hosts

-- What the loops make of the entries that are for the host.
abbrev or_first : Option KnownHost → List KnownHost → Option KnownHost
or_first (some bad) es = some bad
or_first none es = first es

abbrev outcome : Option KnownHost → List KnownHost → Option KnownHost → Scan
outcome badkey es (some e) = inl e
outcome badkey es none = inr (or_first badkey es)

module _ (lib : Library) (typemask : ℕ) (key : Bytes) where
  found-first :
      (badkey : Option KnownHost) (e : KnownHost) (es : List KnownHost) (k : Option KnownHost)
      → outcome (first_bad badkey e) es k ≡ outcome badkey (e ∷ es) k
  found-first none e es none = refl
  found-first none e es (some k) = refl
  found-first (some b) e es none = refl
  found-first (some b) e es (some k) = refl

  scan-entries :
      (host : Bytes) (badkey : Option KnownHost) (nodes : List KnownHost)
      → let es = entries_for lib typemask nodes host in
        scan lib typemask key host badkey nodes ≡ outcome badkey es (with_key key es)
  unfolding scan entries_for with_key
  scan-entries host none [] = refl
  scan-entries host (some b) [] = refl
  scan-entries host badkey (e ∷ nodes) = elim (Bool-cases (concerns lib typemask host e)) [
    | inr n ↦ rw n (scan-entries host badkey nodes)
    | inl y ↦ rw y (elim (Bool-cases (bytes_eq key e.key)) [
      | inl k ↦ rw k refl
      | inr k ↦ rw k (scan-entries host (first_bad badkey e) nodes ∙ found-first badkey e _ _)
    ])
  ]

  abbrev either : Option KnownHost → Option KnownHost → Option KnownHost
  either (some e) k = some e
  either none k = k

  with_key-append :
      (xs ys : List KnownHost)
      → with_key key (xs ++ ys) ≡ either (with_key key xs) (with_key key ys)
  unfolding with_key
  with_key-append [] ys = refl
  with_key-append (e ∷ xs) ys = elim (Bool-cases (bytes_eq key e.key)) [
    | inl k ↦ rw k refl
    | inr k ↦ rw k (with_key-append xs ys)
  ]

  or_first-append :
      (badkey : Option KnownHost) (xs ys : List KnownHost)
      → or_first (or_first badkey xs) ys ≡ or_first badkey (xs ++ ys)
  or_first-append none [] ys = refl
  or_first-append none (x ∷ xs) ys = refl
  or_first-append (some b) xs ys = refl

  outcome-append :
      (badkey : Option KnownHost) (xs ys : List KnownHost) (k l : Option KnownHost)
      → scan_next (outcome badkey xs k) (λ bad. outcome bad ys l)
        ≡ outcome badkey (xs ++ ys) (either k l)
  outcome-append badkey xs ys (some k) l = refl
  outcome-append badkey xs ys none (some l) = refl
  outcome-append badkey xs ys none none = ap inr (or_first-append badkey xs ys)

  scan_all-candidates :
      (nodes : List KnownHost) (badkey : Option KnownHost) (hosts : List Bytes)
      → let es = candidates lib typemask nodes hosts in
        scan_all lib typemask key nodes badkey hosts ≡ outcome badkey es (with_key key es)
  unfolding scan_all candidates with_key
  scan_all-candidates nodes none [] = refl
  scan_all-candidates nodes (some b) [] = refl
  scan_all-candidates nodes badkey (host ∷ hosts) =
      let xs = entries_for lib typemask nodes host in
      let ys = candidates lib typemask nodes hosts in
      ap (λ s. scan_next s (λ bad. scan_all lib typemask key nodes bad hosts))
        (scan-entries host badkey nodes)
      ∙ ap (scan_next (outcome badkey xs (with_key key xs)))
          (fun_ext λ bad. scan_all-candidates nodes bad hosts)
      ∙ outcome-append badkey xs ys (with_key key xs) (with_key key ys)
      ∙ ap (outcome badkey (xs ++ ys)) (sym (with_key-append xs ys))

outcome-answer :
    (es : List KnownHost) (k : Option KnownHost)
    → scan_result (outcome none es k) ≡ answer k (first es)
outcome-answer es (some k) = refl
outcome-answer [] none = refl
outcome-answer (e ∷ es) none = refl

-- The check of a name that is not a hash finds the first entry that is for the host and has the
-- key, the form with the port first; without one, it reports the first entry that is for the host.
pub knownhost_check-answer :
    (lib : Library) (nodes : List KnownHost) (host : Bytes) (port : Option ℕ) (key k : Bytes)
    (keylen typemask : ℕ) (forms : List Bytes)
    → name_type typemask ≢ sha1
    → host_forms lib host port ≡ some forms
    → check_key lib key keylen typemask ≡ some k
    → let es = candidates lib typemask nodes forms in
      knownhost_check lib nodes host port key keylen typemask ≡ answer (with_key k es) (first es)
unfolding knownhost_check
knownhost_check-answer lib nodes host port key k keylen typemask forms t f e =
    rw (ne→== (name_type typemask) sha1 t) (
      ap (λ o. check_with lib nodes typemask o (check_key lib key keylen typemask)) f
      ∙ ap (check_with lib nodes typemask (some forms)) e
      ∙ ap scan_result (scan_all-candidates lib typemask k nodes none forms)
      ∙ outcome-answer _ _)
