-- ===== src/HostKeys/Entries.antt =====
-- Looking up, storing and removing entries, and no host twice.
use mshell.Prelude.{
  ◌≡◌, ◌≢◌, refl, sym, ap, subst, ◌∙◌, Bool, true, false, none, some, List, [], ◌∷◌, if◌then◌else◌,
  Bytes, bytes_eq, bytes_eq_iff, Bool-cases, inl, inr,
}
use mshell.HostKeys.{Entry, find_entry, upsert_entry, upsert_all, without_host}

pub bytes_eq_refl : (xs : Bytes) → bytes_eq xs xs ≡ true
bytes_eq_refl xs = (bytes_eq_iff xs xs).1 refl

pub bytes_ne : (xs ys : Bytes) → xs ≢ ys → bytes_eq xs ys ≡ false
bytes_ne xs ys h = elim (Bool-cases (bytes_eq xs ys)) [
  | inl e ↦ absurd (h ((bytes_eq_iff xs ys).0 e))
  | inr e ↦ e
]

other_host : (x e host : Bytes) → bytes_eq x e ≡ true → e ≢ host → x ≢ host
other_host x e host q h p = h (sym ((bytes_eq_iff x e).0 q) ∙ p)

ne_true : {b : Bool} → b ≡ false → b ≢ true
ne_true e p = cc

pub find-upsert_same :
    (es : List Entry) (e : Entry) → find_entry (upsert_entry es e) e.host ≡ some e
unfolding find_entry upsert_entry
find-upsert_same [] e = rw (bytes_eq_refl e.host) refl
find-upsert_same (x ∷ es) e = elim (Bool-cases (bytes_eq x.host e.host)) [
  | inl q ↦ rw q (rw (bytes_eq_refl e.host) refl)
  | inr q ↦ rw q (rw q (find-upsert_same es e))
]

pub find-upsert_other :
    (es : List Entry) (e : Entry) (host : Bytes)
    → e.host ≢ host
    → find_entry (upsert_entry es e) host ≡ find_entry es host
unfolding find_entry upsert_entry
find-upsert_other [] e host h = rw (bytes_ne e.host host h) refl
find-upsert_other (x ∷ es) e host h = elim (Bool-cases (bytes_eq x.host e.host)) [
  | inl q ↦ rw q (
      rw (bytes_ne e.host host h)
        (rw (bytes_ne x.host host (other_host x.host e.host host q h)) refl))
  | inr q ↦
      rw q (ap (λ r. if bytes_eq x.host host then some x else r) (find-upsert_other es e host h))
]

pub find-without_other :
    (es : List Entry) (gone host : Bytes)
    → gone ≢ host
    → find_entry (without_host es gone) host ≡ find_entry es host
unfolding find_entry without_host
find-without_other [] gone host h = refl
find-without_other (x ∷ es) gone host h = elim (Bool-cases (bytes_eq x.host gone)) [
  | inl q ↦ rw q (
      rw (bytes_ne x.host host (other_host x.host gone host q h))
        (find-without_other es gone host h))
  | inr q ↦
      rw q
        (ap (λ r. if bytes_eq x.host host then some x else r) (find-without_other es gone host h))
]

pub find-without_same :
    (es : List Entry) (gone : Bytes) → find_entry (without_host es gone) gone ≡ none
unfolding find_entry without_host
find-without_same [] gone = refl
find-without_same (x ∷ es) gone = elim (Bool-cases (bytes_eq x.host gone)) [
  | inl q ↦ rw q (find-without_same es gone)
  | inr q ↦ rw q (rw q (find-without_same es gone))
]

-- No two entries have one host.
abbrev pub IsUnique : List Entry → Type 0
IsUnique [] = Unit
IsUnique (e ∷ es) = (find_entry es e.host ≡ none) × IsUnique es

find-nil : (host : Bytes) → find_entry [] host ≡ none
unfolding find_entry
find-nil host = refl

pub upsert-IsUnique : (es : List Entry) (e : Entry) → IsUnique es → IsUnique (upsert_entry es e)
unfolding upsert_entry
upsert-IsUnique [] e u = (find-nil e.host, tt)
upsert-IsUnique (x ∷ es) e u = elim (Bool-cases (bytes_eq x.host e.host)) [
  | inl q ↦ rw q (subst (λ h. find_entry es h ≡ none) ((bytes_eq_iff _ _).0 q) (u.0), u.1)
  | inr q ↦ rw q (
    find-upsert_other es e x.host (λ p. ne_true q ((bytes_eq_iff _ _).1 (sym p))) ∙ u.0,
    upsert-IsUnique es e (u.1),
  )
]

pub upsert_all-IsUnique : (es new : List Entry) → IsUnique es → IsUnique (upsert_all es new)
unfolding upsert_all
upsert_all-IsUnique es [] u = u
upsert_all-IsUnique es (n ∷ new) u =
    upsert_all-IsUnique (upsert_entry es n) new (upsert-IsUnique es n u)

without-none :
    (es : List Entry) (gone host : Bytes)
    → find_entry es host ≡ none
    → find_entry (without_host es gone) host ≡ none
without-none es gone host h = elim (Bool-cases (bytes_eq gone host)) [
  | inl q ↦
      subst (λ k. find_entry (without_host es gone) k ≡ none) ((bytes_eq_iff _ _).0 q)
        (find-without_same es gone)
  | inr q ↦ find-without_other es gone host (λ p. ne_true q ((bytes_eq_iff _ _).1 p)) ∙ h
]

pub without-IsUnique :
    (es : List Entry) (gone : Bytes) → IsUnique es → IsUnique (without_host es gone)
unfolding without_host
without-IsUnique [] gone u = tt
without-IsUnique (x ∷ es) gone u = elim (Bool-cases (bytes_eq x.host gone)) [
  | inl q ↦ rw q (without-IsUnique es gone (u.1))
  | inr q ↦ rw q (without-none es gone x.host (u.0), without-IsUnique es gone (u.1))
]
