-- ===== src/KnownHosts/Added.antt =====
-- A host that has been added is known.
use mshell.Prelude.{
  ℕ, ◌+◌, ◌≡◌, ◌≢◌, refl, sym, ap, subst, ◌∙◌, inl, inr, Bool, true, false, Option, none, some,
  List, [], ◌∷◌, ◌++◌, ◌==◌, Bytes, length, bytes_eq, bytes_eq_iff, Bool-cases, arith, append-nil,
  Option-cases, ne→==, eq→==,
}
use mshell.Base64.{encode}
use mshell.KnownHosts.{
  KnownHost, Library, Check, match, name_type, key_type, is_base64, plain, sha1, unknown_key,
  concerns, name_matches, if_encoded, host_forms, check_key, knownhost_check,
}
use mshell.KnownHosts.Add.{
  new_entry, Stored, stored, refused, add_name, add_key, add_key_type, add_comment, knownhost_add,
  add_entry, at_end, ◌>>=◌, copied,
}
use mshell.KnownHosts.Lookup.{
  with_key, first, answer, entries_for, candidates, knownhost_check-answer,
}

-- The result of a check says that the key is right.
abbrev pub is_match : Check → Bool
is_match (match e) = true
is_match _ = false

-- A plain name with a raw key of a type that is known.
pub record IsPlain (typemask : ℕ) : Type 0 where
  pub plain_name : name_type typemask ≡ plain
  pub raw_key : is_base64 typemask ≡ false
  pub some_type : key_type typemask ≢ 0
  pub known_type : key_type typemask ≢ unknown_key

-- An entry as `knownhost_add` makes it.
pub record IsEntry (host k : Bytes) (typemask : ℕ) (e : KnownHost) : Type 0 where
  pub has_name : e.name ≡ host
  pub has_key : e.key ≡ k
  pub has_mask : e.typemask ≡ typemask

entry-concerns :
    (lib : Library) (host k : Bytes) (typemask : ℕ) (e : KnownHost)
    → IsPlain typemask
    → IsEntry host k typemask e
    → concerns lib typemask host e ≡ true
unfolding concerns name_matches
entry-concerns lib host k typemask e p h =
    let mask_plain : name_type e.typemask ≡ plain = ap name_type h.has_mask ∙ p.plain_name in
    let same : key_type typemask ≡ key_type e.typemask = sym (ap key_type h.has_mask) in
    simp
      (
        eq→== _ _ mask_plain,
        eq→== _ _ p.plain_name,
        (bytes_eq_iff host e.name).1 (sym h.has_name),
        ne→== _ _ p.known_type,
        ne→== _ _ p.some_type,
        eq→== _ _ same,
      )
      refl

with_key-last :
    (lib : Library) (host k : Bytes) (typemask : ℕ) (e : KnownHost) (nodes : List KnownHost)
    → IsPlain typemask
    → IsEntry host k typemask e
    → with_key k (entries_for lib typemask (nodes ++ (e ∷ [])) host) ≢ none
unfolding with_key entries_for
with_key-last lib host k typemask e [] p h =
    rw (entry-concerns lib host k typemask e p h)
      (rw ((bytes_eq_iff k e.key).1 (sym h.has_key)) (λ q. cc))
with_key-last lib host k typemask e (n ∷ nodes) p h =
    elim (Bool-cases (concerns lib typemask host n)) [
      | inr c ↦ rw c (with_key-last lib host k typemask e nodes p h)
      | inl c ↦ rw c (elim (Bool-cases (bytes_eq k n.key)) [
        | inl q ↦ rw q (λ r. cc)
        | inr q ↦ rw q (with_key-last lib host k typemask e nodes p h)
      ])
    ]

stored-inv : {A : Type 0} (a b : A) → stored a ≡ stored b → a ≡ b
stored-inv a b h = cc

copied-inv : {A : Type 0} (lib : Library) (n : ℕ) (a b : A) → copied lib n a ≡ stored b → a ≡ b
copied-inv lib n a b = elim (Bool-cases (lib.alloc (n + 1))) [
  | inl e ↦ rw e (stored-inv a b)
  | inr e ↦ rw e (λ h. cc)
]

bind-inv :
    {A B : Type 0} (m : Stored A) (f : A → Stored B) (b : B)
    → (m >>= f) ≡ stored b
    → (a : A) × (m ≡ stored a) × (f a ≡ stored b)
bind-inv (stored a) f b h = (a, refl, h)
bind-inv (refused e) f b h = cc

-- The later parts of `knownhost_add` leave alone what the name, the key and the mask are.
record IsKept (before after : KnownHost) : Type 0 where
  kept_name : after.name ≡ before.name
  kept_key : after.key ≡ before.key
  kept_mask : after.typemask ≡ before.typemask

kept : (a b : KnownHost) → a ≡ b → IsKept a b
kept a b e = subst (IsKept a) e (record { kept_name = refl; kept_key = refl; kept_mask = refl })

IsKept-eq : (a b c : KnownHost) → IsKept a b → b ≡ c → IsKept a c
IsKept-eq a b c h e = subst (IsKept a) e h

add_name-plain :
    (lib : Library) (host salt : Bytes) (typemask : ℕ) (e : KnownHost)
    → IsPlain typemask
    → add_name lib host salt (new_entry typemask) ≡ stored e
    → record (new_entry typemask) { name = host } ≡ e
unfolding add_name
add_name-plain lib host salt typemask e p =
    rw (eq→== _ _ p.plain_name) (copied-inv lib (length host) _ e)

-- A raw key is stored as the encoder writes it.
record IsKeyed (before after : KnownHost) (k : Option Bytes) : Type 0 where
  same_name : after.name ≡ before.name
  same_mask : after.typemask ≡ before.typemask
  encoded : k ≡ some after.key

add_key-raw :
    (lib : Library) (key : Bytes) (keylen : ℕ) (entry e : KnownHost)
    → is_base64 entry.typemask ≡ false
    → add_key lib key keylen entry ≡ stored e
    → IsKeyed entry e (if_encoded (encode lib.alloc key keylen))
unfolding add_key
add_key-raw lib key keylen entry e r =
    rw r (elim (Option-cases (if_encoded (encode lib.alloc key keylen))) [
      | inl q ↦ rw q (λ h. cc)
      | inr (k, q) ↦ rw q (λ h.
          subst (λ x. IsKeyed entry x (some k)) (stored-inv (record entry { key = k }) e h)
            (record { same_name = refl; same_mask = refl; encoded = refl }))
    ])

add_key_type-keeps :
    (lib : Library) (name : Option Bytes) (entry e : KnownHost)
    → add_key_type lib name entry ≡ stored e
    → IsKept entry e
unfolding add_key_type
add_key_type-keeps lib none entry e = λ h. kept entry e (stored-inv entry e h)
add_key_type-keeps lib (some name) entry e =
    let named = record entry { key_type_name = some name } in
    elim (Bool-cases (key_type entry.typemask == unknown_key)) [
      | inl u ↦ rw u (λ h.
          IsKept-eq entry named e (record { kept_name = refl; kept_key = refl; kept_mask = refl })
            (copied-inv lib (length name) named e h))
      | inr u ↦ rw u (λ h. kept entry e (stored-inv entry e h))
    ]

add_comment-keeps :
    (lib : Library) (text : Option Bytes) (entry e : KnownHost)
    → add_comment lib text entry ≡ stored e
    → IsKept entry e
unfolding add_comment
add_comment-keeps lib none entry e h = kept entry e (stored-inv entry e h)
add_comment-keeps lib (some text) entry e h =
    let noted = record entry { comment = some text } in
    IsKept-eq entry noted e (record { kept_name = refl; kept_key = refl; kept_mask = refl })
      (copied-inv lib (length text) noted e h)

add_entry-IsEntry :
    (lib : Library) (host salt : Bytes) (name : Option Bytes) (key : Bytes) (keylen : ℕ)
    (comment : Option Bytes) (typemask : ℕ) (e : KnownHost)
    → IsPlain typemask
    → add_entry lib host salt name key keylen comment typemask ≡ stored e
    → (if_encoded (encode lib.alloc key keylen) ≡ some e.key) × IsEntry host e.key typemask e
unfolding add_entry
add_entry-IsEntry lib host salt name key keylen comment typemask e p h =
    let (a, ha, h1) = bind-inv (add_name lib host salt (new_entry typemask)) _ e h in
    let (b, hb, h2) = bind-inv (add_key lib key keylen a) _ e h1 in
    let (c, hc, h3) = bind-inv (add_key_type lib name b) _ e h2 in
    let named = add_name-plain lib host salt typemask a p ha in
    let mask_a : a.typemask ≡ typemask = sym (ap (λ x. x.typemask) named) in
    let keyed = add_key-raw lib key keylen a b (ap is_base64 mask_a ∙ p.raw_key) hb in
    let typed = add_key_type-keeps lib name b c hc in
    let noted = add_comment-keeps lib comment c e h3 in
    (
      keyed.encoded ∙ ap some (sym (noted.kept_key ∙ typed.kept_key)),
      record {
        has_name =
            noted.kept_name ∙ typed.kept_name ∙ keyed.same_name ∙ sym (ap (λ x. x.name) named);
        has_key = refl;
        has_mask = noted.kept_mask ∙ typed.kept_mask ∙ keyed.same_mask ∙ mask_a;
      },
    )

at_end-inv :
    (hosts nodes : List KnownHost) (s : Stored KnownHost)
    → at_end hosts s ≡ stored nodes
    → (e : KnownHost) × (s ≡ stored e) × (hosts ++ (e ∷ []) ≡ nodes)
at_end-inv hosts nodes (stored e) h = (e, refl, stored-inv _ nodes h)
at_end-inv hosts nodes (refused n) h = cc

answer-is_match : (o f : Option KnownHost) → o ≢ none → is_match (answer o f) ≡ true
answer-is_match none f h = elim (h refl) [ ]
answer-is_match (some e) f h = refl

check-last :
    (lib : Library) (hosts : List KnownHost) (e : KnownHost) (host key : Bytes)
    (keylen typemask : ℕ)
    → IsPlain typemask
    → IsEntry host e.key typemask e
    → if_encoded (encode lib.alloc key keylen) ≡ some e.key
    → is_match (knownhost_check lib (hosts ++ (e ∷ [])) host none key keylen typemask) ≡ true
unfolding host_forms candidates
check-last lib hosts e host key keylen typemask p h k =
    let nodes = hosts ++ (e ∷ []) in
    let raw : check_key lib key keylen typemask ≡ some e.key = rw (p.raw_key) k in
    let not_hashed : name_type typemask ≢ sha1 = omega (arith, p.plain_name) in
    let es = entries_for lib typemask nodes host in
    let known : with_key e.key (es ++ []) ≢ none =
      rw (append-nil es) (with_key-last lib host e.key typemask e hosts p h) in
    subst (λ c. is_match c ≡ true)
      (sym (
        knownhost_check-answer lib nodes host none key e.key keylen typemask (host ∷ []) not_hashed
          refl raw))
      (answer-is_match (with_key e.key (es ++ [])) (first (es ++ [])) known)

-- A plain name that has been added with a raw key of a known type is checked as a match with that
-- key, whatever entries stood in the collection before.
pub knownhost_add-check :
    (lib : Library) (entry_size : ℕ) (hosts nodes : List KnownHost) (host salt : Bytes)
    (name : Option Bytes) (key : Bytes) (keylen : ℕ) (comment : Option Bytes) (typemask : ℕ)
    → IsPlain typemask
    → knownhost_add lib entry_size hosts host salt name key keylen comment typemask ≡ stored nodes
    → is_match (knownhost_check lib nodes host none key keylen typemask) ≡ true
unfolding knownhost_add
knownhost_add-check lib size hosts nodes host salt name key keylen comment typemask p =
    let entry = add_entry lib host salt name key keylen comment typemask in
    rw (ne→== _ _ p.some_type) (elim (Bool-cases (lib.alloc size)) [
      | inr a ↦ rw a (λ h. cc)
      | inl a ↦ rw a (λ h.
          let (e, he, same) = at_end-inv hosts nodes entry h in
          let made = add_entry-IsEntry lib host salt name key keylen comment typemask e p he in
          subst (λ ns. is_match (knownhost_check lib ns host none key keylen typemask) ≡ true) same
            (check-last lib hosts e host key keylen typemask p (made.1) (made.0)))
    ])
