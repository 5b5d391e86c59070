-- ===== src/KnownHosts/Readd.antt =====
-- What `knownhost_add` makes of the parts of a line that was written.
use mshell.Prelude.{
  ℕ, ◌+◌, ◌*◌, ◌^◌, ◌≡◌, ◌≢◌, refl, sym, ap, ◌∙◌, Bool, true, false, Option, none, some, List, [],
  ◌∷◌, ◌++◌, ◌==◌, if◌then◌else◌, Bytes, length, All, ne→==, eq→==, arith, append_assoc, Bool-cases,
  inl, inr,
}
use mshell.KnownHosts.{KnownHost, Library, name_type, key_type, is_base64, unknown_key}
use mshell.KnownHosts.Add.{
  new_entry, stored, add_name, add_key, add_key_type, add_comment, add_entry, knownhost_add, ◌>>=◌,
  copied, at_end,
}
use mshell.KnownHosts.Read.{add_read, collected}
use mshell.KnownHosts.Write.{spaced}
use mshell.KnownHosts.Words.{IsWordByte, c_string-take}
use mshell.KnownHosts.Keyed.{IsKeyed, keyed_part, reread, key_type_of-ne}
use mshell.Text.Trim.{All-implies}

-- Memory is always found.
abbrev pub Allocates : Library → Type 0
Allocates lib = (n : ℕ) → lib.alloc n ≡ true

module _ (lib : Library) (room : Allocates lib) (entry_size : ℕ) where
  copied-stored : {A : Type 0} (n : ℕ) (a : A) → copied lib n a ≡ stored a
  copied-stored n a = rw (room (n + 1)) refl

  length-ne : (w : Bytes) → w ≢ [] → (length w == 0) ≡ false
  length-ne [] n = absurd (n refl)
  length-ne (c ∷ w) n = ne→== _ 0 (omega arith)

  add_key-word :
      (w rest : Bytes) (entry : KnownHost)
      → is_base64 entry.typemask ≡ true
      → w ≢ []
      → All IsWordByte w
      → add_key lib (w ++ rest) (length w) entry ≡ stored (record entry { key = w })
  unfolding add_key
  add_key-word w rest entry b n h = rw b (
      rw (length-ne w n) (
        ap (λ m. m >>= λ k. stored (record entry { key = k }))
          (copied-stored (length w) _
            ∙ ap stored (c_string-take w rest (All-implies (λ c p. (p.1, p.2)) w h)))))

  add_comment-some :
      (o : Option Bytes) (entry : KnownHost)
      → entry.comment ≡ none
      → add_comment lib o entry ≡ stored (record entry { comment = o })
  unfolding add_comment
  add_comment-some none entry e = ap (λ c. stored (record entry { comment = c })) e
  add_comment-some (some c) entry e = copied-stored (length c) _

  add_key_type-some :
      (name : Bytes) (entry : KnownHost)
      → entry.key_type_name ≡ none
      → add_key_type lib (some name) entry
        ≡ stored (record entry {
          key_type_name = if key_type entry.typemask == unknown_key then some name else none;
        })
  unfolding add_key_type
  add_key_type-some name entry e = elim (Bool-cases (key_type entry.typemask == unknown_key)) [
    | inl q ↦ rw q (copied-stored (length name) _)
    | inr q ↦ rw q (ap (λ k. stored (record entry { key_type_name = k })) e)
  ]

  module _ (dsa : Bool) (node : KnownHost) (name : Bytes) (h : IsKeyed dsa node name) where
    abbrev mask : ℕ
    mask = name_type node.typemask + 2 ^ 17 + key_type node.typemask * 2 ^ 18

    mask-key_type : key_type mask ≡ key_type node.typemask
    mask-key_type = omega arith

    mask-is_base64 : is_base64 mask ≡ true
    mask-is_base64 = eq→== _ 1 (omega arith)

    abbrev stored_parts : KnownHost
    stored_parts = record (new_entry mask) { name = node.name; salt = node.salt }

    add_entry-reread :
        (text salt ending : Bytes)
        → add_name lib text salt (new_entry mask) ≡ stored stored_parts
        → let k = keyed_part node name ending in
          add_entry lib text salt k.type_name k.key k.keylen k.comment mask ≡ stored (reread node)
    unfolding add_entry
    add_entry-reread text salt ending a =
        let k = keyed_part node name ending in
        let keyed : KnownHost = record stored_parts { key = node.key } in
        let kept : KnownHost = record keyed { key_type_name = node.key_type_name } in
        ap
          (λ m. m >>= λ e. add_key lib k.key k.keylen e >>= λ e'.
            add_key_type lib k.type_name e' >>= add_comment lib k.comment)
          a
        ∙ ap (λ m. m >>= λ e'. add_key_type lib k.type_name e' >>= add_comment lib k.comment)
            (ap (λ t. add_key lib t (length node.key) stored_parts)
                (append_assoc node.key (spaced node.comment) ending)
              ∙ add_key-word node.key (spaced node.comment ++ ending) stored_parts mask-is_base64
                  h.key_ne h.key_word)
        ∙ ap (λ m. m >>= add_comment lib k.comment)
            (add_key_type-some name keyed refl
              ∙ ap
                  (λ t.
                    stored (record keyed {
                      key_type_name = if t == unknown_key then some name else none;
                    }))
                  mask-key_type
              ∙ ap (λ o. stored (record keyed { key_type_name = o })) (sym h.kept_name))
        ∙ add_comment-some node.comment kept refl

    pub add_read-reread :
        (hosts : List KnownHost) (text salt ending : Bytes)
        → add_name lib text salt (new_entry mask) ≡ stored stored_parts
        → add_read lib entry_size dsa hosts text salt
            (name_type node.typemask)
            (keyed_part node name ending)
          ≡ (hosts ++ (reread node ∷ []), 0)
    unfolding knownhost_add
    add_read-reread hosts text salt ending a =
        let some_type : key_type mask ≢ 0 =
          λ e. key_type_of-ne dsa name (h.same_type ∙ sym mask-key_type ∙ e) in
        rw (ne→== _ 0 some_type) (
          rw (room entry_size)
            (ap (λ s. collected hosts (at_end hosts s)) (add_entry-reread text salt ending a)))
