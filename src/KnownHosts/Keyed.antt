-- ===== src/KnownHosts/Keyed.antt =====
-- The key part of a line that was written, and the entry that it is added as.
use mshell.Prelude.{
  ℕ, ◌+◌, ◌*◌, ◌^◌, ◌≤◌, ◌≡◌, ◌≢◌, refl, ap, ◌∙◌, Bool, false, ◌&&◌, Option, none, some, [], ◌∷◌,
  ◌++◌, ◌==◌, if◌then◌else◌, Bytes, length, All, arith, if-all, length-append,
}
use mshell.KnownHosts.{KnownHost, name_type, key_type, unknown_key}
use mshell.KnownHosts.Read.{
  KeyPart, key_part, typed_key, key_type_of, comment_of, skip_blanks, split_word, is_digit,
  is_prefix, ssh_ed25519, nistp256, nistp384, nistp521, ssh_rsa, ssh_dss,
}
use mshell.KnownHosts.Write.{type_name_of, spaced}
use mshell.KnownHosts.Words.{
  IsWordByte, IsText, IsAfter, IsSolid, split_word-word, skip_blanks-space, word-IsSolid,
}

abbrev pub IsComment : Option Bytes → Type 0
IsComment none = Unit
IsComment (some c) = IsSolid c × All IsText c

abbrev pub IsTypeName : Bytes → Type 0
IsTypeName [] = ⊥
IsTypeName (c ∷ cs) = is_digit c ≡ false

-- An entry whose key's type has a name that is read back as the type; the name is kept beside the
-- entry if the type is unknown. The name and the key are words; a comment starts with no blank.
pub record IsKeyed (dsa : Bool) (node : KnownHost) (name : Bytes) : Type 0 where
  pub typed : type_name_of dsa node ≡ some (some name)
  pub same_type : key_type_of dsa name ≡ key_type node.typemask
  pub kept_name :
      node.key_type_name ≡ (if key_type node.typemask == unknown_key then some name else none)
  pub type_name : IsTypeName name
  pub type_word : All IsWordByte name
  pub key_word : All IsWordByte node.key
  pub key_ne : node.key ≢ []
  pub comment_right : IsComment node.comment
  pub long : 19 ≤ length name + length node.key

-- What is printed behind the host.
abbrev pub keyed_text : KnownHost → Bytes → Bytes
keyed_text node name = name ++ (32 ∷ (node.key ++ spaced node.comment))

abbrev pub keyed_part : KnownHost → Bytes → Bytes → KeyPart
keyed_part node name ending = record {
  type = key_type node.typemask;
  type_name = some name;
  key = (node.key ++ spaced node.comment) ++ ending;
  keylen = length node.key;
  comment = node.comment;
}

-- The entry that is read back: its key is said to be in base64, as it is.
abbrev pub reread : KnownHost → KnownHost
reread node = record node {
  typemask = name_type node.typemask + 2 ^ 17 + key_type node.typemask * 2 ^ 18;
}

spaced-IsAfter : (o : Option Bytes) → IsAfter (spaced o)
spaced-IsAfter none = tt
spaced-IsAfter (some c) = refl

comment_of-spaced : (o : Option Bytes) → IsComment o → comment_of (spaced o) ≡ o
comment_of-spaced none h = refl
comment_of-spaced (some c) h = ap some (skip_blanks-space c (h.0))

pub IsTypeName-ne : (name : Bytes) → IsTypeName name → name ≢ []
IsTypeName-ne [] h = elim h [ ]
IsTypeName-ne (c ∷ name) h = λ e. cc

key_part-typed :
    (dsa : Bool) (name rest ending : Bytes)
    → IsTypeName name
    → key_part dsa (name ++ rest) ending ≡ typed_key dsa (name ++ rest) ending
unfolding key_part
key_part-typed dsa [] rest ending h = elim h [ ]
key_part-typed dsa (c ∷ name) rest ending h = rw h refl

module _ (dsa : Bool) (node : KnownHost) (name : Bytes) (h : IsKeyed dsa node name) where
  abbrev key_text : Bytes
  key_text = node.key ++ spaced node.comment

  abbrev part_from : Bytes → Bytes × Bytes → KeyPart
  part_from ending word =
      let key = skip_blanks word.1 in
      let body = split_word key in
      record {
        type = key_type_of dsa (word.0);
        type_name = some (word.0);
        key = key ++ ending;
        keylen = length (body.0);
        comment = comment_of (body.1);
      }

  abbrev part_with : ℕ → Bytes → Bytes → Bytes × Bytes → KeyPart
  part_with type key ending body = record {
    type = type;
    type_name = some name;
    key = key ++ ending;
    keylen = length (body.0);
    comment = comment_of (body.1);
  }

  pub key_part-keyed :
      (ending : Bytes) → key_part dsa (keyed_text node name) ending ≡ keyed_part node name ending
  unfolding typed_key
  key_part-keyed ending =
      key_part-typed dsa name (32 ∷ key_text) ending h.type_name
      ∙ ap (part_from ending) (split_word-word name (32 ∷ key_text) h.type_word refl)
      ∙ ap (λ k. part_with (key_type_of dsa name) k ending (split_word k))
          (skip_blanks-space key_text (word-IsSolid node.key _ h.key_ne h.key_word))
      ∙ ap (part_with (key_type_of dsa name) key_text ending)
          (split_word-word node.key (spaced node.comment) h.key_word (spaced-IsAfter node.comment))
      ∙ ap (λ t. part_with t key_text ending (node.key, spaced node.comment)) h.same_type
      ∙ ap (λ c. record (keyed_part node name ending) { comment = c })
          (comment_of-spaced node.comment h.comment_right)

  pub keyed_text-long : 20 ≤ length (keyed_text node name)
  keyed_text-long = omega (
    arith,
    h.long,
    length-append name (32 ∷ key_text),
    length-append node.key (spaced node.comment),
  )

pub key_type_of-ne : (dsa : Bool) (name : Bytes) → key_type_of dsa name ≢ 0
unfolding key_type_of
key_type_of-ne dsa name =
    let P : ℕ → Type 0 = λ t. t ≢ 0 in
    if-all P (is_prefix name ssh_ed25519) (λ e. cc)
      (if-all P (is_prefix name nistp256) (λ e. cc)
        (if-all P (is_prefix name nistp384) (λ e. cc)
          (if-all P (is_prefix name nistp521) (λ e. cc)
            (if-all P (is_prefix name ssh_rsa) (λ e. cc)
              (if-all P (dsa && is_prefix name ssh_dss) (λ e. cc) (λ e. cc))))))
