-- ===== src/KnownHosts/Hashed.antt =====
-- The line of an entry whose name is hashed, written and read again.
use mshell.Prelude.{
  ℕ, ◌+◌, ◌-◌, ◌*◌, ◌^◌, ◌/◌, ◌%◌, ◌<◌, ◌≡◌, ◌≢◌, refl, sym, ap, ◌∙◌, Bool, ◌||◌, none, some, List,
  [], ◌∷◌, ◌++◌, ◌==◌, if◌then◌else◌, leb, lt→ltb, lt→leb, le→ltb, Bytes, length, take, All, ne→==,
  eq→==, arith, append_assoc, length-append, bytes_eq, take-append, IsByte, take-length,
}
use mshell.Text.{split_once}
use mshell.Text.Trim.{All-implies, All-append, split_at-append}
use mshell.Base64.{table64, encode, encode_size, encode_groups, decode, ok}
use mshell.Base64.RoundTrip.{decode-encode_groups}
use mshell.Base64.Bounds.{length-encode_groups}
use mshell.KnownHosts.{KnownHost, Library, name_type, key_type, plain, custom, sha1, if_encoded}
use mshell.KnownHosts.Add.{new_entry, Stored, stored, refused, copied, add_name, decoded, ◌>>=◌}
use mshell.KnownHosts.Read.{Reading, hostline, hashed_hostline, hashed_parts, add_read}
use mshell.KnownHosts.Write.{host_text, hashed_name}
use mshell.KnownHosts.Words.{IsWordByte}
use mshell.KnownHosts.Keyed.{
  IsKeyed, keyed_text, keyed_part, reread, key_part-keyed, keyed_text-long,
}
use mshell.KnownHosts.Readd.{Allocates, add_read-reread}
use mshell.KnownHosts.Reread.{line_text, readline-hostline}
use mshell.KnownHosts.RoundTrip.{IsLineOf, writeline-line}

-- A hash and a salt, of 20 bytes each where OpenSSH made them.
pub record IsHashedHost (node : KnownHost) : Type 0 where
  pub name_hashed : name_type node.typemask ≡ sha1
  pub hash_bytes : All IsByte node.name
  pub hash_ne : node.name ≢ []
  pub hash_short : length node.name < 190
  pub salt_bytes : All IsByte node.salt
  pub salt_ne : node.salt ≢ []
  pub salt_short : length node.salt < 22

-- A character of base64.
abbrev IsCode : ℕ → Type 0
IsCode c = IsWordByte c × (c ≢ b'|')

table64-IsCode : (v : ℕ) → IsCode (table64 v)
unfolding table64
table64-IsCode v = ground arith

pad-IsCode : IsCode b'='
pad-IsCode = ((refl, omega arith, omega arith), omega arith)

encode_groups-IsCode : (xs : Bytes) → All IsCode (encode_groups xs)
unfolding encode_groups
encode_groups-IsCode [] = tt
encode_groups-IsCode (a ∷ []) =
    (table64-IsCode (a / 4 % 64), (table64-IsCode (a % 4 * 16), (pad-IsCode, (pad-IsCode, tt))))
encode_groups-IsCode (a ∷ b ∷ []) = (
  table64-IsCode (a / 4 % 64),
  (table64-IsCode (a % 4 * 16 + b / 16 % 16), (table64-IsCode (b % 16 * 4), (pad-IsCode, tt))),
)
encode_groups-IsCode (a ∷ b ∷ c ∷ rest) = (
  table64-IsCode (a / 4 % 64),
  (
    table64-IsCode (a % 4 * 16 + b / 16 % 16),
    (
      table64-IsCode (b % 16 * 4 + c / 64 % 4),
      (table64-IsCode (c % 64), encode_groups-IsCode rest),
    ),
  ),
)

if_encoded-groups :
    (xs : Bytes) → xs ≢ [] → if_encoded (some (encode_groups xs)) ≡ some (encode_groups xs)
unfolding encode_groups
if_encoded-groups [] n = absurd (n refl)
if_encoded-groups (a ∷ []) n = refl
if_encoded-groups (a ∷ b ∷ []) n = refl
if_encoded-groups (a ∷ b ∷ c ∷ rest) n = refl

module _ (lib : Library) (room : Allocates lib) where
  if_encoded-made :
      (d : Bytes)
      → d ≢ []
      → if_encoded (if lib.alloc (encode_size (length d)) then some (encode_groups d) else none)
        ≡ some (encode_groups d)
  if_encoded-made d n = rw (room (encode_size (length d))) (if_encoded-groups d n)

  encode-whole :
      (xs : Bytes)
      → xs ≢ []
      → if_encoded (encode lib.alloc xs (length xs)) ≡ some (encode_groups xs)
  unfolding encode
  encode-whole [] n = absurd (n refl)
  encode-whole (x ∷ xs) n = rw (ne→== (length (x ∷ xs)) 0 (omega arith)) (
      ap
        (λ d.
          if_encoded (if lib.alloc (encode_size (length d)) then some (encode_groups d) else none))
        (take-length (x ∷ xs))
      ∙ if_encoded-made (x ∷ xs) n)

  add_name-hashed :
      (text salt_text : Bytes) (m : ℕ) (name salt : Bytes)
      → name_type m ≡ sha1
      → decode lib.alloc text ≡ ok name
      → decode lib.alloc salt_text ≡ ok salt
      → add_name lib text salt_text (new_entry m)
        ≡ stored (record (new_entry m) { name = name; salt = salt })
  unfolding add_name
  add_name-hashed text salt_text m name salt e n s =
      let with_salt : Bytes → Stored KnownHost = λ hash.
        decoded (decode lib.alloc salt_text) >>= λ b.
        stored (record (new_entry m) { name = hash; salt = b }) in
      let typed : ℕ → Stored KnownHost = λ type.
        if type == plain || type == custom
        then copied lib (length text) (record (new_entry m) { name = text })
        else if type == sha1
        then decoded (decode lib.alloc text) >>= with_salt
        else refused 33 in
      ap typed e
      ∙ ap (λ r. decoded r >>= with_salt) n
      ∙ ap (λ r. decoded r >>= λ b. stored (record (new_entry m) { name = name; salt = b })) s

abbrev bar_text : Bytes → Bytes → Bytes
bar_text salt hash = b'|' ∷ b'1' ∷ b'|' ∷ (salt ++ (b'|' ∷ hash))

module _ (lib : Library) (room : Allocates lib) (entry_size : ℕ) (dsa : Bool)
    (hosts : List KnownHost) (node : KnownHost) (name : Bytes) (h : IsKeyed dsa node name)
    (p : IsHashedHost node) where
  abbrev hash : Bytes
  hash = encode_groups node.name

  abbrev salt : Bytes
  salt = encode_groups node.salt

  host_text-hashed : host_text lib node ≡ some (bar_text salt hash)
  host_text-hashed = rw (eq→== (name_type node.typemask) sha1 p.name_hashed) (
      ap (λ o. hashed_name o (if_encoded (encode lib.alloc node.salt (length node.salt))))
        (encode-whole lib room node.name p.hash_ne)
      ∙ ap (hashed_name (some hash)) (encode-whole lib room node.salt p.salt_ne))

  host-IsWord : All IsWordByte (bar_text salt hash)
  host-IsWord =
      let bar : IsWordByte b'|' = (refl, omega arith, omega arith) in
      (
        bar,
        (
          (refl, omega arith, omega arith),
          (
            bar,
            All-append IsWordByte salt (b'|' ∷ hash)
                (All-implies (λ c k. k.0) salt (encode_groups-IsCode node.salt))
                (bar, All-implies (λ c k. k.0) hash (encode_groups-IsCode node.name)),
          ),
        ),
      )

  hash-decoded : decode lib.alloc hash ≡ ok node.name
  hash-decoded = decode-encode_groups lib.alloc node.name p.hash_bytes (room _)

  salt-decoded : decode lib.alloc salt ≡ ok node.salt
  salt-decoded = decode-encode_groups lib.alloc node.salt p.salt_bytes (room _)

  mask-sha1 : name_type (name_type node.typemask + 2 ^ 17 + key_type node.typemask * 2 ^ 18) ≡ sha1
  mask-sha1 = omega (arith, p.name_hashed)

  hash-fits : length hash < 255
  hash-fits = omega (arith, length-encode_groups node.name, p.hash_short)

  salt-fits : length salt < 31
  salt-fits = omega (arith, length-encode_groups node.salt, p.salt_short)

  rest_of_host : (length salt + 1 + length hash + 2 ^ 64 - (length salt + 1)) % 2 ^ 64 ≡ length hash
  rest_of_host = omega (arith, hash-fits, salt-fits)

  add_read-hashed :
      add_read lib entry_size dsa hosts hash salt sha1 (keyed_part node name (10 ∷ []))
      ≡ (hosts ++ (reread node ∷ []), 0)
  add_read-hashed =
      ap (λ t. add_read lib entry_size dsa hosts hash salt t (keyed_part node name (10 ∷ [])))
        (sym p.name_hashed)
      ∙ add_read-reread lib room entry_size dsa node name h hosts hash salt (10 ∷ []) (
          add_name-hashed lib room hash salt _ node.name node.salt mask-sha1 hash-decoded
            salt-decoded)

  hashed_parts-read :
      (rest : Bytes)
      → hashed_parts lib entry_size dsa hosts
          (length salt + 1 + length hash)
          (keyed_part node name (10 ∷ []))
          (some (salt, hash ++ rest))
        ≡ (hosts ++ (reread node ∷ []), 0)
  hashed_parts-read rest =
      let k = keyed_part node name (10 ∷ []) in
      let with_length : ℕ → Reading = λ n.
        if leb 255 n
        then (hosts, 33)
        else add_read lib entry_size dsa hosts (take n (hash ++ rest)) salt sha1 k in
      rw (lt→leb 31 (length salt) salt-fits) (
        ap with_length rest_of_host
        ∙ rw (lt→leb 255 (length hash) hash-fits) (
            ap (λ t. add_read lib entry_size dsa hosts t salt sha1 k) (take-append hash rest)
            ∙ add_read-hashed))

  host-length : (length (bar_text salt hash) + 2 ^ 64 - 3) % 2 ^ 64 ≡ length salt + 1 + length hash
  host-length = omega (arith, length-append salt (b'|' ∷ hash), hash-fits, salt-fits)

  behind_mark :
      (rest : Bytes) → split_once b'|' ((salt ++ (b'|' ∷ hash)) ++ rest) ≡ some (salt, hash ++ rest)
  behind_mark rest =
      ap (split_once b'|') (append_assoc salt (b'|' ∷ hash) rest)
      ∙ split_at-append (λ c. c == b'|') salt b'|' (hash ++ rest)
          (All-implies (λ c k. ne→== c b'|' (k.1)) salt (encode_groups-IsCode node.salt)) refl

  hashed_hostline-read :
      (rest : Bytes)
      → hashed_hostline lib entry_size dsa hosts
          (bar_text salt hash ++ rest)
          (length (bar_text salt hash))
          (keyed_part node name (10 ∷ []))
        ≡ (hosts ++ (reread node ∷ []), 0)
  unfolding hashed_hostline
  hashed_hostline-read rest =
      let k = keyed_part node name (10 ∷ []) in
      ap
        (λ n.
          hashed_parts lib entry_size dsa hosts n k
            (split_once b'|' ((salt ++ (b'|' ∷ hash)) ++ rest)))
        host-length
      ∙ ap (hashed_parts lib entry_size dsa hosts (length salt + 1 + length hash) k)
          (behind_mark rest)
      ∙ hashed_parts-read rest

  hostline-hashed :
      (rest : Bytes)
      → hostline lib entry_size dsa hosts
          (bar_text salt hash ++ rest)
          (bar_text salt hash)
          (keyed_text node name)
          (10 ∷ [])
        ≡ (hosts ++ (reread node ∷ []), 0)
  unfolding hostline bytes_eq
  hostline-hashed rest =
      let host = bar_text salt hash in
      let line = host ++ rest in
      rw (le→ltb (length (keyed_text node name)) 20 (keyed_text-long dsa node name h)) (
        rw (lt→ltb 2 (length host) (omega arith)) (
          ap (hashed_hostline lib entry_size dsa hosts line (length host))
            (key_part-keyed dsa node name h (10 ∷ []))
          ∙ hashed_hostline-read rest))

  pub hashed-IsLineOf :
      IsLineOf lib entry_size dsa hosts node (line_text (bar_text salt hash) node name ++ (10 ∷ []))
  hashed-IsLineOf =
      let host = bar_text salt hash in
      (
        writeline-line lib room entry_size dsa hosts node name h host host_text-hashed,
        readline-hostline dsa node name h lib entry_size hosts host host-IsWord
              (λ e. omega (arith, e))
            ∙ ap (λ l. hostline lib entry_size dsa hosts l host (keyed_text node name) (10 ∷ []))
                (append_assoc host (32 ∷ keyed_text node name) (10 ∷ []))
            ∙ hostline-hashed (32 ∷ (keyed_text node name ++ (10 ∷ []))),
      )

-- An entry of a hashed name is written with its hash and its salt in base64, or the length of the
-- line is reported where the buffer is too small, and that line is read back as the entry, its key
-- as one in base64, at the end of any collection. The hash is 1 to 189 bytes and the salt 1 to 21.
-- The key's type has a name that the reader takes for that type, that starts with no digit, and
-- that is kept with the entry exactly if the type is unknown; that name and the key are words (a
-- byte or more, no blank, line feed or NUL), of 19 bytes or more together; a comment starts with no
-- blank and has no line feed or NUL; memory is always found.
pub hashed_writeline-readline :
    (lib : Library) (entry_size : ℕ) (dsa : Bool) (hosts : List KnownHost) (node : KnownHost)
    (name : Bytes)
    → Allocates lib
    → IsKeyed dsa node name
    → IsHashedHost node
    → (line : Bytes) × IsLineOf lib entry_size dsa hosts node line
hashed_writeline-readline lib entry_size dsa hosts node name room h p = (
  line_text (bar_text (encode_groups node.salt) (encode_groups node.name)) node name ++ (10 ∷ []),
  hashed-IsLineOf lib room entry_size dsa hosts node name h p,
)
