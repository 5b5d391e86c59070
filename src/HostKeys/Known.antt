-- ===== src/HostKeys/Known.antt =====
-- The lines of a known_hosts file, and the entries that they stand for.
use mshell.Prelude.{ℕ, ◌≢◌, Option, none, some, List, [], ◌∷◌, ◌++◌, map, Bytes, All}
use mshell.Text.{Text}
use mshell.Text.Trim.{IsSpace, InLine}
use mshell.Text.Words.{IsInWord, separated}
use mshell.HostKeys.{Entry, Crates, fingerprint_sha256}

-- A name of a host; with a port, in brackets; or one that is excluded.
pub data HostToken : Type 0 where
  bare : (first : ℕ) (name : Text) → HostToken
  bracket : (name port : Text) → HostToken
  negated : (name : Text) → HostToken

abbrev pub printed_token : HostToken → Text
printed_token (bare first name) = first ∷ name
printed_token (bracket name port) = b'[' ∷ (name ++ (b']' ∷ b':' ∷ port))
printed_token (negated name) = b'!' ∷ name

-- The key under which the store has the host.
abbrev pub host_of : HostToken → Option Text
host_of (bare first name) = some ((first ∷ name) ++ (b':' ∷ b'2' ∷ b'2' ∷ []))
host_of (bracket name port) = some (name ++ (b':' ∷ port))
host_of (negated name) = none

abbrev pub IsNameChar : ℕ → Type 0
IsNameChar c = IsInWord c × (c ≢ b',')

-- A character that starts neither a comment, a marker, a hashed name, a port nor an exclusion.
abbrev pub IsFirstChar : ℕ → Type 0
IsFirstChar c = IsNameChar c × (c ≢ b'#') × (c ≢ b'@') × (c ≢ b'|') × (c ≢ b'[') × (c ≢ b'!')

abbrev pub IsToken : HostToken → Type 0
IsToken (bare first name) = IsFirstChar first × All IsNameChar name
IsToken (bracket name port) = All IsNameChar name × All (λ c. c ≢ b']') name × All IsNameChar port
IsToken (negated name) = All IsNameChar name

pub record Known : Type 0 where
  pub indent : Text
  pub host : HostToken
  pub aliases : List HostToken
  pub gap : ℕ
  pub spaces : Text
  pub key_type : Text
  pub gap' : ℕ
  pub spaces' : Text
  pub key_b64 : Text
  pub tail : Text

abbrev pub printed_hosts : Known → Text
printed_hosts k = separated b',' (printed_token k.host) (map printed_token k.aliases)

abbrev pub printed_known : Known → Text
printed_known k =
    k.indent
    ++ ((printed_hosts k
          ++ (k.gap ∷ (k.spaces ++ (k.key_type ++ (k.gap' ∷ (k.spaces' ++ k.key_b64))))))
        ++ k.tail)

-- White space and more may follow the key.
abbrev pub IsTail : Text → Type 0
IsTail [] = Unit
IsTail (c ∷ cs) = IsSpace c

abbrev pub IsBlank : ℕ → Type 0
IsBlank c = IsSpace c × InLine c

abbrev pub IsWord : Text → Type 0
IsWord w = (w ≢ []) × All IsInWord w

pub record IsKnown (k : Known) : Type 0 where
  pub indent_blank : All IsBlank k.indent
  pub host_right : IsToken k.host
  pub aliases_right : All IsToken k.aliases
  pub gap_blank : IsBlank k.gap
  pub spaces_blank : All IsBlank k.spaces
  pub type_word : IsWord k.key_type
  pub gap'_blank : IsBlank k.gap'
  pub spaces'_blank : All IsBlank k.spaces'
  pub key_word : IsWord k.key_b64
  pub tail_right : IsTail k.tail
  pub tail_line : All InLine k.tail

-- A line of a file: an entry; or a comment or a line with a marker, that is `#` or `@` and more.
pub data Line : Type 0 where
  known : Known → Line
  comment : Text → Line
  marker : Text → Line

abbrev pub printed_line : Line → Text
printed_line (known k) = printed_known k
printed_line (comment text) = b'#' ∷ text
printed_line (marker text) = b'@' ∷ text

unfoldable pub print : List Line → Text
print [] = []
print (l ∷ ls) = printed_line l ++ (10 ∷ print ls)

abbrev pub IsLine : Line → Type 0
IsLine (known k) = IsKnown k
IsLine (comment text) = All InLine text
IsLine (marker text) = All InLine text

abbrev pub token_entry : Text → Text → Option Text → List Entry → List Entry
token_entry fingerprint key_type none rest = rest
token_entry fingerprint key_type (some host) rest =
    record { host = host; fingerprint = fingerprint; key_type = key_type } ∷ rest

unfoldable pub token_entries : Text → Text → List HostToken → List Entry
token_entries fingerprint key_type [] = []
token_entries fingerprint key_type (t ∷ ts) =
    token_entry fingerprint key_type (host_of t) (token_entries fingerprint key_type ts)

abbrev pub key_entries : Crates → Known → Option Bytes → List Entry
key_entries crates k none = []
key_entries crates k (some key) =
    token_entries (fingerprint_sha256 crates key) k.key_type (k.host ∷ k.aliases)

abbrev pub entries : Crates → Line → List Entry
entries crates (known k) = key_entries crates k (crates.base64_decode k.key_b64)
entries crates (comment text) = []
entries crates (marker text) = []

unfoldable pub all_entries : Crates → List Line → List Entry
all_entries crates [] = []
all_entries crates (l ∷ ls) = entries crates l ++ all_entries crates ls
