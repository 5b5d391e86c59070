-- ===== src/HostKeys/Words.antt =====
-- The words of an entry's line, and the hosts in the first one.
use mshell.Prelude.{false, ◌≡◌, ◌≢◌, refl, ap, some, List, [], ◌∷◌, ◌++◌, map, ne→==, All, arith}
use mshell.Text.{
  starts_with, is_whitespace, Text, is_whitespace, split, split_once_pair, before_first,
}
use mshell.Text.Trim.{IsStarted, All-implies, All-append}
use mshell.Text.Words.{IsInWord, separated, split-separated}
use mshell.HostKeys.Import.{is_skipped, hashed, normalize_known_host_token, bracketed}
use mshell.HostKeys.Known.{
  HostToken, bare, bracket, negated, printed_token, host_of, IsNameChar, IsToken, Known,
  printed_hosts, IsKnown,
}

-- A token is a word without a comma.
token-IsNameChar : (t : HostToken) → IsToken t → All IsNameChar (printed_token t)
unfolding is_whitespace
token-IsNameChar (bare first name) h = (h.0.0, h.1)
token-IsNameChar (bracket name port) h = (
  (refl, omega arith),
  All-append IsNameChar name (b']' ∷ b':' ∷ port) (h.0)
      ((refl, omega arith), ((refl, omega arith), h.2)),
)
token-IsNameChar (negated name) h = ((refl, omega arith), h)

tokens-IsNameChar :
    (ts : List HostToken) → All IsToken ts → All (All IsNameChar) (map printed_token ts)
tokens-IsNameChar [] h = tt
tokens-IsNameChar (t ∷ ts) h = (token-IsNameChar t (h.0), tokens-IsNameChar ts (h.1))

separated-IsInWord :
    (part : Text) (parts : List Text)
    → All IsNameChar part
    → All (All IsNameChar) parts
    → All IsInWord (separated b',' part parts)
unfolding is_whitespace
separated-IsInWord part [] h hs = All-implies (λ c k. k.0) part h
separated-IsInWord part (p ∷ parts) h hs =
    All-append IsInWord part _ (All-implies (λ c k. k.0) part h)
      (refl, separated-IsInWord p parts (hs.0) (hs.1))

pub hosts-split :
    (k : Known)
    → IsKnown k
    → split b',' (printed_hosts k) ≡ printed_token k.host ∷ map printed_token k.aliases
hosts-split k h =
    split-separated b',' (printed_token k.host) (map printed_token k.aliases)
      (All-implies (λ c n. n.1) _ (token-IsNameChar k.host h.host_right))
      (All-implies (λ part n. All-implies (λ c m. m.1) part n) _
        (tokens-IsNameChar k.aliases h.aliases_right))

pub hosts-IsInWord : (k : Known) → IsKnown k → All IsInWord (printed_hosts k)
hosts-IsInWord k h =
    separated-IsInWord _ _ (token-IsNameChar k.host h.host_right)
      (tokens-IsNameChar k.aliases h.aliases_right)

split_once_pair-append :
    (name port : Text)
    → All (λ c. c ≢ b']') name
    → split_once_pair b']' b':' (name ++ (b']' ∷ b':' ∷ port)) ≡ some (name, port)
unfolding split_once_pair
split_once_pair-append [] port h = refl
split_once_pair-append (c ∷ []) port h = rw (ne→== c b']' (h.0)) refl
split_once_pair-append (c ∷ d ∷ name) port h =
    rw (ne→== c b']' (h.0)) (ap (before_first c) (split_once_pair-append (d ∷ name) port (h.1)))

-- What the store makes of a token.
pub normalize-token :
    (t : HostToken) → IsToken t → normalize_known_host_token (printed_token t) ≡ host_of t
unfolding normalize_known_host_token
normalize-token (bare first name) ((n, nh, na, np, nb, ne), h) =
    rw (ne→== first b'!' ne) (rw (ne→== first b'[' nb) refl)
normalize-token (bracket name port) h =
    ap (λ o. some (bracketed (b'[' ∷ (name ++ (b']' ∷ b':' ∷ port))) o))
      (split_once_pair-append name port (h.1))
normalize-token (negated name) h = refl

-- The characters that a printed list of hosts starts with.
abbrev pub Starts : Text → Type 0
Starts [] = ⊥
Starts (c ∷ cs) = (is_whitespace c ≡ false) × (c ≢ b'#') × (c ≢ b'@') × (c ≢ b'|')

pub Starts-token : (t : HostToken) → IsToken t → Starts (printed_token t)
unfolding is_whitespace
Starts-token (bare first name) ((n, nh, na, np, nb, ne), m) = (n.0, nh, na, np)
Starts-token (bracket name port) m = (refl, omega arith, omega arith, omega arith)
Starts-token (negated name) m = (refl, omega arith, omega arith, omega arith)

pub Starts-append : (s t : Text) → Starts s → Starts (s ++ t)
Starts-append [] t p = elim p [ ]
Starts-append (c ∷ s) t p = p

pub Starts-separated :
    (part : Text) (parts : List Text) → Starts part → Starts (separated b',' part parts)
Starts-separated part [] p = p
Starts-separated part (q ∷ parts) p = Starts-append part _ p

pub Starts-hosts : (k : Known) → IsKnown k → Starts (printed_hosts k)
Starts-hosts k h = Starts-separated _ _ (Starts-token k.host h.host_right)

pub Starts-skipped : (s : Text) → Starts s → is_skipped s ≡ false
Starts-skipped [] p = elim p [ ]
Starts-skipped (c ∷ s) (w, nh, na, np) = rw (ne→== c b'#' nh) (rw (ne→== c b'@' na) refl)

pub Starts-hashed : (s : Text) → Starts s → starts_with s hashed ≡ false
unfolding starts_with
Starts-hashed [] p = elim p [ ]
Starts-hashed (c ∷ s) (w, nh, na, np) = rw (ne→== c b'|' np) refl

pub Starts-IsStarted : (s : Text) → Starts s → IsStarted s
Starts-IsStarted [] p = elim p [ ]
Starts-IsStarted (c ∷ s) p = p.0

pub Starts-full : (s : Text) → Starts s → s ≢ []
Starts-full [] p = elim p [ ]
Starts-full (c ∷ s) p = λ e. cc
