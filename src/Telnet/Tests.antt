-- ===== src/Telnet/Tests.antt =====
-- A server that asks for an option, the request cut in two.
use mshell.Prelude.{◌<◌, ◌≡◌, refl, ap, Bool, true, [], ◌∷◌, ◌++◌, arith, Bytes, length}
use mshell.Telnet.{iac, will, do_, echo, sb, se, chunk, got, replies, past_se, round, try_read}
use mshell.Telnet.Steps.{decode, read_from}
use mshell.Telnet.Session.{reads, join, reads-decode}
use mshell.Telnet.Full.{escape, try_read-escape, try_read_loses}

-- "a", IAC | WILL ECHO, "b"
abbrev first : Bytes
first = b'a' ∷ iac ∷ []

abbrev second : Bytes
second = will ∷ echo ∷ b'b' ∷ []

abbrev sends : Bytes → Bool
sends m = true

decodes :
    decode (first ++ second)
    ≡ record { out = b'a' ∷ b'b' ∷ []; answers = (iac ∷ do_ ∷ echo ∷ []) ∷ []; buf = [] }
unfolding decode read_from round replies
decodes = refl

short : length (decode (join (first ∷ second ∷ []))).out < 10
short = omega (arith, ap (λ o. length o.out) decodes)

reads-decode_example : reads sends 10 [] (first ∷ second ∷ []) ≡ decode (join (first ∷ second ∷ []))
reads-decode_example = reads-decode sends 10 (first ∷ second ∷ []) (λ m. refl) short

subnegotiation_passed :
    decode (iac ∷ sb ∷ 24 ∷ 1 ∷ iac ∷ se ∷ b'x' ∷ [])
    ≡ record { out = b'x' ∷ []; answers = []; buf = [] }
unfolding decode read_from round past_se
subnegotiation_passed = refl

try_read-escape_example :
    try_read sends 10 [] (chunk (escape (iac ∷ b'a' ∷ [])))
    ≡ record { buf = []; sent = []; result = got (iac ∷ b'a' ∷ []) }
try_read-escape_example = try_read-escape sends 10 (iac ∷ b'a' ∷ []) (λ e. cc) (omega arith)

-- "b" is lost.
try_read_loses_example :
    try_read sends 2 [] (chunk (b'a' ∷ iac ∷ iac ∷ b'b' ∷ []))
    ≡ record { buf = []; sent = []; result = got (b'a' ∷ iac ∷ []) }
try_read_loses_example = try_read_loses sends (b'a' ∷ []) (b'b' ∷ []) ((λ e. omega arith), tt)
