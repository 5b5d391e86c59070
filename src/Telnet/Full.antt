-- ===== src/Telnet/Full.antt =====
-- What text decodes to, and a caller's buffer that is full.
use mshell.Prelude.{
  ℕ, zero, suc, ◌+◌, ◌-◌, ◌≤◌, ◌<◌, ◌≡◌, ◌≢◌, refl, sym, ap, ◌∙◌, if-all, leb, Bool, false, [], ◌∷◌,
  ◌++◌, if◌then◌else◌, ◌==◌, true, Bytes, length, arith, Bool-cases, inl, inr, All, ne→==, ==_iff,
  le→leb, lt→leb, length-append,
}
use mshell.Telnet.{
  iac, Outcome, emit, stop, round, text, escaped, step, process, try_read, chunk, got, finish,
  as_read, send_all,
}

-- Text as a Telnet peer sends it: a byte 255 is doubled.
unfoldable pub escape : Bytes → Bytes
escape [] = []
escape (b ∷ bs) = let rest = escape bs in if b == iac then iac ∷ iac ∷ rest else b ∷ rest

round-text : (b : ℕ) (bs : Bytes) → (b == iac) ≡ false → round b bs ≡ text b bs
unfolding round
round-text b bs h = rw h refl

round-escaped : (bs : Bytes) → round iac (iac ∷ bs) ≡ escaped bs
unfolding round
round-escaped bs = refl

-- The loop's end with all of a text in the caller's buffer.
abbrev all_read : Bytes → Outcome
all_read bs = record { out = bs; answers = []; buf = [] }

-- Where the last byte of the text fills the buffer, the rest is empty, and the loop would end too.
stop-all_read :
    (f room : ℕ) (bs : Bytes)
    → length bs ≤ room - 1
    → process f (room - 1) (escape bs) ≡ all_read bs
    → (if leb room 1 then stop (escape bs) else process f (room - 1) (escape bs)) ≡ all_read bs
unfolding escape
stop-all_read f room [] l h = if-all (λ o. o ≡ all_read []) (leb room 1) refl h
stop-all_read f room (b ∷ bs) l h = rw (lt→leb room 1 (omega arith)) h

stop-all_read_escaped :
    (f room : ℕ) (bs : Bytes)
    → length bs ≤ room - 1
    → process f (room - 1) (escape bs) ≡ all_read bs
    → (if leb room 1 then stop [] else process f (room - 1) (escape bs)) ≡ all_read bs
stop-all_read_escaped f room [] l h = if-all (λ o. o ≡ all_read []) (leb room 1) refl h
stop-all_read_escaped f room (b ∷ bs) l h = rw (lt→leb room 1 (omega arith)) h

escape-doubled : (b : ℕ) (bs : Bytes) → (b == iac) ≡ true → escape (b ∷ bs) ≡ iac ∷ iac ∷ escape bs
unfolding escape
escape-doubled b bs e = rw e refl

escape-single : (b : ℕ) (bs : Bytes) → (b == iac) ≡ false → escape (b ∷ bs) ≡ b ∷ escape bs
unfolding escape
escape-single b bs e = rw e refl

process-escape :
    (f room : ℕ) (bs : Bytes)
    → length (escape bs) ≤ f
    → length bs ≤ room
    → process f room (escape bs) ≡ all_read bs
unfolding process escape
process-escape zero room [] h l = refl
process-escape (suc f) room [] h l = refl
process-escape zero room (b ∷ bs) h l =
    if-all (λ t. length t ≤ 0 → process 0 room t ≡ all_read (b ∷ bs)) (b == iac)
      (λ k. absurd (omega arith)) (λ k. absurd (omega arith)) h
process-escape (suc f) room (b ∷ bs) h l =
    let later = (λ (k : length (escape bs) ≤ f). process-escape f (room - 1) bs k (omega arith)) in
    elim (Bool-cases (b == iac)) [
      | inl e ↦
          let twice = escape-doubled b bs e in
          (ap (process (suc f) room) twice
            ∙ ap (step (process f) room (iac ∷ iac ∷ escape bs)) (round-escaped (escape bs))
            ∙ ap (emit iac) (
                stop-all_read_escaped f room bs (omega arith)
                  (later (omega (arith, ap length twice))))
            ∙ ap (λ c. all_read (c ∷ bs)) (sym ((==_iff b iac).0 e)))
      | inr e ↦
          let once = escape-single b bs e in
          (ap (process (suc f) room) once
            ∙ ap (step (process f) room (b ∷ escape bs)) (round-text b (escape bs) e)
            ∙ ap (emit b)
                (stop-all_read f room bs (omega arith) (later (omega (arith, ap length once)))))
    ]

got_all : (bs : Bytes) → bs ≢ [] → as_read bs ≡ got bs
got_all [] h = absurd (h refl)
got_all (b ∷ bs) h = refl

abbrev pub IsPlain : ℕ → Type 0
IsPlain b = b ≢ iac

fills :
    (t rest : Bytes) (f cap : ℕ)
    → All IsPlain t
    → length t < f
    → cap ≡ length t + 1
    → process f cap (t ++ (iac ∷ iac ∷ rest))
      ≡ record { out = t ++ (iac ∷ []); answers = []; buf = [] }
unfolding process
fills t rest zero cap h l e = absurd (omega arith)
fills [] rest (suc f) cap h l e =
    ap (step (process f) cap (iac ∷ iac ∷ rest)) (round-escaped rest)
    ∙ ap (λ t. emit iac (if t then stop [] else process f (cap - 1) rest))
        (le→leb cap 1 (omega (arith, e)))
fills (b ∷ t) rest (suc f) cap h l e =
    let more = t ++ (iac ∷ iac ∷ rest) in
    ap (step (process f) cap (b ∷ more)) (round-text b more (ne→== b iac (h.0)))
    ∙ ap (λ t. emit b (if t then stop more else process f (cap - 1) more))
        (lt→leb cap 1 (omega (arith, e)))
    ∙ ap (emit b) (fills t rest f (cap - 1) (h.1) (omega arith) (omega (arith, e)))

full_read : (t : Bytes) → as_read (t ++ (iac ∷ [])) ≡ got (t ++ (iac ∷ []))
full_read [] = refl
full_read (b ∷ t) = refl

-- Text that fills the caller's buffer but for one byte, and then an escaped byte 255: the call
-- returns both, and what follows in the same read is lost.
pub try_read_loses :
    (sends : Bytes → Bool) (t rest : Bytes)
    → All IsPlain t
    → try_read sends (length t + 1) [] (chunk (t ++ (iac ∷ iac ∷ rest)))
      ≡ record { buf = []; sent = []; result = got (t ++ (iac ∷ [])) }
unfolding try_read send_all
try_read_loses sends t rest h =
    let here = t ++ (iac ∷ iac ∷ rest) in
    ap (λ o. finish o (send_all sends o.answers))
      (fills t rest (length here) (length t + 1) h
        (omega (arith, length-append t (iac ∷ iac ∷ rest))) refl)
    ∙ ap (λ r. record { buf = []; sent = []; result = r }) (full_read t)

-- Text of at least one byte, with each of its bytes 255 doubled, that comes in one read when nothing
-- was kept, for a caller's buffer that has room for it: the call returns that text, answers nothing
-- and keeps nothing.
pub try_read-escape :
    (sends : Bytes → Bool) (cap : ℕ) (bs : Bytes)
    → bs ≢ []
    → length bs ≤ cap
    → try_read sends cap [] (chunk (escape bs)) ≡ record { buf = []; sent = []; result = got bs }
unfolding try_read send_all
try_read-escape sends cap bs filled room =
    ap (λ o. finish o (send_all sends o.answers))
      (process-escape (length (escape bs)) cap bs (omega arith) room)
    ∙ ap (λ r. record { buf = []; sent = []; result = r }) (got_all bs filled)
