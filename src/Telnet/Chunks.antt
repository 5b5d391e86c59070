-- ===== src/Telnet/Chunks.antt =====
-- Where the reads of the socket cut the data makes no difference.
use mshell.Prelude.{
  ℕ, zero, suc, ◌-◌, ◌≤◌, ◌<◌, ◌≡◌, refl, sym, ap, subst, ◌∙◌, [], ◌∷◌, ◌++◌, Bytes, length, arith,
  append_assoc, lt→leb,
}
use mshell.Telnet.{
  iac, Round, partial, passed, escaped, text, Outcome, emit, answer, stop, round, step, process,
}
use mshell.Telnet.Steps.{read_step, read_from, decode, Leaves, round-Leaves, Extends, round-Extends}

step-same :
    (n : ℕ) (f g : Bytes → Outcome) (here : Bytes) (r : Round)
    → Leaves n r
    → ((rest : Bytes) → length rest ≤ n → f rest ≡ g rest)
    → read_step f here r ≡ read_step g here r
step-same n f g here partial l e = refl
step-same n f g here (passed ms rest) l e = ap (answer ms) (e rest l)
step-same n f g here (escaped rest) l e = ap (emit iac) (e rest l)
step-same n f g here (text c rest) l e = ap (emit c) (e rest l)

-- Enough fuel is as good as more.
read_from-fuel :
    (f g : ℕ) (here : Bytes)
    → length here ≤ f
    → length here ≤ g
    → read_from f here ≡ read_from g here
unfolding read_from
read_from-fuel zero zero here hf hg = refl
read_from-fuel zero (suc g) [] hf hg = refl
read_from-fuel zero (suc g) (b ∷ bs) hf hg = absurd (omega arith)
read_from-fuel (suc f) zero [] hf hg = refl
read_from-fuel (suc f) zero (b ∷ bs) hf hg = absurd (omega arith)
read_from-fuel (suc f) (suc g) [] hf hg = refl
read_from-fuel (suc f) (suc g) (b ∷ bs) hf hg =
    step-same (length bs) _ _ (b ∷ bs) (round b bs) (round-Leaves b bs)
      (λ rest h. read_from-fuel f g rest (omega arith) (omega arith))

-- Decoding goes round by round.
pub decode_step : (b : ℕ) (bs : Bytes) → decode (b ∷ bs) ≡ read_step decode (b ∷ bs) (round b bs)
unfolding decode read_from
decode_step b bs =
    step-same (length bs) _ _ (b ∷ bs) (round b bs) (round-Leaves b bs)
      (λ rest h. read_from-fuel (length bs) (length rest) rest h (omega arith))

-- The outcome of further data, behind one that has left some bytes.
abbrev pub then_decode : Outcome → Bytes → Outcome
then_decode o ys =
    let p = decode (o.buf ++ ys) in
    record { out = o.out ++ p.out; answers = o.answers ++ p.answers; buf = p.buf }

pub decode-nil : decode [] ≡ stop []
unfolding decode read_from
decode-nil = refl

then_decode-nil : (ys : Bytes) → then_decode (decode []) ys ≡ decode ys
unfolding decode read_from
then_decode-nil ys = refl

append-step :
    (n : ℕ) (b : ℕ) (bs ys : Bytes) (r r' : Round)
    → Leaves n r
    → Extends ys r r'
    → (r ≡ partial → read_step decode (b ∷ bs ++ ys) r' ≡ decode (b ∷ bs ++ ys))
    → ((rest : Bytes) → length rest ≤ n → decode (rest ++ ys) ≡ then_decode (decode rest) ys)
    → read_step decode (b ∷ bs ++ ys) r' ≡ then_decode (read_step decode (b ∷ bs) r) ys
append-step n b bs ys partial r' l e p ih = p refl
append-step n b bs ys (passed ms rest) r' l e p ih =
    ap (read_step decode (b ∷ bs ++ ys)) e
    ∙ ap (answer ms) (ih rest l)
    ∙ ap (λ a. record (then_decode (decode rest) ys) { answers = a })
        (sym (append_assoc ms (decode rest).answers (decode ((decode rest).buf ++ ys)).answers))
append-step n b bs ys (escaped rest) r' l e p ih =
    ap (read_step decode (b ∷ bs ++ ys)) e ∙ ap (emit iac) (ih rest l)
append-step n b bs ys (text c rest) r' l e p ih =
    ap (read_step decode (b ∷ bs ++ ys)) e ∙ ap (emit c) (ih rest l)

decode-append_upto :
    (n : ℕ) (xs ys : Bytes) → length xs ≤ n → decode (xs ++ ys) ≡ then_decode (decode xs) ys
decode-append_upto n [] ys h = sym (then_decode-nil ys)
decode-append_upto zero (b ∷ bs) ys h = absurd (omega arith)
decode-append_upto (suc n) (b ∷ bs) ys h =
    decode_step b (bs ++ ys)
    ∙ append-step (length bs) b bs ys (round b bs) (round b (bs ++ ys)) (round-Leaves b bs)
        (round-Extends ys b bs) (λ _. sym (decode_step b (bs ++ ys)))
        (λ rest l. decode-append_upto n rest ys (omega arith))
    ∙ ap (λ o. then_decode o ys) (sym (decode_step b bs))

-- Data that come in two parts decode to what they decode to as a whole.
pub decode-append : (xs ys : Bytes) → decode (xs ++ ys) ≡ then_decode (decode xs) ys
decode-append xs ys = decode-append_upto (length xs) xs ys (omega arith)

buf-step :
    (n : ℕ) (here : Bytes) (r : Round)
    → Leaves n r
    → (r ≡ partial → decode here ≡ stop here)
    → ((rest : Bytes) → length rest ≤ n → let o = decode rest in decode o.buf ≡ stop o.buf)
    → let o = read_step decode here r in decode o.buf ≡ stop o.buf
buf-step n here partial l p ih = p refl
buf-step n here (passed ms rest) l p ih = ih rest l
buf-step n here (escaped rest) l p ih = ih rest l
buf-step n here (text c rest) l p ih = ih rest l

buf_upto : (n : ℕ) (xs : Bytes) → length xs ≤ n → let o = decode xs in decode o.buf ≡ stop o.buf
buf_upto n [] h = subst (λ o. decode o.buf ≡ stop o.buf) (sym decode-nil) decode-nil
buf_upto zero (b ∷ bs) h = absurd (omega arith)
buf_upto (suc n) (b ∷ bs) h =
    subst (λ o. decode o.buf ≡ stop o.buf) (sym (decode_step b bs))
      (buf-step (length bs) (b ∷ bs) (round b bs) (round-Leaves b bs)
        (λ e. decode_step b bs ∙ ap (read_step decode (b ∷ bs)) e)
        (λ rest l. buf_upto n rest (omega arith)))

-- What is kept for the next read decodes to nothing yet.
pub decode-buf : (xs : Bytes) → let o = decode xs in decode o.buf ≡ stop o.buf
decode-buf xs = buf_upto (length xs) xs (omega arith)

step-fits :
    (f : ℕ → Bytes → Outcome) (g : Bytes → Outcome) (cap : ℕ) (here : Bytes) (r : Round)
    → ((c : ℕ) (rest : Bytes) → length (g rest).out < c → f c rest ≡ g rest)
    → length (read_step g here r).out < cap
    → step f cap here r ≡ read_step g here r
step-fits f g cap here partial h l = refl
step-fits f g cap here (passed ms rest) h l = ap (answer ms) (h cap rest l)
step-fits f g cap here (escaped rest) h l =
    rw (lt→leb cap 1 (omega (arith, l))) (ap (emit iac) (h (cap - 1) rest (omega (arith, l))))
step-fits f g cap here (text c rest) h l =
    rw (lt→leb cap 1 (omega (arith, l))) (ap (emit c) (h (cap - 1) rest (omega (arith, l))))

-- With room for what the data decode to, the loop decodes them.
pub process-fits :
    (fuel cap : ℕ) (here : Bytes)
    → length (read_from fuel here).out < cap
    → process fuel cap here ≡ read_from fuel here
unfolding process read_from
process-fits zero cap here h = refl
process-fits (suc fuel) cap [] h = refl
process-fits (suc fuel) cap (b ∷ bs) h =
    step-fits (process fuel) (read_from fuel) cap (b ∷ bs) (round b bs)
      (λ c rest l. process-fits fuel c rest l) h
