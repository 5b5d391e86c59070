-- ===== src/Telnet/Session.antt =====
-- `try_read`, call by call.
use mshell.Prelude.{
  ℕ, ◌<◌, ◌≡◌, refl, sym, ap, ◌∙◌, Bool, true, List, [], ◌∷◌, ◌++◌, Bytes, length, arith,
  append_assoc, append-nil, length-append,
}
use mshell.Telnet.{
  Outcome, stop, chunk, Read, nothing_yet, got, failed, Call, as_read, send_all, finish, try_read,
}
use mshell.Telnet.Steps.{decode}
use mshell.Telnet.Chunks.{then_decode, decode-append, decode-buf, decode-nil, process-fits}

send_all-ok :
    (sends : Bytes → Bool) (ms : List Bytes)
    → ((m : Bytes) → sends m ≡ true)
    → send_all sends ms ≡ (ms, true)
unfolding send_all
send_all-ok sends [] h = refl
send_all-ok sends (m ∷ ms) h = rw (h m) (ap (λ r. (m ∷ r.0, r.1)) (send_all-ok sends ms h))

abbrev pub text_of : Read → Bytes
text_of nothing_yet = []
text_of (got bs) = bs
text_of failed = []

text_of-as_read : (bs : Bytes) → text_of (as_read bs) ≡ bs
text_of-as_read [] = refl
text_of-as_read (b ∷ bs) = refl

abbrev pub call_of : Outcome → Call
call_of o = record { buf = o.buf; sent = o.answers; result = as_read o.out }

try_read-fits :
    (sends : Bytes → Bool) (cap : ℕ) (buf raw : Bytes)
    → ((m : Bytes) → sends m ≡ true)
    → length (decode (buf ++ raw)).out < cap
    → try_read sends cap buf (chunk raw) ≡ call_of (decode (buf ++ raw))
unfolding try_read decode
try_read-fits sends cap buf raw h l =
    let o = decode (buf ++ raw) in
    ap (λ p. finish p (send_all sends p.answers)) (process-fits _ cap (buf ++ raw) l)
    ∙ ap (finish o) (send_all-ok sends o.answers h)

abbrev pub join : List Bytes → Bytes
join [] = []
join (raw ∷ chunks) = raw ++ join chunks

abbrev pub joined : Bytes → List Bytes → Outcome → Outcome
joined out answers p = record { out = out ++ p.out; answers = answers ++ p.answers; buf = p.buf }

abbrev pub after_call : (Bytes → Outcome) → Call → Outcome
after_call later c = joined (text_of c.result) c.sent (later c.buf)

-- A call for each chunk that the socket gives: all that the caller gets, all that is sent, and what
-- is left in `self.buf`.
unfoldable pub reads : (Bytes → Bool) → ℕ → Bytes → List Bytes → Outcome
unfolding try_read
reads sends cap buf [] = stop buf
reads sends cap buf (raw ∷ chunks) =
    after_call (λ b. reads sends cap b chunks) (try_read sends cap buf (chunk raw))

reads-from :
    (sends : Bytes → Bool) (cap : ℕ) (buf : Bytes) (chunks : List Bytes)
    → ((m : Bytes) → sends m ≡ true)
    → decode buf ≡ stop buf
    → length (decode (buf ++ join chunks)).out < cap
    → reads sends cap buf chunks ≡ decode (buf ++ join chunks)
unfolding reads
reads-from sends cap buf [] h p l = sym (ap decode (append-nil buf) ∙ p)
reads-from sends cap buf (raw ∷ chunks) h p l =
    let o = decode (buf ++ raw) in
    let whole : decode (buf ++ (raw ++ join chunks)) ≡ then_decode o (join chunks) =
      ap decode (sym (append_assoc buf raw (join chunks)))
      ∙ decode-append (buf ++ raw) (join chunks) in
    let size = ap (λ w. length w.out) whole in
    let rest = decode (o.buf ++ join chunks) in
    let first =
      try_read-fits sends cap buf raw h (omega (arith, l, size, length-append o.out rest.out)) in
    let later =
      reads-from sends cap o.buf chunks h (decode-buf (buf ++ raw))
        (omega (arith, l, size, length-append o.out rest.out)) in
    ap (after_call (λ b. reads sends cap b chunks)) first
    ∙ ap (λ t. joined t o.answers (reads sends cap o.buf chunks)) (text_of-as_read o.out)
    ∙ ap (joined o.out o.answers) later
    ∙ sym whole

-- However the socket cuts the data into chunks, if every send succeeds and the caller's buffer has
-- room for all the text, the calls together return the text, send the answers and keep the bytes
-- that the data decode to as a whole.
pub reads-decode :
    (sends : Bytes → Bool) (cap : ℕ) (chunks : List Bytes)
    → ((m : Bytes) → sends m ≡ true)
    → length (decode (join chunks)).out < cap
    → reads sends cap [] chunks ≡ decode (join chunks)
reads-decode sends cap chunks h l = reads-from sends cap [] chunks h decode-nil l
