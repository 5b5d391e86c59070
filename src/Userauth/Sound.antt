-- ===== src/Userauth/Sound.antt =====
-- What a session is like between calls, and when it is authenticated.
use mshell.Prelude.{
  ℕ, zero, suc, ◌≡◌, ◌≢◌, refl, sym, subst, Bool, true, false, Option, none, some, List, [], ◌∷◌,
  ◌==◌, if-all, Bytes, length, arith,
}
use mshell.Userauth.{Nb, idle, created, sent, sent1, Kbd, Heap, decode_info_request}
use mshell.Userauth.Interactive.{
  Send, send_done, send_blocks, send_fails, Wait, packet, wait_blocks, wait_fails, Turn, success,
  refused, Callback, returns, filled, filled_in, response_len, answered, respond, converse,
  wait_step, send_step, Out, converse_loop, opened, request, created_step, from_state,
  keyboard_interactive, or_nil,
}
use mshell.Userauth.Steps.{Good, Cleans, turn-Q}
use mshell.Userauth.Decoded.{Sized, IsDecoded, decode_info_request-IsDecoded}

-- A message that is to be sent, and nothing but an answer to be sent has names and arrays.
abbrev pub AtRest : Nb → Kbd → Type 0
AtRest sent1 k = k.data_ ≢ none
AtRest created k = (k.data_ ≢ none) × (k.prompts ≡ none) × (k.responses ≡ none)
AtRest idle k = (k.prompts ≡ none) × (k.responses ≡ none)
AtRest sent k = (k.prompts ≡ none) × (k.responses ≡ none)

-- The arrays have the length that `num_prompts` says, 100 at most, so that no loop passes their ends.
pub record IsKbd (k : Kbd) : Type 0 where
  pub prompts_sized : Sized k.num_prompts k.prompts
  pub responses_sized : Sized k.num_prompts k.responses
  pub at_rest : AtRest k.state k

length-filled : (n : ℕ) (rs : List Bytes) → length (filled n rs) ≡ n
unfolding filled
length-filled zero rs = omega arith
length-filled (suc n) [] = omega (arith, length-filled n [])
length-filled (suc n) (r ∷ rs) = omega (arith, length-filled n rs)

filled_in-Sized :
    (n : ℕ) (o : Option (List Bytes)) (answers : List Bytes)
    → Sized n o
    → Sized n (filled_in n o answers)
filled_in-Sized n none answers h = tt
filled_in-Sized n (some rs) answers h = (length-filled n answers, h.1)

module _ (heap : Heap) (callback : Callback) where
  abbrev pub Q : Out heap callback → Type 0
  Q (r, k) = IsKbd k

  -- Any session will do behind `cleanup`.
  abbrev pub J : Kbd → Type 0
  J k = Unit

  cleans : Cleans heap callback IsKbd J Q
  cleans k j = (
    record { prompts_sized = tt; responses_sized = tt; at_rest = (refl, refl) },
    record { prompts_sized = tt; responses_sized = tt; at_rest = (refl, refl) },
  )

  respond-Good :
      (k : Kbd) (len : Option ℕ)
      → Sized k.num_prompts k.prompts
      → Sized k.num_prompts k.responses
      → Good heap callback IsKbd J Q (respond heap callback k len)
  respond-Good k none p r = tt
  respond-Good k (some len) p r =
      if-all (Good heap callback IsKbd J Q) (heap.alloc len)
        (record { prompts_sized = p; responses_sized = r; at_rest = λ e. cc }) tt

  converse-Good :
      (k : Kbd) (r : Kbd × Bool)
      → IsDecoded k r.0
      → Good heap callback IsKbd J Q (converse heap callback r)
  converse-Good k (k', false) h = tt
  converse-Good k (k', true) h =
      let a = answered heap callback k' in
      respond-Good a (response_len 5 (or_nil a.responses)) h.prompts_sized
        (filled_in-Sized k'.num_prompts k'.responses _ h.responses_sized)

  pub wait_step-Good :
      (w : Wait) (k : Kbd)
      → IsKbd k
      → AtRest sent k
      → Good heap callback IsKbd J Q (wait_step heap callback w k)
  wait_step-Good wait_blocks k h r = h
  wait_step-Good wait_fails k h r = record {
    prompts_sized = h.prompts_sized;
    responses_sized = h.responses_sized;
    at_rest = r;
  }
  wait_step-Good (packet []) k h r = record {
    prompts_sized = h.prompts_sized;
    responses_sized = h.responses_sized;
    at_rest = r;
  }
  wait_step-Good (packet (type ∷ rest)) k h r =
      let given : Kbd = record k { data_ = some (type ∷ rest) } in
      let decoded = decode_info_request heap given (type ∷ rest) in
      let succeeded : Kbd = record k { data_ = none; authenticated = true; state = idle } in
      if-all (Good heap callback IsKbd J Q) (type == 52) {x = returns success succeeded}
        (record {
          prompts_sized = h.prompts_sized;
          responses_sized = h.responses_sized;
          at_rest = r;
        })
        (if-all (Good heap callback IsKbd J Q) (type == 51)
          {x = returns refused (record k { data_ = none; state = idle })}
          {y = converse heap callback decoded}
          (record {
            prompts_sized = h.prompts_sized;
            responses_sized = h.responses_sized;
            at_rest = r;
          })
          (converse-Good given decoded
            (decode_info_request-IsDecoded heap given (type ∷ rest) (r.0) (r.1))))

  pub send_step-Good :
      (s : Send) (k : Kbd) → IsKbd k → Good heap callback IsKbd J Q (send_step heap callback s k)
  send_step-Good send_done k h = tt
  send_step-Good send_blocks k h = h
  send_step-Good send_fails k h = tt

  converse_loop-IsKbd :
      (ts : List Turn) (k : Kbd) → IsKbd k → IsKbd (converse_loop heap callback ts k).1
  unfolding converse_loop
  converse_loop-IsKbd [] k h = h
  converse_loop-IsKbd (t ∷ ts) k h =
      turn-Q heap callback IsKbd J Q (converse_loop heap callback ts)
        (λ k' h'. converse_loop-IsKbd ts k' h') cleans t k.state k refl h tt (send_step-Good t.send)
        (λ e. wait_step-Good t.wait k h (subst (λ n. AtRest n k) e h.at_rest))

  created_step-IsKbd :
      (s : Send) (ts : List Turn) (k : Kbd)
      → IsKbd k
      → AtRest created k
      → IsKbd (created_step heap callback s ts k).1
  created_step-IsKbd send_blocks ts k h r = h
  created_step-IsKbd send_fails ts k h r = record {
    prompts_sized = h.prompts_sized;
    responses_sized = h.responses_sized;
    at_rest = (r.1, r.2);
  }
  created_step-IsKbd send_done ts k h r = converse_loop-IsKbd ts _ (record {
    prompts_sized = h.prompts_sized;
    responses_sized = h.responses_sized;
    at_rest = (r.1, r.2);
  })

  from_state-IsKbd :
      (username : Bytes) (s : Send) (ts : List Turn) (n : Nb) (k : Kbd)
      → k.state ≡ n
      → IsKbd k
      → IsKbd (from_state heap callback username s ts n k).1
  from_state-IsKbd username s ts created k e h =
      created_step-IsKbd s ts k h (subst (λ n. AtRest n k) e h.at_rest)
  from_state-IsKbd username s ts sent k e h = converse_loop-IsKbd ts k h
  from_state-IsKbd username s ts sent1 k e h = converse_loop-IsKbd ts k h
  from_state-IsKbd username s ts idle k e h =
      let packet_ = request username in
      let made : Kbd = record (opened heap callback k) { data_ = some packet_; state = created } in
      let ready : AtRest created made = (λ e. cc, refl, refl) in
      if-all Q (heap.alloc (length packet_)) {x = created_step heap callback s ts made}
        (created_step-IsKbd s ts made
          (record { prompts_sized = tt; responses_sized = tt; at_rest = ready }) ready)
        (record {
          prompts_sized = tt;
          responses_sized = tt;
          at_rest =
              subst (λ n. AtRest n (record (opened heap callback k) { data_ = none })) (sym e)
                (refl, refl);
        })

-- However the transport, the server and the memory behave, a call leaves the session well formed if
-- it was so: the arrays of prompts and of responses are absent or have as many entries as
-- `num_prompts` says, which is 100 at most, there are none unless an answer is still to be sent, and
-- where a message is to be sent it is there.
pub keyboard_interactive-IsKbd :
    (heap : Heap) (callback : Callback) (username : Bytes) (send : Send) (ts : List Turn) (k : Kbd)
    → IsKbd k
    → IsKbd (keyboard_interactive heap callback username send ts k).1
unfolding keyboard_interactive
keyboard_interactive-IsKbd heap callback username send ts k h =
    from_state-IsKbd heap callback username send ts k.state k refl h
