-- ===== src/Userauth/Trust.antt =====
-- When a session becomes authenticated.
use mshell.Prelude.{
  ℕ, ◌≡◌, ◌≢◌, ◌⊎◌, inl, inr, refl, subst, ◌∙◌, Bool, true, false, Option, none, some, List, [],
  ◌∷◌, ◌==◌, if-all, if-cases, Bytes, length, ==_iff,
}
use mshell.Userauth.{Nb, idle, created, sent, sent1, Kbd, Heap, decode_info_request}
use mshell.Userauth.Interactive.{
  Send, send_done, send_blocks, send_fails, Wait, packet, wait_blocks, wait_fails, Turn, success,
  refused, Callback, Step, returns, to_send, to_cleanup, answered, respond, converse, wait_step,
  send_step, Out, converse_loop, opened, request, created_step, from_state, keyboard_interactive,
}
use mshell.Userauth.Steps.{Good, Cleans, turn-Q}
use mshell.Userauth.Decoded.{decode_info_request-IsDecoded}
use mshell.Userauth.Sound.{IsKbd, AtRest, Q, J, wait_step-Good, send_step-Good}

-- SSH_MSG_USERAUTH_SUCCESS among what is received.
abbrev IsSuccess : Wait → Type 0
IsSuccess (packet (type ∷ rest)) = type ≡ 52
IsSuccess _ = ⊥

abbrev pub Told : List Turn → Type 0
Told [] = ⊥
Told (t ∷ ts) = IsSuccess t.wait ⊎ Told ts

module _ (heap : Heap) (callback : Callback) where
  Good-both :
      (A B C : Kbd → Type 0) (R : Out heap callback → Type 0) (s : Step)
      → Good heap callback A (J heap callback) (Q heap callback) s
      → Good heap callback B C R s
      → Good heap callback (λ k. A k × B k) C R s
  Good-both A B C R (returns r k) g h = h
  Good-both A B C R (to_send k) g h = (g, h)
  Good-both A B C R (to_cleanup k) g h = h

  module _ (was : Bool) where
    -- As before, and not a success; or the server has said so.
    abbrev pub Fine : Type 0 → Out heap callback → Type 0
    Fine told (r, k) = ((k.authenticated ≡ was) × (r ≢ success)) ⊎ told

    abbrev Was : Kbd → Type 0
    Was k = k.authenticated ≡ was

    respond-Fine :
        (told : Type 0) (k : Kbd) (len : Option ℕ)
        → Was k
        → Good heap callback Was Was (Fine told) (respond heap callback k len)
    respond-Fine told k none h = h
    respond-Fine told k (some len) h =
        if-all (Good heap callback Was Was (Fine told)) (heap.alloc len) h h

    converse-Fine :
        (told : Type 0) (r : Kbd × Bool)
        → Was r.0
        → Good heap callback Was Was (Fine told) (converse heap callback r)
    converse-Fine told (k, false) h = h
    converse-Fine told (k, true) h = respond-Fine told (answered heap callback k) _ h

    wait_step-Fine :
        (told : Type 0) (w : Wait) (k : Kbd)
        → (IsSuccess w → told)
        → AtRest sent k
        → Was k
        → Good heap callback Was Was (Fine told) (wait_step heap callback w k)
    wait_step-Fine told wait_blocks k s r h = inl (h, λ e. cc)
    wait_step-Fine told wait_fails k s r h = inl (h, λ e. cc)
    wait_step-Fine told (packet []) k s r h = inl (h, λ e. cc)
    wait_step-Fine told (packet (type ∷ rest)) k s r h =
        let given : Kbd = record k { data_ = some (type ∷ rest) } in
        let decoded = decode_info_request heap given (type ∷ rest) in
        let d = decode_info_request-IsDecoded heap given (type ∷ rest) (r.0) (r.1) in
        let succeeded : Kbd = record k { data_ = none; authenticated = true; state = idle } in
        if-cases (Good heap callback Was Was (Fine told)) (type == 52)
          {x = returns success succeeded} (λ e. inr (s ((==_iff type 52).0 e)))
          (λ _.
            if-all (Good heap callback Was Was (Fine told)) (type == 51)
              {x = returns refused (record k { data_ = none; state = idle })}
              {y = converse heap callback decoded} (inl (h, λ e. cc))
              (converse-Fine told decoded (d.same.3 ∙ h)))

    send_step-Fine :
        (told : Type 0) (s : Send) (k : Kbd)
        → Was k
        → Good heap callback Was Was (Fine told) (send_step heap callback s k)
    send_step-Fine told send_done k h = h
    send_step-Fine told send_blocks k h = inl (h, λ e. cc)
    send_step-Fine told send_fails k h = h

    abbrev Kept : Kbd → Type 0
    Kept k = IsKbd k × Was k

    cleans : (told : Type 0) → Cleans heap callback Kept Was (Fine told)
    cleans told k h = (
      (record { prompts_sized = tt; responses_sized = tt; at_rest = (refl, refl) }, h),
      inl (h, λ e. cc),
    )

    later : (a b : Type 0) (o : Out heap callback) → (a → b) → Fine a o → Fine b o
    later a b o f (inl h) = inl h
    later a b o f (inr x) = inr (f x)

    converse_loop-Fine :
        (ts : List Turn) (k : Kbd) → Kept k → Fine (Told ts) (converse_loop heap callback ts k)
    unfolding converse_loop
    converse_loop-Fine [] k h = inl (h.1, λ e. cc)
    converse_loop-Fine (t ∷ ts) k h =
        let told = Told (t ∷ ts) in
        turn-Q heap callback Kept Was (Fine told) (converse_loop heap callback ts)
          (λ k' h'.
            later (Told ts) told (converse_loop heap callback ts k') inr
              (converse_loop-Fine ts k' h'))
          (cleans told) t k.state k refl h (h.1)
          (λ k' h'.
            Good-both IsKbd Was Was (Fine told) (send_step heap callback t.send k')
              (send_step-Good heap callback t.send k' (h'.0))
              (send_step-Fine told t.send k' (h'.1)))
          (λ e.
            let rest : AtRest sent k = subst (λ n. AtRest n k) e (h.0).at_rest in
            Good-both IsKbd Was Was (Fine told) (wait_step heap callback t.wait k)
              (wait_step-Good heap callback t.wait k (h.0) rest)
              (wait_step-Fine told t.wait k inl rest (h.1)))

    created_step-Fine :
        (s : Send) (ts : List Turn) (k : Kbd)
        → Kept k
        → AtRest created k
        → Fine (Told ts) (created_step heap callback s ts k)
    created_step-Fine send_blocks ts k h r = inl (h.1, λ e. cc)
    created_step-Fine send_fails ts k h r = inl (h.1, λ e. cc)
    created_step-Fine send_done ts k h r = converse_loop-Fine ts _ (
      record {
        prompts_sized = (h.0).prompts_sized;
        responses_sized = (h.0).responses_sized;
        at_rest = (r.1, r.2);
      },
      h.1,
    )

    from_state-Fine :
        (username : Bytes) (s : Send) (ts : List Turn) (n : Nb) (k : Kbd)
        → k.state ≡ n
        → Kept k
        → Fine (Told ts) (from_state heap callback username s ts n k)
    from_state-Fine username s ts created k e h =
        created_step-Fine s ts k h (subst (λ n. AtRest n k) e (h.0).at_rest)
    from_state-Fine username s ts sent k e h = converse_loop-Fine ts k h
    from_state-Fine username s ts sent1 k e h = converse_loop-Fine ts k h
    from_state-Fine username s ts idle k e h =
        let packet_ = request username in
        let made : Kbd = record (opened heap callback k) {
          data_ = some packet_;
          state = created;
        } in
        let ready : AtRest created made = (λ e. cc, refl, refl) in
        if-all (Fine (Told ts)) (heap.alloc (length packet_))
          {x = created_step heap callback s ts made}
          (created_step-Fine s ts made
            (record { prompts_sized = tt; responses_sized = tt; at_rest = ready }, h.1) ready)
          (inl (h.1, λ e. cc))

-- A session is authenticated by a call, and a call says that it succeeded, only if the server has
-- sent SSH_MSG_USERAUTH_SUCCESS in it, however the conversation goes, where the session was well
-- formed.
pub keyboard_interactive-Fine :
    (heap : Heap) (callback : Callback) (username : Bytes) (send : Send) (ts : List Turn) (k : Kbd)
    → IsKbd k
    → Fine heap callback k.authenticated
        (Told ts)
        (keyboard_interactive heap callback username send ts k)
unfolding keyboard_interactive
keyboard_interactive-Fine heap callback username send ts k h =
    from_state-Fine heap callback k.authenticated username send ts k.state k refl (h, refl)
