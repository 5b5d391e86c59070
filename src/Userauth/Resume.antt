-- ===== src/Userauth/Resume.antt =====
-- A call that would block, made again.
use mshell.Prelude.{
  ℕ, ◌≡◌, ◌≢◌, refl, ap, ◌∙◌, Bool, true, false, Option, none, some, List, [], ◌∷◌, ◌++◌, ◌==◌, All,
  if-both, if-all, Bytes, length,
}
use mshell.Userauth.{Nb, idle, created, sent, sent1, message, Kbd, Heap, decode_info_request}
use mshell.Userauth.Interactive.{
  Send, send_done, send_blocks, send_fails, Wait, packet, wait_blocks, wait_fails, Turn, success,
  no_memory, or_nil, would_block, refused, gave_up, Callback, Step, returns, to_send, to_cleanup,
  answered, respond, converse, wait_step, send_step, Out, cleaned, after_cleanup, finish_send,
  finish_wait, turn, converse_loop, opened, request, created_step, from_state, keyboard_interactive,
}
use mshell.Userauth.Steps.{Good}

-- A turn in which nothing blocks.
abbrev pub Goes : Turn → Type 0
Goes t = (t.wait ≢ wait_blocks) × (t.send ≢ send_blocks)

-- The turn in which the message cannot be sent yet, and the turn that goes on with it.
abbrev pub blocked : Turn → Turn
blocked t = record t { send = send_blocks }

abbrev pub again : Wait → Turn → Turn
again w t = record t { wait = w }

module _ (heap : Heap) (callback : Callback) where
  abbrev IsReady : Kbd → Type 0
  IsReady k = k.state ≡ sent1

  abbrev Any : Kbd → Type 0
  Any k = Unit

  abbrev Waits : Out heap callback → Type 0
  Waits (r, k) = r ≢ would_block

  abbrev Ready : Step → Type 0
  Ready = Good heap callback IsReady Any Waits

  respond-Ready : (k : Kbd) (len : Option ℕ) → Ready (respond heap callback k len)
  respond-Ready k none = tt
  respond-Ready k (some len) = if-all Ready (heap.alloc len) refl tt

  converse-Ready : (r : Kbd × Bool) → Ready (converse heap callback r)
  converse-Ready (k, false) = tt
  converse-Ready (k, true) = respond-Ready (answered heap callback k) _

  wait_step-Ready : (w : Wait) (k : Kbd) → w ≢ wait_blocks → Ready (wait_step heap callback w k)
  wait_step-Ready wait_blocks k e = absurd (e refl)
  wait_step-Ready wait_fails k e = λ f. cc
  wait_step-Ready (packet []) k e = λ f. cc
  wait_step-Ready (packet (type ∷ rest)) k e =
      let given : Kbd = record k { data_ = some (type ∷ rest) } in
      if-all Ready (type == 52)
        {x = returns success (record k { data_ = none; authenticated = true; state = idle })}
        (λ f. cc)
        (if-all Ready (type == 51) {x = returns refused (record k { data_ = none; state = idle })}
          {y = converse heap callback (decode_info_request heap given (type ∷ rest))} (λ f. cc)
          (converse-Ready (decode_info_request heap given (type ∷ rest))))

  -- The session that a call leaves is taken up by a call that gives the same.
  abbrev Resumed : (Wait → Kbd → Out heap callback) → Out heap callback → Out heap callback → Type 0
  Resumed go (r, k1) o = (w : Wait) → r ≡ would_block → (k1.state ≡ sent1) × (go w k1 ≡ o)

  -- The next part of a call, as it was and as it would have been.
  abbrev Continues :
      (Wait → Kbd → Out heap callback)
      → (Kbd → Out heap callback)
      → (Kbd → Out heap callback)
      → Type 0
  Continues go next next' = (k : Kbd) → Resumed go (next k) (next' k)

  module _ (go : Wait → Kbd → Out heap callback) (next next' : Kbd → Out heap callback)
      (h : Continues go next next') where
    cleanup-Resumed :
        (k : Kbd)
        → Resumed go (after_cleanup heap callback next k) (after_cleanup heap callback next' k)
    cleanup-Resumed k =
        if-both (Resumed go) k.auth_failure {x = (gave_up, record (cleaned k) { state = idle })}
          (λ w e. cc) (h _)

    send-Resumed :
        (s : Send) (k : Kbd)
        → s ≢ send_blocks
        → Resumed go
            (finish_send heap callback next (send_step heap callback s k))
            (finish_send heap callback next' (send_step heap callback s k))
    send-Resumed send_blocks k g = absurd (g refl)
    send-Resumed send_fails k g = cleanup-Resumed k
    send-Resumed send_done k g =
        cleanup-Resumed
          (record k { auth_failure = false; log = k.log ++ (message (or_nil k.data_) ∷ []) })

    wait-Resumed :
        (s : Send) (step : Step)
        → s ≢ send_blocks
        → Ready step
        → Resumed go
            (finish_wait heap callback next s step)
            (finish_wait heap callback next' s step)
    wait-Resumed s (returns r k) g ready = λ w e. absurd (ready e)
    wait-Resumed s (to_send k) g ready = send-Resumed s k g
    wait-Resumed s (to_cleanup k) g ready = cleanup-Resumed k

    running-Resumed :
        (t : Turn) (n : Nb) (k : Kbd)
        → Goes t
        → Resumed go (turn heap callback next t n k) (turn heap callback next' t n k)
    running-Resumed t sent k g =
        wait-Resumed t.send (wait_step heap callback t.wait k) (g.1)
          (wait_step-Ready t.wait k (g.0))
    running-Resumed t sent1 k g = send-Resumed t.send k (g.1)
    running-Resumed t idle k g = cleanup-Resumed k
    running-Resumed t created k g = cleanup-Resumed k

  cleanup_never_blocks :
      (k : Kbd) → (after_cleanup heap callback (converse_loop heap callback []) k).0 ≢ would_block
  unfolding converse_loop
  cleanup_never_blocks k =
      if-all (λ (o : Out heap callback). o.0 ≢ would_block) k.auth_failure (λ e. cc) (λ e. cc)

  module _ (t : Turn) (ts : List Turn) (arrives : t.wait ≢ wait_blocks) where
    abbrev go : Wait → Kbd → Out heap callback
    go w k = converse_loop heap callback (again w t ∷ ts) k

    go-ready :
        (w : Wait) (k : Kbd)
        → k.state ≡ sent1
        → go w k
          ≡ finish_send heap callback
              (converse_loop heap callback ts)
              (send_step heap callback t.send k)
    unfolding converse_loop
    go-ready w k e = ap (λ n. turn heap callback (converse_loop heap callback ts) (again w t) n k) e

    waited :
        (s : Step)
        → Ready s
        → Resumed go
            (finish_wait heap callback (converse_loop heap callback []) send_blocks s)
            (finish_wait heap callback (converse_loop heap callback ts) t.send s)
    waited (returns r k) g w e = absurd (g e)
    waited (to_send k) g w e = (g, go-ready w k g)
    waited (to_cleanup k) g w e = absurd (cleanup_never_blocks k e)

    turn-Resumed :
        (n : Nb) (k : Kbd)
        → k.state ≡ n
        → Resumed go
            (turn heap callback (converse_loop heap callback []) (blocked t) n k)
            (turn heap callback (converse_loop heap callback ts) t n k)
    turn-Resumed sent k s =
        waited (wait_step heap callback t.wait k) (wait_step-Ready t.wait k arrives)
    turn-Resumed sent1 k s = λ w e. (s, go-ready w k s)
    turn-Resumed idle k s = λ w e. absurd (cleanup_never_blocks k e)
    turn-Resumed created k s = λ w e. absurd (cleanup_never_blocks k e)

    loop-Resumed :
        (earlier : List Turn)
        → All Goes earlier
        → Continues go
            (converse_loop heap callback (earlier ++ (blocked t ∷ [])))
            (converse_loop heap callback (earlier ++ (t ∷ ts)))
    unfolding converse_loop
    loop-Resumed [] g k = turn-Resumed k.state k refl
    loop-Resumed (e ∷ earlier) g k =
        running-Resumed go _ _ (loop-Resumed earlier (g.1)) e k.state k (g.0)

    module _ (earlier : List Turn) (g : All Goes earlier) where
      created-Resumed :
          (s : Send)
          → s ≢ send_blocks
          → Continues go
              (created_step heap callback s (earlier ++ (blocked t ∷ [])))
              (created_step heap callback s (earlier ++ (t ∷ ts)))
      created-Resumed send_blocks b k = absurd (b refl)
      created-Resumed send_fails b k = λ w e. cc
      created-Resumed send_done b k = loop-Resumed earlier g _

      from_state-Resumed :
          (username : Bytes) (s : Send) (n : Nb)
          → s ≢ send_blocks
          → Continues go
              (from_state heap callback username s (earlier ++ (blocked t ∷ [])) n)
              (from_state heap callback username s (earlier ++ (t ∷ ts)) n)
      from_state-Resumed username s sent b k = loop-Resumed earlier g k
      from_state-Resumed username s sent1 b k = loop-Resumed earlier g k
      from_state-Resumed username s created b k = created-Resumed s b k
      from_state-Resumed username s idle b k =
          let packet_ = request username in
          if-both (Resumed go) (heap.alloc (length packet_))
            {y = (no_memory, record (opened heap callback k) { data_ = none })}
            (created-Resumed s b
              (record (opened heap callback k) { data_ = some packet_; state = created }))
            (λ w e. cc)

-- A call whose first message, where it has one to send, is not held up, that meets any number of
-- turns in which nothing blocks, and then one in which a packet or an error arrives but a message to
-- the server would block: if it returns LIBSSH2_ERROR_EAGAIN, the session waits to send that message,
-- and the next call, whatever else it might receive, does what this one would have done if the
-- message had been sent: the user is not asked again.
pub keyboard_interactive-resumes :
    (heap : Heap) (callback : Callback) (username : Bytes) (send later_send : Send)
    (earlier : List Turn) (t : Turn) (ts : List Turn) (k : Kbd) (w : Wait)
    → send ≢ send_blocks
    → All Goes earlier
    → t.wait ≢ wait_blocks
    → let (r, k1) =
        keyboard_interactive heap callback username send (earlier ++ (blocked t ∷ [])) k in
      r ≡ would_block
      → (k1.state ≡ sent1)
        × (keyboard_interactive heap callback username later_send (again w t ∷ ts) k1
            ≡ keyboard_interactive heap callback username send (earlier ++ (t ∷ ts)) k)
unfolding keyboard_interactive
keyboard_interactive-resumes heap callback username send later_send earlier t ts k w b g arrives e =
    let k1 = (from_state heap callback username send (earlier ++ (blocked t ∷ [])) k.state k).1 in
    let (f, same) =
      from_state-Resumed heap callback t ts arrives earlier g username send k.state b k w e in
    (f, ap (λ n. from_state heap callback username later_send (again w t ∷ ts) n k1) f ∙ same)
