-- ===== src/Channel/Read/Fifo.antt =====
-- The payload that waits for a stream, as one sequence, and what the copying loop takes from it.
use mshell.Prelude.{
  ℕ, ◌+◌, ◌-◌, ◌^◌, ◌≤◌, ◌<◌, ◌≡◌, refl, sym, ap, ◌∙◌, true, false, List, [], ◌∷◌, ◌++◌, inl, inr,
  append_assoc, min, leb, ◌==◌, if◌then◌else◌, arith, Bytes, length, take, drop, All, Bool-cases,
  leb→le, append-nil, ==_iff, length-append, length-drop, length-take, take-append-drop,
  take-length, subst, drop-drop,
}
use mshell.Channel.{Channel, Packet}
use mshell.Channel.Read.{is_for, remaining, advanced, bytes_want, collect_step, collect}

-- The unread payload begins inside the message.
pub record IsUnread (p : Packet) : Type 0 where
  pub inside : p.head ≤ length p.bytes
  pub small : length p.bytes < 2 ^ 64

-- The unread bytes of the stream.
unfoldable pub stream : Channel → ℕ → List Packet → Bytes
stream c stream_id [] = []
stream c stream_id (p ∷ ps) =
    let rest = stream c stream_id ps in
    if is_for c stream_id p then drop p.head p.bytes ++ rest else rest

-- The packets of other streams and channels.
unfoldable pub others : Channel → ℕ → List Packet → List Packet
others c stream_id [] = []
others c stream_id (p ∷ ps) =
    let rest = others c stream_id ps in if is_for c stream_id p then rest else p ∷ rest

pub remaining_lem : (p : Packet) → IsUnread p → remaining p ≡ length p.bytes - p.head
remaining_lem p h = ground arith

unread-length : (p : Packet) → IsUnread p → length (drop p.head p.bytes) ≡ remaining p
unread-length p h = length-drop p.head p.bytes ∙ sym (remaining_lem p h)

take-whole :
    (p : Packet) → IsUnread p → take (remaining p) (drop p.head p.bytes) ≡ drop p.head p.bytes
take-whole p h =
    subst (λ n. take n (drop p.head p.bytes) ≡ drop p.head p.bytes) (unread-length p h)
      (take-length (drop p.head p.bytes))

-- A packet that is partly read still belongs to its stream.
is_for-advanced :
    (c : Channel) (sid : ℕ) (p : Packet) (n : ℕ) → is_for c sid (advanced p n) ≡ is_for c sid p
unfolding is_for
is_for-advanced c sid p n = refl

collect_done : (c : Channel) (sid : ℕ) (ps : List Packet) → collect c sid 0 ps ≡ ([], ps)
unfolding collect
collect_done c sid [] = refl
collect_done c sid (p ∷ ps) = refl

module _ (c : Channel) (sid : ℕ) where
  stream-yes :
      (p : Packet) (ps : List Packet)
      → is_for c sid p ≡ true
      → stream c sid (p ∷ ps) ≡ drop p.head p.bytes ++ stream c sid ps
  unfolding stream
  stream-yes p ps e = rw e refl

  stream-no :
      (p : Packet) (ps : List Packet)
      → is_for c sid p ≡ false
      → stream c sid (p ∷ ps) ≡ stream c sid ps
  unfolding stream
  stream-no p ps e = rw e refl

  others-yes :
      (p : Packet) (ps : List Packet)
      → is_for c sid p ≡ true
      → others c sid (p ∷ ps) ≡ others c sid ps
  unfolding others
  others-yes p ps e = rw e refl

  others-no :
      (p : Packet) (ps : List Packet)
      → is_for c sid p ≡ false
      → others c sid (p ∷ ps) ≡ p ∷ others c sid ps
  unfolding others
  others-no p ps e = rw e refl

  -- What holds of the bytes `got` and the packets `rest` that the loop leaves.
  abbrev pub IsFifo : ℕ → List Packet → Bytes × List Packet → Type 0
  IsFifo left ps (got, rest) =
      (stream c sid ps ≡ got ++ stream c sid rest)
      × (length got ≡ min left (length (stream c sid ps)))
      × (others c sid rest ≡ others c sid ps)

  skip-IsFifo :
      (left : ℕ) (p : Packet) (ps : List Packet) (r : Bytes × List Packet)
      → is_for c sid p ≡ false
      → IsFifo left ps r
      → IsFifo left (p ∷ ps) (r.0, p ∷ r.1)
  skip-IsFifo left p ps (got, rest) e h =
      rw (stream-no p ps e, stream-no p rest e, others-no p ps e, others-no p rest e)
        (h.0, h.1, ap (λ qs. p ∷ qs) (h.2))

  whole-IsFifo :
      (left : ℕ) (p : Packet) (ps : List Packet) (r : Bytes × List Packet)
      → IsUnread p
      → is_for c sid p ≡ true
      → remaining p ≤ left
      → IsFifo (left - remaining p) ps r
      → IsFifo left (p ∷ ps) (drop p.head p.bytes ++ r.0, r.1)
  whole-IsFifo left p ps (got, rest) u e f h =
      rw (stream-yes p ps e, others-yes p ps e)
        (
          ap (λ s. drop p.head p.bytes ++ s) (h.0)
              ∙ sym (append_assoc (drop p.head p.bytes) got (stream c sid rest)),
          omega (
            arith,
            length-append (drop p.head p.bytes) got,
            h.1,
            unread-length p u,
            length-append (drop p.head p.bytes) (stream c sid ps),
          ),
          h.2,
        )

  part-IsFifo :
      (left : ℕ) (p : Packet) (ps : List Packet)
      → IsUnread p
      → is_for c sid p ≡ true
      → left < remaining p
      → IsFifo left (p ∷ ps) (take left (drop p.head p.bytes), advanced p left ∷ ps)
  part-IsFifo left p ps u e f =
      let e' = is_for-advanced c sid p left ∙ e in
      rw
        (
          stream-yes p ps e,
          others-yes p ps e,
          stream-yes (advanced p left) ps e',
          others-yes (advanced p left) ps e',
        )
        (
          ap (λ d. d ++ stream c sid ps)
                (sym (take-append-drop left (drop p.head p.bytes))
                  ∙ ap (λ d. take left (drop p.head p.bytes) ++ d) (drop-drop left p.head p.bytes))
              ∙ append_assoc (take left (drop p.head p.bytes)) (drop (p.head + left) p.bytes)
                  (stream c sid ps),
          omega (
            arith,
            length-take left (drop p.head p.bytes),
            unread-length p u,
            length-append (drop p.head p.bytes) (stream c sid ps),
          ),
          refl,
        )

  whole_step :
      (left : ℕ) (p : Packet) (ps : List Packet)
      → IsUnread p
      → is_for c sid p ≡ true
      → leb (remaining p) left ≡ true
      → let r = collect c sid (left - remaining p) ps in
        collect_step c sid left p (collect c sid (left - bytes_want c sid left p) ps)
        ≡ (drop p.head p.bytes ++ r.0, r.1)
  whole_step left p ps u e f =
      let r = collect c sid (left - remaining p) ps in
      rw e (rw f (ap (λ d. (d ++ r.0, r.1)) (take-whole p u)))

  part_step :
      (left : ℕ) (p : Packet) (ps : List Packet)
      → is_for c sid p ≡ true
      → leb (remaining p) left ≡ false
      → collect_step c sid left p (collect c sid (left - bytes_want c sid left p) ps)
        ≡ (take left (drop p.head p.bytes), advanced p left ∷ ps)
  part_step left p ps e f =
      let none_left : left - left ≡ 0 = omega arith in
      rw e (
        rw f (
          rw none_left
            (rw (collect_done c sid ps) (ap (λ d. (d, advanced p left ∷ ps)) (append-nil _)))))

  skip_step :
      (left : ℕ) (p : Packet) (ps : List Packet)
      → is_for c sid p ≡ false
      → let r = collect c sid left ps in
        collect_step c sid left p (collect c sid (left - bytes_want c sid left p) ps)
        ≡ (r.0, p ∷ r.1)
  skip_step left p ps e = let all_left : left - 0 ≡ left = omega arith in rw e (rw all_left refl)

  nil-IsFifo : (left : ℕ) → IsFifo left [] ([], [])
  unfolding stream
  nil-IsFifo left = (refl, omega arith, refl)

  none-IsFifo : (ps : List Packet) → IsFifo 0 ps ([], ps)
  none-IsFifo ps = (refl, omega arith, refl)

  pub collect-IsFifo :
      (left : ℕ) (ps : List Packet) → All IsUnread ps → IsFifo left ps (collect c sid left ps)
  unfolding collect
  collect-IsFifo left [] u = nil-IsFifo left
  collect-IsFifo left (p ∷ ps) u = elim (Bool-cases (left == 0)) [
    | inl z ↦ rw z (
        subst (λ n. IsFifo n (p ∷ ps) ([], p ∷ ps)) (sym ((==_iff left 0).0 z))
          (none-IsFifo (p ∷ ps)))
    | inr n ↦ rw n (elim (Bool-cases (is_for c sid p)) [
      | inr e ↦
          subst (IsFifo left (p ∷ ps)) (sym (skip_step left p ps e))
            (skip-IsFifo left p ps (collect c sid left ps) e (collect-IsFifo left ps (u.1)))
      | inl e ↦ elim (Bool-cases (leb (remaining p) left)) [
        | inl f ↦ subst (IsFifo left (p ∷ ps)) (sym (whole_step left p ps (u.0) e f)) (
            whole-IsFifo left p ps (collect c sid (left - remaining p) ps) (u.0) e (leb→le _ _ f)
              (collect-IsFifo (left - remaining p) ps (u.1)))
        | inr f ↦
            subst (IsFifo left (p ∷ ps)) (sym (part_step left p ps e f))
              (part-IsFifo left p ps (u.0) e (ground arith))
      ]
    ])
  ]
