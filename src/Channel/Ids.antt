-- ===== src/Channel/Ids.antt =====
-- channel.c, `_libssh2_channel_nextid` and `_libssh2_channel_locate`: the numbers of channels.
use mshell.Prelude.{
  ℕ, ◌+◌, ◌-◌, ◌%◌, ◌^◌, ◌≤◌, ◌<◌, ◌≡◌, ◌≢◌, refl, true, false, Option, none, some, List, [], ◌∷◌,
  ◌++◌, ltb, ◌==◌, if◌then◌else◌, All, Bool-cases, arith, eq→==, ne→==, lt→ltb, ltb→lt, ap, ◌⊎◌,
  inl, inr, subst, sym, ◌∙◌,
}
use mshell.Channel.{Channel}

-- The part of the session that numbers channels: `next_channel`, `channels`, and the queue of each
-- of `listeners`.
pub record Numbering : Type 0 where
  pub next_channel : ℕ
  pub channels : List Channel
  pub listeners : List (List Channel)

-- The loop of `_libssh2_channel_nextid`.
unfoldable pub largest_id : ℕ → List Channel → ℕ
largest_id id [] = id
largest_id id (c ∷ cs) = largest_id (if ltb id c.local_id then c.local_id else id) cs

unfoldable pub nextid : Numbering → Numbering × ℕ
nextid s =
    let id = largest_id s.next_channel s.channels in
    (record s { next_channel = (id + 1) % 2 ^ 32 }, id)

unfoldable pub find_channel : ℕ → List Channel → Option Channel
find_channel id [] = none
find_channel id (c ∷ cs) =
    let rest = find_channel id cs in if c.local_id == id then some c else rest

abbrev pub or_else : Option Channel → Option Channel → Option Channel
or_else (some c) later = some c
or_else none later = later

unfoldable pub find_queued : ℕ → List (List Channel) → Option Channel
find_queued id [] = none
find_queued id (q ∷ qs) = let rest = find_queued id qs in or_else (find_channel id q) rest

unfoldable pub locate : Numbering → ℕ → Option Channel
locate s id = or_else (find_channel id s.channels) (find_queued id s.listeners)

-- The numbers in use lie below the next one.
abbrev pub IsBelow : ℕ → Channel → Type 0
IsBelow n c = c.local_id < n

-- `largest_id` is the start or the number of a channel of the list, and none is larger.
not_ltb : (a b : ℕ) → a < b → ltb b a ≡ false
not_ltb a b h = ground arith

largest_id-below : (id : ℕ) (cs : List Channel) → All (IsBelow id) cs → largest_id id cs ≡ id
unfolding largest_id
largest_id-below id [] h = refl
largest_id-below id (c ∷ cs) h = rw (not_ltb c.local_id id (h.0)) (largest_id-below id cs (h.1))

All-weaken : (m n : ℕ) (cs : List Channel) → m ≤ n → All (IsBelow m) cs → All (IsBelow n) cs
All-weaken m n [] e h = tt
All-weaken m n (c ∷ cs) e h = (omega (arith, h.0), All-weaken m n cs e (h.1))

All-snoc :
    (n : ℕ) (cs : List Channel) (c : Channel)
    → All (IsBelow n) cs
    → IsBelow n c
    → All (IsBelow n) (cs ++ (c ∷ []))
All-snoc n [] c h e = (e, tt)
All-snoc n (d ∷ cs) c h e = (h.0, All-snoc n cs c (h.1) e)

find_channel-snoc :
    (id : ℕ) (cs : List Channel) (c : Channel)
    → All (IsBelow id) cs
    → c.local_id ≡ id
    → find_channel id (cs ++ (c ∷ [])) ≡ some c
unfolding find_channel
find_channel-snoc id [] c h e = rw (eq→== c.local_id id e) refl
find_channel-snoc id (d ∷ cs) c h e =
    rw (ne→== d.local_id id (omega (arith, h.0))) (find_channel-snoc id cs c (h.1) e)

find_channel-below : (id : ℕ) (cs : List Channel) → All (IsBelow id) cs → find_channel id cs ≡ none
unfolding find_channel
find_channel-below id [] h = refl
find_channel-below id (d ∷ cs) h =
    rw (ne→== d.local_id id (omega (arith, h.0))) (find_channel-below id cs (h.1))

locate-found :
    (s : Numbering) (id : ℕ) (c : Channel)
    → find_channel id s.channels ≡ some c
    → locate s id ≡ some c
unfolding locate
locate-found s id c e = rw e refl

-- The session with a channel that has been opened under a number.
abbrev pub opened : Numbering → Channel → Numbering
opened s c = record s { channels = s.channels ++ (c ∷ []) }

-- While the numbers of the list lie below the next one, and that is not the last, a new channel gets
-- a number that the list does not have, is found under it, and the numbers stay below the next one.
nextid-locate :
    (s : Numbering) (c : Channel)
    → All (IsBelow s.next_channel) s.channels
    → s.next_channel < 2 ^ 32 - 1
    → let (s', id) = nextid s in
      c.local_id ≡ id
      → (locate (opened s' c) id ≡ some c)
        × (All (IsBelow s'.next_channel) (opened s' c).channels)
        × (find_channel id s.channels ≡ none)
unfolding nextid locate
nextid-locate s c h w e =
    let n = s.next_channel in
    let same = largest_id-below n s.channels h in
    let next : (s.next_channel + 1) % 2 ^ 32 ≡ s.next_channel + 1 = omega (arith, w) in
    let below = subst (λ k. All (IsBelow k) s.channels) (sym same) h in
    (
      locate-found (opened ((nextid s).0) c) _ c (find_channel-snoc _ s.channels c below e),
      rw (same, next)
          (All-snoc (n + 1) s.channels c (All-weaken n (n + 1) s.channels (omega arith) h)
            (omega (arith, e ∙ same))),
      find_channel-below _ s.channels below,
    )

used-later :
    (id : ℕ) (c : Channel) (cs : List Channel)
    → find_channel id cs ≢ none
    → find_channel id (c ∷ cs) ≢ none
unfolding find_channel
used-later id c cs u = elim (Bool-cases (c.local_id == id)) [
  | inl e ↦ rw e (λ p. cc)
  | inr e ↦ rw e u
]

used-first :
    (c : Channel) (cs : List Channel)
    → let id = largest_id c.local_id cs in
      (id ≡ c.local_id) ⊎ (find_channel id cs ≢ none) → find_channel id (c ∷ cs) ≢ none
unfolding find_channel
used-first c cs (inl e) = rw (eq→== c.local_id _ (sym e)) (λ p. cc)
used-first c cs (inr u) = used-later (largest_id c.local_id cs) c cs u

larger_step :
    (id : ℕ) (c : Channel) (cs : List Channel)
    → ltb id c.local_id ≡ true
    → largest_id id (c ∷ cs) ≡ largest_id c.local_id cs
unfolding largest_id
larger_step id c cs e = rw e refl

smaller_step :
    (id : ℕ) (c : Channel) (cs : List Channel)
    → ltb id c.local_id ≡ false
    → largest_id id (c ∷ cs) ≡ largest_id id cs
unfolding largest_id
smaller_step id c cs e = rw e refl

-- `largest_id` from a start that some number exceeds is a number in use.
largest_id-used :
    (id : ℕ) (cs : List Channel)
    → (largest_id id cs ≡ id) ⊎ (find_channel (largest_id id cs) cs ≢ none)
unfolding largest_id
largest_id-used id [] = inl refl
largest_id-used id (c ∷ cs) =
    let IsUsed : ℕ → Type 0 = λ k. (k ≡ id) ⊎ (find_channel k (c ∷ cs) ≢ none) in
    elim (Bool-cases (ltb id c.local_id)) [
      | inl e ↦
          subst IsUsed (sym (larger_step id c cs e))
            (inr (used-first c cs (largest_id-used c.local_id cs)))
      | inr e ↦ subst IsUsed (sym (smaller_step id c cs e)) (elim (largest_id-used id cs) [
        | inl p ↦ inl p
        | inr u ↦ inr (used-later (largest_id id cs) c cs u)
      ])
    ]

largest_id-ge : (id : ℕ) (cs : List Channel) → id ≤ largest_id id cs
unfolding largest_id
largest_id-ge id [] = omega arith
largest_id-ge id (c ∷ cs) = elim (Bool-cases (ltb id c.local_id)) [
  | inl e ↦ rw e (omega (arith, ltb→lt _ _ e, largest_id-ge c.local_id cs))
  | inr e ↦ rw e (largest_id-ge id cs)
]

largest_id-exceeds :
    (id : ℕ) (before : List Channel) (c : Channel) (after : List Channel)
    → id < c.local_id
    → id < largest_id id (before ++ (c ∷ after))
largest_id-exceeds id [] c after h =
    omega (arith, larger_step id c after (lt→ltb _ _ h), largest_id-ge c.local_id after)
largest_id-exceeds id (d ∷ before) c after h = elim (Bool-cases (ltb id d.local_id)) [
  | inl e ↦
      let rest = before ++ (c ∷ after) in
      omega (arith, larger_step id d rest e, ltb→lt _ _ e, largest_id-ge d.local_id rest)
  | inr e ↦
      let rest = before ++ (c ∷ after) in
      omega (arith, smaller_step id d rest e, largest_id-exceeds id before c after h)
]

-- Where the number of some channel exceeds the next one, as it can after 2 ^ 32 channels, the number
-- that is given out is in use.
pub nextid_collides :
    (s : Numbering) (before after : List Channel) (c : Channel)
    → s.channels ≡ before ++ (c ∷ after)
    → s.next_channel < c.local_id
    → find_channel ((nextid s).1) s.channels ≢ none
unfolding nextid
nextid_collides s before after c e h =
    let larger = largest_id-exceeds s.next_channel before c after h in
    elim (largest_id-used s.next_channel s.channels) [
      | inl same ↦ λ _. absurd (omega (arith, larger, ap (largest_id s.next_channel) e, same))
      | inr used ↦ used
    ]
