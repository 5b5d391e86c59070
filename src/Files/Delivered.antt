-- ===== src/Files/Delivered.antt =====
-- What a copied file holds.
use mshell.Prelude.{
  ℕ, ◌+◌, ◌^◌, ◌%◌, ◌≡◌, refl, sym, ap, subst, ◌∙◌, Bool, true, false, Option, none, some, List, [],
  ◌∷◌, ◌++◌, if◌then◌else◌, Bytes, length, length-append, take, drop, take-append-drop,
  append_assoc, append-nil, arith, if-all,
}
use mshell.Text.{Text}
use mshell.Files.{Result, ok, err, io}
use mshell.Files.World.{
  Turn, cancel_set, reads, read_fails, Source, Effect, dir_made, parent_made, file_created,
  file_given, progress, State, Run, and_then, pure, fail,
}
use mshell.Files.Copy.{
  Count, is_due, report, counted, copy_turns, TransferOutcome, done, cancelled, outcome, copy_loop,
}

-- What the file holds that is read: the bytes of the reads up to an empty one or a failure.
unfoldable pub content : List Turn → Bytes
content [] = []
content (cancel_set ∷ ts) = content ts
content (read_fails ∷ ts) = []
content (reads [] w ∷ ts) = []
content (reads (b ∷ bs) w ∷ ts) = (b ∷ bs) ++ content ts

-- All bytes that have been given to any file, in their order.
unfoldable pub given : List Effect → Bytes
given [] = []
given (file_given path data_ ∷ es) = data_ ++ given es
given (_ ∷ es) = given es

given-append : (es fs : List Effect) → given (es ++ fs) ≡ given es ++ given fs
unfolding given
given-append [] fs = refl
given-append (dir_made p ∷ es) fs = given-append es fs
given-append (parent_made p ∷ es) fs = given-append es fs
given-append (file_created p ∷ es) fs = given-append es fs
given-append (file_given p d ∷ es) fs =
    ap (λ t. d ++ t) (given-append es fs) ∙ sym (append_assoc d (given es) (given fs))
given-append (progress b t ∷ es) fs = given-append es fs

-- What the loop's result says of what was given, where `before` was given before it and `whole` is
-- still to come.
abbrev Copied : {S : Type 0} → Bytes → ℕ → Bytes → Result (Bool × Count) × State S → Type 0
Copied before n whole (ok (true, c), s) =
    (given s.trace ≡ before ++ whole) × (c.bytes ≡ (n + length whole) % 2 ^ 64)
Copied before n whole (ok (false, c), s) =
    (sent : Bytes) × (rest : Bytes) × (given s.trace ≡ before ++ sent)
    × (sent ++ rest ≡ whole)
    × (c.bytes ≡ (n + length sent) % 2 ^ 64)
Copied before n whole (err e, s) =
    (sent : Bytes) × (rest : Bytes) × (given s.trace ≡ before ++ sent) × (sent ++ rest ≡ whole)

Copied-later :
    {S : Type 0} (before : Bytes) (n : ℕ) (d whole : Bytes) (r : Result (Bool × Count) × State S)
    → Copied (before ++ d) (n + length d) whole r
    → Copied before n (d ++ whole) r
Copied-later before n d whole (ok (true, c), s) (e, k) =
    (e ∙ append_assoc before d whole, omega (arith, k, length-append d whole))
Copied-later before n d whole (ok (false, c), s) (sent, rest, e, f, k) = (
  d ++ sent,
  rest,
  e ∙ append_assoc before d sent,
  append_assoc d sent rest ∙ ap (λ t. d ++ t) f,
  omega (arith, k, length-append d sent),
)
Copied-later before n d whole (err x, s) (sent, rest, e, f) =
    (d ++ sent, rest, e ∙ append_assoc before d sent, append_assoc d sent rest ∙ ap (λ t. d ++ t) f)

-- A report gives nothing.
abbrev Reported : {S : Type 0} → Bytes → ℕ → Result Count × State S → Type 0
Reported before n (ok c, s) = (given s.trace ≡ before) × (c.bytes ≡ n)
Reported before n (err e, s) = ⊥

report-Reported :
    {S : Type 0} (total : Option ℕ) (c : Count) (s : State S)
    → Reported (given s.trace) c.bytes (report total c s)
unfolding given
report-Reported {S = S} total c s =
    if-all (λ (m : Run S Count). Reported (given s.trace) c.bytes (m s)) (is_due c)
      (given-append s.trace (progress c.bytes total ∷ []) ∙ append-nil (given s.trace), refl)
      (refl, refl)

module _ {S : Type 0} (dest : Text) (total : Option ℕ) (flushes : Bool) where
  abbrev gave : Bytes → State S → State S
  gave d s = record s { trace = s.trace ++ (file_given dest d ∷ []) }

  given-gave : (d : Bytes) (s : State S) → given (gave d s).trace ≡ given s.trace ++ d
  unfolding given
  given-gave d s =
      given-append s.trace (file_given dest d ∷ []) ∙ ap (λ t. given s.trace ++ t) (append-nil d)

  ended-Copied :
      (n : ℕ) (c : Count) (s : State S)
      → c.bytes ≡ n % 2 ^ 64
      → Copied (given s.trace) n [] ((if flushes then pure (true, c) else fail io) s)
  ended-Copied n c s k =
      if-all (λ (m : Run S (Bool × Count)). Copied (given s.trace) n [] (m s)) flushes
        {x = pure (true, c)} {y = fail io} (sym (append-nil (given s.trace)), omega (arith, k))
        ([], [], sym (append-nil (given s.trace)), refl)

  -- What follows a report, from what follows in the loop.
  continue-Copied :
      (ts : List Turn) (n : ℕ) (d whole before : Bytes)
      → ((c : Count) (s : State S)
          → c.bytes ≡ (n + length d) % 2 ^ 64
          → Copied (given s.trace) (n + length d) whole (copy_turns dest total flushes ts c s))
      → (r : Result Count × State S) (m : ℕ) → m ≡ (n + length d) % 2 ^ 64
      → Reported (before ++ d) m r
      → Copied before n (d ++ whole) (and_then r (copy_turns dest total flushes ts))
  continue-Copied ts n d whole before ih (ok c, s) m k (e, f) =
      Copied-later before n d whole (copy_turns dest total flushes ts c s) (
        subst (λ t. Copied t (n + length d) whole (copy_turns dest total flushes ts c s)) e
          (ih c s (f ∙ k)))
  continue-Copied ts n d whole before ih (err x, s) m k h = elim h [ ]

  copy_turns-Copied :
      (ts : List Turn) (n : ℕ) (c : Count) (s : State S)
      → c.bytes ≡ n % 2 ^ 64
      → Copied (given s.trace) n (content ts) (copy_turns dest total flushes ts c s)
  unfolding copy_turns content
  copy_turns-Copied [] n c s k = ended-Copied n c s k
  copy_turns-Copied (cancel_set ∷ ts) n c s k =
      ([], content ts, sym (append-nil (given s.trace)), refl, omega (arith, k))
  copy_turns-Copied (read_fails ∷ ts) n c s k = ([], [], sym (append-nil (given s.trace)), refl)
  copy_turns-Copied (reads [] w ∷ ts) n c s k = ended-Copied n c s k
  copy_turns-Copied (reads (b ∷ bs) (some m) ∷ ts) n c s k = (
    take m (b ∷ bs),
    drop m (b ∷ bs) ++ content ts,
    given-gave (take m (b ∷ bs)) s,
    sym (append_assoc (take m (b ∷ bs)) (drop m (b ∷ bs)) (content ts))
        ∙ ap (λ t. t ++ content ts) (take-append-drop m (b ∷ bs)),
  )
  copy_turns-Copied (reads (b ∷ bs) none ∷ ts) n c s k =
      let d = b ∷ bs in
      let c' = counted (length d) c in
      let r = report total c' (gave d s) in
      continue-Copied ts n d (content ts) (given s.trace)
        (λ c2 s2 k2. copy_turns-Copied ts (n + length d) c2 s2 k2) r c'.bytes (omega (arith, k))
        (subst (λ t. Reported t c'.bytes r) (given-gave d s) (report-Reported total c' (gave d s)))

-- The whole of the file and its length are in what `Done` says; a part, the beginning, otherwise.
abbrev pub Transferred : {S : Type 0} → Bytes → Bytes → Result TransferOutcome × State S → Type 0
Transferred before whole (ok (done bytes total), s) =
    (given s.trace ≡ before ++ whole) × (bytes ≡ length whole % 2 ^ 64)
Transferred before whole (ok (cancelled bytes total), s) =
    (sent : Bytes) × (rest : Bytes) × (given s.trace ≡ before ++ sent)
    × (sent ++ rest ≡ whole)
    × (bytes ≡ length sent % 2 ^ 64)
Transferred before whole (err e, s) =
    (sent : Bytes) × (rest : Bytes) × (given s.trace ≡ before ++ sent) × (sent ++ rest ≡ whole)

outcome-Transferred :
    {S : Type 0} (total : Option ℕ) (before whole : Bytes) (r : Result (Bool × Count) × State S)
    → Copied before 0 whole r
    → Transferred before whole (and_then r (outcome total))
unfolding given
outcome-Transferred total before whole (ok (true, c), s) (e, k) = (
  given-append s.trace (progress c.bytes total ∷ []) ∙ append-nil (given s.trace) ∙ e,
  omega (arith, k),
)
outcome-Transferred total before whole (ok (false, c), s) (sent, rest, e, f, k) =
    (sent, rest, e, f, k ∙ ap (λ n. n % 2 ^ 64) (omega arith))
outcome-Transferred total before whole (err x, s) h = h

-- A transfer that is done has given the file that it writes all bytes of the one that it reads, in
-- order, and reports their number by 2^64; one that is cancelled or fails has given the beginning of
-- them, whose length a cancelled one reports.
pub copy_loop-Transferred :
    {S : Type 0} (dest : Text) (source : Source) (total : Option ℕ) (s : State S)
    → Transferred (given s.trace) (content source.turns) (copy_loop dest source total s)
unfolding copy_loop given
copy_loop-Transferred dest source total s =
    let s1 = record s { trace = s.trace ++ (progress 0 total ∷ []) } in
    let zero_count : Count = record { bytes = 0; last_report = 0 } in
    let same : given s1.trace ≡ given s.trace =
      given-append s.trace (progress 0 total ∷ []) ∙ append-nil (given s.trace) in
    outcome-Transferred total (given s.trace) (content source.turns) _ (
      subst
        (λ t.
          Copied t 0 (content source.turns)
            (copy_turns dest total source.flushes source.turns zero_count s1))
        same (copy_turns-Copied dest total source.flushes source.turns 0 zero_count s1 refl))
