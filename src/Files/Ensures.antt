-- ===== src/Files/Ensures.antt =====
-- What a run ensures of its effects and of its result.
use mshell.Prelude.{Bool, true, false, Option, none, some, [], ◌∷◌, All}
use mshell.Text.Trim.{All-append}
use mshell.Files.{Result, ok, err, CoreError}
use mshell.Files.World.{Effect, State, Run, and_then, pure, fail, note, call, act, ◌>>=◌}

-- What holds of a result that is `Ok`.
abbrev pub Post : {A : Type 0} → (A → Type 0) → Result A → Type 0
Post Q (ok a) = Q a
Post Q (err e) = Unit

-- What is done has a property, and so has the result.
abbrev pub Ensures : {S A : Type 0} → (Effect → Type 0) → (A → Type 0) → Run S A → Type 0
Ensures {S} P Q m = (s : State S) → All P s.trace → All P (m s).1.trace × Post Q (m s).0

abbrev pub Keeps : {S A : Type 0} → (Effect → Type 0) → Run S A → Type 0
Keeps {S} P m = (s : State S) → All P s.trace → All P (m s).1.trace

module _ {S : Type 0} (P : Effect → Type 0) where
  pub Ensures-bind :
      {A B : Type 0} (Q : A → Type 0) (R : B → Type 0) (m : Run S A) (f : A → Run S B)
      → Ensures P Q m
      → ((a : A) → Q a → Ensures P R (f a))
      → Ensures P R (m >>= f)
  Ensures-bind {A} {B} Q R m f hm hf s t = after (m s) (hm s t)
    where
      after :
          (r : Result A × State S)
          → All P r.1.trace × Post Q r.0
          → All P (and_then r f).1.trace × Post R (and_then r f).0
      after (ok a, s') (t', q) = hf a q s' t'
      after (err e, s') (t', q) = (t', tt)

  pub Ensures-pure : {A : Type 0} (Q : A → Type 0) (a : A) → Q a → Ensures {S = S} P Q (pure a)
  Ensures-pure Q a q s t = (t, q)

  pub Ensures-fail : {A : Type 0} (Q : A → Type 0) (e : CoreError) → Ensures {S = S} P Q (fail e)
  Ensures-fail Q e s t = (t, tt)

  pub Ensures-call : {A : Type 0} (f : S → Option A × S) → Ensures P (λ (a : A). Unit) (call f)
  Ensures-call {A} f s t = after (f s.world)
    where
      after :
          (r : Option A × S)
          → All P (call (λ w. r) s).1.trace × Post (λ (a : A). Unit) (call (λ w. r) s).0
      after (none, w) = (t, tt)
      after (some a, w) = (t, tt)

  pub Ensures-then :
      {A B : Type 0} (Q : A → Type 0) (m : Run S A) (f : A → Run S B)
      → Ensures P Q m
      → ((a : A) → Q a → Keeps P (f a))
      → Keeps P (m >>= f)
  Ensures-then {A} {B} Q m f hm hf s t = after (m s) (hm s t)
    where
      after : (r : Result A × State S) → All P r.1.trace × Post Q r.0 → All P (and_then r f).1.trace
      after (ok a, s') (t', q) = hf a q s' t'
      after (err e, s') (t', q) = t'

  pub Keeps-bind :
      {A B : Type 0} (m : Run S A) (f : A → Run S B)
      → Keeps P m
      → ((a : A) → Keeps P (f a))
      → Keeps P (m >>= f)
  Keeps-bind {A} {B} m f hm hf s t = after (m s) (hm s t)
    where
      after : (r : Result A × State S) → All P r.1.trace → All P (and_then r f).1.trace
      after (ok a, s') t' = hf a s' t'
      after (err e, s') t' = t'

  pub Keeps-note : (e : Effect) → P e → Keeps {S = S} P (note e)
  Keeps-note e p s t = All-append P s.trace (e ∷ []) t (p, tt)

  pub Keeps-call : {A : Type 0} (f : S → Option A × S) → Keeps P (call f)
  Keeps-call {A} f s t = after (f s.world)
    where
      after : (r : Option A × S) → All P (call (λ w. r) s).1.trace
      after (none, w) = t
      after (some a, w) = t

  pub Keeps-act : (e : Effect) (f : S → Bool × S) → P e → Keeps P (act e f)
  Keeps-act e f p s t = after (f s.world)
    where
      after : (r : Bool × S) → All P (act e (λ w. r) s).1.trace
      after (true, w) = All-append P s.trace (e ∷ []) t (p, tt)
      after (false, w) = t
