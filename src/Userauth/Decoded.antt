-- ===== src/Userauth/Decoded.antt =====
-- What `userauth_keyboard_interactive_decode_info_request` leaves of a session.
use mshell.Prelude.{
  ℕ, zero, suc, ◌≤◌, ◌≡◌, refl, sym, Bool, true, false, Option, none, some, List, [], ◌==◌, ltb,
  if-all, if-cases, subst, not, ◌*◌, Bytes, length, arith,
}
use mshell.StringBuf.{StringBuf, get_byte, get_string, copy_string, get_u32, get_boolean}
use mshell.Userauth.{
  Prompt, blank, blanks, Kbd, Heap, Prompts, before, echo_step, text_step, read_prompts,
  allocate_step, count_step, language_step, instruction_step, name_step, decode_info_request,
}

-- What decoding leaves as it was, and the size of its arrays, where there were none before.
abbrev pub Sized {ℓ} : {A : Type ℓ} → ℕ → Option (List A) → Type 0
Sized n none = Unit
Sized n (some xs) = (length xs ≡ n) × (n ≤ 100)

abbrev pub Same : Kbd → Kbd → Type 0
Same k k' =
    (k'.state ≡ k.state)
    × (k'.data_ ≡ k.data_)
    × (k'.auth_failure ≡ k.auth_failure)
    × (k'.authenticated ≡ k.authenticated)

pub record IsDecoded (k k' : Kbd) : Type 0 where
  pub same : Same k k'
  pub prompts_sized : Sized k'.num_prompts k'.prompts
  pub responses_sized : Sized k'.num_prompts k'.responses

-- Before the arrays are there.
abbrev NoArrays : Kbd → Kbd → Type 0
NoArrays k k' = Same k k' × (k'.prompts ≡ none) × (k'.responses ≡ none)

length-blanks {ℓ} : {A : Type ℓ} (n : ℕ) (a : A) → length (blanks n a) ≡ n
unfolding blanks
length-blanks zero a = omega arith
length-blanks (suc n) a = omega (arith, length-blanks n a)

module _ (heap : Heap) where
  length-before :
      (n : ℕ) (p : Prompt) (r : Prompts heap) → length r.0 ≡ n → length (before heap p r).0 ≡ suc n
  length-before n p (ps, ok) e = omega (arith, e)

  echo_step-length :
      (n : ℕ) (go : StringBuf → Prompts heap) (text : Bytes) (r : Option ℕ × StringBuf)
      → ((b : StringBuf) → length (go b).0 ≡ n)
      → length (echo_step heap n go text r).0 ≡ suc n
  echo_step-length n go text (none, b) h = omega (arith, length-blanks n blank)
  echo_step-length n go text (some echo, b) h =
      length-before n (record { text = text; echo = echo }) (go b) (h b)

  text_step-length :
      (n : ℕ) (go : StringBuf → Prompts heap) (r : Option Bytes × StringBuf)
      → ((b : StringBuf) → length (go b).0 ≡ n)
      → length (text_step heap n go r).0 ≡ suc n
  text_step-length n go (none, b) h = length-blanks (suc n) blank
  text_step-length n go (some text, b) h = echo_step-length n go text (get_boolean b) h

  length-read_prompts : (n : ℕ) (b : StringBuf) → length (read_prompts heap n b).0 ≡ n
  unfolding read_prompts
  length-read_prompts zero b = omega arith
  length-read_prompts (suc n) b =
      text_step-length n (read_prompts heap n) (copy_string heap.alloc b)
        (λ b'. length-read_prompts n b')

  Sized-none : {A : Type 0} (n : ℕ) (o : Option (List A)) → o ≡ none → Sized n o
  Sized-none n o e = subst (Sized n) (sym e) tt

  NoArrays-IsDecoded : (k k' : Kbd) → NoArrays k k' → IsDecoded k k'
  NoArrays-IsDecoded k k' h = record {
    same = h.0;
    prompts_sized = Sized-none k'.num_prompts k'.prompts h.1;
    responses_sized = Sized-none k'.num_prompts k'.responses h.2;
  }

  module _ (k : Kbd) where
    abbrev Outcome : Type 0
    Outcome = Kbd × Bool

    abbrev Decoded : Outcome → Type 0
    Decoded r = IsDecoded k r.0

    kept : (k' : Kbd) (ok : Bool) → NoArrays k k' → Decoded (k', ok)
    kept k' ok h = NoArrays-IsDecoded k k' h

    with_arrays :
        (k' : Kbd) (o : Option (List Prompt)) (rs : Option (List Bytes)) (ok : Bool)
        → NoArrays k k'
        → Sized k'.num_prompts o
        → Sized k'.num_prompts rs
        → Decoded (record k' { prompts = o; responses = rs }, ok)
    with_arrays k' o rs ok h s r = record { same = h.0; prompts_sized = s; responses_sized = r }

    allocate_step-Decoded :
        (k' : Kbd) (b : StringBuf)
        → NoArrays k k'
        → k'.num_prompts ≤ 100
        → Decoded (allocate_step heap k' b)
    allocate_step-Decoded k' b h small =
        let n = k'.num_prompts in
        let blank_prompts : Sized n (some (blanks n blank)) = (length-blanks n blank, small) in
        let made : Option (List Prompt) → Kbd = λ o. record k' { prompts = o } in
        if-all Decoded (n == 0) (kept k' true h) (
          if-all Decoded (not (heap.alloc (heap.prompt_size * n))) (kept k' false h) (
            if-all Decoded (not (heap.alloc (heap.response_size * n)))
              (with_arrays k' (some (blanks n blank)) k'.responses false h blank_prompts
                (Sized-none n k'.responses h.2))
              (with_arrays k' (some (read_prompts heap n b).0) (some (blanks n []))
                ((read_prompts heap n b).1) h (length-read_prompts n b, small)
                (length-blanks n [], small))))

    count_step-Decoded :
        (k' : Kbd) (r : Option ℕ × StringBuf) → NoArrays k k' → Decoded (count_step heap k' r)
    count_step-Decoded k' (none, b) h = kept k' false h
    count_step-Decoded k' (some n, b) h =
        let counted : NoArrays k (record k' { num_prompts = n }) = h in
        if-cases Decoded (ltb 100 n) (λ e. kept _ false counted)
          (λ e. allocate_step-Decoded _ b counted (ground arith))

    language_step-Decoded :
        (k' : Kbd) (r : Option Bytes × StringBuf)
        → NoArrays k k'
        → Decoded (language_step heap k' r)
    language_step-Decoded k' (none, b) h = kept k' false h
    language_step-Decoded k' (some t, b) h = count_step-Decoded k' (get_u32 b) h

    instruction_step-Decoded :
        (k' : Kbd) (r : Option Bytes × StringBuf)
        → NoArrays k k'
        → Decoded (instruction_step heap k' r)
    instruction_step-Decoded k' (none, b) h = kept k' false h
    instruction_step-Decoded k' (some t, b) h =
        language_step-Decoded (record k' { auth_instruction = t }) (get_string b) (h)

    name_step-Decoded :
        (k' : Kbd) (r : Option Bytes × StringBuf) → NoArrays k k' → Decoded (name_step heap k' r)
    name_step-Decoded k' (none, b) h = kept k' false h
    name_step-Decoded k' (some t, b) h =
        instruction_step-Decoded (record k' { auth_name = t }) (copy_string heap.alloc b) h

    pub decode_info_request-IsDecoded :
        (p : Bytes)
        → k.prompts ≡ none
        → k.responses ≡ none
        → IsDecoded k (decode_info_request heap k p).0
    unfolding decode_info_request
    decode_info_request-IsDecoded p e f =
        let start : NoArrays k k = ((refl, refl, refl, refl), e, f) in
        let decoded : StringBuf = record { bytes = p; len = length p; pos = 0 } in
        let read = copy_string heap.alloc (get_byte decoded).1 in
        if-all Decoded (ltb (length p) 17) {y = name_step heap k read} (kept k false start)
          (name_step-Decoded k read start)
