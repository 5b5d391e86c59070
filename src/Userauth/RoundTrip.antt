-- ===== src/Userauth/RoundTrip.antt =====
-- A request as a server lays it out, decoded.
use mshell.Prelude.{
  ℕ, ◌+◌, ◌*◌, ◌^◌, ◌≤◌, ◌<◌, ◌≡◌, refl, ap, ◌∙◌, Bool, true, false, not, some, List, [], ◌∷◌, ◌++◌,
  ◌==◌, if◌then◌else◌, Bytes, length, All, arith, drop, drop-append, length-append, ne→==, le→ltb,
}
use mshell.Wire.{htonu32}
use mshell.StringBuf.{
  StringBuf, Reader, advance, get_byte, get_boolean, get_u32, get_string, copy_string,
}
use mshell.StringBuf.Encode.{string_of}
use mshell.StringBuf.Refine.{IsValid, remaining, advance-IsValid, remaining-advance}
use mshell.StringBuf.Reads.{
  Reads, get_u32-Reads, get_string-Reads, copy_string-Reads, get_byte-Reads, get_boolean-Reads,
}
use mshell.Userauth.{
  Prompt, blanks, Kbd, Heap, before, echo_step, text_step, read_prompts, with_prompts,
  allocate_step, count_step, language_step, instruction_step, name_step, decode_info_request,
}

abbrev pub prompts_of : List Prompt → Bytes
prompts_of [] = []
prompts_of (p ∷ ps) = string_of p.text ++ ((p.echo ∷ []) ++ prompts_of ps)

-- SSH_MSG_USERAUTH_INFO_REQUEST
abbrev pub info_request : Bytes → Bytes → Bytes → List Prompt → Bytes
info_request name instruction language ps =
    (60 ∷ [])
    ++ (string_of name
        ++ (string_of instruction
            ++ (string_of language ++ (htonu32 (length ps) ++ prompts_of ps))))

abbrev pub IsText : Bytes → Type 0
IsText s = length s < 2 ^ 32

abbrev pub IsPrompt : Prompt → Type 0
IsPrompt p = IsText p.text × (p.echo < 2)

-- Where a reader's part stands first, it is read, and the rest is left.
abbrev Left : StringBuf → Bytes → Type 0
Left b rest = IsValid b × (remaining b ≡ rest)

next-Left :
    {A : Type 0} (m : Reader A) (xs rest : Bytes) (a : A) (b : StringBuf)
    → Reads m xs a
    → Left b (xs ++ rest)
    → (m b ≡ (some a, advance b (length xs))) × Left (advance b (length xs)) rest
next-Left m xs rest a b h (v, e) = (
  h b rest v e,
  (
    advance-IsValid b (length xs) v (omega (arith, ap length e, length-append xs rest)),
    remaining-advance b (length xs) ∙ ap (drop (length xs)) e ∙ drop-append xs rest,
  ),
)

abbrev pub with_arrays : Kbd → List Prompt → Kbd
with_arrays k [] = k
with_arrays k (p ∷ ps) = record k {
  responses = some (blanks (length (p ∷ ps)) []);
  prompts = some (p ∷ ps);
}

-- The session with the request.
abbrev pub requested : Kbd → Bytes → Bytes → List Prompt → Kbd
requested k name instruction ps =
    with_arrays
      (record k { auth_name = name; auth_instruction = instruction; num_prompts = length ps }) ps

module _ (heap : Heap) (room : (n : ℕ) → heap.alloc n ≡ true) where
  read_prompts-prompts_of :
      (ps : List Prompt) (b : StringBuf)
      → All IsPrompt ps
      → Left b (prompts_of ps)
      → read_prompts heap (length ps) b ≡ (ps, true)
  unfolding read_prompts
  read_prompts-prompts_of [] b h l = refl
  read_prompts-prompts_of (p ∷ ps) b h l =
      let (t, l1) =
        next-Left (copy_string heap.alloc) (string_of p.text) ((p.echo ∷ []) ++ prompts_of ps)
          p.text b (copy_string-Reads p.text heap.alloc (room _) (h.0.0)) l in
      let b1 = advance b (length (string_of p.text)) in
      let (u, l2) =
        next-Left get_boolean (p.echo ∷ []) (prompts_of ps) p.echo b1
          (get_boolean-Reads p.echo (h.0.1)) l1 in
      let go = read_prompts heap (length ps) in
      ap (text_step heap (length ps) go) t
      ∙ ap (echo_step heap (length ps) go p.text) u
      ∙ ap (before heap p) (read_prompts-prompts_of ps (advance b1 1) (h.1) l2)

  allocate_step-with_arrays :
      (k : Kbd) (ps : List Prompt) (b : StringBuf)
      → All IsPrompt ps
      → k.num_prompts ≡ length ps
      → Left b (prompts_of ps)
      → allocate_step heap k b ≡ (with_arrays k ps, true)
  allocate_step-with_arrays k [] b h e l = rw e refl
  allocate_step-with_arrays k (p ∷ ps) b h e l =
      let n = length (p ∷ ps) in
      let allocated : ℕ → Kbd × Bool = λ m.
        if m == 0
        then (k, true)
        else if not (heap.alloc (heap.prompt_size * m))
        then (k, false)
        else if not (heap.alloc (heap.response_size * m))
        then (record k { prompts = some (blanks m (record { text = []; echo = 0 })) }, false)
        else with_prompts heap (record k { responses = some (blanks m []) })
            (read_prompts heap m b) in
      ap allocated e
      ∙ rw (ne→== n 0 (omega arith)) (
          rw (room (heap.prompt_size * n)) (
            rw (room (heap.response_size * n)) (
              ap (with_prompts heap (record k { responses = some (blanks n []) }))
                (read_prompts-prompts_of (p ∷ ps) b h l))))

  count_step-requested :
      (k : Kbd) (ps : List Prompt) (b : StringBuf)
      → All IsPrompt ps
      → length ps ≤ 100
      → Left b (htonu32 (length ps) ++ prompts_of ps)
      → count_step heap k (get_u32 b)
        ≡ (with_arrays (record k { num_prompts = length ps }) ps, true)
  count_step-requested k ps b h few l =
      let (t, l1) =
        next-Left get_u32 (htonu32 (length ps)) (prompts_of ps) (length ps) b
          (get_u32-Reads (length ps) (omega (arith, few))) l in
      ap (count_step heap k) t
      ∙ rw (le→ltb 100 (length ps) few)
          (allocate_step-with_arrays (record k { num_prompts = length ps }) ps _ h refl l1)

  name_step-requested :
      (k : Kbd) (name instruction language : Bytes) (ps : List Prompt) (b : StringBuf)
      → IsText name
      → IsText instruction
      → IsText language
      → All IsPrompt ps
      → length ps ≤ 100
      → Left b (
          string_of name
          ++ (string_of instruction
              ++ (string_of language ++ (htonu32 (length ps) ++ prompts_of ps))))
      → name_step heap k (copy_string heap.alloc b) ≡ (requested k name instruction ps, true)
  name_step-requested k name instruction language ps b hn hi hl h few l =
      let (t, l1) =
        next-Left (copy_string heap.alloc) (string_of name) _ name b
          (copy_string-Reads name heap.alloc (room _) hn) l in
      let (u, l2) =
        next-Left (copy_string heap.alloc) (string_of instruction) _ instruction _
          (copy_string-Reads instruction heap.alloc (room _) hi) l1 in
      let (w, l3) =
        next-Left get_string (string_of language) _ language _ (get_string-Reads language hl) l2 in
      let named : Kbd = record k { auth_name = name } in
      let instructed : Kbd = record named { auth_instruction = instruction } in
      ap (name_step heap k) t
      ∙ ap (instruction_step heap named) u
      ∙ ap (language_step heap instructed) w
      ∙ count_step-requested instructed ps _ h few l3

length-string_of : (s t : Bytes) → length (string_of s ++ t) ≡ 4 + length s + length t
unfolding htonu32
length-string_of s t = omega (arith, length-append s t)

length-word : (n : ℕ) (t : Bytes) → length (htonu32 n ++ t) ≡ 4 + length t
unfolding htonu32
length-word n t = omega arith

long_enough :
    (name instruction language : Bytes) (ps : List Prompt)
    → 17 ≤ length (info_request name instruction language ps)
long_enough name instruction language ps =
    let words = htonu32 (length ps) ++ prompts_of ps in
    omega (
      arith,
      length-string_of name (string_of instruction ++ (string_of language ++ words)),
      length-string_of instruction (string_of language ++ words),
      length-string_of language words,
      length-word (length ps) (prompts_of ps),
    )

-- A request that is laid out as the protocol says, with 100 prompts at most, each with a flag of 0 or
-- 1, is decoded into its name, its instruction and its prompts, if memory is found and the packet's
-- length is one that memory can have.
pub decode_info_request-info_request :
    (heap : Heap) (k : Kbd) (name instruction language : Bytes) (ps : List Prompt)
    → ((n : ℕ) → heap.alloc n ≡ true)
    → IsText name
    → IsText instruction
    → IsText language
    → All IsPrompt ps
    → length ps ≤ 100
    → length (info_request name instruction language ps) < 2 ^ 64
    → decode_info_request heap k (info_request name instruction language ps)
      ≡ (requested k name instruction ps, true)
unfolding decode_info_request
decode_info_request-info_request heap k name instruction language ps room hn hi hl h few fits =
    let rest : Bytes =
      string_of name
      ++ (string_of instruction
          ++ (string_of language ++ (htonu32 (length ps) ++ prompts_of ps))) in
    let p = info_request name instruction language ps in
    let b : StringBuf = record { bytes = p; len = length p; pos = 0 } in
    let v : IsValid b = record { whole = refl; within = omega arith; addressable = fits } in
    let (t, l) = next-Left get_byte (60 ∷ []) rest 60 b (get_byte-Reads 60) (v, refl) in
    rw (le→ltb (length p) 17 (long_enough name instruction language ps)) (
      ap (λ r. name_step heap k (copy_string heap.alloc r.1)) t
      ∙ name_step-requested heap room k name instruction language ps (advance b 1) hn hi hl h few l)
