-- ===== src/Controller/Objects/Stream.antt =====
-- The objects that the loop over a chunk handles are those that were written to it.
use stochastic_scheduler_con.Prelude.{
  ℕ, zero, suc, ◌+◌, ◌<◌, ◌≤◌, ◌≡◌, refl, sym, ap, ◌∙◌, Bool, true, false, List, [], ◌∷◌, ◌++◌,
  append_assoc, append-nil, arith, ltb, ◌==◌, length, length-append, drop, drop-append, All, Bytes,
  Bool-cases, Option-cases, Option, none, some, inl, inr, subst, ◌≢◌, if◌then◌else◌,
}
use stochastic_scheduler_con.Prelude.Outcome.{Outcome, ok, thrown, fault, out_of_fuel}
use stochastic_scheduler_con.BigNum.{BigNum, lt, word}
use stochastic_scheduler_con.BigNum.Value.{value, weight, IsWords, IsCanonical}
use stochastic_scheduler_con.BigNum.Order.{lt-value}
use stochastic_scheduler_con.Controller.Objects.{
  Braces, no_braces, Turn, again, exits, bracket, turn, Exit, after_loop, returns, scan_from, found,
  find_next_json_object, LoopEnd, consumed, stream_ended, request_ended, after_handle, take_text,
  take_object, objects_of,
}
use stochastic_scheduler_con.Controller.Objects.Split.{
  IsSeparator, IsBody, object, find_next_json_object-object,
}

-- Objects, each with what stands before it and what stands between its braces.
abbrev pub text_of : List (Bytes × Bytes) → Bytes
text_of [] = []
text_of ((sep, body) ∷ items) = sep ++ (object body ++ text_of items)

abbrev pub IsItem : Bytes × Bytes → Type 0
IsItem item = All IsSeparator item.0 × IsBody item.1

-- What may follow the objects of a chunk: nothing, or the end of the stream.
abbrev pub ending : Bool → Bytes
ending false = []
ending true = b']' ∷ []

-- The size of a chunk as the parser has it.
pub record IsSize (size : BigNum) (n : ℕ) : Type 0 where
  pub words : IsWords size
  pub canonical : IsCanonical size
  pub value_eq : value size ≡ n
  pub small : n < word

value-one : (n : ℕ) → value (n ∷ []) ≡ n
unfolding value weight
value-one n = omega arith

lt_size : (size : BigNum) (n pos : ℕ) → IsSize size n → pos < n → lt (pos ∷ []) size ≡ true
lt_size size n pos s l =
    (lt-value (pos ∷ []) size (omega (arith, l, s.small), tt) s.words tt s.canonical).0.1
      (omega (arith, value-one pos, s.value_eq, l))

lt_end : (size : BigNum) (n : ℕ) → IsSize size n → lt (n ∷ []) size ≡ false
lt_end size n s = elim (Bool-cases (lt (n ∷ []) size)) [
  | inl e ↦ absurd (
      omega (
        arith,
        value-one n,
        s.value_eq,
        (lt-value (n ∷ []) size (s.small, tt) s.words tt s.canonical).0.0 e,
      ))
  | inr e ↦ e
]

find_bracket :
    (pre : Bytes)
    → find_next_json_object (pre ++ b']' ∷ []) (length pre) ≡ (b']' ∷ [], length pre + 1)
unfolding find_next_json_object scan_from turn found
find_bracket pre =
    ap (λ s. found (pre ++ b']' ∷ []) (scan_from no_braces (length pre) s))
      (drop-append pre (b']' ∷ []))

abbrev exit_position : Exit → ℕ
exit_position (after_loop b pos) = pos
exit_position (returns pos) = pos

abbrev Within : ℕ → Bytes → Exit → Type 0
Within pos cs x = (pos < exit_position x) × (exit_position x ≤ pos + suc (length cs))

after_turn : Turn → ℕ → Bytes → Exit
after_turn t pos cs = elim t [
  | again b' ↦ scan_from b' (pos + 1) cs
  | exits b' ↦ after_loop b' (pos + 1)
  | bracket ↦ returns (pos + 1)
]

abbrev pub objects : List (Bytes × Bytes) → List Bytes
objects [] = []
objects ((sep, body) ∷ items) = object body ∷ objects items

module _ {Json State : Type 0} (parse : Bytes → Option Json)
    (handle : Json → State → State × Outcome Bool) (terminate : State → State)
    (request_is_over : Bool) where
  -- The abstract loop, over texts: each is parsed and handled, until one is not JSON, the handling
  -- of one ends the loop, or none is left; at the end of the stream the session is terminated.
  unfoldable pub handle_texts : List Bytes → Bool → State → State × Outcome LoopEnd
  handle_texts [] ended s = if ended then (terminate s, ok stream_ended) else (s, ok consumed)
  handle_texts (text ∷ texts) ended s = elim request_is_over as (λ b. State × Outcome LoopEnd) [
    | true ↦ (s, ok request_ended)
    | false ↦ elim (parse text) [
      | none ↦ (s, thrown)
      | some val ↦ after_handle (λ s'. handle_texts texts ended s') (handle val s)
    ]
  ]

  abbrev loop : ℕ → BigNum → Bytes → ℕ → State → State × Outcome LoopEnd
  loop = objects_of parse handle terminate request_is_over

  objects_step :
      (fuel : ℕ) (size : BigNum) (text : Bytes) (pos : ℕ) (s : State)
      → lt (pos ∷ []) size ≡ true
      → loop (suc fuel) size text pos s
        ≡ take_object parse handle terminate request_is_over
            (λ p. λ s'. loop fuel size text p s')
            (find_next_json_object text pos)
            s
  unfolding objects_of
  objects_step fuel size text pos s h = rw (objects_of, h) refl

  objects_end :
      (fuel : ℕ) (size : BigNum) (text : Bytes) (pos : ℕ) (s : State)
      → lt (pos ∷ []) size ≡ false
      → loop (suc fuel) size text pos s ≡ (s, ok consumed)
  unfolding objects_of
  objects_end fuel size text pos s h = rw (objects_of, h) refl

  -- The end of the chunk.
  objects_ending :
      (fuel : ℕ) (size : BigNum) (pre : Bytes) (ended : Bool) (s : State)
      → IsSize size (length (pre ++ ending ended))
      → loop (suc fuel) size (pre ++ ending ended) (length pre) s ≡ handle_texts [] ended s
  unfolding handle_texts
  objects_ending fuel size pre false s z =
      let e : length (pre ++ []) ≡ length pre = ap length (append-nil pre) in
      objects_end fuel size (pre ++ []) (length pre) s
        (ap (λ n. lt (n ∷ []) size) (sym e) ∙ lt_end size (length (pre ++ [])) z)
  objects_ending fuel size pre true s z =
      objects_step fuel size (pre ++ b']' ∷ []) (length pre) s (
        lt_size size (length (pre ++ b']' ∷ [])) (length pre) z
          (omega (arith, length-append pre (b']' ∷ []))))
      ∙ ap
          (λ v.
            take_object parse handle terminate request_is_over
              (λ p. λ s'. loop fuel size (pre ++ b']' ∷ []) p s') v s)
          (find_bracket pre)
      ∙ unfold take_object in refl

  -- A view that begins with an opening brace is parsed and handled.
  take_object_lem :
      (next : ℕ → State → State × Outcome LoopEnd) (body : Bytes) (pos : ℕ) (items : List Bytes)
      (ended : Bool) (s : State)
      → next pos ≡ (λ s'. handle_texts items ended s')
      → take_object parse handle terminate request_is_over next (object body, pos) s
        ≡ handle_texts (object body ∷ items) ended s
  take_object_lem next body pos items ended s h =
      unfold take_object in
      ap (λ n. take_text parse handle terminate request_is_over n (object body) s) h
      ∙ unfold take_text in unfold handle_texts in refl

  objects_lem :
      (fuel : ℕ) (size : BigNum) (pre text : Bytes) (items : List (Bytes × Bytes)) (ended : Bool)
      (s : State)
      → text ≡ pre ++ (text_of items ++ ending ended)
      → IsSize size (length text)
      → All IsItem items
      → length items < fuel
      → loop fuel size text (length pre) s ≡ handle_texts (objects items) ended s
  objects_lem zero size pre text items ended s e z h l = absurd (omega (arith, l))
  objects_lem (suc fuel) size pre text [] ended s e z h l =
      ap (λ t. loop (suc fuel) size t (length pre) s) e
      ∙ objects_ending fuel size pre ended s (subst (λ t. IsSize size (length t)) e z)
  objects_lem (suc fuel) size pre text ((sep, body) ∷ items) ended s e z h l =
      let rest = text_of items ++ ending ended in
      let pre' = pre ++ (sep ++ object body) in
      let here : text ≡ pre ++ (sep ++ (object body ++ rest)) =
        e
        ∙ ap (◌++◌ pre) (
            append_assoc sep (object body ++ text_of items) (ending ended)
            ∙ ap (◌++◌ sep) (append_assoc (object body) (text_of items) (ending ended))) in
      let there : text ≡ pre' ++ rest =
        here
        ∙ sym (
            append_assoc pre (sep ++ object body) rest
            ∙ ap (◌++◌ pre) (append_assoc sep (object body) rest)) in
      let pos : length pre + length sep + length (object body) ≡ length pre' =
        omega (arith, length-append pre (sep ++ object body), length-append sep (object body)) in
      let within : length pre < length text = omega (
        arith,
        ap length here,
        length-append pre (sep ++ (object body ++ rest)),
        length-append sep (object body ++ rest),
      ) in
      let next : ℕ → State → State × Outcome LoopEnd = λ p. λ s'. loop fuel size text p s' in
      objects_step fuel size text (length pre) s (lt_size size (length text) (length pre) z within)
      ∙ ap
          (λ t.
            take_object parse handle terminate request_is_over next
              (find_next_json_object t (length pre)) s)
          here
      ∙ ap (λ v. take_object parse handle terminate request_is_over next v s)
          (find_next_json_object-object pre sep body rest h.0.0 h.0.1)
      ∙ ap (λ n. take_object parse handle terminate request_is_over next (object body, n) s) pos
      ∙ take_object_lem next body (length pre') (objects items) ended s (λ i.
        λ s'. objects_lem fuel size pre' text items ended s' there z h.1 (omega (arith, l)) i)

  -- The loop over a chunk of fewer than 2 ^ 64 bytes, whose text is a sequence of objects, each
  -- after characters that are no brace and no closing bracket and with braces that are balanced
  -- where those inside of strings are counted too, with or without the bracket that ends the
  -- stream, and whose size is the length of the text, does, on any fuel above their number, what
  -- the abstract loop does with the texts of just these objects, in order: it parses and handles
  -- each, stops where one is not JSON, where the handling of one throws or returns, or at the first
  -- where the own request is over, and else terminates the session at the bracket or ends with the
  -- chunk.
  pub objects_of-text_of :
      (fuel : ℕ) (size : BigNum) (items : List (Bytes × Bytes)) (ended : Bool) (s : State)
      → IsSize size (length (text_of items ++ ending ended))
      → All IsItem items
      → length items < fuel
      → objects_of parse handle terminate request_is_over fuel size
          (text_of items ++ ending ended)
          0
          s
        ≡ handle_texts (objects items) ended s
  objects_of-text_of fuel size items ended s z h l =
      objects_lem fuel size [] (text_of items ++ ending ended) items ended s refl z h l

-- The position after a scan is past its beginning and within the text.
scan_from_bounds :
    (b : Braces) (pos c : ℕ) (cs : Bytes)
    → (pos < exit_position (scan_from b pos (c ∷ cs)))
      × (exit_position (scan_from b pos (c ∷ cs)) ≤ pos + suc (length cs))
unfolding scan_from after_turn
scan_from_bounds b pos c [] = elim (turn b pos c) as (λ t. Within pos [] (after_turn t pos [])) [
  | again b' ↦ (omega arith, omega arith)
  | exits b' ↦ (omega arith, omega arith)
  | bracket ↦ (omega arith, omega arith)
]
scan_from_bounds b pos c (d ∷ ds) =
    elim (turn b pos c) as (λ t. Within pos (d ∷ ds) (after_turn t pos (d ∷ ds))) [
      | again b' ↦
          let (l, u) = scan_from_bounds b' (pos + 1) d ds in (omega (arith, l), omega (arith, u))
      | exits b' ↦ (omega arith, omega arith)
      | bracket ↦ (omega arith, omega arith)
    ]

length-drop_lt :
    (text : Bytes) (pos : ℕ)
    → pos < length text
    → (c : ℕ) × (cs : Bytes) × (drop pos text ≡ c ∷ cs) × (pos + suc (length cs) ≡ length text)
length-drop_lt [] pos l = absurd (omega arith)
length-drop_lt (x ∷ xs) zero l = (x, xs, refl, omega arith)
length-drop_lt (x ∷ xs) (suc pos) l =
    let (c, cs, e, f) = length-drop_lt xs pos (omega arith) in (c, cs, e, omega (arith, f))

found_position : (text : Bytes) (x : Exit) → (found text x).1 ≡ exit_position x
unfolding found
found_position text (returns pos) = refl
found_position text (after_loop b pos) = refl

find_bounds :
    (text : Bytes) (pos : ℕ)
    → pos < length text
    → (pos < (find_next_json_object text pos).1)
      × ((find_next_json_object text pos).1 ≤ length text)
unfolding find_next_json_object
find_bounds text pos l =
    let (c, cs, e, f) = length-drop_lt text pos l in
    let (a, b) = scan_from_bounds no_braces pos c cs in
    let g : (found text (scan_from no_braces pos (drop pos text))).1
        ≡ exit_position (scan_from no_braces pos (c ∷ cs)) =
      found_position text (scan_from no_braces pos (drop pos text))
      ∙ ap (λ s. exit_position (scan_from no_braces pos s)) e in
    (omega (arith, a, g), omega (arith, b, g, f))

module _ {Json State : Type 0} (parse : Bytes → Option Json)
    (handle : Json → State → State × Outcome Bool) (terminate : State → State)
    (request_is_over : Bool)
    (ends : (val : Json) (s : State) → (handle val s).1 ≢ out_of_fuel) where
  abbrev Ends : State × Outcome LoopEnd → Type 0
  Ends r = r.1 ≢ out_of_fuel

  after_handle-Ends :
      (next : State → State × Outcome LoopEnd) (r : State × Outcome Bool)
      → ((s : State) → Ends (next s))
      → r.1 ≢ out_of_fuel
      → Ends (after_handle next r)
  unfolding after_handle
  after_handle-Ends next (s, ok true) h n = h s
  after_handle-Ends next (s, ok false) h n = λ e. cc e
  after_handle-Ends next (s, thrown) h n = λ e. cc e
  after_handle-Ends next (s, fault) h n = λ e. cc e
  after_handle-Ends next (s, out_of_fuel) h n = absurd (n refl)

  take_text-Ends :
      (next : State → State × Outcome LoopEnd) (text : Bytes) (s : State)
      → ((s : State) → Ends (next s))
      → Ends (take_text parse handle terminate request_is_over next text s)
  unfolding take_text
  take_text-Ends next text s h = elim (Bool-cases request_is_over) [
    | inl e ↦ rw (e, take_text) (λ f. cc f)
    | inr e ↦
        rw (e, take_text)
          (elim (Option-cases (parse text)) [
            | inl g ↦ rw (g, take_text) (λ f. cc f)
            | inr (val, g) ↦
                rw (g, take_text) (after_handle-Ends next (handle val s) h (ends val s))
          ])
  ]

  take_object-Ends :
      (next : ℕ → State → State × Outcome LoopEnd) (view : Bytes × ℕ) (s : State)
      → ((s : State) → Ends (next view.1 s))
      → Ends (take_object parse handle terminate request_is_over next view s)
  unfolding take_object
  take_object-Ends next ([], pos) s h = h s
  take_object-Ends next (c ∷ cs, pos) s h = elim (Bool-cases (c == b']')) [
    | inl e ↦ rw (e, take_object) (λ f. cc f)
    | inr e ↦ rw (e, take_object) (take_text-Ends (next pos) (c ∷ cs) s h)
  ]

  -- The loop over a chunk of fewer than 2 ^ 64 bytes, whose size is the length of its text, ends,
  -- whatever the text and the position in it, on fuel for the characters that are left, where every
  -- call of the handling ends: by its test, a break, a return, the throw for a text that is not
  -- JSON, or what the handling does.
  pub objects_of_ends :
      (fuel : ℕ) (size : BigNum) (text : Bytes) (pos : ℕ) (s : State)
      → IsSize size (length text)
      → pos ≤ length text
      → length text < pos + fuel
      → (objects_of parse handle terminate request_is_over fuel size text pos s).1 ≢ out_of_fuel
  objects_of_ends zero size text pos s z l f = absurd (omega (arith, l, f))
  objects_of_ends (suc fuel) size text pos s z l f = elim (Bool-cases (ltb pos (length text))) [
    | inr e ↦
        let same : length text ≡ pos = ground arith in
        rw
          (objects_end parse handle terminate request_is_over fuel size text pos s
            (ap (λ n. lt (n ∷ []) size) (sym same) ∙ lt_end size (length text) z))
          (λ g. cc g)
    | inl e ↦
        let (a, b) = find_bounds text pos (ground arith) in
        rw
          (objects_step parse handle terminate request_is_over fuel size text pos s
            (lt_size size (length text) pos z (ground arith)))
          (take_object-Ends
            (λ p. λ s'. objects_of parse handle terminate request_is_over fuel size text p s')
            (find_next_json_object text pos) s
            (λ s'.
              objects_of_ends fuel size text (find_next_json_object text pos).1 s' z b
                (omega (arith, a, f))))
  ]
