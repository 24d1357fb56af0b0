-- ===== src/Controller/Objects/Split.antt =====
-- What find_next_json_object finds, and what the loop over a chunk makes of a stream of objects.
use stochastic_scheduler_con.Prelude.{
  ℕ, suc, ◌+◌, ◌-◌, ◌<◌, ◌≡◌, ◌≢◌, refl, sym, ap, ◌∙◌, true, Option, none, some, [], ◌∷◌, ◌++◌,
  append_assoc, arith, ltb, leb, ◌==◌, if◌then◌else◌, length, length-append, take, drop,
  take-append, drop-append, All, Bytes, Option-cases, inl, inr,
}
use stochastic_scheduler_con.Controller.Objects.{
  Braces, no_braces, again, turn, after_loop, scan_from, found, find_next_json_object,
}

-- A character that may stand before an object: no brace, and no closing bracket.
abbrev pub IsSeparator : ℕ → Type 0
IsSeparator c = (c ≢ b'{') × (c ≢ b'}') × (c ≢ b']')

-- The number of open braces after a character, where the object does not end with it.
abbrev depth_step : ℕ → ℕ → Option ℕ
depth_step d c =
    if c == b'}'
    then (if leb d 1 then none else some (d - 1))
    else if c == b'{'
    then some (d + 1)
    else some d

-- The number of open braces after some characters, where the object does not end within them.
unfoldable pub depth_after : ℕ → Bytes → Option ℕ
depth_after d [] = some d
depth_after d (c ∷ cs) = elim (depth_step d c) [ none ↦ none | some d' ↦ depth_after d' cs ]

-- The text of an object by what stands between its braces.
abbrev pub object : Bytes → Bytes
object body = b'{' ∷ (body ++ b'}' ∷ [])

abbrev pub IsBody : Bytes → Type 0
IsBody body = depth_after 1 body ≡ some 1

abbrev before : ℕ → Braces
before o = record no_braces { opened = o }

abbrev inside : ℕ → ℕ → ℕ → ℕ → Braces
inside d o k start = record {
  brace_count = d;
  opened = o;
  closed = k;
  next_opening_brace = start;
  next_closing_brace = 0;
}

turn-before : (o pos c : ℕ) → IsSeparator c → (o' : ℕ) × (turn (before o) pos c ≡ again (before o'))
unfolding turn
turn-before o pos c h = ((if c == b'[' then o + 1 else o), ground arith)

scan_step :
    (b b' : Braces) (pos c : ℕ) (cs : Bytes)
    → turn b pos c ≡ again b'
    → scan_from b pos (c ∷ cs) ≡ scan_from b' (pos + 1) cs
unfolding scan_from
scan_step b b' pos c cs h = rw (scan_from, h) refl

scan_before :
    (o pos : ℕ) (sep rest : Bytes)
    → All IsSeparator sep
    → (o' : ℕ) × (scan_from (before o) pos (sep ++ rest)
        ≡ scan_from (before o') (pos + length sep) rest)
scan_before o pos [] rest h =
    let e : pos ≡ pos + 0 = omega arith in (o, ap (λ n. scan_from (before o) n rest) e)
scan_before o pos (c ∷ cs) rest h =
    let (o₁, e) = turn-before o pos c h.0 in
    let (o', f) = scan_before o₁ (pos + 1) cs rest h.1 in
    let g : pos + 1 + length cs ≡ pos + suc (length cs) = omega arith in
    (
      o',
      scan_step (before o) (before o₁) pos c (cs ++ rest) e
          ∙ f
          ∙ ap (λ n. scan_from (before o') n rest) g,
    )

turn-inside :
    (d d' o k start pos c : ℕ)
    → 0 < d
    → depth_step d c ≡ some d'
    → (o' : ℕ) × (k' : ℕ) × (turn (inside d o k start) pos c ≡ again (inside d' o' k' start))
      × (0 < d')
unfolding turn
turn-inside d d' o k start pos c p h =
    ((if c == b'[' then o + 1 else o), (if c == b']' then k + 1 else k), ground arith, ground arith)

scan_inside :
    (d d' o k start pos : ℕ) (body rest : Bytes)
    → 0 < d
    → depth_after d body ≡ some d'
    → (o' : ℕ) × (k' : ℕ) × (scan_from (inside d o k start) pos (body ++ rest)
        ≡ scan_from (inside d' o' k' start) (pos + length body) rest)
unfolding depth_after
scan_inside d d' o k start pos [] rest p h =
    let e : pos ≡ pos + 0 = omega arith in
    let same : d ≡ d' = cc in
    (
      o,
      k,
      ap (λ n. scan_from (inside d o k start) n rest) e
          ∙ ap (λ n. scan_from (inside n o k start) (pos + 0) rest) same,
    )
scan_inside d d' o k start pos (c ∷ cs) rest p h = elim (Option-cases (depth_step d c)) [
  | inl e ↦ absurd (ground arith)
  | inr (d₁, e) ↦
      let (o₁, k₁, f, q) = turn-inside d d₁ o k start pos c p e in
      let h' : depth_after d₁ cs ≡ some d' = ground arith in
      let (o', k', g) = scan_inside d₁ d' o₁ k₁ start (pos + 1) cs rest q h' in
      let s : pos + 1 + length cs ≡ pos + suc (length cs) = omega arith in
      (
        o',
        k',
        scan_step (inside d o k start) (inside d₁ o₁ k₁ start) pos c (cs ++ rest) f
            ∙ g
            ∙ ap (λ n. scan_from (inside d' o' k' start) n rest) s,
      )
]

-- The object's own braces.
scan_open :
    (o pos : ℕ) (cs : Bytes)
    → scan_from (before o) pos (b'{' ∷ cs) ≡ scan_from (inside 1 o 0 pos) (pos + 1) cs
unfolding scan_from turn
scan_open o pos cs = let e : 0 + 1 ≡ 1 = refl in refl

scan_close :
    (o k start pos : ℕ) (cs : Bytes)
    → scan_from (inside 1 o k start) pos (b'}' ∷ cs)
      ≡ after_loop (record (inside 0 o k start) { next_closing_brace = pos }) (pos + 1)
unfolding scan_from turn
scan_close o k start pos cs = refl

scan_object :
    (pos : ℕ) (sep body rest : Bytes)
    → All IsSeparator sep
    → IsBody body
    → (o : ℕ) × (k : ℕ) × (scan_from no_braces pos (sep ++ (object body ++ rest))
        ≡ after_loop
            (record (inside 0 o k (pos + length sep)) {
              next_closing_brace = pos + length sep + 1 + length body;
            })
            (pos + length sep + 1 + length body + 1))
scan_object pos sep body rest h b =
    let start = pos + length sep in
    let (o, e) = scan_before 0 pos sep (object body ++ rest) h in
    let (o', k', f) = scan_inside 1 1 o 0 start (start + 1) body (b'}' ∷ rest) (omega arith) b in
    (
      o',
      k',
      e
          ∙ scan_open o start ((body ++ b'}' ∷ []) ++ rest)
          ∙ ap (scan_from (inside 1 o 0 start) (start + 1)) (append_assoc body (b'}' ∷ []) rest)
          ∙ f
          ∙ scan_close o' k' start (start + 1 + length body) rest,
    )

found-object :
    (pre sep body rest : Bytes) (b : Braces) (pos : ℕ)
    → b.next_opening_brace ≡ length pre + length sep
    → b.next_closing_brace ≡ length pre + length sep + 1 + length body
    → found (pre ++ (sep ++ (object body ++ rest))) (after_loop b pos) ≡ (object body, pos)
unfolding found
found-object pre sep body rest b pos e f =
    let start : length (pre ++ sep) ≡ b.next_opening_brace =
      omega (arith, e, length-append pre sep) in
    let size : length (object body) ≡ b.next_closing_brace - b.next_opening_brace + 1 =
      omega (arith, e, f, length-append body (b'}' ∷ [])) in
    let within : ltb b.next_opening_brace b.next_closing_brace ≡ true = ground (arith, e, f) in
    let text = pre ++ (sep ++ (object body ++ rest)) in
    let at : drop b.next_opening_brace text ≡ object body ++ rest =
      ap (λ n. drop n text) (sym start)
      ∙ ap (drop (length (pre ++ sep))) (sym (append_assoc pre sep (object body ++ rest)))
      ∙ drop-append (pre ++ sep) (object body ++ rest) in
    let cut : take (b.next_closing_brace - b.next_opening_brace + 1)
          (drop b.next_opening_brace text)
        ≡ object body =
      ap (take (b.next_closing_brace - b.next_opening_brace + 1)) at
      ∙ ap (λ n. take n (object body ++ rest)) (sym size)
      ∙ take-append (object body) rest in
    rw (within, cut) refl

-- From any position, past characters that are no brace and no closing bracket, the function finds
-- the text from the next brace to the brace that closes it, whatever follows, and leaves `pos`
-- just behind it.
pub find_next_json_object-object :
    (pre sep body rest : Bytes)
    → All IsSeparator sep
    → IsBody body
    → find_next_json_object (pre ++ (sep ++ (object body ++ rest))) (length pre)
      ≡ (object body, length pre + length sep + length (object body))
unfolding find_next_json_object
find_next_json_object-object pre sep body rest h b =
    let (o, k, e) = scan_object (length pre) sep body rest h b in
    let text = pre ++ (sep ++ (object body ++ rest)) in
    let end : length pre + length sep + 1 + length body + 1
        ≡ length pre + length sep + length (object body) =
      omega (arith, length-append body (b'}' ∷ [])) in
    ap (λ s. found text (scan_from no_braces (length pre) s))
      (drop-append pre (sep ++ (object body ++ rest)))
    ∙ ap (found text) e
    ∙ found-object pre sep body rest
        (record (inside 0 o k (length pre + length sep)) {
          next_closing_brace = length pre + length sep + 1 + length body;
        })
        (length pre + length sep + 1 + length body + 1) refl refl
    ∙ ap (λ n. (object body, n)) end
