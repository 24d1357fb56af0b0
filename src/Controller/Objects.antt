-- ===== src/Controller/Objects.antt =====
-- find_next_json_object, and the loop of route_request and route_response over the objects of a
-- chunk.
pub mod Split
pub mod Stream
use stochastic_scheduler_con.Prelude.{
  ℕ, zero, suc, ◌+◌, ◌-◌, ◌≡◌, Bool, true, false, ◌&&◌, List, [], ◌∷◌, ltb, leb, ◌==◌,
  if◌then◌else◌, length, take, drop, is_empty, Bytes, Option, none, some,
}
use stochastic_scheduler_con.Prelude.Outcome.{Outcome, ok, thrown, fault, out_of_fuel}
use stochastic_scheduler_con.BigNum.{BigNum, lt}

-- The local variables. `bracket_count`, an int, is `opened - closed`.
pub record Braces : Type 0 where
  pub brace_count : ℕ
  pub opened : ℕ
  pub closed : ℕ
  pub next_opening_brace : ℕ
  pub next_closing_brace : ℕ

abbrev pub no_braces : Braces
no_braces = record {
  brace_count = 0;
  opened = 0;
  closed = 0;
  next_opening_brace = 0;
  next_closing_brace = 0;
}

-- What one character does: the loop goes on, it exits with `pos` past the character, or the
-- function returns the bracket.
pub data Turn : Type 0 where
  again exits : Braces → Turn
  bracket : Turn

unfoldable pub turn : Braces → ℕ → ℕ → Turn
turn b pos c =
    if c == b'}'
    then (if b.brace_count == 0
        then again b
        else if b.brace_count - 1 == 0
        then exits (record b { brace_count = 0; next_closing_brace = pos })
        else again (record b { brace_count = b.brace_count - 1 }))
    else if c == b'{'
    then again (record b {
      brace_count = b.brace_count + 1;
      next_opening_brace = if b.brace_count == 0 then pos else b.next_opening_brace;
    })
    else if c == b','
    then (if ltb b.next_opening_brace b.next_closing_brace then exits b else again b)
    else if c == b']'
    then (if leb b.next_opening_brace b.next_closing_brace
          && b.brace_count == 0
          && leb b.opened (b.closed + 1)
        then bracket
        else again (record b { closed = b.closed + 1 }))
    else if c == b'['
    then again (record b { opened = b.opened + 1 })
    else again b

-- How the loop ends: after it, or by the return.
pub data Exit : Type 0 where
  after_loop : Braces → ℕ → Exit
  returns : ℕ → Exit

-- The loop, over the characters from `pos` on.
unfoldable pub scan_from : Braces → ℕ → Bytes → Exit
scan_from b pos [] = after_loop b pos
scan_from b pos (c ∷ cs) = elim (turn b pos c) [
  | again b' ↦ scan_from b' (pos + 1) cs
  | exits b' ↦ after_loop b' (pos + 1)
  | bracket ↦ returns (pos + 1)
]

-- The view that the function returns, and `pos`.
unfoldable pub found : Bytes → Exit → Bytes × ℕ
found text (returns pos) = (b']' ∷ [], pos)
found text (after_loop b pos) = (
  if ltb b.next_opening_brace b.next_closing_brace
      then take (b.next_closing_brace - b.next_opening_brace + 1) (drop b.next_opening_brace text)
      else [],
  pos,
)

-- find_next_json_object(data, pos)
unfoldable pub find_next_json_object : Bytes → ℕ → Bytes × ℕ
unfolding scan_from found
find_next_json_object text pos = found text (scan_from no_braces pos (drop pos text))

-- How the loop over the objects of a chunk ends without a throw: its test fails, the bracket that
-- closes the stream is found, the request of the session itself has ended, or the body returns.
pub data LoopEnd : Type 0 where
  consumed stream_ended request_ended returned : LoopEnd

-- After the value has been handled; `next` is the rest of the loop.
unfoldable pub after_handle :
    {State : Type 0}
    → (State → State × Outcome LoopEnd)
    → State × Outcome Bool
    → State × Outcome LoopEnd
after_handle next (s, ok true) = next s
after_handle next (s, ok false) = (s, ok returned)
after_handle next (s, thrown) = (s, thrown)
after_handle next (s, fault) = (s, fault)
after_handle next (s, out_of_fuel) = (s, out_of_fuel)

-- `parse` is boost::json::parse. `handle` is what the body does with a value, on any state, and
-- whether the loop goes on after it or the function returns; `terminate` takes the session from its
-- context where the peer is complete. `request_is_over` is the second test of route_response, of
-- headers and chunks that its body does not change; route_request has no such test, so that it is
-- false there.
module _ {Json State : Type 0} (parse : Bytes → Option Json)
    (handle : Json → State → State × Outcome Bool) (terminate : State → State)
    (request_is_over : Bool) where
  -- An object that is not the bracket.
  unfoldable pub take_text :
      (State → State × Outcome LoopEnd) → Bytes → State → State × Outcome LoopEnd
  unfolding after_handle
  take_text next json_obj_str s = elim request_is_over [
    | true ↦ (s, ok request_ended)
    | false ↦ elim (parse json_obj_str) [
      | none ↦ (s, thrown)
      | some val ↦ after_handle next (handle val s)
    ]
  ]

  -- The rest of the loop, once find_next_json_object has returned; `next` is the loop from the new
  -- position.
  unfoldable pub take_object :
      (ℕ → State → State × Outcome LoopEnd) → Bytes × ℕ → State → State × Outcome LoopEnd
  unfolding take_text
  take_object next ([], pos) s = next pos s
  take_object next (c ∷ cs, pos) s = elim (c == b']') [
    | true ↦ (terminate s, ok stream_ended)
    | false ↦ take_text (next pos) (c ∷ cs) s
  ]

  -- while(HttpBigNum{next_comma} < chunk_size), on fuel: the state after the loop, and how it ends.
  unfoldable pub objects_of : ℕ → BigNum → Bytes → ℕ → State → State × Outcome LoopEnd
  unfolding take_object
  objects_of zero chunk_size text next_comma s = (s, out_of_fuel)
  objects_of (suc fuel) chunk_size text next_comma s = elim (lt (next_comma ∷ []) chunk_size) [
    | false ↦ (s, ok consumed)
    | true ↦
        take_object (λ pos. λ s'. objects_of fuel chunk_size text pos s')
          (find_next_json_object text next_comma) s
  ]
