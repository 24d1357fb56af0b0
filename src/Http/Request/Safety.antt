-- ===== src/Http/Request/Safety.antt =====
-- The loop of operator>> never indexes out of range, and leaves a message valid.
use stochastic_scheduler_con.Prelude.{
  ℕ, zero, suc, ◌<◌, ◌≡◌, ◌⊎◌, inl, inr, sym, subst, Bool, true, false, [], ◌∷◌, arith, ltb, Bytes,
  Bool-cases,
}
use stochastic_scheduler_con.Prelude.Outcome.{Outcome, ok, thrown, fault, out_of_fuel, ◌>>=◌}
use stochastic_scheduler_con.Http.Message.Validity.{
  IsValid, begin-IsValid, header_round-IsValid, chunk_round-IsValid, Yields,
}
use stochastic_scheduler_con.Http.Request.{
  HttpRequest, empty_request, line_step, begins_verb, needs_size, unfinished, round, read_loop,
  start, read,
}

-- What a call may come to: it does not fault, and a request that it returns is valid.
abbrev pub IsSafe : Outcome (HttpRequest × Bytes) → Type 0
IsSafe (ok r) = IsValid r.0.message
IsSafe thrown = Unit
IsSafe fault = ⊥
IsSafe out_of_fuel = Unit

line_step_message : (req : HttpRequest) (c : ℕ) → (line_step req c).0.message ≡ req.message
unfolding line_step begins_verb
line_step_message req c = ground arith

chunk_left :
    (req : HttpRequest)
    → unfinished req ≡ true
    → req.http_request_line_complete ≡ true
    → ltb req.message.next_header req.message.num_headers ≡ false
    → req.message.next_chunk < req.message.num_chunks
unfolding unfinished
chunk_left req u e f = ground arith

round-IsValid :
    (req : HttpRequest) (c : ℕ) (cs : Bytes)
    → IsValid req.message
    → unfinished req ≡ true
    → Yields (round req c cs) (λ r. IsValid r.0.0.message)
unfolding round
round-IsValid req c cs v u = elim (Bool-cases req.http_request_line_complete) [
  | inr e ↦ inr (
    (((line_step req c).0, cs), (line_step req c).1),
    ground arith,
    subst IsValid (sym (line_step_message req c)) v,
  )
  | inl e ↦ elim (Bool-cases (ltb req.message.next_header req.message.num_headers)) [
    | inl f ↦
        let (r, g, w) = header_round-IsValid req.message (c ∷ cs) v (ground arith) in
        inr (((record req { message = r.0 }, r.1), false), ground arith, w)
    | inr f ↦ elim (chunk_round-IsValid needs_size req.message (c ∷ cs) v (chunk_left req u e f)) [
      | inl g ↦ inl (ground arith)
      | inr (r, g, w) ↦ inr (((record req { message = r.0 }, r.1), false), ground arith, w)
    ]
  ]
]

-- The loop, once a round is known.
after : ℕ → Outcome ((HttpRequest × Bytes) × Bool) → Outcome (HttpRequest × Bytes)
after fuel o = o >>= λ r. elim r.1 [ true ↦ ok r.0 | false ↦ read_loop fuel r.0.0 r.0.1 ]

after-IsSafe :
    (fuel : ℕ) (r : (HttpRequest × Bytes) × Bool)
    → IsValid r.0.0.message
    → IsSafe (read_loop fuel r.0.0 r.0.1)
    → IsSafe (after fuel (ok r))
unfolding after
after-IsSafe fuel (r, true) w s = w
after-IsSafe fuel (r, false) w s = s

read_loop_more :
    (fuel : ℕ) (req : HttpRequest) (c : ℕ) (cs : Bytes)
    → unfinished req ≡ true
    → read_loop (suc fuel) req (c ∷ cs) ≡ after fuel (round req c cs)
unfolding read_loop after
read_loop_more fuel req c cs u = ground arith

read_loop_done :
    (fuel : ℕ) (req : HttpRequest) (c : ℕ) (cs : Bytes)
    → unfinished req ≡ false
    → read_loop (suc fuel) req (c ∷ cs) ≡ ok (req, c ∷ cs)
unfolding read_loop
read_loop_done fuel req c cs u = ground arith

read_loop-IsSafe :
    (fuel : ℕ) (req : HttpRequest) (bytes : Bytes)
    → IsValid req.message
    → IsSafe (read_loop fuel req bytes)
read_loop-IsSafe zero req bytes v = unfold read_loop in tt
read_loop-IsSafe (suc fuel) req [] v = unfold read_loop in v
read_loop-IsSafe (suc fuel) req (c ∷ cs) v = elim (Bool-cases (unfinished req)) [
  | inr u ↦ subst IsSafe (sym (read_loop_done fuel req c cs u)) v
  | inl u ↦ subst IsSafe (sym (read_loop_more fuel req c cs u)) (elim (round-IsValid req c cs v u) [
    | inl g ↦ subst (λ o. IsSafe (after fuel o)) (sym g) (unfold after in tt)
    | inr (r, g, w) ↦
        subst (λ o. IsSafe (after fuel o)) (sym g)
          (after-IsSafe fuel r w (read_loop-IsSafe fuel r.0.0 r.0.1 w))
  ])
]

start_valid : (req : HttpRequest) → 0 < req.message.num_headers → start req ≡ req
unfolding start
start_valid req l = ground arith

-- operator>> of any bytes into an empty request, or into a request whose message is valid, does
-- not index out of range, whatever the bytes; a request that it returns is valid, so that the next
-- bytes can be read into it.
pub read_request-IsSafe :
    (fuel : ℕ) (req : HttpRequest) (bytes : Bytes)
    → (req ≡ empty_request) ⊎ IsValid req.message
    → IsSafe (read fuel req bytes)
unfolding read
read_request-IsSafe fuel req bytes (inl e) =
    subst (λ r. IsSafe (read_loop fuel (start r) bytes)) (sym e)
      (read_loop-IsSafe fuel (start empty_request) bytes (unfold start in begin-IsValid))
read_request-IsSafe fuel req bytes (inr v) =
    subst (λ r. IsSafe (read_loop fuel r bytes)) (sym (start_valid req v.some_header))
      (read_loop-IsSafe fuel req bytes v)
