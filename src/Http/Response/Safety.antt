-- ===== src/Http/Response/Safety.antt =====
-- The loop of operator>> never indexes out of range, and leaves a message valid.
use stochastic_scheduler_con.Prelude.{
  ℕ, zero, suc, ◌<◌, ◌≡◌, ◌⊎◌, inl, inr, sym, subst, true, false, [], ◌∷◌, arith, ltb, Bytes,
  Bool-cases,
}
use stochastic_scheduler_con.Prelude.Outcome.{Outcome, ok, thrown, fault, out_of_fuel, ◌>>=◌}
use stochastic_scheduler_con.Http.Message.Validity.{
  IsValid, begin-IsValid, header_round-IsValid, chunk_round-IsValid, Yields,
}
use stochastic_scheduler_con.Http.Response.{
  HttpResponse, empty_response, line_step, needs_size, unfinished, round, read_loop, start, read,
}

-- What a call may come to: it does not fault, and a response that it returns is valid.
abbrev pub IsSafe : Outcome (HttpResponse × Bytes) → Type 0
IsSafe (ok r) = IsValid r.0.message
IsSafe thrown = Unit
IsSafe fault = ⊥
IsSafe out_of_fuel = Unit

line_step_message : (res : HttpResponse) (c : ℕ) → (line_step res c).message ≡ res.message
unfolding line_step
line_step_message res c = ground arith

chunk_left :
    (res : HttpResponse)
    → unfinished res ≡ true
    → res.status_line_finished ≡ true
    → ltb res.message.next_header res.message.num_headers ≡ false
    → res.message.next_chunk < res.message.num_chunks
unfolding unfinished
chunk_left res u e f = ground arith

round-IsValid :
    (res : HttpResponse) (c : ℕ) (cs : Bytes)
    → IsValid res.message
    → unfinished res ≡ true
    → Yields (round res c cs) (λ r. IsValid r.0.message)
unfolding round
round-IsValid res c cs v u = elim (Bool-cases res.status_line_finished) [
  | inr e ↦
      inr ((line_step res c, cs), ground arith, subst IsValid (sym (line_step_message res c)) v)
  | inl e ↦ elim (Bool-cases (ltb res.message.next_header res.message.num_headers)) [
    | inl f ↦
        let (r, g, w) = header_round-IsValid res.message (c ∷ cs) v (ground arith) in
        inr ((record res { message = r.0 }, r.1), ground arith, w)
    | inr f ↦ elim (chunk_round-IsValid needs_size res.message (c ∷ cs) v (chunk_left res u e f)) [
      | inl g ↦ inl (ground arith)
      | inr (r, g, w) ↦ inr ((record res { message = r.0 }, r.1), ground arith, w)
    ]
  ]
]

-- The loop, once a round is known.
after : ℕ → Outcome (HttpResponse × Bytes) → Outcome (HttpResponse × Bytes)
after fuel o = o >>= λ r. read_loop fuel r.0 r.1

after-IsSafe :
    (fuel : ℕ) (r : HttpResponse × Bytes)
    → IsSafe (read_loop fuel r.0 r.1)
    → IsSafe (after fuel (ok r))
unfolding after
after-IsSafe fuel r s = s

read_loop_more :
    (fuel : ℕ) (res : HttpResponse) (c : ℕ) (cs : Bytes)
    → unfinished res ≡ true
    → read_loop (suc fuel) res (c ∷ cs) ≡ after fuel (round res c cs)
unfolding read_loop after
read_loop_more fuel res c cs u = ground arith

read_loop_done :
    (fuel : ℕ) (res : HttpResponse) (c : ℕ) (cs : Bytes)
    → unfinished res ≡ false
    → read_loop (suc fuel) res (c ∷ cs) ≡ ok (res, c ∷ cs)
unfolding read_loop
read_loop_done fuel res c cs u = ground arith

read_loop-IsSafe :
    (fuel : ℕ) (res : HttpResponse) (bytes : Bytes)
    → IsValid res.message
    → IsSafe (read_loop fuel res bytes)
read_loop-IsSafe zero res bytes v = unfold read_loop in tt
read_loop-IsSafe (suc fuel) res [] v = unfold read_loop in v
read_loop-IsSafe (suc fuel) res (c ∷ cs) v = elim (Bool-cases (unfinished res)) [
  | inr u ↦ subst IsSafe (sym (read_loop_done fuel res c cs u)) v
  | inl u ↦ subst IsSafe (sym (read_loop_more fuel res c cs u)) (elim (round-IsValid res c cs v u) [
    | inl g ↦ subst (λ o. IsSafe (after fuel o)) (sym g) (unfold after in tt)
    | inr (r, g, w) ↦
        subst (λ o. IsSafe (after fuel o)) (sym g)
          (after-IsSafe fuel r (read_loop-IsSafe fuel r.0 r.1 w))
  ])
]

start_valid : (res : HttpResponse) → 0 < res.message.num_headers → start res ≡ res
unfolding start
start_valid res l = ground arith

-- operator>> of any bytes into an empty response, or into a response whose message is valid, does
-- not index out of range, whatever the bytes; a response that it returns is valid, so that the next
-- bytes can be read into it.
pub read_response-IsSafe :
    (fuel : ℕ) (res : HttpResponse) (bytes : Bytes)
    → (res ≡ empty_response) ⊎ IsValid res.message
    → IsSafe (read fuel res bytes)
unfolding read
read_response-IsSafe fuel res bytes (inl e) =
    subst (λ r. IsSafe (read_loop fuel (start r) bytes)) (sym e)
      (read_loop-IsSafe fuel (start empty_response) bytes (unfold start in begin-IsValid))
read_response-IsSafe fuel res bytes (inr v) =
    subst (λ r. IsSafe (read_loop fuel r bytes)) (sym (start_valid res v.some_header))
      (read_loop-IsSafe fuel res bytes v)
