-- ===== src/Http/Chunk/RoundTrip.antt =====
-- A chunk that operator<< writes is read back by operator>>.
use stochastic_scheduler_con.Prelude.{
  ℕ, ◌+◌, ◌^◌, ◌<◌, ◌≡◌, refl, sym, ap, ◌∙◌, true, false, some, List, [], ◌∷◌, ◌++◌, append-nil,
  append_assoc, arith, Bytes, length, All, isspace, digit_value, IsHexDigit, Bool-cases, inl, inr,
}
use stochastic_scheduler_con.BigNum.{BigNum, lt, increment}
use stochastic_scheduler_con.BigNum.Value.{value, IsWords, IsCanonical}
use stochastic_scheduler_con.BigNum.Order.{lt-value}
use stochastic_scheduler_con.BigNum.Increment.{value-increment}
use stochastic_scheduler_con.BigNum.Canonical.{increment-IsCanonical, canonical_unique}
use stochastic_scheduler_con.BigNum.RoundTrip.{of_hex-print, print-IsHexDigit, length-print_pos}
use stochastic_scheduler_con.BigNum.Print.{of_hex, print}
use stochastic_scheduler_con.Http.Chunk.{HttpChunk, empty_chunk, step, read, write}
use stochastic_scheduler_con.Http.Chunk.Stream.{read-step, read_complete}

-- While the size is read, and while the body is.
abbrev sizing : Bytes → HttpChunk
sizing header = record empty_chunk { chunk_header = header; chunk_size_started = true }

abbrev in_body : BigNum → Bytes → BigNum → Bytes → HttpChunk
in_body size body received header = record empty_chunk {
  chunk_size = size;
  chunk_data = body;
  received_bytes = received;
  chunk_header = header;
  chunk_size_started = true;
  chunk_size_found = true;
  chunk_body_start = true;
}

digit-isspace : (c d : ℕ) → digit_value 16 c ≡ some d → isspace c ≡ false
unfolding digit_value isspace
digit-isspace c d h = ground arith

step-empty : (c : ℕ) → isspace c ≡ false → step empty_chunk c ≡ some (sizing (c ∷ []))
unfolding step
step-empty c h = rw h

step-sizing :
    (header : Bytes) (c : ℕ)
    → isspace c ≡ false
    → step (sizing header) c ≡ some (sizing (header ++ c ∷ []))
unfolding step
step-sizing header c h = rw h

read-sizing :
    (header cs rest : Bytes)
    → All IsHexDigit cs
    → read (sizing header) (cs ++ rest) ≡ read (sizing (header ++ cs)) rest
read-sizing header [] rest h = rw append-nil
read-sizing header (c ∷ cs) rest h =
    read-step (sizing header) c (cs ++ rest) refl
      (step-sizing header c (digit-isspace c h.0.0 h.0.1))
    ∙ read-sizing (header ++ c ∷ []) cs rest h.1
    ∙ ap (λ header. read (sizing header) rest) (append_assoc header (c ∷ []) cs)

-- The end of the size line.
step-size_found :
    (header : Bytes) (size : BigNum)
    → of_hex header ≡ some size
    → step (sizing header) b'\r'
      ≡ some (record (sizing header) { chunk_size = size; chunk_size_found = true })
unfolding step isspace
step-size_found header size h = rw h

read-size_line :
    (header rest : Bytes) (size : BigNum)
    → of_hex header ≡ some size
    → read (sizing header) (b'\r' ∷ b'\n' ∷ rest) ≡ read (in_body size [] (0 ∷ []) header) rest
read-size_line header rest size h =
    read-step (sizing header) b'\r' (b'\n' ∷ rest) refl (step-size_found header size h)
    ∙ read-step _ b'\n' rest refl (unfold step in refl)

step-in_body :
    (size body received header : List ℕ) (c : ℕ)
    → lt received size ≡ true
    → step (in_body size body received header) c
      ≡ some (in_body size (body ++ c ∷ []) (increment received) header)
unfolding step
step-in_body size body received header c h = rw h

-- Where the count has reached the size, the next line feed completes the chunk.
read-end :
    (size body header rest : List ℕ)
    → lt size size ≡ false
    → read (in_body size body size header) (b'\r' ∷ b'\n' ∷ rest)
      ≡ some (record (in_body size body size header) { chunk_complete = true }, rest)
read-end size body header rest h =
    read-step (in_body size body size header) b'\r' (b'\n' ∷ rest)
      {chunk' = in_body size body size header} refl (unfold step in rw h)
    ∙ read-step (in_body size body size header) b'\n' rest
        {chunk' = record (in_body size body size header) { chunk_complete = true }} refl
        (unfold step in rw h)
    ∙ read_complete _ rest refl

-- The count is canonical, and what is left of the body makes it the size.
read-in_body :
    (size body received header cs rest : List ℕ)
    → IsWords size
    → IsCanonical size
    → IsWords received
    → IsCanonical received
    → value received + length cs ≡ value size
    → read (in_body size body received header) (cs ++ rest)
      ≡ read (in_body size (body ++ cs) size header) rest
read-in_body size body received header [] rest h c k d e =
    ap (λ r. read (in_body size body r header) rest)
      (canonical_unique received size k h d c (omega (arith, e)))
    ∙ ap (λ b. read (in_body size b size header) rest) (sym (append-nil body))
read-in_body size body received header (b ∷ cs) rest h c k d e =
    read-step (in_body size body received header) b (cs ++ rest) refl (
      step-in_body size body received header b ((lt-value received size k h d c).0.1 (omega arith)))
    ∙ read-in_body size (body ++ b ∷ []) (increment received) header cs rest h c
        (value-increment received k).1 (increment-IsCanonical received k d)
        (omega (arith, (value-increment received k).0))
    ∙ ap (λ b. read (in_body size b size header) rest) (append_assoc body (b ∷ []) cs)

value-zero : value (0 ∷ []) ≡ 0
unfolding value
value-zero = omega arith

lt-irreflexive : (x : BigNum) → IsWords x → IsCanonical x → lt x x ≡ false
lt-irreflexive x h c = elim (Bool-cases (lt x x)) [
  | inl e ↦ absurd (omega (arith, (lt-value x x h h c c).0.0 e))
  | inr e ↦ e
]

read-size :
    (cs rest : Bytes)
    → 0 < length cs
    → All IsHexDigit cs
    → read empty_chunk (cs ++ rest) ≡ read (sizing cs) rest
read-size [] rest p h = absurd (omega arith)
read-size (c ∷ cs) rest p h =
    read-step empty_chunk c (cs ++ rest) refl (step-empty c (digit-isspace c h.0.0 h.0.1))
    ∙ read-sizing (c ∷ []) cs rest h.1

-- A chunk as it stands once all of it is read.
abbrev pub received_chunk : HttpChunk → HttpChunk
received_chunk chunk = record {
  chunk_size = chunk.chunk_size;
  chunk_data = chunk.chunk_data;
  received_bytes = chunk.chunk_size;
  chunk_header = print chunk.chunk_size;
  chunk_size_started = true;
  chunk_size_found = true;
  chunk_body_start = true;
  chunk_body_finished = false;
  chunk_complete = true;
}

write_lem :
    (chunk : HttpChunk) (rest : Bytes)
    → write chunk ++ rest
      ≡ print chunk.chunk_size ++ b'\r' ∷ b'\n' ∷ (chunk.chunk_data ++ b'\r' ∷ b'\n' ∷ rest)
unfolding write
write_lem chunk rest = simp append_assoc

-- What operator<< writes of a chunk, whose canonical size is the number of its bytes and has a
-- first word below 2 ^ 60, operator>> reads back into an empty chunk: the size and the data are
-- the same, the chunk is complete, and all that follows is left in the buffer.
pub read_chunk-write :
    (chunk : HttpChunk) (w : ℕ) (ws : BigNum) (rest : Bytes)
    → chunk.chunk_size ≡ w ∷ ws
    → w < 16 ^ 15
    → IsWords ws
    → IsCanonical (w ∷ ws)
    → value (w ∷ ws) ≡ length chunk.chunk_data
    → read empty_chunk (write chunk ++ rest) ≡ some (received_chunk chunk, rest)
read_chunk-write chunk w ws rest s l h c e =
    let size = chunk.chunk_size in
    let header = print size in
    let end = b'\r' ∷ b'\n' ∷ rest in
    let words : IsWords size = rw s (omega (arith, l), h) in
    let canonical : IsCanonical size = rw s c in
    ap (read empty_chunk) (write_lem chunk rest)
    ∙ read-size header (b'\r' ∷ b'\n' ∷ (chunk.chunk_data ++ end)) (rw s (length-print_pos w ws))
        (rw s (print-IsHexDigit w ws))
    ∙ read-size_line header (chunk.chunk_data ++ end) size
        (ap (λ x. of_hex (print x)) s ∙ of_hex-print w ws l h ∙ ap some (sym s))
    ∙ read-in_body size [] (0 ∷ []) header chunk.chunk_data end words canonical (omega arith, tt) tt
        (omega (arith, value-zero, ap value s, e))
    ∙ read-end size chunk.chunk_data header rest (lt-irreflexive size words canonical)
