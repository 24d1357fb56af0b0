-- ===== src/Http/Chunk.antt =====
-- HttpChunk: its state machine over a stream of bytes, and operator<<.
pub mod Stream
pub mod RoundTrip
pub mod Pieces
use stochastic_scheduler_con.Prelude.{
  ℕ, ◌≡◌, Bool, true, false, not, ◌&&◌, Option, none, some, List, [], ◌∷◌, ◌++◌, ◌==◌,
  if◌then◌else◌, Bytes, isspace,
}
use stochastic_scheduler_con.BigNum.{BigNum, default, lt, increment}
use stochastic_scheduler_con.BigNum.Print.{of_hex, print}

pub record HttpChunk : Type 0 where
  pub chunk_size : BigNum
  pub chunk_data : Bytes
  pub received_bytes : BigNum
  pub chunk_header : Bytes
  pub chunk_size_started : Bool
  pub chunk_size_found : Bool
  pub chunk_body_start : Bool
  pub chunk_body_finished : Bool
  pub chunk_complete : Bool

-- chunks.emplace_back(): every field is value-initialised.
abbrev pub empty_chunk : HttpChunk
empty_chunk = record {
  chunk_size = default;
  chunk_data = [];
  received_bytes = default;
  chunk_header = [];
  chunk_size_started = false;
  chunk_size_found = false;
  chunk_body_start = false;
  chunk_body_finished = false;
  chunk_complete = false;
}

-- chunk_size = HttpBigNum(hex, chunk_header); `none` is the exception that it throws.
unfoldable pub set_size : HttpChunk → Option BigNum → Option HttpChunk
set_size chunk none = none
set_size chunk (some size) = some (record chunk { chunk_size_found = true; chunk_size = size })

-- One character of operator>>.
unfoldable pub step : HttpChunk → ℕ → Option HttpChunk
unfolding set_size
step chunk c =
    if not chunk.chunk_size_started
    then some (
        if not (isspace c)
        then record chunk { chunk_size_started = true; chunk_header = chunk.chunk_header ++ c ∷ [] }
        else chunk)
    else if not chunk.chunk_size_found
    then (if not (isspace c)
        then some (record chunk { chunk_header = chunk.chunk_header ++ c ∷ [] })
        else set_size chunk (of_hex chunk.chunk_header))
    else if not chunk.chunk_body_start
    then some (
        if c == b'\n'
        then record chunk { chunk_body_start = true; received_bytes = 0 ∷ [] }
        else chunk)
    else if not chunk.chunk_body_finished && lt chunk.received_bytes chunk.chunk_size
    then some (record chunk {
      chunk_data = chunk.chunk_data ++ c ∷ [];
      received_bytes = increment chunk.received_bytes;
    })
    else some (if c == b'\n' then record chunk { chunk_complete = true } else chunk)

-- operator>>: the chunk and the bytes that are left in the buffer.
unfoldable pub read : HttpChunk → Bytes → Option (HttpChunk × Bytes)
read chunk [] = some (chunk, [])
read chunk (c ∷ cs) = elim chunk.chunk_complete [
  | true ↦ some (chunk, c ∷ cs)
  | false ↦ elim (step chunk c) [ none ↦ none | some chunk' ↦ read chunk' cs ]
]

-- operator<<
unfoldable pub write : HttpChunk → Bytes
write chunk = print chunk.chunk_size ++ b'\r' ∷ b'\n' ∷ (chunk.chunk_data ++ b'\r' ∷ b'\n' ∷ [])
