-- ===== src/Http/Chunk/Pieces.antt =====
-- operator>> of HttpChunk over a chunk that arrives in pieces.
use stochastic_scheduler_con.Prelude.{
  ℕ, ◌^◌, ◌<◌, ◌≡◌, sym, ap, ◌∙◌, Option, some, List, [], ◌∷◌, ◌++◌, append-nil, append_assoc,
  length, Bytes,
}
use stochastic_scheduler_con.BigNum.{BigNum}
use stochastic_scheduler_con.BigNum.Value.{value, IsWords, IsCanonical}
use stochastic_scheduler_con.Http.Chunk.{HttpChunk, empty_chunk, read, write}
use stochastic_scheduler_con.Http.Chunk.Stream.{resume, read_chunk-append}
use stochastic_scheduler_con.Http.Chunk.RoundTrip.{received_chunk, read_chunk-write}

-- The calls of operator>>, one for each piece.
unfoldable pub read_pieces : Option (HttpChunk × Bytes) → List Bytes → Option (HttpChunk × Bytes)
read_pieces received [] = received
read_pieces received (piece ∷ pieces) = read_pieces (resume received piece) pieces

abbrev pub joined : List Bytes → Bytes
joined [] = []
joined (piece ∷ pieces) = piece ++ joined pieces

read_pieces_lem :
    (chunk : HttpChunk) (xs : Bytes) (pieces : List Bytes)
    → read_pieces (read chunk xs) pieces ≡ read chunk (xs ++ joined pieces)
unfolding read_pieces
read_pieces_lem chunk xs [] = ap (read chunk) (sym (append-nil xs))
read_pieces_lem chunk xs (piece ∷ pieces) =
    ap (λ r. read_pieces r pieces) (sym (read_chunk-append chunk xs piece))
    ∙ read_pieces_lem chunk (xs ++ piece) pieces
    ∙ ap (read chunk) (append_assoc xs piece (joined pieces))

-- What operator<< writes of a chunk, whose canonical size is the number of its bytes and has a
-- first word below 2 ^ 60, may arrive with what follows it in any pieces, one call of operator>>
-- for each, the first on an empty chunk: the last call gives the chunk with the same size and data,
-- complete, and leaves all that follows in the buffer.
pub read_pieces-write :
    (chunk : HttpChunk) (w : ℕ) (ws : BigNum) (rest first : Bytes) (pieces : List Bytes)
    → chunk.chunk_size ≡ w ∷ ws
    → w < 16 ^ 15
    → IsWords ws
    → IsCanonical (w ∷ ws)
    → value (w ∷ ws) ≡ length chunk.chunk_data
    → first ++ joined pieces ≡ write chunk ++ rest
    → read_pieces (read empty_chunk first) pieces ≡ some (received_chunk chunk, rest)
read_pieces-write chunk w ws rest first pieces s l h c e j =
    read_pieces_lem empty_chunk first pieces
    ∙ ap (read empty_chunk) j
    ∙ read_chunk-write chunk w ws rest s l h c e
