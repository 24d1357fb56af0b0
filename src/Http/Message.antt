-- ===== src/Http/Message.antt =====
-- The headers and chunks of a request or a response, which the two structs hold and the two
-- parsers treat alike.
pub mod Validity
use stochastic_scheduler_con.Prelude.{
  ℕ, ◌+◌, Bool, true, false, Option, none, some, List, [], ◌∷◌, ◌++◌, if◌then◌else◌, get_elem?, set,
  drop, Bytes, codes,
}
use stochastic_scheduler_con.Prelude.Outcome.{Outcome, ok, ◌>>=◌, or_throw, or_fault}
use stochastic_scheduler_con.BigNum.{eq, ne}
use stochastic_scheduler_con.BigNum.Print.{of_dec}
use stochastic_scheduler_con.Http.Chunk
use stochastic_scheduler_con.Http.Chunk.{HttpChunk, empty_chunk}
use stochastic_scheduler_con.Http.Header
use stochastic_scheduler_con.Http.Header.{
  HttpHeader, HttpHeaderField, content_length, end_of_headers, empty_header,
}

pub record Message : Type 0 where
  pub headers : List HttpHeader
  pub chunks : List HttpChunk
  pub next_header : ℕ
  pub num_headers : ℕ
  pub next_chunk : ℕ
  pub num_chunks : ℕ
  pub not_chunked_transfer : Bool

abbrev pub empty_message : Message
empty_message = record {
  headers = [];
  chunks = [];
  next_header = 0;
  num_headers = 0;
  next_chunk = 0;
  num_chunks = 0;
  not_chunked_transfer = false;
}

-- What a new message is given before it is read.
unfoldable pub begin : Message → Message
begin m = record m {
  num_headers = 1;
  num_chunks = 1;
  headers = m.headers ++ empty_header ∷ [];
  chunks = m.chunks ++ empty_chunk ∷ [];
  next_header = 0;
  next_chunk = 0;
}

abbrev pub is_content_length : HttpHeader → Bool
is_content_length h = elim h.field_name [ content_length ↦ true | _ ↦ false ]

-- std::find_if by CONTENT_LENGTH.
unfoldable pub find_content_length : List HttpHeader → Option HttpHeader
find_content_length [] = none
find_content_length (h ∷ hs) =
    let rest = find_content_length hs in if is_content_length h then some h else rest

-- What follows a header that is complete.
unfoldable pub header_done : Message → HttpHeader → Message
header_done m h = record m {
  not_chunked_transfer = if is_content_length h then true else m.not_chunked_transfer;
  num_headers = if h.not_last then m.num_headers + 1 else m.num_headers;
  headers = if h.not_last then m.headers ++ empty_header ∷ [] else m.headers;
  next_header = m.next_header + 1;
}

-- One round of the loop at a header.
unfoldable pub header_round : Message → Bytes → Outcome (Message × Bytes)
unfolding header_done
header_round m bytes = or_fault (get_elem? m.headers m.next_header) >>= λ next_header.
    let (h, rest) = Header.read next_header bytes in
    let m' = record m { headers = set m.headers m.next_header h } in
    ok (if h.header_complete then header_done m' h else m', rest)

-- The size of a chunk by Content-Length, where it is still needed.
unfoldable pub give_size : (HttpChunk → Bool) → Message → HttpChunk → Outcome HttpChunk
unfolding find_content_length
give_size needs_size m c = elim (needs_size c) [
  | false ↦ ok c
  | true ↦ or_fault (find_content_length m.headers) >>= λ it.
      or_throw (of_dec it.field_value) >>= λ size. ok (record c {
        chunk_size = size;
        chunk_size_started = true;
        chunk_size_found = true;
        chunk_body_start = true;
      })
]

-- What follows a chunk of a chunked transfer that is complete.
unfoldable pub chunk_done : Message → HttpChunk → Message
chunk_done m c = record m {
  num_chunks = if ne c.chunk_size (0 ∷ []) then m.num_chunks + 1 else m.num_chunks;
  chunks = if ne c.chunk_size (0 ∷ []) then m.chunks ++ empty_chunk ∷ [] else m.chunks;
  next_chunk = m.next_chunk + 1;
}

-- One round of the loop at a chunk; the two parsers differ in when a size is needed.
unfoldable pub chunk_round : (HttpChunk → Bool) → Message → Bytes → Outcome (Message × Bytes)
unfolding chunk_done
chunk_round needs_size m bytes = or_fault (get_elem? m.chunks m.next_chunk) >>= λ next_chunk.
    elim m.not_chunked_transfer [
      | true ↦ give_size needs_size m next_chunk >>= λ sized.
          or_throw (Chunk.read sized bytes) >>= λ r. ok (
            record m {
              chunks = set m.chunks m.next_chunk r.0;
              next_chunk =
                  if eq r.0.chunk_size r.0.received_bytes then m.num_chunks else m.next_chunk;
            },
            r.1,
          )
      | false ↦ or_throw (Chunk.read next_chunk bytes) >>= λ r.
          let m' = record m { chunks = set m.chunks m.next_chunk r.0 } in
          ok (if r.0.chunk_complete then chunk_done m' r.0 else m', r.1)
    ]

-- The headers that operator<< writes, from next_header on.
unfoldable pub write_headers : List HttpHeader → Bytes
write_headers [] = []
write_headers (h ∷ hs) =
    (elim h.field_name [ end_of_headers ↦ codes "\r\n" | _ ↦ Header.write h ]) ++ write_headers hs

unfoldable pub write_chunks : List HttpChunk → Bytes
write_chunks [] = []
write_chunks (c ∷ cs) = Chunk.write c ++ write_chunks cs

-- The body that operator<< writes: the data of the first chunk where a Content-Length is given
-- (the source reads chunks[0]), and otherwise the chunks from next_chunk on.
unfoldable pub write_body : Message → Outcome Bytes
unfolding find_content_length write_chunks
write_body m = elim (find_content_length m.headers) [
  | some _ ↦ or_fault (get_elem? m.chunks 0) >>= λ c. ok c.chunk_data
  | none ↦ ok (write_chunks (drop m.next_chunk m.chunks))
]
