-- ===== src/Http/Response.antt =====
-- HttpResponse: operator>> and operator<<.
pub mod Line
pub mod Safety
use stochastic_scheduler_con.Prelude.{
  ℕ, zero, suc, ◌+◌, ◌≡◌, Bool, true, false, not, ◌&&◌, ◌||◌, List, [], ◌∷◌, ◌++◌, ltb, ◌==◌,
  if◌then◌else◌, length, drop, Bytes, codes, isspace, bytes_eq,
}
use stochastic_scheduler_con.Prelude.Outcome.{Outcome, ok, out_of_fuel, ◌>>=◌}
use stochastic_scheduler_con.Http.Chunk.{HttpChunk}
use stochastic_scheduler_con.Http.Version.{
  HttpVersion, v1, v1_1, v2, v3, v0_9, max_find_state, find_version, version_of,
}
use stochastic_scheduler_con.Http.Message.{
  Message, empty_message, begin, header_round, chunk_round, write_headers, write_body,
}

-- `zeroed` is the value 0 of a value-initialised status, which is no enumerator.
pub data HttpStatus : Type 0 where
  ok_status no_content not_found conflict method_not_allowed : HttpStatus
  internal_server_error created accepted zeroed : HttpStatus

pub record HttpResponse : Type 0 where
  pub version : HttpVersion
  pub status : HttpStatus
  pub message : Message
  pub version_buf : Bytes
  pub find_version_state : ℕ
  pub version_finished : Bool
  pub status_buf : Bytes
  pub status_started : Bool
  pub status_finished : Bool
  pub status_line_finished : Bool

-- HttpResponse{}
abbrev pub empty_response : HttpResponse
empty_response = record {
  version = v1;
  status = zeroed;
  message = empty_message;
  version_buf = [];
  find_version_state = 0;
  version_finished = false;
  status_buf = [];
  status_started = false;
  status_finished = false;
  status_line_finished = false;
}

unfoldable pub status_of : Bytes → HttpStatus
status_of buf =
    if bytes_eq buf (codes "200")
    then ok_status
    else if bytes_eq buf (codes "204")
    then no_content
    else if bytes_eq buf (codes "404")
    then not_found
    else if bytes_eq buf (codes "409")
    then conflict
    else if bytes_eq buf (codes "405")
    then method_not_allowed
    else if bytes_eq buf (codes "500")
    then internal_server_error
    else if bytes_eq buf (codes "201")
    then created
    else if bytes_eq buf (codes "202")
    then accepted
    else internal_server_error

-- One character of the status line.
unfoldable pub line_step : HttpResponse → ℕ → HttpResponse
line_step res c =
    if ltb res.find_version_state max_find_state
    then record res { find_version_state = find_version res.find_version_state c }
    else if not res.version_finished
    then (if not (isspace c)
        then record res { version_buf = res.version_buf ++ c ∷ [] }
        else record res { version = version_of res.version_buf; version_finished = true })
    else if not res.status_started
    then (if not (isspace c)
        then record res { status_buf = res.status_buf ++ c ∷ []; status_started = true }
        else res)
    else if not res.status_finished
    then (if not (isspace c)
        then record res { status_buf = res.status_buf ++ c ∷ [] }
        else record res { status = status_of res.status_buf; status_finished = true })
    else (if c == b'\n' then record res { status_line_finished = true } else res)

-- When the size of a chunk is still to be set from Content-Length.
unfoldable pub needs_size : HttpChunk → Bool
needs_size c = not c.chunk_size_started || not c.chunk_size_found || not c.chunk_body_start

-- The condition of the loop, but for the bytes that are left.
unfoldable pub unfinished : HttpResponse → Bool
unfinished res =
    let m = res.message in
    ltb m.next_header m.num_headers || ltb m.next_chunk m.num_chunks || not res.status_line_finished

-- One round of the loop, at the first of the bytes that are left.
unfoldable pub round : HttpResponse → ℕ → Bytes → Outcome (HttpResponse × Bytes)
round res c cs =
    let m = res.message in
    elim res.status_line_finished [
      | false ↦ ok (line_step res c, cs)
      | true ↦ elim (ltb m.next_header m.num_headers) [
        | true ↦ header_round m (c ∷ cs) >>= λ r. ok (record res { message = r.0 }, r.1)
        | false ↦ chunk_round needs_size m (c ∷ cs) >>= λ r. ok (record res { message = r.0 }, r.1)
      ]
    ]

-- The loop of operator>>, on fuel.
unfoldable pub read_loop : ℕ → HttpResponse → Bytes → Outcome (HttpResponse × Bytes)
read_loop zero res bytes = out_of_fuel
read_loop (suc fuel) res [] = ok (res, [])
read_loop (suc fuel) res (c ∷ cs) = elim (unfinished res) [
  | false ↦ ok (res, c ∷ cs)
  | true ↦ round res c cs >>= λ r. read_loop fuel r.0 r.1
]

-- The first part of operator>>.
unfoldable pub start : HttpResponse → HttpResponse
unfolding begin
start res =
    let m = res.message in
    if m.num_headers == 0 && m.num_chunks == 0 && res.find_version_state == 0
    then record res { message = begin m }
    else res

-- operator>>
unfoldable pub read : ℕ → HttpResponse → Bytes → Outcome (HttpResponse × Bytes)
unfolding start
read fuel res bytes = read_loop fuel (start res) bytes

unfoldable pub version_text : HttpVersion → Bytes
version_text v = elim v [
  | v1 ↦ codes "HTTP/1.0 "
  | v1_1 ↦ codes "HTTP/1.1 "
  | v2 ↦ codes "HTTP/2 "
  | v3 ↦ codes "HTTP/3 "
  | v0_9 ↦ codes "HTTP/0.9 "
  | _ ↦ codes "HTTP/1.0"
]

unfoldable pub status_text : HttpStatus → Bytes
status_text s = elim s [
  | ok_status ↦ codes "200 OK\r\n"
  | not_found ↦ codes "404 Not Found\r\n"
  | conflict ↦ codes "409 Conflict\r\n"
  | method_not_allowed ↦ codes "405 Method Not Allowed\r\n"
  | internal_server_error ↦ codes "500 Internal Server Error\r\n"
  | created ↦ codes "201 Created\r\n"
  | accepted ↦ codes "202 Accepted\r\n"
  | _ ↦ codes "500 Internal Server Error\r\n"
]

-- The status line that operator<< writes.
unfoldable pub write_line : HttpResponse → Bytes
unfolding version_text status_text
write_line res = version_text res.version ++ status_text res.status

-- operator<<
unfoldable pub write : HttpResponse → Outcome Bytes
unfolding write_line write_headers write_body
write res =
    let m = res.message in
    let head =
      (if not res.status_line_finished then write_line res else [])
      ++ write_headers (drop m.next_header m.headers) in
    elim (m.next_chunk == length m.chunks) [
      | false ↦ write_body m >>= λ body. ok (head ++ body)
      | true ↦ ok head
    ]
