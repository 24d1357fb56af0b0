-- ===== src/Http/Request.antt =====
-- HttpRequest: operator>> and operator<<.
pub mod Line
pub mod Safety
use stochastic_scheduler_con.Prelude.{
  ℕ, zero, suc, ◌+◌, ◌≡◌, Bool, true, false, not, ◌&&◌, ◌||◌, List, [], ◌∷◌, ◌++◌, ltb, ◌==◌,
  if◌then◌else◌, length, drop, Bytes, codes, isspace, bytes_eq,
}
use stochastic_scheduler_con.Prelude.Outcome.{Outcome, ok, out_of_fuel, ◌>>=◌}
use stochastic_scheduler_con.Http.Chunk.{HttpChunk}
use stochastic_scheduler_con.Http.Version.{
  HttpVersion, v1, v1_1, v2, v3, v0_9, max_find_state, find_version, version_of,
}
use stochastic_scheduler_con.Http.Message.{
  Message, empty_message, begin, header_round, chunk_round, write_headers, write_body,
}

pub data HttpVerb : Type 0 where
  unknown get post patch put trace delete connect : HttpVerb

pub record HttpRequest : Type 0 where
  pub verb : HttpVerb
  pub route : Bytes
  pub version : HttpVersion
  pub message : Message
  pub route_started : Bool
  pub route_finished : Bool
  pub version_buf : Bytes
  pub find_version_state : ℕ
  pub version_finished : Bool
  pub verb_buf : Bytes
  pub verb_started : Bool
  pub verb_finished : Bool
  pub http_request_line_complete : Bool

-- HttpRequest{}
abbrev pub empty_request : HttpRequest
empty_request = record {
  verb = unknown;
  route = [];
  version = v1;
  message = empty_message;
  route_started = false;
  route_finished = false;
  version_buf = [];
  find_version_state = 0;
  version_finished = false;
  verb_buf = [];
  verb_started = false;
  verb_finished = false;
  http_request_line_complete = false;
}

unfoldable pub verb_of : Bytes → HttpVerb
verb_of buf =
    if bytes_eq buf (codes "GET")
    then get
    else if bytes_eq buf (codes "POST")
    then post
    else if bytes_eq buf (codes "PATCH")
    then patch
    else if bytes_eq buf (codes "PUT")
    then put
    else if bytes_eq buf (codes "TRACE")
    then trace
    else if bytes_eq buf (codes "DELETE")
    then delete
    else if bytes_eq buf (codes "CONNECT")
    then connect
    else unknown

-- One of the characters that a verb begins with.
unfoldable pub begins_verb : ℕ → Bool
begins_verb c = c == b'G' || c == b'P' || c == b'T' || c == b'D' || c == b'C'

-- One character of the request line; true where the operator returns at once.
unfoldable pub line_step : HttpRequest → ℕ → HttpRequest × Bool
unfolding begins_verb
line_step req c =
    if not req.verb_started
    then (if not (isspace c)
        then (if begins_verb c
            then (record req { verb_started = true; verb_buf = req.verb_buf ++ c ∷ [] }, false)
            else (req, true))
        else (req, false))
    else if not req.verb_finished
    then (
      if not (isspace c)
          then record req { verb_buf = req.verb_buf ++ c ∷ [] }
          else record req { verb = verb_of req.verb_buf; verb_finished = true },
      false,
    )
    else if not req.route_started
    then (
      if not (isspace c)
          then record req { route_started = true; route = req.route ++ c ∷ [] }
          else req,
      false,
    )
    else if not req.route_finished
    then (
      if not (isspace c)
          then record req { route = req.route ++ c ∷ [] }
          else record req { route_finished = true },
      false,
    )
    else if ltb req.find_version_state max_find_state
    then (record req { find_version_state = find_version req.find_version_state c }, false)
    else if not req.version_finished
    then (
      if not (isspace c)
          then record req { version_buf = req.version_buf ++ c ∷ [] }
          else record req { version = version_of req.version_buf; version_finished = true },
      false,
    )
    else (if c == b'\n' then record req { http_request_line_complete = true } else req, false)

-- When the size of a chunk is still to be set from Content-Length.
unfoldable pub needs_size : HttpChunk → Bool
needs_size c = not c.chunk_size_found && not c.chunk_body_start

-- The condition of the loop, but for the bytes that are left.
unfoldable pub unfinished : HttpRequest → Bool
unfinished req =
    let m = req.message in
    ltb m.next_header m.num_headers
    || ltb m.next_chunk m.num_chunks
    || not req.http_request_line_complete

-- One round of the loop, at the first of the bytes that are left; true where the operator
-- returns at once.
unfoldable pub round : HttpRequest → ℕ → Bytes → Outcome ((HttpRequest × Bytes) × Bool)
round req c cs =
    let m = req.message in
    elim req.http_request_line_complete [
      | false ↦ ok (((line_step req c).0, cs), (line_step req c).1)
      | true ↦ elim (ltb m.next_header m.num_headers) [
        | true ↦ header_round m (c ∷ cs) >>= λ r. ok ((record req { message = r.0 }, r.1), false)
        | false ↦ chunk_round needs_size m (c ∷ cs) >>= λ r.
            ok ((record req { message = r.0 }, r.1), false)
      ]
    ]

-- The loop of operator>>, on fuel.
unfoldable pub read_loop : ℕ → HttpRequest → Bytes → Outcome (HttpRequest × Bytes)
read_loop zero req bytes = out_of_fuel
read_loop (suc fuel) req [] = ok (req, [])
read_loop (suc fuel) req (c ∷ cs) = elim (unfinished req) [
  | false ↦ ok (req, c ∷ cs)
  | true ↦ round req c cs >>= λ r. elim r.1 [ true ↦ ok r.0 | false ↦ read_loop fuel r.0.0 r.0.1 ]
]

abbrev pub is_unknown : HttpVerb → Bool
is_unknown v = elim v [ unknown ↦ true | _ ↦ false ]

-- The first part of operator>>.
unfoldable pub start : HttpRequest → HttpRequest
unfolding begin
start req =
    let m = req.message in
    if m.num_headers == 0 && m.num_chunks == 0 && is_unknown req.verb
    then record req { message = begin m }
    else req

-- operator>>
unfoldable pub read : ℕ → HttpRequest → Bytes → Outcome (HttpRequest × Bytes)
unfolding start
read fuel req bytes = read_loop fuel (start req) bytes

unfoldable pub verb_text : HttpRequest → Bytes
verb_text req = elim req.verb [
  | get ↦ codes "GET "
  | post ↦ codes "POST "
  | patch ↦ codes "PATCH "
  | put ↦ codes "PUT "
  | trace ↦ codes "TRACE "
  | delete ↦ codes "DELETE "
  | connect ↦ codes "CONNECT "
  | unknown ↦ req.verb_buf
]

unfoldable pub version_text : HttpVersion → Bytes
version_text v = elim v [
  | v1 ↦ codes "1.0\r\n"
  | v1_1 ↦ codes "1.1\r\n"
  | v2 ↦ codes "2\r\n"
  | v3 ↦ codes "3\r\n"
  | v0_9 ↦ codes "0.9\r\n"
  | _ ↦ codes "1.0\r\n"
]

-- The request line that operator<< writes.
unfoldable pub write_line : HttpRequest → Bytes
unfolding verb_text version_text
write_line req = verb_text req ++ (req.route ++ (codes " HTTP/" ++ version_text req.version))

abbrev has_body : HttpVerb → Bool
has_body v = elim v [ get ↦ false | delete ↦ false | trace ↦ false | _ ↦ true ]

-- operator<<
unfoldable pub write : HttpRequest → Outcome Bytes
unfolding write_line write_headers write_body
write req =
    let m = req.message in
    let head =
      (if not req.http_request_line_complete then write_line req else [])
      ++ write_headers (drop m.next_header m.headers) in
    elim (has_body req.verb && ltb m.next_chunk (length m.chunks)) [
      | true ↦ write_body m >>= λ body. ok (head ++ body)
      | false ↦ ok head
    ]
