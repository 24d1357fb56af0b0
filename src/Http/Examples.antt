-- ===== src/Http/Examples.antt =====
-- Concrete messages, on which the results about the HTTP structs apply.
use stochastic_scheduler_con.Prelude.{
  ◌+◌, ◌≡◌, inl, refl, false, some, List, Bytes, [], ◌∷◌, ◌++◌, arith, length, codes, isspace, All,
}
use stochastic_scheduler_con.BigNum.Value.{value, weight}
use stochastic_scheduler_con.BigNum.Print.{print}
use stochastic_scheduler_con.Http.Chunk
use stochastic_scheduler_con.Http.Chunk.{HttpChunk, empty_chunk}
use stochastic_scheduler_con.Http.Chunk.Pieces.{read_pieces, joined, read_pieces-write}
use stochastic_scheduler_con.Http.Chunk.RoundTrip.{read_chunk-write, received_chunk}
use stochastic_scheduler_con.Http.Header
use stochastic_scheduler_con.Http.Header.{HttpHeader, empty_header, content_type}
use stochastic_scheduler_con.Http.Header.RoundTrip.{read_header-write, received_header, IsValueChar}
use stochastic_scheduler_con.Http.Version.{v1_1}
use stochastic_scheduler_con.Http.Message.{begin, empty_message}
use stochastic_scheduler_con.Http.Request
use stochastic_scheduler_con.Http.Request.{HttpRequest, empty_request, get}
use stochastic_scheduler_con.Http.Request.Line.{read-write_request_line, line_read, IsRouteChar}
use stochastic_scheduler_con.Http.Request.Safety
use stochastic_scheduler_con.Http.Request.Safety.{read_request-IsSafe}
use stochastic_scheduler_con.Http.Response.Safety as ResponseSafety
use stochastic_scheduler_con.Http.Response.Safety.{read_response-IsSafe}
use stochastic_scheduler_con.Http.Response
use stochastic_scheduler_con.Http.Response.{HttpResponse, no_content, empty_response}
use stochastic_scheduler_con.Http.Response.Line.{read-write_status-IsLine, IsLine, answered, fresh}

-- A chunk of three bytes.
abbrev three_bytes : HttpChunk
three_bytes = record empty_chunk { chunk_size = 3 ∷ []; chunk_data = codes "abc" }

three : value (3 ∷ []) ≡ 3
unfolding value weight
three = omega arith

read_chunk-write_example :
    Chunk.read empty_chunk (Chunk.write three_bytes ++ codes "0\r\n")
    ≡ some (received_chunk three_bytes, codes "0\r\n")
read_chunk-write_example =
    read_chunk-write three_bytes 3 [] (codes "0\r\n") refl (omega arith) (omega arith) (omega arith)
      three

abbrev first_piece : Bytes
first_piece = codes "3\r"

abbrev next_pieces : List Bytes
next_pieces = codes "\na" ∷ [] ∷ codes "bc\r\n0" ∷ codes "\r\n" ∷ []

three_bytes-pieces : first_piece ++ joined next_pieces ≡ Chunk.write three_bytes ++ codes "0\r\n"
unfolding Chunk.write print
three_bytes-pieces = refl

read_pieces-write_example :
    read_pieces (Chunk.read empty_chunk first_piece) next_pieces
    ≡ some (received_chunk three_bytes, codes "0\r\n")
read_pieces-write_example =
    read_pieces-write three_bytes 3 [] (codes "0\r\n") first_piece next_pieces refl (omega arith)
      (omega arith) (omega arith) three three_bytes-pieces

-- Content-Type: text
abbrev text_header : HttpHeader
text_header = record empty_header { field_name = content_type; field_value = codes "text" }

starts_text : isspace b't' ≡ false
unfolding isspace
starts_text = refl

text_chars : All IsValueChar (codes "ext")
unfolding isspace
text_chars = (inl refl, (inl refl, (inl refl, tt)))

read_header-write_example :
    Header.read empty_header (Header.write text_header ++ codes "\r\n")
    ≡ (received_header content_type (codes "text"), codes "\r\n")
read_header-write_example =
    read_header-write text_header b't' (codes "ext") (codes "\r\n") tt refl starts_text text_chars

-- A request whose length is no number, and a response in chunks.
read_request-IsSafe_example :
    Safety.IsSafe
      (Request.read 40 empty_request (codes "PUT /a HTTP/1.1\r\nContent-Length: x\r\n\r\nabc"))
read_request-IsSafe_example =
    read_request-IsSafe 40 empty_request (codes "PUT /a HTTP/1.1\r\nContent-Length: x\r\n\r\nabc")
      (inl refl)

read_response-IsSafe_example :
    ResponseSafety.IsSafe
      (Response.read 40 empty_response (codes "HTTP/1.1 200 OK\r\n\r\n0\r\n\r\n"))
read_response-IsSafe_example =
    read_response-IsSafe 40 empty_response (codes "HTTP/1.1 200 OK\r\n\r\n0\r\n\r\n") (inl refl)

-- GET /a HTTP/1.1
abbrev get_a : HttpRequest
get_a = record empty_request { verb = get; route = codes "/a"; version = v1_1 }

route_chars : All IsRouteChar (codes "/a")
unfolding isspace
route_chars = (refl, (refl, tt))

read-write_request_line_example :
    Request.read
      (length (Request.write_line get_a) + 9)
      empty_request
      (Request.write_line get_a ++ codes "\r\n")
    ≡ Request.read_loop 9 (line_read (begin empty_message) get (codes "/a") v1_1) (codes "\r\n")
read-write_request_line_example =
    read-write_request_line 9 get_a b'/' (codes "a") (codes "\r\n") tt tt refl route_chars

-- 204 is written, and read back as 500.
read-write_status-IsLine_example :
    (res : HttpResponse) × IsLine v1_1 (answered no_content) (begin empty_message) res
    × (Response.read
          (length (Response.write_line (fresh empty_message v1_1 no_content)) + 4)
          empty_response
          (Response.write_line (fresh empty_message v1_1 no_content) ++ codes "\r\n")
        ≡ Response.read_loop 4 res (codes "\r\n"))
read-write_status-IsLine_example =
    read-write_status-IsLine 4 empty_message v1_1 no_content (codes "\r\n") tt
