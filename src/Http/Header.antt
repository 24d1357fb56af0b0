-- ===== src/Http/Header.antt =====
-- HttpHeader: its state machine over a stream of bytes, and operator<<.
pub mod Stream
pub mod RoundTrip
use stochastic_scheduler_con.Prelude.{
  ℕ, ◌≡◌, Bool, true, false, not, ◌&&◌, ◌||◌, List, [], ◌∷◌, ◌++◌, map, ◌==◌, if◌then◌else◌, Bytes,
  codes, isspace, toupper, bytes_eq,
}

pub data HttpHeaderField : Type 0 where
  unknown content_type content_length accept host transfer_encoding : HttpHeaderField
  end_of_headers connection : HttpHeaderField

pub record HttpHeader : Type 0 where
  pub field_name : HttpHeaderField
  pub field_value : Bytes
  pub buf : Bytes
  pub field_name_found : Bool
  pub field_delimiter_found : Bool
  pub field_value_started : Bool
  pub field_value_ended : Bool
  pub header_complete : Bool
  pub not_last : Bool

-- headers.emplace_back(): every field is value-initialised.
abbrev pub empty_header : HttpHeader
empty_header = record {
  field_name = unknown;
  field_value = [];
  buf = [];
  field_name_found = false;
  field_delimiter_found = false;
  field_value_started = false;
  field_value_ended = false;
  header_complete = false;
  not_last = false;
}

unfoldable pub field_of : Bytes → HttpHeaderField
field_of buf =
    if bytes_eq buf (codes "CONTENT-TYPE")
    then content_type
    else if bytes_eq buf (codes "CONTENT-LENGTH")
    then content_length
    else if bytes_eq buf (codes "ACCEPT")
    then accept
    else if bytes_eq buf (codes "HOST")
    then host
    else if bytes_eq buf (codes "TRANSFER-ENCODING")
    then transfer_encoding
    else if bytes_eq buf (codes "CONNECTION")
    then connection
    else unknown

-- The branch before the field name is found.
unfoldable pub name_step : HttpHeader → ℕ → HttpHeader
name_step header cur =
    if not header.not_last
    then (if cur == b'\n'
        then record header {
          field_name_found = true;
          field_name = end_of_headers;
          header_complete = true;
        }
        else if not (isspace cur)
        then record header { not_last = true; buf = header.buf ++ cur ∷ [] }
        else header)
    else if not (isspace cur || cur == b':')
    then record header { buf = header.buf ++ cur ∷ [] }
    else record header {
      field_delimiter_found = if cur == b':' then true else header.field_delimiter_found;
      field_name_found = true;
      buf = map toupper header.buf;
      field_name = field_of (map toupper header.buf);
    }

-- The branch after it.
unfoldable pub value_step : HttpHeader → ℕ → HttpHeader
value_step header cur =
    if not header.field_delimiter_found && cur == b':'
    then record header { field_delimiter_found = true }
    else if cur == b'\n'
    then record header { header_complete = true }
    else if not (isspace cur) && not header.field_value_started
    then record header { field_value_started = true; field_value = header.field_value ++ cur ∷ [] }
    else if header.field_value_started && not header.field_value_ended
    then (if not (isspace cur) || cur == b' ' || cur == b'\t'
        then record header { field_value = header.field_value ++ cur ∷ [] }
        else record header { field_value_ended = true })
    else header

-- One character of operator>>; where the source breaks, the header is complete.
unfoldable pub step : HttpHeader → ℕ → HttpHeader
step header cur =
    if not header.field_name_found then name_step header cur else value_step header cur

-- operator>>: the header and the bytes that are left in the buffer.
unfoldable pub read : HttpHeader → Bytes → HttpHeader × Bytes
read header [] = (header, [])
read header (c ∷ cs) = elim header.header_complete [
  | true ↦ (header, c ∷ cs)
  | false ↦ read (step header c) cs
]

-- operator<<
unfoldable pub write : HttpHeader → Bytes
write header = elim header.field_name [
  | content_type ↦ codes "Content-Type: " ++ header.field_value ++ codes "\r\n"
  | content_length ↦ codes "Content-Length: " ++ header.field_value ++ codes "\r\n"
  | accept ↦ codes "Accept: " ++ header.field_value ++ codes "\r\n"
  | host ↦ codes "Host: " ++ header.field_value ++ codes "\r\n"
  | transfer_encoding ↦ codes "Transfer-Encoding: " ++ header.field_value ++ codes "\r\n"
  | connection ↦ codes "Connection: " ++ header.field_value ++ codes "\r\n"
  | _ ↦ []
]
