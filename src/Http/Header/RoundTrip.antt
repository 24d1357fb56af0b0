-- ===== src/Http/Header/RoundTrip.antt =====
-- A header that operator<< writes is read back by operator>>.
use stochastic_scheduler_con.Prelude.{
  ℕ, ◌≡◌, ◌⊎◌, refl, sym, ap, ◌∙◌, true, false, [], ◌∷◌, ◌++◌, append_assoc, append-nil, arith,
  Bytes, codes, All, isspace, toupper, bytes_eq,
}
use stochastic_scheduler_con.Http.Header.{
  HttpHeaderField, unknown, content_type, content_length, accept, host, transfer_encoding,
  end_of_headers, connection, HttpHeader, empty_header, step, name_step, value_step, field_of, read,
  write,
}
use stochastic_scheduler_con.Http.Header.Stream.{read-step}

-- The fields that operator<< writes, by the name that operator>> leaves in `buf`.
abbrev pub upper_name : HttpHeaderField → Bytes
upper_name content_type = codes "CONTENT-TYPE"
upper_name content_length = codes "CONTENT-LENGTH"
upper_name accept = codes "ACCEPT"
upper_name host = codes "HOST"
upper_name transfer_encoding = codes "TRANSFER-ENCODING"
upper_name connection = codes "CONNECTION"
upper_name _ = []

abbrev pub IsNamed : HttpHeaderField → Type 0
IsNamed unknown = ⊥
IsNamed end_of_headers = ⊥
IsNamed _ = Unit

-- A character that may stand within a field value, and one that may begin it.
abbrev pub IsValueChar : ℕ → Type 0
IsValueChar c = (isspace c ≡ false) ⊎ (c ≡ b' ') ⊎ (c ≡ b'\t')

abbrev in_value : HttpHeaderField → Bytes → HttpHeader
in_value field text = record empty_header {
  field_name = field;
  field_value = text;
  buf = upper_name field;
  field_name_found = true;
  field_delimiter_found = true;
  field_value_started = true;
  not_last = true;
}

-- A header as it stands once its line is read.
abbrev pub received_header : HttpHeaderField → Bytes → HttpHeader
received_header field text = record (in_value field text) {
  field_value_ended = true;
  header_complete = true;
}

read-name :
    (field : HttpHeaderField) (text rest : Bytes)
    → IsNamed field
    → read empty_header
        (write (record empty_header { field_name = field; field_value = text }) ++ rest)
      ≡ read
          (record (in_value field []) { field_value_started = false })
          ((text ++ codes "\r\n") ++ rest)
unfolding read step name_step value_step field_of bytes_eq isspace toupper write
read-name unknown text rest h = absurd h
read-name content_type text rest h = refl
read-name content_length text rest h = refl
read-name accept text rest h = refl
read-name host text rest h = refl
read-name transfer_encoding text rest h = refl
read-name end_of_headers text rest h = absurd h
read-name connection text rest h = refl

step-value :
    (field : HttpHeaderField) (text : Bytes) (c : ℕ)
    → IsValueChar c
    → step (in_value field text) c ≡ in_value field (text ++ c ∷ [])
unfolding step value_step isspace
step-value field text c h = ground arith

step-first :
    (field : HttpHeaderField) (c : ℕ)
    → isspace c ≡ false
    → step (record (in_value field []) { field_value_started = false }) c ≡ in_value field (c ∷ [])
unfolding step value_step isspace
step-first field c h = ground arith

read-value :
    (field : HttpHeaderField) (text cs rest : Bytes)
    → All IsValueChar cs
    → read (in_value field text) (cs ++ rest) ≡ read (in_value field (text ++ cs)) rest
read-value field text [] rest h = ap (λ t. read (in_value field t) rest) (sym (append-nil text))
read-value field text (c ∷ cs) rest h =
    read-step (in_value field text) c (cs ++ rest) refl
    ∙ ap (λ x. read x (cs ++ rest)) (step-value field text c h.0)
    ∙ read-value field (text ++ c ∷ []) cs rest h.1
    ∙ ap (λ t. read (in_value field t) rest) (append_assoc text (c ∷ []) cs)

read-first :
    (field : HttpHeaderField) (c : ℕ) (cs : Bytes)
    → isspace c ≡ false
    → read (record (in_value field []) { field_value_started = false }) (c ∷ cs)
      ≡ read (in_value field (c ∷ [])) cs
read-first field c cs h =
    read-step (record (in_value field []) { field_value_started = false }) c cs refl
    ∙ ap (λ x. read x cs) (step-first field c h)

read-end :
    (field : HttpHeaderField) (text rest : Bytes)
    → read (in_value field text) (b'\r' ∷ b'\n' ∷ rest) ≡ (received_header field text, rest)
unfolding read step value_step isspace
read-end field text [] = refl
read-end field text (r ∷ rest) = refl

write_lem :
    (header : HttpHeader)
    → write header
      ≡ write
          (record empty_header { field_name = header.field_name; field_value = header.field_value })
unfolding write
write_lem header = refl

-- What operator<< writes of a header of a known field, whose value is not empty, begins with no
-- white space and holds no white space but blanks and tabs, operator>> reads back into an empty
-- header: the field and the value are the same, the header is complete, and all that follows is
-- left in the buffer.
pub read_header-write :
    (header : HttpHeader) (c : ℕ) (cs rest : Bytes)
    → IsNamed header.field_name
    → header.field_value ≡ c ∷ cs
    → isspace c ≡ false
    → All IsValueChar cs
    → read empty_header (write header ++ rest)
      ≡ (received_header header.field_name header.field_value, rest)
read_header-write header c cs rest n e h k =
    let field = header.field_name in
    let text = header.field_value in
    ap (λ s. read empty_header (s ++ rest)) (write_lem header)
    ∙ read-name field text rest n
    ∙ ap (read (record (in_value field []) { field_value_started = false }))
        (append_assoc text (codes "\r\n") rest ∙ ap (λ t. t ++ b'\r' ∷ b'\n' ∷ rest) e)
    ∙ read-first field c (cs ++ b'\r' ∷ b'\n' ∷ rest) h
    ∙ read-value field (c ∷ []) cs (b'\r' ∷ b'\n' ∷ rest) k
    ∙ read-end field (c ∷ cs) rest
    ∙ ap (λ t. (received_header field t, rest)) (sym e)
