-- ===== src/Http/Response/Line.antt =====
-- The status line: what operator<< writes, operator>> reads back, but for 204.
use stochastic_scheduler_con.Prelude.{
  ℕ, suc, ◌+◌, ◌≡◌, refl, sym, ap, ◌∙◌, Bool, true, false, not, ◌&&◌, subst, append-nil, ◌||◌, ltb,
  [], ◌∷◌, ◌++◌, arith, Bytes, codes, isspace, bytes_eq, length,
}
use stochastic_scheduler_con.Prelude.Outcome.{ok, ◌>>=◌}
use stochastic_scheduler_con.Http.Version.{
  HttpVersion, v1, v1_1, v2, v3, v0_9, unknown, find_version, version_of,
}
use stochastic_scheduler_con.Http.Message.{Message, begin, empty_message}
use stochastic_scheduler_con.Http.Response.{
  HttpStatus, HttpResponse, ok_status, no_content, not_found, conflict, method_not_allowed,
  internal_server_error, created, accepted, zeroed, empty_response, line_step, status_of, read,
  start, read_loop, round, unfinished, write_line, version_text, status_text,
}

-- A status line as it stands once it is read.
abbrev pub IsLine : HttpVersion → HttpStatus → Message → HttpResponse → Type 0
IsLine v s m res =
    (res.version ≡ v) × (res.status ≡ s) × (res.status_line_finished ≡ true) × (res.message ≡ m)

-- The status that is read back.
abbrev pub answered : HttpStatus → HttpStatus
answered no_content = internal_server_error
answered zeroed = internal_server_error
answered s = s

-- The characters of a status line, one after the other.
unfoldable pub read_line : HttpResponse → Bytes → HttpResponse
read_line res [] = res
read_line res (c ∷ cs) = read_line (line_step res c) cs

abbrev pub fresh : Message → HttpVersion → HttpStatus → HttpResponse
fresh m v s = record empty_response { message = m; version = v; status = s }

-- Once the version is read.
abbrev after_version : Message → HttpVersion → Bytes → HttpResponse
after_version m v buf = record empty_response {
  message = m;
  version = v;
  version_buf = buf;
  find_version_state = 5;
  version_finished = true;
}

-- The versions that version_buf can hold.
abbrev pub IsKnown : HttpVersion → Type 0
IsKnown unknown = ⊥
IsKnown _ = Unit

abbrev buf_of : HttpVersion → Bytes
buf_of v1 = codes "1.0"
buf_of v1_1 = codes "1.1"
buf_of v2 = codes "2"
buf_of v3 = codes "3"
buf_of v0_9 = codes "0.9"
buf_of unknown = []

read-version :
    (m : Message) (v : HttpVersion) (rest : Bytes)
    → IsKnown v
    → read_line (record empty_response { message = m }) (version_text v ++ rest)
      ≡ read_line (after_version m v (buf_of v)) rest
unfolding read_line line_step find_version version_of version_text bytes_eq isspace
read-version m v1 rest k = refl
read-version m v1_1 rest k = refl
read-version m v2 rest k = refl
read-version m v3 rest k = refl
read-version m v0_9 rest k = refl
read-version m unknown rest k = absurd k

read-status :
    (m : Message) (v : HttpVersion) (buf : Bytes) (s : HttpStatus)
    → IsLine v (answered s) m (read_line (after_version m v buf) (status_text s))
unfolding read_line line_step status_of status_text bytes_eq isspace
read-status m v buf ok_status = (refl, refl, refl, refl)
read-status m v buf no_content = (refl, refl, refl, refl)
read-status m v buf not_found = (refl, refl, refl, refl)
read-status m v buf conflict = (refl, refl, refl, refl)
read-status m v buf method_not_allowed = (refl, refl, refl, refl)
read-status m v buf internal_server_error = (refl, refl, refl, refl)
read-status m v buf created = (refl, refl, refl, refl)
read-status m v buf accepted = (refl, refl, refl, refl)
read-status m v buf zeroed = (refl, refl, refl, refl)

-- The line is unfinished before each of the characters.
stays_open : HttpResponse → Bytes → Bool
stays_open res [] = true
stays_open res (c ∷ cs) = not res.status_line_finished && stays_open (line_step res c) cs

open_now : (a b : Bool) → not a && b ≡ true → (a ≡ false) × (b ≡ true)
open_now false b p = (refl, p)
open_now true b p = absurd (cc)

or_last : (a b : Bool) → a || b || true ≡ true
or_last false false = refl
or_last false true = refl
or_last true false = refl
or_last true true = refl

unfinished_lem : (res : HttpResponse) → res.status_line_finished ≡ false → unfinished res ≡ true
unfolding unfinished
unfinished_lem res e = rw e (
    or_last (ltb res.message.next_header res.message.num_headers)
      (ltb res.message.next_chunk res.message.num_chunks))

round-line :
    (res : HttpResponse) (c : ℕ) (cs : Bytes)
    → res.status_line_finished ≡ false
    → round res c cs ≡ ok (line_step res c, cs)
unfolding round
round-line res c cs e = ground arith

-- One round at the status line.
read_loop-line :
    (fuel : ℕ) (res : HttpResponse) (c : ℕ) (cs : Bytes)
    → res.status_line_finished ≡ false
    → read_loop (suc fuel) res (c ∷ cs) ≡ read_loop fuel (line_step res c) cs
unfolding read_loop
read_loop-line fuel res c cs e =
    rw (read_loop, unfinished_lem res e)
      (ap (λ r. r >>= λ s. read_loop fuel s.0 s.1) (round-line res c cs e))

zero_add-fuel : (fuel : ℕ) → 0 + fuel ≡ fuel
zero_add-fuel fuel = omega arith

read_loop-read_line :
    (fuel : ℕ) (res : HttpResponse) (line rest : Bytes)
    → stays_open res line ≡ true
    → read_loop (length line + fuel) res (line ++ rest) ≡ read_loop fuel (read_line res line) rest
unfolding read_line stays_open
read_loop-read_line fuel res [] rest o = ap (λ n. read_loop n res rest) (zero_add-fuel fuel)
read_loop-read_line fuel res (c ∷ line) rest o =
    let ih = read_loop-read_line fuel (line_step res c) line rest in
    let one : suc (length line) + fuel ≡ suc (length line + fuel) = omega arith in
    let (e, o') = open_now res.status_line_finished (stays_open (line_step res c) line) o in
    rw one (read_loop-line (length line + fuel) res c (line ++ rest) e ∙ ih o')

stays_open-append :
    (res : HttpResponse) (a b : Bytes)
    → stays_open res a ≡ true
    → stays_open (read_line res a) b ≡ true
    → stays_open res (a ++ b) ≡ true
unfolding stays_open read_line
stays_open-append res [] b p q = q
stays_open-append res (c ∷ a) b p q =
    let ih = stays_open-append (line_step res c) a b in ground arith

version-stays_open :
    (m : Message) (v : HttpVersion)
    → IsKnown v
    → stays_open (record empty_response { message = m }) (version_text v) ≡ true
unfolding stays_open line_step find_version version_of version_text bytes_eq isspace
version-stays_open m v1 k = refl
version-stays_open m v1_1 k = refl
version-stays_open m v2 k = refl
version-stays_open m v3 k = refl
version-stays_open m v0_9 k = refl
version-stays_open m unknown k = absurd k

status-stays_open :
    (m : Message) (v : HttpVersion) (buf : Bytes) (s : HttpStatus)
    → stays_open (after_version m v buf) (status_text s) ≡ true
unfolding stays_open line_step status_of status_text bytes_eq isspace
status-stays_open m v buf ok_status = refl
status-stays_open m v buf no_content = refl
status-stays_open m v buf not_found = refl
status-stays_open m v buf conflict = refl
status-stays_open m v buf method_not_allowed = refl
status-stays_open m v buf internal_server_error = refl
status-stays_open m v buf created = refl
status-stays_open m v buf accepted = refl
status-stays_open m v buf zeroed = refl

-- The status line that operator<< writes for a known version, read by operator>> into an empty
-- response with enough fuel for its characters, gives the version and the status again and goes on
-- with what follows it; but 204 and a value that is no enumerator come back as 500.
pub read-write_status-IsLine :
    (fuel : ℕ) (m : Message) (v : HttpVersion) (s : HttpStatus) (rest : Bytes)
    → IsKnown v
    → (res : HttpResponse) × IsLine v (answered s) (begin empty_message) res
      × (read
            (length (write_line (fresh m v s)) + fuel)
            empty_response
            (write_line (fresh m v s) ++ rest)
          ≡ read_loop fuel res rest)
unfolding write_line read start read_line
read-write_status-IsLine fuel m v s rest k =
    let line = version_text v ++ status_text s in
    let res0 = record empty_response { message = begin empty_message } in
    let e = read-version (begin empty_message) v [] k in
    let e' = read-version (begin empty_message) v (status_text s) k in
    let o =
      stays_open-append res0 (version_text v) (status_text s)
        (version-stays_open (begin empty_message) v k)
        (subst (λ t. stays_open t (status_text s) ≡ true)
          (sym (
            subst (λ b. read_line res0 b ≡ after_version (begin empty_message) v (buf_of v))
              (append-nil (version_text v)) e))
          (status-stays_open (begin empty_message) v (buf_of v) s)) in
    (
      read_line res0 line,
      subst (λ t. IsLine v (answered s) (begin empty_message) t) (sym e')
          (read-status (begin empty_message) v (buf_of v) s),
      read_loop-read_line fuel res0 line rest o,
    )
