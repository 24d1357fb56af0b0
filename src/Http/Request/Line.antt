-- ===== src/Http/Request/Line.antt =====
-- The request line: what operator<< writes, operator>> reads back.
use stochastic_scheduler_con.Prelude.{
  ℕ, suc, ◌+◌, ◌≡◌, refl, sym, ap, ◌∙◌, Bool, true, false, ◌||◌, [], ◌∷◌, ◌++◌, append_assoc,
  append-nil, arith, Bytes, codes, isspace, bytes_eq, length, ltb, Option, none, some, All,
  Bool-cases, inl, inr,
}
use stochastic_scheduler_con.Prelude.Outcome.{Outcome, ok, ◌>>=◌}
use stochastic_scheduler_con.Http.Version.{
  HttpVersion, v1, v1_1, v2, v3, v0_9, find_version, version_of,
}
use stochastic_scheduler_con.Http.Version as Version
use stochastic_scheduler_con.Http.Message.{Message, begin, empty_message}
use stochastic_scheduler_con.Http.Request.{
  HttpVerb, HttpRequest, get, post, patch, put, trace, delete, connect, unknown, empty_request,
  line_step, begins_verb, verb_of, read, start, read_loop, round, unfinished, write_line, verb_text,
  version_text,
}

-- The line so far, read by characters that neither complete it nor make the operator return.
reads : HttpRequest → Bytes → Option HttpRequest
reads req [] = some req
reads req (c ∷ cs) = elim req.http_request_line_complete [
  | true ↦ none
  | false ↦ elim (line_step req c).1 [ true ↦ none | false ↦ reads (line_step req c).0 cs ]
]

reads-step :
    (req : HttpRequest) (c : ℕ) (cs : Bytes)
    → req.http_request_line_complete ≡ false
    → (line_step req c).1 ≡ false
    → reads req (c ∷ cs) ≡ reads (line_step req c).0 cs
unfolding reads
reads-step req c cs e f = ground arith

reads-closed :
    (req : HttpRequest) (c : ℕ) (cs : Bytes)
    → req.http_request_line_complete ≡ true
    → reads req (c ∷ cs) ≡ none
unfolding reads
reads-closed req c cs e = ground arith

reads-stopped :
    (req : HttpRequest) (c : ℕ) (cs : Bytes)
    → req.http_request_line_complete ≡ false
    → (line_step req c).1 ≡ true
    → reads req (c ∷ cs) ≡ none
unfolding reads
reads-stopped req c cs e f = ground arith

or_last : (a b : Bool) → a || b || true ≡ true
or_last false false = refl
or_last false true = refl
or_last true false = refl
or_last true true = refl

unfinished_lem :
    (req : HttpRequest) → req.http_request_line_complete ≡ false → unfinished req ≡ true
unfolding unfinished
unfinished_lem req e = rw e (
    or_last (ltb req.message.next_header req.message.num_headers)
      (ltb req.message.next_chunk req.message.num_chunks))

round-line :
    (req : HttpRequest) (c : ℕ) (cs : Bytes)
    → req.http_request_line_complete ≡ false
    → (line_step req c).1 ≡ false
    → round req c cs ≡ ok (((line_step req c).0, cs), false)
unfolding round
round-line req c cs e f = ground arith

read_loop-line :
    (fuel : ℕ) (req : HttpRequest) (c : ℕ) (cs : Bytes)
    → req.http_request_line_complete ≡ false
    → (line_step req c).1 ≡ false
    → read_loop (suc fuel) req (c ∷ cs) ≡ read_loop fuel (line_step req c).0 cs
unfolding read_loop
read_loop-line fuel req c cs e f =
    rw (read_loop, unfinished_lem req e)
      (ap
        (λ r. r >>= λ s. elim s.1 as (λ b. Outcome (HttpRequest × Bytes)) [
          | true ↦ ok s.0
          | false ↦ read_loop fuel s.0.0 s.0.1
        ])
        (round-line req c cs e f))

-- The loop of operator>> goes through a line that reads.
read_loop-reads :
    (fuel : ℕ) (req req' : HttpRequest) (line rest : Bytes)
    → reads req line ≡ some req'
    → read_loop (length line + fuel) req (line ++ rest) ≡ read_loop fuel req' rest
read_loop-reads fuel req req' [] rest h =
    let e : 0 + fuel ≡ fuel = omega arith in
    let same : req ≡ req' = unfold reads in cc in
    ap (λ n. read_loop n req rest) e ∙ ap (λ r. read_loop fuel r rest) same
read_loop-reads fuel req req' (c ∷ line) rest h =
    let one : suc (length line) + fuel ≡ suc (length line + fuel) = omega arith in
    elim (Bool-cases req.http_request_line_complete) [
      | inl e ↦ absurd (cc (reads-closed req c line e))
      | inr e ↦ elim (Bool-cases (line_step req c).1) [
        | inl f ↦ absurd (cc (reads-stopped req c line e f))
        | inr f ↦ rw one (
            read_loop-line (length line + fuel) req c (line ++ rest) e f
            ∙ read_loop-reads fuel (line_step req c).0 req' line rest
                (sym (reads-step req c line e f) ∙ h))
      ]
    ]

reads-append :
    (req req' : HttpRequest) (xs ys : Bytes)
    → reads req xs ≡ some req'
    → reads req (xs ++ ys) ≡ reads req' ys
reads-append req req' [] ys h =
    let same : req ≡ req' = unfold reads in cc in ap (λ r. reads r ys) same
reads-append req req' (c ∷ xs) ys h = elim (Bool-cases req.http_request_line_complete) [
  | inl e ↦ absurd (cc (reads-closed req c xs e))
  | inr e ↦ elim (Bool-cases (line_step req c).1) [
    | inl f ↦ absurd (cc (reads-stopped req c xs e f))
    | inr f ↦
        reads-step req c (xs ++ ys) e f
        ∙ reads-append (line_step req c).0 req' xs ys (sym (reads-step req c xs e f) ∙ h)
  ]
]

-- The verbs and the versions that the parser knows.
abbrev pub IsVerb : HttpVerb → Type 0
IsVerb unknown = ⊥
IsVerb _ = Unit

abbrev pub IsVersion : HttpVersion → Type 0
IsVersion Version.unknown = ⊥
IsVersion _ = Unit

abbrev verb_buf_of : HttpVerb → Bytes
verb_buf_of get = codes "GET"
verb_buf_of post = codes "POST"
verb_buf_of patch = codes "PATCH"
verb_buf_of put = codes "PUT"
verb_buf_of trace = codes "TRACE"
verb_buf_of delete = codes "DELETE"
verb_buf_of connect = codes "CONNECT"
verb_buf_of unknown = []

-- Once the verb is read.
abbrev after_verb : Message → HttpVerb → HttpRequest
after_verb m verb = record empty_request {
  message = m;
  verb = verb;
  verb_buf = verb_buf_of verb;
  verb_started = true;
  verb_finished = true;
}

-- Within the route.
abbrev in_route : Message → HttpVerb → Bytes → HttpRequest
in_route m verb route = record (after_verb m verb) { route_started = true; route = route }

abbrev version_buf_of : HttpVersion → Bytes
version_buf_of v1 = codes "1.0"
version_buf_of v1_1 = codes "1.1"
version_buf_of v2 = codes "2"
version_buf_of v3 = codes "3"
version_buf_of v0_9 = codes "0.9"
version_buf_of Version.unknown = []

abbrev pub line_read : Message → HttpVerb → Bytes → HttpVersion → HttpRequest
line_read m verb route v = record (in_route m verb route) {
  version = v;
  route_finished = true;
  find_version_state = 5;
  version_buf = version_buf_of v;
  version_finished = true;
  http_request_line_complete = true;
}

reads-verb :
    (m : Message) (verb : HttpVerb) (buf : Bytes)
    → IsVerb verb
    → reads
        (record empty_request { message = m })
        (verb_text (record empty_request { verb = verb; verb_buf = buf }))
      ≡ some (after_verb m verb)
unfolding reads line_step begins_verb verb_of verb_text bytes_eq isspace
reads-verb m get buf k = refl
reads-verb m post buf k = refl
reads-verb m patch buf k = refl
reads-verb m put buf k = refl
reads-verb m trace buf k = refl
reads-verb m delete buf k = refl
reads-verb m connect buf k = refl
reads-verb m unknown buf k = absurd k

reads-version :
    (m : Message) (verb : HttpVerb) (route : Bytes) (v : HttpVersion)
    → IsVersion v
    → reads (in_route m verb route) (codes " HTTP/" ++ version_text v)
      ≡ some (line_read m verb route v)
unfolding reads line_step find_version version_of version_text bytes_eq isspace
reads-version m verb route v1 k = refl
reads-version m verb route v1_1 k = refl
reads-version m verb route v2 k = refl
reads-version m verb route v3 k = refl
reads-version m verb route v0_9 k = refl
reads-version m verb route Version.unknown k = absurd k

step-first :
    (m : Message) (verb : HttpVerb) (c : ℕ)
    → isspace c ≡ false
    → line_step (after_verb m verb) c ≡ (in_route m verb (c ∷ []), false)
unfolding line_step
step-first m verb c h = rw h refl

step-route :
    (m : Message) (verb : HttpVerb) (route : Bytes) (c : ℕ)
    → isspace c ≡ false
    → line_step (in_route m verb route) c ≡ (in_route m verb (route ++ c ∷ []), false)
unfolding line_step
step-route m verb route c h = rw h refl

abbrev pub IsRouteChar : ℕ → Type 0
IsRouteChar c = isspace c ≡ false

reads-route :
    (m : Message) (verb : HttpVerb) (route cs : Bytes)
    → All IsRouteChar cs
    → reads (in_route m verb route) cs ≡ some (in_route m verb (route ++ cs))
reads-route m verb route [] h =
    unfold reads in ap (λ t. some (in_route m verb t)) (sym (append-nil route))
reads-route m verb route (c ∷ cs) h =
    reads-step (in_route m verb route) c cs refl (ap (λ r. r.1) (step-route m verb route c h.0))
    ∙ ap (λ r. reads r.0 cs) (step-route m verb route c h.0)
    ∙ reads-route m verb (route ++ c ∷ []) cs h.1
    ∙ ap (λ t. some (in_route m verb t)) (append_assoc route (c ∷ []) cs)

-- The line that operator<< writes of a request whose verb and version are known and whose route
-- is not empty and holds no white space, read by operator>> into an empty request with enough fuel
-- for its characters, gives the verb, the route and the version again with the line complete, and
-- goes on with what follows it.
pub read-write_request_line :
    (fuel : ℕ) (req : HttpRequest) (c : ℕ) (cs rest : Bytes)
    → IsVerb req.verb
    → IsVersion req.version
    → req.route ≡ c ∷ cs
    → All IsRouteChar (c ∷ cs)
    → read (length (write_line req) + fuel) empty_request (write_line req ++ rest)
      ≡ read_loop fuel (line_read (begin empty_message) req.verb req.route req.version) rest
unfolding write_line read start
read-write_request_line fuel req c cs rest k v e h =
    let m = begin empty_message in
    let route : reads (after_verb m req.verb) req.route ≡ some (in_route m req.verb req.route) =
      rw e (
        reads-step (after_verb m req.verb) c cs refl (ap (λ r. r.1) (step-first m req.verb c h.0))
        ∙ ap (λ r. reads r.0 cs) (step-first m req.verb c h.0)
        ∙ reads-route m req.verb (c ∷ []) cs h.1) in
    let verb = reads-verb m req.verb req.verb_buf k in
    let tail = codes " HTTP/" ++ version_text req.version in
    read_loop-reads fuel (record empty_request { message = m })
      (line_read m req.verb req.route req.version) (write_line req) rest
      (reads-append (record empty_request { message = m }) (after_verb m req.verb) (verb_text req)
          (req.route ++ tail) verb
        ∙ reads-append (after_verb m req.verb) (in_route m req.verb req.route) req.route tail route
        ∙ reads-version m req.verb req.route req.version v)
