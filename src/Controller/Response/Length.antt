-- ===== src/Controller/Response/Length.antt =====
-- The Content-Length of a response is the length of the body that is written.
use stochastic_scheduler_con.Prelude.{
  ◌^◌, ◌<◌, ◌≡◌, refl, subst, Bool, true, false, Option, none, some, List, [], ◌∷◌, arith, length,
  Bytes, codes, from_chars, from_chars-dec, All, Bool-cases, inl, inr,
}
use stochastic_scheduler_con.Prelude.Outcome.{
  Outcome, ok, thrown, fault, out_of_fuel, ◌>>=◌, or_fault,
}
use stochastic_scheduler_con.Manifest.{Relation}
use stochastic_scheduler_con.Threads.{ThreadControls}
use stochastic_scheduler_con.Http.Version.{HttpVersion}
use stochastic_scheduler_con.Http.Header.{HttpHeader}
use stochastic_scheduler_con.Http.Message.{find_content_length, write_body}
use stochastic_scheduler_con.Http.Response.{
  HttpResponse, HttpStatus, empty_response, ok_status, not_found, conflict,
}
use stochastic_scheduler_con.Controller.Response.{
  Routes, run, init, all_stopped, headers_with, respond, respond_empty, respond_error, Gathered,
  gather, nothing_gathered, respond_gathered, respond_stopped, session_of, respond_to,
  create_response,
}

-- A body is written, and the Content-Length is its length in decimal digits.
pub record IsExact (res : HttpResponse) : Type 0 where
  pub header : HttpHeader
  pub body : Bytes
  pub given : find_content_length res.message.headers ≡ some header
  pub written : write_body res.message ≡ ok body
  pub exact : from_chars (2 ^ 64) 10 header.field_value ≡ some (length body)

respond-IsExact :
    (version : HttpVersion) (code : HttpStatus) (body : Bytes)
    → length body < 2 ^ 64
    → IsExact (respond version code body)
unfolding respond headers_with find_content_length write_body
respond-IsExact version code body l = record {
  header = _;
  body = body;
  given = refl;
  written = refl;
  exact = from_chars-dec (length body) l;
}

respond_empty-IsExact :
    (version : HttpVersion) (code : HttpStatus) → IsExact (respond_empty version code)
unfolding respond_empty headers_with find_content_length write_body from_chars
respond_empty-IsExact version code = record {
  header = _;
  body = [];
  given = refl;
  written = refl;
  exact = refl;
}

respond_error-IsExact : (version : HttpVersion) → IsExact (respond_error version)
unfolding respond_error headers_with find_content_length write_body from_chars
respond_error-IsExact version = record {
  header = _;
  body = _;
  given = refl;
  written = refl;
  exact = refl;
}

-- A predicate of the value, where there is one.
abbrev Each : (HttpResponse → Type 0) → Outcome HttpResponse → Type 0
Each P o = elim o [ ok res ↦ P res | thrown ↦ Unit | fault ↦ Unit | out_of_fuel ↦ Unit ]

Each-ok :
    (o : Outcome HttpResponse) (res : HttpResponse) → Each IsExact o → o ≡ ok res → IsExact res
Each-ok (ok r) res h e = let same : r ≡ res = cc e in subst IsExact same h
Each-ok thrown res h e = absurd (cc e)
Each-ok fault res h e = absurd (cc e)
Each-ok out_of_fuel res h e = absurd (cc e)

module _ {Json : Type 0} (parse : Bytes → Option Json) (null : Json)
    (serialize : List (Bytes × Json) → Bytes)
    (small : (members : List (Bytes × Json)) → length (serialize members) < 2 ^ 64) where
  gathered-IsExact :
      (version : HttpVersion) (g : Gathered parse null serialize)
      → IsExact (respond_gathered parse null serialize version g)
  unfolding respond_gathered
  gathered-IsExact version g = elim (Bool-cases g.all_null) [
    | inl e ↦ rw e (
        respond-IsExact empty_response.version ok_status (codes "{\"error\":\"preempted.\"}")
          (omega arith))
    | inr e ↦ rw e (respond-IsExact version ok_status (serialize g.jrel) (small g.jrel))
  ]

  Each-gathered :
      (version : HttpVersion) (o : Outcome (Gathered parse null serialize))
      → Each IsExact (o >>= λ g. ok (respond_gathered parse null serialize version g))
  Each-gathered version (ok g) = gathered-IsExact version g
  Each-gathered version thrown = tt
  Each-gathered version fault = tt
  Each-gathered version out_of_fuel = tt

  Each-stopped :
      (actions has_manifest : Bool) (version : HttpVersion) (relations : List Relation)
      → All (λ r. length r.value < 2 ^ 64) relations
      → Each IsExact (respond_stopped parse null serialize actions has_manifest version relations)
  unfolding respond_stopped
  Each-stopped false has_manifest version relations h = tt
  Each-stopped true true version relations h =
      Each-gathered version
        (gather parse null serialize (nothing_gathered parse null serialize) relations)
  Each-stopped true false version [] h = tt
  Each-stopped true false version (relation ∷ relations) h =
      respond-IsExact version ok_status relation.value h.0

  Each-response :
      (route : Routes) (initialized actions has_manifest : Bool) (version : HttpVersion)
      (threads : List ThreadControls) (relations : List Relation)
      → All (λ r. length r.value < 2 ^ 64) relations
      → Each IsExact (
          respond_to parse null serialize route initialized actions has_manifest version threads
            relations)
  unfolding respond_to
  Each-response run false actions has_manifest version threads relations h =
      respond_empty-IsExact version not_found
  Each-response run true actions has_manifest version threads relations h =
      elim (Bool-cases (all_stopped threads)) [
        | inl e ↦ rw e (Each-stopped actions has_manifest version relations h)
        | inr e ↦ rw e (respond_error-IsExact version)
      ]
  Each-response init true actions has_manifest version threads relations h =
      respond_empty-IsExact version conflict
  Each-response init false actions has_manifest version threads relations h =
      respond_empty-IsExact version ok_status

  Each-created :
      (route : Routes) (initialized actions has_manifest : Bool) (session : Option HttpVersion)
      (threads : List ThreadControls) (relations : List Relation)
      → All (λ r. length r.value < 2 ^ 64) relations
      → Each IsExact (
          or_fault session >>= λ version.
          respond_to parse null serialize route initialized actions has_manifest version threads
            relations)
  Each-created route initialized actions has_manifest none threads relations h = tt
  Each-created route initialized actions has_manifest (some version) threads relations h =
      Each-response route initialized actions has_manifest version threads relations h

  -- Whatever the route and the state of the context: a response that create_response gives has a
  -- Content-Length, which is the length of the body that operator<< writes, where the values and
  -- the text of the result have fewer than 2 ^ 64 bytes.
  pub create_response-IsExact :
      (route : Routes) (initialized actions has_manifest : Bool) (sessions : List HttpVersion)
      (threads : List ThreadControls) (relations : List Relation) (res : HttpResponse)
      → All (λ r. length r.value < 2 ^ 64) relations
      → create_response parse null serialize route initialized actions has_manifest sessions threads
          relations
        ≡ ok res
      → IsExact res
  unfolding create_response
  create_response-IsExact route initialized actions has_manifest sessions threads relations res h
        e =
      Each-ok
        (create_response parse null serialize route initialized actions has_manifest sessions
          threads relations)
        res
        (Each-created route initialized actions has_manifest (session_of route sessions) threads
          relations h)
        e
