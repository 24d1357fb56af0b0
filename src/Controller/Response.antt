-- ===== src/Controller/Response.antt =====
-- Controller::create_response: the response to a run or an init request. boost::json is a
-- parameter: what parse gives, the null value, and the text of the object that is sent.
pub mod Length
pub mod Result
use stochastic_scheduler_con.Prelude.{
  ℕ, ◌≡◌, Bool, true, false, not, ◌&&◌, ◌||◌, Option, none, some, List, [], ◌∷◌, ◌++◌, ltb,
  if◌then◌else◌, length, is_empty, Bytes, bytes_eq, codes, dec,
}
use stochastic_scheduler_con.Prelude.Outcome.{Outcome, ok, thrown, fault, ◌>>=◌, or_throw, or_fault}
use stochastic_scheduler_con.Manifest.{Relation, is_incomplete}
use stochastic_scheduler_con.Threads.{ThreadControls, is_stopped}
use stochastic_scheduler_con.Http.Version.{HttpVersion}
use stochastic_scheduler_con.Http.Chunk.{HttpChunk, empty_chunk}
use stochastic_scheduler_con.Http.Header.{
  HttpHeader, HttpHeaderField, content_type, content_length, connection, end_of_headers,
  empty_header,
}
use stochastic_scheduler_con.Http.Response.{
  HttpResponse, HttpStatus, empty_response, ok_status, not_found, conflict, internal_server_error,
}

pub data Routes : Type 0 where
  run init : Routes

-- The session whose request is answered: sessions().back() or sessions().front(), which are undefined
-- where there is none.
unfoldable pub session_of : Routes → List HttpVersion → Option HttpVersion
session_of route [] = none
session_of run (version ∷ []) = some version
session_of run (version ∷ next ∷ sessions) = session_of run (next ∷ sessions)
session_of init (version ∷ sessions) = some version

-- ExecutionContext::is_stopped
unfoldable pub all_stopped : List ThreadControls → Bool
unfolding is_stopped
all_stopped [] = true
all_stopped (t ∷ ts) = is_stopped t && all_stopped ts

-- CONTROLLER_APP_COMMON_HTTP_HEADERS
abbrev pub common_headers : List HttpHeader
common_headers =
    record empty_header { field_name = content_type; field_value = codes "application/json" }
    ∷ record empty_header { field_name = connection; field_value = codes "close" }
    ∷ record empty_header { field_name = end_of_headers }
    ∷ []

-- The headers of every response, by the text of the length.
unfoldable pub headers_with : Bytes → List HttpHeader
headers_with text =
    record empty_header { field_name = content_length; field_value = text } ∷ common_headers

abbrev pub chunk_with : ℕ → Bytes → HttpChunk
chunk_with size text = record empty_chunk { chunk_size = size ∷ []; chunk_data = text }

-- A response with a body, whose length is written to a stringstream.
unfoldable pub respond : HttpVersion → HttpStatus → Bytes → HttpResponse
unfolding headers_with dec
respond version status body = record empty_response {
  version = version;
  status = status;
  message = record empty_response.message {
    headers = headers_with (dec (length body));
    chunks = chunk_with (length body) body ∷ [];
  };
}

-- A response whose only chunk is value-initialised.
unfoldable pub respond_empty : HttpVersion → HttpStatus → HttpResponse
unfolding headers_with
respond_empty version status = record empty_response {
  version = version;
  status = status;
  message = record empty_response.message {
    headers = headers_with (codes "0");
    chunks = empty_chunk ∷ [];
  };
}

-- The response to a run request while a thread is not stopped.
unfoldable pub respond_error : HttpVersion → HttpResponse
unfolding headers_with
respond_error version = record empty_response {
  version = version;
  status = internal_server_error;
  message = record empty_response.message {
    headers = headers_with (codes "33");
    chunks = chunk_with 33 (codes "{\"error\":\"Internal Server Error\"}") ∷ [];
  };
}

module _ {Json : Type 0} (parse : Bytes → Option Json) (null : Json)
    (serialize : List (Bytes × Json) → Bytes) where
  -- object::emplace, which keeps a member that is there.
  unfoldable pub emplace_member : List (Bytes × Json) → Bytes → Json → List (Bytes × Json)
  unfolding bytes_eq
  emplace_member [] key jv = (key, jv) ∷ []
  emplace_member ((k, v) ∷ members) key jv =
      let rest = emplace_member members key jv in
      if bytes_eq k key then (k, v) ∷ members else (k, v) ∷ rest

  -- The local variables of the loop over the manifest.
  pub record Gathered : Type 0 where
    pub max_depth : ℕ
    pub jrel : List (Bytes × Json)
    pub all_null : Bool

  abbrev pub nothing_gathered : Gathered
  nothing_gathered = record { max_depth = 0; jrel = []; all_null = true }

  -- A relation whose depth is the greatest so far.
  unfoldable pub gather_value : Gathered → Relation → Outcome Gathered
  unfolding emplace_member is_incomplete
  gather_value g relation = elim (is_incomplete relation.value) [
    | true ↦ ok (record g { jrel = emplace_member g.jrel relation.key null })
    | false ↦ or_throw (parse relation.value) >>= λ jv.
        ok (record g { all_null = false; jrel = emplace_member g.jrel relation.key jv })
  ]

  -- The loop over the manifest.
  unfoldable pub gather : Gathered → List Relation → Outcome Gathered
  unfolding gather_value
  gather g [] = ok g
  gather g (relation ∷ relations) = elim (ltb relation.depth g.max_depth) [
    | true ↦ gather g relations
    | false ↦
        gather_value
          (if ltb g.max_depth relation.depth
            then record { max_depth = relation.depth; jrel = []; all_null = true }
            else g)
          relation
        >>= λ g'. gather g' relations
  ]

  -- The response where there is an action-manifest.json; in the second one the version is not set.
  unfoldable pub respond_gathered : HttpVersion → Gathered → HttpResponse
  unfolding respond
  respond_gathered version g =
      if not g.all_null
      then respond version ok_status (serialize g.jrel)
      else respond empty_response.version ok_status (codes "{\"error\":\"preempted.\"}")

  -- The response of a stopped context: `has_manifest` tells whether action-manifest.json is there,
  -- `actions` whether __OW_ACTIONS is set.
  unfoldable pub respond_stopped : Bool → Bool → HttpVersion → List Relation → Outcome HttpResponse
  unfolding gather respond_gathered
  respond_stopped false has_manifest version relations = thrown
  respond_stopped true true version relations =
      gather nothing_gathered relations >>= λ g. ok (respond_gathered version g)
  respond_stopped true false version [] = fault
  respond_stopped true false version (relation ∷ relations) =
      ok (respond version ok_status relation.value)

  -- The two branches of create_response, with the version of the request.
  unfoldable pub respond_to :
      Routes
      → Bool
      → Bool
      → Bool
      → HttpVersion
      → List ThreadControls
      → List Relation
      → Outcome HttpResponse
  unfolding all_stopped respond_empty respond_error respond_stopped
  respond_to run initialized actions has_manifest version threads relations =
      if not initialized
      then ok (respond_empty version not_found)
      else if all_stopped threads
      then respond_stopped actions has_manifest version relations
      else ok (respond_error version)
  respond_to init initialized actions has_manifest version threads relations =
      if initialized
      then ok (respond_empty version conflict)
      else ok (respond_empty version ok_status)

  -- create_response; `sessions` has the version of the request of each session of the context.
  unfoldable pub create_response :
      Routes
      → Bool
      → Bool
      → Bool
      → List HttpVersion
      → List ThreadControls
      → List Relation
      → Outcome HttpResponse
  unfolding session_of respond_to
  create_response route initialized actions has_manifest sessions threads relations =
      or_fault (session_of route sessions) >>= λ version.
      respond_to route initialized actions has_manifest version threads relations
