-- ===== src/Controller/Examples.antt =====
-- Streams of objects, requests and responses on which the results about the controller apply.
use stochastic_scheduler_con.Prelude.{
  ℕ, ◌+◌, ◌*◌, ◌<◌, ◌≡◌, ◌⊎◌, refl, Bool, true, false, not, is_empty, ◌≢◌, Option, some, List, [],
  ◌∷◌, ◌++◌, map, arith, length, get_elem?, All, Bytes, codes, bytes_eq,
}
use stochastic_scheduler_con.Prelude.Outcome.{Outcome, ok, out_of_fuel}
use stochastic_scheduler_con.BigNum.{word}
use stochastic_scheduler_con.BigNum.Value.{value, weight}
use stochastic_scheduler_con.Manifest.{Relation, default_relation, is_incomplete}
use stochastic_scheduler_con.Threads.{new_thread, is_stopped}
use stochastic_scheduler_con.Http.Version.{v1_1}
use stochastic_scheduler_con.Controller.Objects.{objects_of, stream_ended, after_handle}
use stochastic_scheduler_con.Controller.Objects.Split.{object, depth_after}
use stochastic_scheduler_con.Controller.Objects.Stream.{
  text_of, ending, objects, IsItem, IsSize, handle_texts, objects_of-text_of, objects_of_ends,
}
use stochastic_scheduler_con.Controller.Requests.{make_api_requests}
use stochastic_scheduler_con.Controller.Requests.Indices.{step_of, make_api_requests_lem}
use stochastic_scheduler_con.Controller.Response.{
  run, session_of, respond_to, create_response, respond_error, all_stopped, gather,
  nothing_gathered,
}
use stochastic_scheduler_con.Controller.Response.Length.{IsExact, create_response-IsExact}
use stochastic_scheduler_con.Controller.Response.Result.{
  deepest, at_depth, all_incomplete, member_of, IsUniqueAfter, IsParsed, gather_lem,
}
use stochastic_scheduler_con.Controller.Events.{stopped_data, results_data, result_data}
use stochastic_scheduler_con.Controller.Events.Stream.{IsSent, sent, objects_of-stopped_data}

-- Two objects, the second of which holds another.
abbrev items : List (Bytes × Bytes)
items = (codes "[", codes "\"a\":1") ∷ (codes ",", codes "\"b\":{}") ∷ []

items-IsItem : All IsItem items
unfolding depth_after
items-IsItem = (
  (((λ e. omega (arith, e), λ e. omega (arith, e), λ e. omega (arith, e)), tt), refl),
  ((((λ e. omega (arith, e), λ e. omega (arith, e), λ e. omega (arith, e)), tt), refl), tt),
)

IsSize-number : (n : ℕ) → n < word → IsSize (n ∷ []) n
unfolding value weight
IsSize-number n h = record { words = (h, tt); canonical = tt; value_eq = omega arith; small = h }

-- A body that keeps what it handles, and returns at an empty text.
abbrev parse : Bytes → Option Bytes
parse text = some text

abbrev handle : Bytes → List Bytes → List Bytes × Outcome Bool
handle val s = (val ∷ s, ok (not (is_empty val)))

abbrev terminate : List Bytes → List Bytes
terminate s = codes "]" ∷ s

handle_ends : (val : Bytes) (s : List Bytes) → (handle val s).1 ≢ out_of_fuel
handle_ends val s = λ e. cc e

objects_of-text_of_example :
    objects_of parse handle terminate false 3 (18 ∷ []) (text_of items ++ ending true) 0 []
    ≡ handle_texts parse handle terminate false (objects items) true []
objects_of-text_of_example =
    objects_of-text_of parse handle terminate false 3 (18 ∷ []) items true []
      (IsSize-number 18 (omega arith)) items-IsItem (omega arith)

handles_both :
    handle_texts parse handle terminate false (objects items) true []
    ≡ (codes "]" ∷ codes "{\"b\":{}}" ∷ codes "{\"a\":1}" ∷ [], ok stream_ended)
unfolding handle_texts after_handle
handles_both = refl

objects_of_ends_example :
    (objects_of parse handle terminate false 9 (6 ∷ []) (codes "}]{\"a\"") 0 []).1 ≢ out_of_fuel
objects_of_ends_example =
    objects_of_ends parse handle terminate false handle_ends 9 (6 ∷ []) (codes "}]{\"a\"") 0 []
      (IsSize-number 6 (omega arith)) (omega arith) (omega arith)

-- The primary context of eleven actions and four contexts.
make_api_requests_lem_example :
    (indices : List ℕ) × (make_api_requests 11 4 ≡ ok indices)
    × (length indices ≡ 3)
    × ((k : ℕ)
        → k < 3
        → (idx : ℕ) × (get_elem? indices k ≡ some idx)
          × (idx ≡ (k + 1) * step_of 11 4)
          × (0 < idx)
          × (idx < (k + 2) * step_of 11 4)
          × ((11 < 4) ⊎ (idx < 11)))
make_api_requests_lem_example = make_api_requests_lem 11 4 (omega arith)

-- The text of a result, for JSON of which the text is the value.
abbrev serialize : List (Bytes × Bytes) → Bytes
serialize members = codes "{}"

abbrev relation : Bytes → Bytes → ℕ → Relation
relation key value depth = record default_relation { key = key; value = value; depth = depth }

abbrev relations : List Relation
relations =
    relation (codes "b") (codes "{}") 2
    ∷ relation (codes "c") [] 2
    ∷ relation (codes "a") (codes "{}") 1
    ∷ []

running :
    create_response parse [] serialize run true true true (v1_1 ∷ []) (new_thread ∷ []) relations
    ≡ ok (respond_error v1_1)
unfolding create_response session_of respond_to all_stopped is_stopped
running = refl

create_response-IsExact_example : IsExact (respond_error v1_1)
create_response-IsExact_example =
    create_response-IsExact parse [] serialize (λ members. omega arith) run true true true
      (v1_1 ∷ []) (new_thread ∷ []) relations (respond_error v1_1)
      (omega arith, (omega arith, (omega arith, tt))) running

relations-IsUniqueAfter : IsUniqueAfter [] relations
unfolding bytes_eq
relations-IsUniqueAfter = (tt, ((refl, tt), ((refl, (refl, tt)), tt)))

relations-IsParsed : All (IsParsed parse [] serialize) relations
relations-IsParsed = (λ e. (codes "{}", refl), (λ e. ([], refl), (λ e. (codes "{}", refl), tt)))

gather_lem_example :
    gather parse [] serialize (nothing_gathered parse [] serialize) relations
    ≡ ok (record {
      max_depth = deepest relations;
      jrel = map (member_of parse [] serialize) (at_depth (deepest relations) relations);
      all_null = all_incomplete (at_depth (deepest relations) relations);
    })
gather_lem_example =
    gather_lem parse [] serialize relations relations-IsUniqueAfter relations-IsParsed

abbrev serialize_result : Bytes → Bytes → Bytes
serialize_result key jv = object jv

relations-IsSent : All (IsSent parse serialize_result) relations
unfolding depth_after is_incomplete bytes_eq
relations-IsSent = (
  λ e. (codes "{}", refl, record { body = codes "{}"; eq = refl; balanced = refl }),
  (
    λ e. absurd (cc e),
    (λ e. (codes "{}", refl, record { body = codes "{}"; eq = refl; balanced = refl }), tt),
  ),
)

sends : stopped_data parse serialize_result relations ≡ ok (codes ",{{}},{{}}]")
unfolding stopped_data results_data result_data is_incomplete bytes_eq
sends = refl

objects_of-stopped_data_example :
    objects_of parse handle terminate false 4 (11 ∷ []) (codes ",{{}},{{}}]") 0 []
    ≡ handle_texts parse handle terminate false (sent parse serialize_result relations) true []
objects_of-stopped_data_example =
    objects_of-stopped_data parse serialize_result handle terminate false 4 (11 ∷ []) relations
      (codes ",{{}},{{}}]") [] relations-IsSent sends (IsSize-number 11 (omega arith)) (omega arith)
