-- ===== src/Controller/Events.antt =====
-- The state updates that the scheduling loop sends to the peers of a context: one object for the
-- result of a thread, and at the end of the context one for each result with the bracket that
-- closes the stream. boost::json is a parameter: what parse gives, and the text of the object
-- {"result":{key:value}}.
pub mod Stream
use stochastic_scheduler_con.Prelude.{
  ◌≡◌, true, false, Option, none, some, List, [], ◌∷◌, ◌++◌, Bytes, codes,
}
use stochastic_scheduler_con.Prelude.Outcome.{Outcome, ok, ◌>>=◌, or_throw}
use stochastic_scheduler_con.Manifest.{Relation, is_incomplete}

module _ {Json : Type 0} (parse : Bytes → Option Json) (serialize : Bytes → Json → Bytes) where
  -- What is appended for one relation; nothing where its value is empty or "null".
  unfoldable pub result_data : Relation → Outcome Bytes
  unfolding is_incomplete
  result_data finished = elim (is_incomplete finished.value) [
    | true ↦ ok []
    | false ↦ or_throw (parse finished.value) >>= λ jv. ok (codes "," ++ serialize finished.key jv)
  ]

  -- The chunk for the thread that has stopped: none where there is no result.
  unfoldable pub update_data : Relation → Outcome (Option Bytes)
  unfolding result_data
  update_data finished = elim (is_incomplete finished.value) [
    | true ↦ ok none
    | false ↦ result_data finished >>= λ text. ok (some text)
  ]

  -- The loop over the threads of a stopped context and their relations.
  unfoldable pub results_data : Bytes → List Relation → Outcome Bytes
  unfolding result_data
  results_data text [] = ok text
  results_data text (finished ∷ rest) =
      result_data finished >>= λ more. results_data (text ++ more) rest

  -- The last chunk for the peers of a stopped context.
  unfoldable pub stopped_data : List Relation → Outcome Bytes
  unfolding results_data
  stopped_data relations = results_data [] relations >>= λ text. ok (text ++ codes "]")
