-- ===== src/Controller/Results.antt =====
-- The results that a peer sends: the loops of route_response and of route_request over the members
-- of "result", which store each value and call reschedule_actions.
pub mod Merge
pub mod Store
use stochastic_scheduler_con.Prelude.{
  ℕ, ◌≡◌, Bool, true, false, none, some, List, [], ◌∷◌, if◌then◌else◌, is_empty, Bytes, bytes_eq,
  codes,
}
use stochastic_scheduler_con.Prelude.Outcome.{Outcome, ok, ◌>>=◌, or_throw}
use stochastic_scheduler_con.Manifest.{ActionManifest, find, write, is_incomplete}
use stochastic_scheduler_con.Controller.Schedule.{Context, reschedule_actions}

-- The two functions that merge results.
pub data Route : Type 0 where
  request response : Route

-- Which values a result replaces: in route_response one that is empty, in route_request one that
-- is empty or "null".
unfoldable pub replaced : Route → Bytes → Bool
unfolding is_incomplete
replaced response value = is_empty value
replaced request value = is_incomplete value

module _ (route : Route) where
  -- The write to the value, under its lock.
  unfoldable pub store : ActionManifest → ℕ → Bytes → ActionManifest
  unfolding replaced
  store m p text =
      if replaced route (m.cell p).value
      then record m { cell = write m.cell p (record (m.cell p) { value = text }) }
      else m

  -- One member, its value serialized; `fuel` is for next.
  unfoldable pub merge_result : ℕ → ℕ → Bytes × Bytes → Context → Outcome Context
  unfolding store bytes_eq
  merge_result fuel now (k, text) c =
      or_throw (find c.manifest.cell k c.manifest.index 0) >>= λ rel.
      elim (bytes_eq text (codes "null")) [
        | true ↦ ok c
        | false ↦
            reschedule_actions fuel now rel.0 (record c { manifest = store c.manifest rel.1 text })
            >>= λ r. ok r.0
      ]

  unfoldable pub merge_results : ℕ → ℕ → List (Bytes × Bytes) → Context → Outcome Context
  merge_results fuel now [] c = ok c
  merge_results fuel now (kvp ∷ kvps) c =
      merge_result fuel now kvp c >>= merge_results fuel now kvps
