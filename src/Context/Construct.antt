-- ===== src/Context/Construct.antt =====
-- The manifest that a constructor of ExecutionContext builds from action-manifest.json: every key
-- is emplaced that is not there yet, and the index is sorted by depth.
mod Examples
pub mod Counting
pub mod Filling
pub mod Order
use stochastic_scheduler_con.Prelude.{
  ℕ, zero, suc, true, false, ◌≡◌, Option, none, some, List, [], ◌∷◌, ltb, length, Bytes,
}
use stochastic_scheduler_con.Prelude.Outcome.{Outcome, ok, out_of_fuel, ◌>>=◌, or_fault}
use stochastic_scheduler_con.Manifest.{ActionManifest, Json, find, emplace}

-- A key that isn't in manifest_ yet.
unfoldable pub missing : ActionManifest → List Bytes → Option Bytes
missing m [] = none
missing m (key ∷ keys) = elim (find m.cell key m.index 0) [
  | none ↦ some key
  | some it ↦ missing m keys
]

module _ (json : Json) (actions : Bytes) (keys : List Bytes) where
  -- while(manifest_.size() < manifest.size()), on fuel; `depth` is the fuel of emplace. At the end
  -- of the object the iterator may not be read.
  unfoldable pub fill : ℕ → ℕ → ActionManifest → Outcome ActionManifest
  fill depth zero m = out_of_fuel
  fill depth (suc fuel) m = elim (ltb (length m.index) (length keys)) [
    | false ↦ ok m
    | true ↦ or_fault (missing m keys) >>= λ key.
        emplace json actions depth key m >>= λ m'. fill depth fuel m'
  ]

  -- The loop and std::sort, a function of the depths and of the index.
  unfoldable pub construct :
      ((ℕ → ℕ) → List ℕ → List ℕ) → ℕ → ℕ → ActionManifest → Outcome ActionManifest
  unfolding fill
  construct sort depth fuel m =
      fill depth fuel m >>= λ m'. ok (record m' { index = sort (λ p. (m'.cell p).depth) m'.index })
