-- ===== src/Context/Construct/Order.antt =====
-- What the constructor leaves once the index is sorted: dependencies come after what needs them.
use stochastic_scheduler_con.Prelude.{ℕ, ◌<◌, ◌≤◌, ◌≡◌, some, List, length, get_elem?}
use stochastic_scheduler_con.Manifest.{ActionManifest}

-- What std::sort documents, for the comparison a->depth() > b->depth(): the elements are the same
-- in another order, and none has a greater depth than one before it.
pub record IsSorting (depth : ℕ → ℕ) (xs ys : List ℕ) : Type 0 where
  pub to : ℕ → ℕ
  pub from : ℕ → ℕ
  pub to-from : (i : ℕ) → to (from i) ≡ i
  pub from-to : (i : ℕ) → from (to i) ≡ i
  pub moved : (i : ℕ) → get_elem? ys i ≡ get_elem? xs (to i)
  pub same_length : length ys ≡ length xs
  pub descending :
      (i j p q : ℕ) → i < j → get_elem? ys i ≡ some p → get_elem? ys j ≡ some q → depth q ≤ depth p

-- Every dependency stands at a later position than what depends on it.
abbrev pub IsDescending : ActionManifest → Type 0
IsDescending m =
    (i p k d : ℕ)
    → get_elem? m.index i ≡ some p
    → get_elem? (m.cell p).dependencies k ≡ some d
    → (j : ℕ) × (i < j) × (get_elem? m.index j ≡ some d)

module _ (m : ActionManifest) (ys : List ℕ) (s : IsSorting (λ p. (m.cell p).depth) m.index ys) where
  abbrev sorted : ActionManifest
  sorted = record m { index = ys }
