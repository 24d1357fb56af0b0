-- ===== src/Manifest.antt =====
-- Relation and ActionManifest of controller/app: the actions of a manifest, their dependencies,
-- and the choice of the next action to run. Relations are shared by std::shared_ptr: `cell` is
-- the heap, a pointer is its address, and the index and the dependencies hold pointers, so that a
-- value that is written through one is seen through all. The mutex of a relation guards one read
-- or write, and a run of these functions is taken without interleaved writes.
mod Examples
pub mod Index
pub mod Invariant
pub mod Emplace
pub mod Totality
pub mod Next
pub mod Progress
use stochastic_scheduler_con.Prelude.{
  ℕ, zero, suc, ◌+◌, ◌%◌, ◌≡◌, Bool, true, false, ◌||◌, Option, none, some, List, [], ◌∷◌, ◌++◌,
  map, ltb, leb, ◌==◌, if◌then◌else◌, length, get_elem?, is_empty, Bytes, codes, bytes_eq,
}
use stochastic_scheduler_con.Prelude.Outcome.{
  Outcome, ok, thrown, fault, out_of_fuel, ◌>>=◌, or_throw, or_fault,
}

pub record Relation : Type 0 where
  pub key : Bytes
  pub value : Bytes
  pub path : Bytes
  pub dependencies : List ℕ
  pub depth : ℕ

-- Relation()
abbrev pub default_relation : Relation
default_relation = record { key = []; value = []; path = []; dependencies = []; depth = 0 }

-- The loop of the constructors over the depths of the dependencies.
unfoldable pub depth_over : List ℕ → ℕ → ℕ
depth_over [] depth = depth
depth_over (d ∷ ds) depth = depth_over ds (if leb depth d then d + 1 else depth)

abbrev pub Cells : Type 0
Cells = ℕ → Relation

-- Relation(key, value, path, dependencies)
unfoldable pub new_relation_value : Cells → Bytes → Bytes → Bytes → List ℕ → Relation
new_relation_value cell key value path dependencies = record {
  key = key;
  value = value;
  path = path;
  dependencies = dependencies;
  depth = depth_over (map (λ p. (cell p).depth) dependencies) 1;
}

-- Relation(key, path, dependencies)
unfoldable pub new_relation : Cells → Bytes → Bytes → List ℕ → Relation
unfolding new_relation_value
new_relation cell key path dependencies = new_relation_value cell key [] path dependencies

-- The manifest, with the heap that its pointers point into; `fresh` is the next address.
pub record ActionManifest : Type 0 where
  pub concurrency : ℕ
  pub index : List ℕ
  pub cell : Cells
  pub fresh : ℕ

-- ActionManifest(), over a heap.
abbrev pub empty_manifest : ActionManifest
empty_manifest = record { concurrency = 1; index = []; cell = λ p. default_relation; fresh = 0 }

-- make_shared
abbrev pub write : Cells → ℕ → Relation → Cells
write cell p r q = if p == q then r else cell q

-- What the code reads of the parsed action-manifest.json by boost::json: `none` where `at`,
-- `as_object`, `as_array` or `as_string` throws.
pub record Json : Type 0 where
  pub depends : Bytes → Option (List (Option Bytes))
  pub file : Bytes → Option Bytes

-- std::find_if by key: the position, counted from i, and the pointer.
unfoldable pub find : Cells → Bytes → List ℕ → ℕ → Option (ℕ × ℕ)
find cell key [] i = none
find cell key (p ∷ ps) i =
    let rest = find cell key ps (i + 1) in if bytes_eq (cell p).key key then some (i, p) else rest

ends_with_slash : Bytes → Bool
ends_with_slash [] = false
ends_with_slash (c ∷ []) = c == b'/'
ends_with_slash (c ∷ d ∷ cs) = ends_with_slash (d ∷ cs)

-- operator/= of two POSIX paths.
unfoldable pub path_append : Bytes → Bytes → Bytes
unfolding ends_with_slash
path_append path [] = if is_empty path || ends_with_slash path then path else path ++ b'/' ∷ []
path_append path (c ∷ cs) =
    if c == b'/'
    then c ∷ cs
    else if is_empty path || ends_with_slash path
    then path ++ c ∷ cs
    else path ++ b'/' ∷ c ∷ cs

-- index_.push_back(make_shared<Relation>(key, path, dependencies))
unfoldable pub push_new : ActionManifest → Bytes → Bytes → List ℕ → ActionManifest
push_new m key path dependencies = record m {
  index = m.index ++ m.fresh ∷ [];
  cell = write m.cell m.fresh (new_relation m.cell key path dependencies);
  fresh = suc m.fresh;
}

module _ (json : Json) (actions : Bytes) where
  -- The loop of emplace over the dependencies; `insert` is the recursive call.
  unfoldable pub emplace_all :
      (Bytes → ActionManifest → Outcome ActionManifest)
      → List (Option Bytes)
      → ActionManifest
      → Outcome (ActionManifest × List ℕ)
  emplace_all insert [] m = ok (m, [])
  emplace_all insert (dep ∷ deps) m = or_throw dep >>= λ dep_key. insert dep_key m >>= λ m'.
      or_fault (find m'.cell dep_key m'.index 0) >>= λ tmp.
      emplace_all insert deps m' >>= λ r. ok (r.0, tmp.1 ∷ r.1)

  -- ActionManifest::emplace, on fuel; `actions` is __OW_ACTIONS.
  unfoldable pub emplace : ℕ → Bytes → ActionManifest → Outcome ActionManifest
  emplace zero key m = out_of_fuel
  emplace (suc fuel) key m = elim (find m.cell key m.index 0) [
    | none ↦ or_throw (json.depends key) >>= λ deps. emplace_all (emplace fuel) deps m >>= λ r.
        or_throw (json.file key) >>= λ fname. ok (push_new r.0 key (path_append actions fname) r.1)
    | some it ↦ ok m
  ]

-- value.empty() || value == "null"
unfoldable pub is_incomplete : Bytes → Bool
unfolding bytes_eq
is_incomplete value = is_empty value || bytes_eq value (codes "null")

unfoldable pub any_incomplete : Cells → List ℕ → Bool
any_incomplete cell [] = false
any_incomplete cell (p ∷ ps) = is_incomplete (cell p).value || any_incomplete cell ps

-- The first of `count` dependencies from position (start + offset) % num_deps on whose value is
-- empty.
unfoldable pub first_empty : Cells → List ℕ → ℕ → ℕ → ℕ → Outcome (Option ℕ)
first_empty cell deps start offset zero = ok none
first_empty cell deps start offset (suc count) =
    let rest = first_empty cell deps start (offset + 1) count in
    or_fault (get_elem? deps ((start + offset) % length deps)) >>= λ d.
    if is_empty (cell d).value then ok (some d) else rest

-- What next does at an action that has not run, with its dependencies; `again` is its recursive
-- call.
unfoldable pub next_with :
    (Bytes → Outcome (Option ℕ)) → Cells → ℕ → ℕ → List ℕ → Outcome (Option ℕ)
next_with again cell idx p [] = ok (some p)
next_with again cell idx p (d ∷ ds) =
    let num_deps = length (d ∷ ds) in
    first_empty cell (d ∷ ds) (idx % num_deps) 0 num_deps >>= λ found. elim found [
      | none ↦ ok (some p)
      | some d ↦ again (cell d).key
    ]

-- What next does once it has found the key.
unfoldable pub next_at :
    (Bytes → Outcome (Option ℕ)) → ActionManifest → ℕ → ℕ × ℕ → Outcome (Option ℕ)
next_at again m idx it = elim (is_empty (m.cell it.1).value) [
  | false ↦ or_fault (get_elem? m.index ((it.0 + 1) % length m.index)) >>= λ p. again (m.cell p).key
  | true ↦ next_with again m.cell idx it.1 (m.cell it.1).dependencies
]

-- ActionManifest::next, on fuel; `none` is the default constructed relation.
unfoldable pub next : ℕ → ActionManifest → Bytes → ℕ → Outcome (Option ℕ)
next zero m key idx = out_of_fuel
next (suc fuel) m key idx = elim (any_incomplete m.cell m.index) [
  | false ↦ ok none
  | true ↦ or_throw (find m.cell key m.index 0) >>= next_at (λ key. next fuel m key idx) m idx
]
