-- ===== src/Manifest/Examples.antt =====
-- A manifest of two actions, the second of which depends on the first, on which the results about
-- ActionManifest apply.
use stochastic_scheduler_con.Prelude.{
  ℕ, zero, suc, ◌+◌, ◌<◌, ◌≤◌, ◌≡◌, refl, sym, subst, ◌∙◌, true, Option, none, some, List, [], ◌∷◌,
  arith, length, get_elem?, is_empty, Bytes, codes, bytes_eq,
}
use stochastic_scheduler_con.Prelude.Outcome.{ok, out_of_fuel}
use stochastic_scheduler_con.Manifest.{
  ActionManifest, Json, empty_manifest, emplace, emplace_all, find, push_new, next, next_at,
  next_with, first_empty, any_incomplete, is_incomplete, default_relation, new_relation,
  new_relation_value, depth_over, path_append,
}
use stochastic_scheduler_con.Manifest.Invariant.{IsWellFormed, Grows}
use stochastic_scheduler_con.Manifest.Emplace.{emplace-IsWellFormed, IsAcyclic, Found}
use stochastic_scheduler_con.Manifest.Totality.{emplace_diverges, IsCircle}
use stochastic_scheduler_con.Manifest.Next.{next-IsReady, IsReady}
use stochastic_scheduler_con.Manifest.Progress.{next_total, next_diverges}

-- An action of one letter depends on nothing, and a longer name on the action of its first letter.
abbrev depends : Bytes → Option (List (Option Bytes))
depends [] = none
depends (c ∷ []) = some []
depends (c ∷ d ∷ ds) = some (some (c ∷ []) ∷ [])

abbrev json : Json
json = record { depends = depends; file = λ key. some key }

nil_elem : (k : ℕ) → get_elem? {A = Option Bytes} [] k ≡ none
nil_elem k = refl

one_elem : (x : Option Bytes) → get_elem? (x ∷ []) 0 ≡ some x
one_elem x = refl

past_one : (x : Option Bytes) (k : ℕ) → get_elem? (x ∷ []) (suc k) ≡ none
past_one x k = refl

lower :
    (key : Bytes) (deps : List (Option Bytes)) (k : ℕ) (dep : Bytes)
    → depends key ≡ some deps
    → get_elem? deps k ≡ some (some dep)
    → length dep < length key
lower [] deps k dep h g = absurd (cc)
lower (c ∷ []) deps k dep h g = absurd (cc (nil_elem k))
lower (c ∷ d ∷ ds) deps zero dep h g =
    let first : get_elem? deps 0 ≡ some (some (c ∷ [])) = cc (one_elem (some (c ∷ []))) in
    let e : dep ≡ c ∷ [] = cc in rw e (omega arith)
lower (c ∷ d ∷ ds) deps (suc k) dep h g = absurd (cc (past_one (some (c ∷ [])) k))

json-IsAcyclic : IsAcyclic json length
json-IsAcyclic = record { lower = lower }

abbrev actions : Bytes
actions = codes "/actions"

-- The actions "a" and "ab".
abbrev two_actions : ActionManifest
two_actions =
    push_new (push_new empty_manifest (codes "a") (codes "/actions/a") []) (codes "ab")
      (codes "/actions/ab") (0 ∷ [])

emplaces : emplace json actions 2 (codes "ab") empty_manifest ≡ ok two_actions
unfolding emplace emplace_all find push_new new_relation new_relation_value depth_over path_append
    bytes_eq
emplaces = refl

empty_manifest-IsWellFormed : IsWellFormed empty_manifest
empty_manifest-IsWellFormed = record {
  allocated = λ i p h. absurd (cc h);
  closed = λ i p k d h g. absurd (cc h);
  distinct = λ i j p q h g e. absurd (cc h);
}

emplace-IsWellFormed_example :
    IsWellFormed two_actions
    × Grows length 3 empty_manifest two_actions
    × Found two_actions (codes "ab")
emplace-IsWellFormed_example =
    emplace-IsWellFormed json actions length json-IsAcyclic 2 (codes "ab") empty_manifest
      two_actions emplaces empty_manifest-IsWellFormed

two_actions-IsWellFormed : IsWellFormed two_actions
two_actions-IsWellFormed =
    (emplace-IsWellFormed json actions length json-IsAcyclic 2 (codes "ab") empty_manifest
      two_actions emplaces empty_manifest-IsWellFormed).0

-- A name that is not empty.
abbrev IsName : Bytes → Type 0
IsName [] = ⊥
IsName (c ∷ cs) = Unit

-- Every action depends on itself.
abbrev looped : Json
looped = record { depends = λ key. some (some key ∷ []); file = λ key. some key }

looped-IsCircle : IsCircle looped (λ key. Unit {0})
looped-IsCircle = record { first = λ key c. (key, [], refl, tt) }

nothing_found : (key : Bytes) → find empty_manifest.cell key empty_manifest.index 0 ≡ none
unfolding find
nothing_found key = refl

emplace_diverges_example : emplace looped actions 100 (codes "a") empty_manifest ≡ out_of_fuel
emplace_diverges_example =
    emplace_diverges looped actions (λ key. Unit {0}) looped-IsCircle 100 (codes "a") empty_manifest
      tt (λ key c. nothing_found key)

next_is_a : next 2 two_actions (codes "ab") 7 ≡ ok (some 0)
unfolding next next_at next_with first_empty any_incomplete is_incomplete find push_new new_relation
    new_relation_value depth_over bytes_eq
next_is_a = refl

next-IsReady_example : IsReady two_actions 0
next-IsReady_example = next-IsReady 2 two_actions (codes "ab") 7 0 next_is_a

shallow : (i p : ℕ) → get_elem? two_actions.index i ≡ some p → (two_actions.cell p).depth < 3
unfolding push_new new_relation new_relation_value depth_over
shallow zero p h = let e : 0 ≡ p = cc in subst (λ q. (two_actions.cell q).depth < 3) e (omega arith)
shallow (suc zero) p h =
    let e : 1 ≡ p = cc in subst (λ q. (two_actions.cell q).depth < 3) e (omega arith)
shallow (suc (suc i)) p h = absurd (cc h)

listed : get_elem? two_actions.index 0 ≡ some 0
unfolding push_new
listed = refl

waiting : is_empty (two_actions.cell 0).value ≡ true
unfolding push_new new_relation new_relation_value
waiting = refl

enough : length two_actions.index + 3 ≤ 5
unfolding push_new
enough = omega arith

next_total_example : (r : ℕ) × (next 5 two_actions (two_actions.cell 0).key 7 ≡ ok (some r))
next_total_example =
    next_total two_actions 7 3 5 0 0 0 0 two_actions-IsWellFormed shallow listed listed waiting
      enough

-- The only action has given "null".
abbrev null_manifest : ActionManifest
null_manifest = record {
  concurrency = 1;
  index = 0 ∷ [];
  cell = λ p. record default_relation { key = codes "a"; value = codes "null"; depth = 1 };
  fresh = 1;
}

only_zero : (i p : ℕ) → get_elem? (0 ∷ []) i ≡ some p → (i ≡ 0) × (p ≡ 0)
only_zero zero p h = (refl, cc)
only_zero (suc i) p h = absurd (cc h)

null_manifest-IsWellFormed : IsWellFormed null_manifest
null_manifest-IsWellFormed = record {
  allocated = λ i p h. omega (arith, (only_zero i p h).1);
  closed = λ i p k d h g. absurd (cc g);
  distinct = λ i j p q h g e. (only_zero i p h).0 ∙ sym (only_zero j q g).0;
}

null_left : any_incomplete null_manifest.cell null_manifest.index ≡ true
unfolding any_incomplete is_incomplete bytes_eq
null_left = refl

next_diverges_example : next 100 null_manifest (codes "a") 0 ≡ out_of_fuel
next_diverges_example =
    next_diverges null_manifest 0 100 0 0 null_manifest-IsWellFormed null_left (λ i p h. refl) refl
