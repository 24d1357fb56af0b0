-- ===== src/Context/Construct/Examples.antt =====
-- A file of two actions, of which the constructor builds a manifest.
use stochastic_scheduler_con.Prelude.{
  ℕ, zero, suc, Option, none, some, List, [], ◌∷◌, ltb, if◌then◌else◌, Bytes, codes, bytes_eq,
}
use stochastic_scheduler_con.Manifest.{Json}

-- The file {"a": ..., "ab": ... depends on "a"}.
abbrev keys : List Bytes
keys = codes "a" ∷ codes "ab" ∷ []

abbrev depends : Bytes → Option (List (Option Bytes))
depends key =
    if bytes_eq key (codes "a")
    then some []
    else if bytes_eq key (codes "ab")
    then some (some (codes "a") ∷ [])
    else none

abbrev json : Json
json = record { depends = depends; file = λ key. some key }

-- A sort of two elements.
abbrev sort : (ℕ → ℕ) → List ℕ → List ℕ
sort depth [] = []
sort depth (p ∷ []) = p ∷ []
sort depth (p ∷ q ∷ ps) = if ltb (depth p) (depth q) then q ∷ p ∷ ps else p ∷ q ∷ ps

swap : ℕ → ℕ
swap zero = 1
swap (suc zero) = 0
swap (suc (suc n)) = suc (suc n)
