-- ===== src/Manifest/Totality.antt =====
-- When ActionManifest::emplace returns: with fuel above the rank of the key where no action
-- depends on itself and the file holds every entry; never where the dependencies run in a circle.
use stochastic_scheduler_con.Prelude.{
  ℕ, zero, suc, ◌<◌, ◌≡◌, inl, inr, refl, ap, ◌∙◌, Option, none, some, List, [], ◌∷◌, arith,
  get_elem?, Bytes, Option-cases,
}
use stochastic_scheduler_con.Prelude.Outcome.{Outcome, ok, out_of_fuel, ◌>>=◌, or_throw}
use stochastic_scheduler_con.Manifest.{
  ActionManifest, Json, find, push_new, emplace, emplace_all, path_append,
}
use stochastic_scheduler_con.Manifest.Invariant.{IsWellFormed}
use stochastic_scheduler_con.Manifest.Emplace.{IsAcyclic, emplace_absent_lem, emplace_step}

-- The entries of the known actions are there, and depend on known actions only.
pub record IsComplete (json : Json) (Known : Bytes → Type 0) : Type 0 where
  pub depends :
      (key : Bytes)
      → Known key
      → (deps : List (Option Bytes)) × (json.depends key ≡ some deps)
        × ((k : ℕ) (dep : Option Bytes)
            → get_elem? deps k ≡ some dep
            → (dep_key : Bytes) × (dep ≡ some dep_key) × Known dep_key)
  pub file : (key : Bytes) → Known key → (fname : Bytes) × (json.file key ≡ some fname)

module _ (json : Json) (actions : Bytes) where
  emplace_all_step :
      (insert : Bytes → ActionManifest → Outcome ActionManifest)
      → (dep : Option Bytes) (dep_key : Bytes) (deps : List (Option Bytes)) (m m' : ActionManifest)
        (it : ℕ × ℕ) (s : ActionManifest × List ℕ)
      → dep ≡ some dep_key
      → insert dep_key m ≡ ok m'
      → find m'.cell dep_key m'.index 0 ≡ some it
      → emplace_all json actions insert deps m' ≡ ok s
      → emplace_all json actions insert (dep ∷ deps) m ≡ ok (s.0, it.1 ∷ s.1)
  unfolding emplace_all
  emplace_all_step insert dep dep_key deps m m' it s a b c d = rw (a, b) (rw (c, d))

  emplace_known :
      (fuel : ℕ) (key : Bytes) (m : ActionManifest) (it : ℕ × ℕ)
      → find m.cell key m.index 0 ≡ some it
      → emplace json actions (suc fuel) key m ≡ ok m
  unfolding emplace
  emplace_known fuel key m it f = rw (f, emplace)

module _ (json : Json) (actions : Bytes) (rank : Bytes → ℕ) (acyclic : IsAcyclic json rank)
    (Known : Bytes → Type 0) (complete : IsComplete json Known) where
  emplace_all_total :
      (fuel bound : ℕ)
      → ((key : Bytes) (m : ActionManifest)
          → Known key
          → rank key < bound
          → IsWellFormed m
          → (m' : ActionManifest) × (emplace json actions fuel key m ≡ ok m'))
      → (deps : List (Option Bytes))
      → ((k : ℕ) (dep : Option Bytes)
          → get_elem? deps k ≡ some dep
          → (dep_key : Bytes) × (dep ≡ some dep_key) × Known dep_key)
      → ((k : ℕ) (dep : Bytes) → get_elem? deps k ≡ some (some dep) → rank dep < bound)
      → (m : ActionManifest) → IsWellFormed m
      → (r : ActionManifest × List ℕ) × (emplace_all json actions (emplace json actions fuel) deps m
          ≡ ok r)
  emplace_all_total fuel bound step [] known low m v = ((m, []), unfold emplace_all in refl)
  emplace_all_total fuel bound step (dep ∷ deps) known low m v =
      let (dep_key, a, here) = known 0 dep refl in
      let (m', b) = step dep_key m here (low 0 dep_key (ap some a)) v in
      let (done, found) = emplace_step json actions rank acyclic fuel dep_key m m' b v in
      let (s, d) =
        emplace_all_total fuel bound step deps (λ k. known (suc k)) (λ k. low (suc k)) m' done.0 in
      (
        (s.0, found.0.1 ∷ s.1),
        emplace_all_step json actions (emplace json actions fuel) dep dep_key deps m m' found.0 s a
            b found.1 d,
      )

  pub emplace_total :
      (fuel : ℕ) (key : Bytes) (m : ActionManifest)
      → Known key
      → rank key < fuel
      → IsWellFormed m
      → (m' : ActionManifest) × (emplace json actions fuel key m ≡ ok m')
  emplace_total zero key m k l v = absurd (omega (arith, l))
  emplace_total (suc fuel) key m k l v = elim (Option-cases (find m.cell key m.index 0)) [
    | inr (it, f) ↦ (m, emplace_known json actions fuel key m it f)
    | inl f ↦
        let (deps, a, known) = complete.depends key k in
        let (fname, c) = complete.file key k in
        let (r, b) =
          emplace_all_total fuel (rank key)
            (λ key' m' k' l' v'. emplace_total fuel key' m' k' (omega (arith, l, l')) v') deps known
            (λ i dep. acyclic.lower key deps i dep a) m v in
        (
          push_new r.0 key (path_append actions fname) r.1,
          emplace_absent_lem json actions fuel key m f ∙ rw (a, b) (rw c),
        )
  ]

-- A circle of keys: the first dependency of each is again in it.
pub record IsCircle (json : Json) (Circle : Bytes → Type 0) : Type 0 where
  pub first :
      (key : Bytes)
      → Circle key
      → (dep : Bytes) × (deps : List (Option Bytes)) × (json.depends key ≡ some (some dep ∷ deps))
        × Circle dep

first_diverges :
    (json : Json) (actions : Bytes) (insert : Bytes → ActionManifest → Outcome ActionManifest)
    → (dep : Bytes) (deps : List (Option Bytes)) (m : ActionManifest) → insert dep m ≡ out_of_fuel
    → emplace_all json actions insert (some dep ∷ deps) m ≡ out_of_fuel
unfolding emplace_all
first_diverges json actions insert dep deps m h = rw h

-- Where the first dependencies of some keys are all among these keys again, and none of these is in
-- the manifest yet, emplace of any of them does not return, on any fuel.
pub emplace_diverges :
    (json : Json) (actions : Bytes) (Circle : Bytes → Type 0)
    → IsCircle json Circle
    → (fuel : ℕ) (key : Bytes) (m : ActionManifest) → Circle key
    → ((key : Bytes) → Circle key → find m.cell key m.index 0 ≡ none)
    → emplace json actions fuel key m ≡ out_of_fuel
emplace_diverges json actions Circle circle zero key m c absent = unfold emplace in refl
emplace_diverges json actions Circle circle (suc fuel) key m c absent =
    let (dep, deps, a, c') = circle.first key c in
    emplace_absent_lem json actions fuel key m (absent key c)
    ∙ rw a (
        ap
          (λ (o : Outcome (ActionManifest × List ℕ)). o >>= λ r.
            or_throw (json.file key) >>= λ fname.
            ok (push_new r.0 key (path_append actions fname) r.1))
          (first_diverges json actions (emplace json actions fuel) dep deps m
            (emplace_diverges json actions Circle circle fuel dep m c' absent)))
