-- ===== src/Manifest/Emplace.antt =====
-- ActionManifest::emplace keeps a manifest well-formed, keeps what it holds, and leaves the key
-- in it, where no action depends on itself.
use stochastic_scheduler_con.Prelude.{
  ℕ, zero, suc, ◌<◌, ◌≡◌, ◌≢◌, inl, inr, sym, ap, ◌∙◌, subst, Option, none, some, List, [], ◌∷◌,
  arith, get_elem?, Bytes, Option-cases,
}
use stochastic_scheduler_con.Prelude.Outcome.{
  Outcome, ok, ◌>>=◌, or_throw, or_fault, >>=-eq-ok, or_throw-eq-ok, or_fault-eq-ok,
}
use stochastic_scheduler_con.Manifest.{
  ActionManifest, Json, find, push_new, emplace, emplace_all, path_append,
}
use stochastic_scheduler_con.Manifest.Index.{find_sound, find_complete}
use stochastic_scheduler_con.Manifest.Invariant.{
  IsWellFormed, Grows, Grows-refl, Grows-trans, Grows-weaken, Indexed, push_new-IsWellFormed,
  push_new-Grows, push_new-find,
}

-- No action depends on itself, directly or through others: dependencies rank lower.
pub record IsAcyclic (json : Json) (rank : Bytes → ℕ) : Type 0 where
  pub lower :
      (key : Bytes) (deps : List (Option Bytes)) (k : ℕ) (dep : Bytes)
      → json.depends key ≡ some deps
      → get_elem? deps k ≡ some (some dep)
      → rank dep < rank key

-- What a call that returns has done: the result is well-formed, and holds all that was there.
abbrev pub Emplaced : (Bytes → ℕ) → ℕ → ActionManifest → ActionManifest → Type 0
Emplaced rank bound m m' = IsWellFormed m' × Grows rank bound m m'

abbrev pub Found : ActionManifest → Bytes → Type 0
Found m key = (it : ℕ × ℕ) × (find m.cell key m.index 0 ≡ some it)

ok-injective {ℓ} : {A : Type ℓ} {a b : A} → ok a ≡ ok b → a ≡ b
ok-injective h = cc

pub emplace_absent_lem :
    (json : Json) (actions : Bytes) (fuel : ℕ) (key : Bytes) (m : ActionManifest)
    → find m.cell key m.index 0 ≡ none
    → emplace json actions (suc fuel) key m ≡ (
        or_throw (json.depends key) >>= λ deps.
        emplace_all json actions (emplace json actions fuel) deps m >>= λ r.
        or_throw (json.file key) >>= λ fname. ok (push_new r.0 key (path_append actions fname) r.1))
unfolding emplace
emplace_absent_lem json actions fuel key m f = rw (f, emplace)

-- What a call that returned went through.
module _ (json : Json) (actions : Bytes) where
  emplace_all_nil :
      (insert : Bytes → ActionManifest → Outcome ActionManifest)
      → (m : ActionManifest) (r : ActionManifest × List ℕ)
      → emplace_all json actions insert [] m ≡ ok r
      → ◌≡◌ {A = ActionManifest × List ℕ} (m, []) r
  unfolding emplace_all
  emplace_all_nil insert m r h = cc

  emplace_all_cons :
      (insert : Bytes → ActionManifest → Outcome ActionManifest)
      → (dep : Option Bytes) (deps : List (Option Bytes)) (m : ActionManifest)
        (r : ActionManifest × List ℕ)
      → emplace_all json actions insert (dep ∷ deps) m ≡ ok r
      → (dep_key : Bytes) × (m' : ActionManifest) × (tmp : ℕ × ℕ) × (s : ActionManifest × List ℕ)
        × (dep ≡ some dep_key)
        × (insert dep_key m ≡ ok m')
        × (find m'.cell dep_key m'.index 0 ≡ some tmp)
        × (emplace_all json actions insert deps m' ≡ ok s)
        × ◌≡◌ {A = ActionManifest × List ℕ} (s.0, tmp.1 ∷ s.1) r
  unfolding emplace_all
  emplace_all_cons insert dep deps m r h =
      let (dep_key, a, h₁) = >>=-eq-ok (or_throw dep) _ h in
      let (m', b, h₂) = >>=-eq-ok (insert dep_key m) _ h₁ in
      let (tmp, c, h₃) = >>=-eq-ok (or_fault (find m'.cell dep_key m'.index 0)) _ h₂ in
      let (s, d, h₄) = >>=-eq-ok (emplace_all json actions insert deps m') _ h₃ in
      (dep_key, m', tmp, s, or_throw-eq-ok dep a, b, or_fault-eq-ok _ c, d, ok-injective h₄)

  emplace-zero :
      (key : Bytes) (m : ActionManifest) {m' : ActionManifest}
      → emplace json actions zero key m ≢ ok m'
  unfolding emplace
  emplace-zero key m h = cc

  emplace_present :
      (fuel : ℕ) (key : Bytes) (m m' : ActionManifest) (it : ℕ × ℕ)
      → find m.cell key m.index 0 ≡ some it
      → emplace json actions (suc fuel) key m ≡ ok m'
      → m ≡ m'
  unfolding emplace
  emplace_present fuel key m m' it f h = ok-injective (rw (f, emplace) at h)

  emplace_absent :
      (fuel : ℕ) (key : Bytes) (m m' : ActionManifest)
      → find m.cell key m.index 0 ≡ none
      → emplace json actions (suc fuel) key m ≡ ok m'
      → (deps : List (Option Bytes)) × (r : ActionManifest × List ℕ) × (fname : Bytes)
        × (json.depends key ≡ some deps)
        × (emplace_all json actions (emplace json actions fuel) deps m ≡ ok r)
        × (push_new r.0 key (path_append actions fname) r.1 ≡ m')
  emplace_absent fuel key m m' f h =
      let g = sym (emplace_absent_lem json actions fuel key m f) ∙ h in
      let (deps, a, h₁) = >>=-eq-ok (or_throw (json.depends key)) _ g in
      let (r, b, h₂) =
        >>=-eq-ok (emplace_all json actions (emplace json actions fuel) deps m) _ h₁ in
      let (fname, c, h₃) = >>=-eq-ok (or_throw (json.file key)) _ h₂ in
      (deps, r, fname, or_throw-eq-ok _ a, b, ok-injective h₃)

still_absent :
    (rank : Bytes → ℕ) (key : Bytes) (m m' : ActionManifest)
    → find m.cell key m.index 0 ≡ none
    → IsWellFormed m
    → Grows rank (rank key) m m'
    → (i p : ℕ) → get_elem? m'.index i ≡ some p
    → (m'.cell p).key ≢ key
still_absent rank key m m' f v g i p e k = elim (g.added i p e) [
  | inl a ↦
      find_complete m.cell key m.index 0 i p a
        (ap (λ r. r.key) (sym (g.same p (v.allocated i p a))) ∙ k) f
  | inr b ↦ absurd (omega (arith, b, ap rank k))
]

Indexed-cons :
    (m : ActionManifest) (p : ℕ) (ps : List ℕ)
    → Indexed m p
    → ((k d : ℕ) → get_elem? ps k ≡ some d → Indexed m d)
    → (k d : ℕ) → get_elem? (p ∷ ps) k ≡ some d
    → Indexed m d
Indexed-cons m p ps h t zero d e = let same : p ≡ d = ground arith in subst (Indexed m) same h
Indexed-cons m p ps h t (suc k) d e = t k d e

module _ (json : Json) (actions : Bytes) (rank : Bytes → ℕ) (acyclic : IsAcyclic json rank) where
  -- The loop over the dependencies, where the recursive call does its part.
  pub emplace_all_lem :
      (insert : Bytes → ActionManifest → Outcome ActionManifest)
      → ((key : Bytes) (m m' : ActionManifest)
          → insert key m ≡ ok m'
          → IsWellFormed m
          → Emplaced rank (suc (rank key)) m m' × Found m' key)
      → (bound : ℕ) (deps : List (Option Bytes))
      → ((k : ℕ) (dep : Bytes) → get_elem? deps k ≡ some (some dep) → rank dep < bound)
      → (m : ActionManifest) (r : ActionManifest × List ℕ)
      → emplace_all json actions insert deps m ≡ ok r
      → IsWellFormed m
      → Emplaced rank bound m r.0 × ((k d : ℕ) → get_elem? r.1 k ≡ some d → Indexed r.0 d)
  emplace_all_lem insert step bound [] low m r h v =
      let e : ◌≡◌ {A = ActionManifest × List ℕ} (m, []) r =
        emplace_all_nil json actions insert m r h in
      subst
        (λ (r : ActionManifest × List ℕ).
          Emplaced rank bound m r.0 × ((k d : ℕ) → get_elem? r.1 k ≡ some d → Indexed r.0 d))
        e ((v, Grows-refl rank bound m), λ k d f. cc)
  emplace_all_lem insert step bound (dep ∷ deps) low m r h v =
      let (dep_key, m', tmp, s, a, b, c, d, e) =
        emplace_all_cons json actions insert dep deps m r h in
      let (done, found) = step dep_key m m' b v in
      let (rest, listed) =
        emplace_all_lem insert step bound deps (λ k dep f. low (suc k) dep f) m' s d done.0 in
      let first = Grows-weaken rank (low 0 dep_key (ap some a)) done.1 in
      let (k, _, at, _) = find_sound m'.cell dep_key m'.index 0 tmp.0 tmp.1 c in
      subst
        (λ (r : ActionManifest × List ℕ).
          Emplaced rank bound m r.0 × ((k d : ℕ) → get_elem? r.1 k ≡ some d → Indexed r.0 d))
        e
        (
          (rest.0, Grows-trans rank bound done.0 first rest.1),
          Indexed-cons s.0 tmp.1 s.1 (k, rest.1.kept k tmp.1 at) listed,
        )

  pub emplace_step :
      (fuel : ℕ) (key : Bytes) (m m' : ActionManifest)
      → emplace json actions fuel key m ≡ ok m'
      → IsWellFormed m
      → Emplaced rank (suc (rank key)) m m' × Found m' key
  emplace_step zero key m m' h v = absurd (emplace-zero json actions key m h)
  emplace_step (suc fuel) key m m' h v = elim (Option-cases (find m.cell key m.index 0)) [
    | inr (it, f) ↦
        subst (λ m'. Emplaced rank (suc (rank key)) m m' × Found m' key)
          (emplace_present json actions fuel key m m' it f h)
          ((v, Grows-refl rank (suc (rank key)) m), (it, f))
    | inl f ↦
        let (deps, r, fname, a, b, c) = emplace_absent json actions fuel key m m' f h in
        let (done, listed) =
          emplace_all_lem (emplace json actions fuel) (emplace_step fuel) (rank key) deps
            (λ k dep g. acyclic.lower key deps k dep a g) m r b v in
        let absent = still_absent rank key m r.0 f v done.1 in
        let path = path_append actions fname in
        subst (λ m'. Emplaced rank (suc (rank key)) m m' × Found m' key) c
          (
            (
              push_new-IsWellFormed r.0 key path r.1 done.0 listed absent,
              Grows-trans rank (suc (rank key)) done.0 (Grows-weaken rank (omega arith) done.1)
                  (push_new-Grows r.0 key path r.1 done.0 listed absent rank),
            ),
            push_new-find r.0 key path r.1 done.0 listed absent,
          )
  ]

-- Where no action depends on itself, a call of emplace that returns leaves a well-formed manifest
-- well-formed, with all that it held at the same places and unchanged, and with the key.
pub emplace-IsWellFormed :
    (json : Json) (actions : Bytes) (rank : Bytes → ℕ)
    → IsAcyclic json rank
    → (fuel : ℕ) (key : Bytes) (m m' : ActionManifest) → emplace json actions fuel key m ≡ ok m'
    → IsWellFormed m
    → IsWellFormed m' × Grows rank (suc (rank key)) m m' × Found m' key
emplace-IsWellFormed json actions rank acyclic fuel key m m' h v =
    let (done, found) = emplace_step json actions rank acyclic fuel key m m' h v in
    (done.0, done.1, found)
