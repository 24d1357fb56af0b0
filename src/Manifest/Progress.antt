-- ===== src/Manifest/Progress.antt =====
-- When ActionManifest::next returns: always, on enough fuel, while an action of a well-formed
-- manifest has no value; never, while all have one and one of them is "null".
use native.Mathlib.Nat.{mod-eq_of_lt, mod-add-mod}
use stochastic_scheduler_con.Prelude.{
  ℕ, zero, suc, ◌+◌, ◌%◌, ◌<◌, ◌≤◌, ◌≡◌, ◌≢◌, inl, inr, refl, sym, ap, ◌∙◌, subst, Bool, true,
  false, ◌||◌, Option, none, some, List, [], ◌∷◌, arith, length, get_elem?, is_empty, Bytes, ◌↔◌,
  Option-cases, Bool-cases,
}
use stochastic_scheduler_con.Prelude.Outcome.{Outcome, ok, out_of_fuel}
use stochastic_scheduler_con.Manifest.{
  ActionManifest, Cells, find, next, any_incomplete, is_incomplete,
}
use stochastic_scheduler_con.Manifest.Index.{
  find_sound, find_complete, get_elem?_of_lt, get_elem?-lt,
}
use stochastic_scheduler_con.Manifest.Invariant.{IsWellFormed}
use stochastic_scheduler_con.Manifest.Next.{
  next_done, next_found, next_at_skip, next_at_wait, next_with_lem, offset_of, next_missing,
  next_at_fault, next-zero, thrown-ne-ok, fault-ne-ok,
}

-- An action without a value is incomplete.
any_incomplete_of_empty :
    (cell : Cells) (ps : List ℕ) (i p : ℕ)
    → get_elem? ps i ≡ some p
    → is_empty (cell p).value ≡ true
    → any_incomplete cell ps ≡ true
unfolding any_incomplete is_incomplete
any_incomplete_of_empty cell [] i p h e = cc
any_incomplete_of_empty cell (q ∷ ps) zero p h e =
    let same : p ≡ q = ground arith in rw (ap (λ (r : ℕ). is_empty (cell r).value) (sym same) ∙ e)
any_incomplete_of_empty cell (q ∷ ps) (suc i) p h e =
    elim (Bool-cases (is_incomplete (cell q).value)) [
      | inl b ↦ rw b
      | inr b ↦ rw b (any_incomplete_of_empty cell ps i p h e)
    ]

-- In a well-formed manifest the key of an action finds that action.
pub find_own :
    (m : ActionManifest) (i p : ℕ)
    → IsWellFormed m
    → get_elem? m.index i ≡ some p
    → find m.cell (m.cell p).key m.index 0 ≡ some (i, p)
find_own m i p v h = elim (Option-cases (find m.cell (m.cell p).key m.index 0)) [
  | inl e ↦ absurd (find_complete m.cell (m.cell p).key m.index 0 i p h refl e)
  | inr ((j, q), e) ↦
      let (k, a, at, s) = find_sound m.cell (m.cell p).key m.index 0 j q e in
      let same : k ≡ i = v.distinct k i q p at h s in
      let eq : q ≡ p = ground (arith, sym at ∙ ap (get_elem? m.index) same ∙ h) in
      e ∙ ap (λ (x : ℕ). some (x, q)) (omega (arith, a, same)) ∙ ap (λ (y : ℕ). some (i, y)) eq
]

module _ (m : ActionManifest) (idx : ℕ) (v : IsWellFormed m) where
  -- From an action without a value the search goes down the depths.
  next_descends :
      (fuel i p : ℕ)
      → get_elem? m.index i ≡ some p
      → is_empty (m.cell p).value ≡ true
      → (m.cell p).depth < fuel
      → (q : ℕ) × (next fuel m (m.cell p).key idx ≡ ok (some q))
  next_descends zero i p h e l = absurd (omega (arith, l))
  next_descends (suc fuel) i p h e l =
      let again = λ (key : Bytes). next fuel m key idx in
      let found =
        next_found fuel m (m.cell p).key idx (i, p) (any_incomplete_of_empty m.cell m.index i p h e)
          (find_own m i p v h)
        ∙ next_at_wait again m idx (i, p) e in
      elim (next_with_lem again m.cell idx p (m.cell p).dependencies) [
        | inl (b, all) ↦ (p, found ∙ b)
        | inr (d, k, b, c, w) ↦
            let (j, at, below) = v.closed i p k d h c in
            let (q, r) = next_descends fuel j d at w (omega (arith, l, below)) in (q, found ∙ b ∙ r)
      ]

  -- From any action the search goes round the index to the one at j, at most.
  next_rounds :
      (bound j q : ℕ)
      → get_elem? m.index j ≡ some q
      → is_empty (m.cell q).value ≡ true
      → ((i p : ℕ) → get_elem? m.index i ≡ some p → (m.cell p).depth < bound)
      → (distance fuel i p : ℕ) → get_elem? m.index i ≡ some p
      → (i + distance) % length m.index ≡ j
      → distance + bound ≤ fuel
      → (r : ℕ) × (next fuel m (m.cell p).key idx ≡ ok (some r))
  next_rounds bound j q g w low zero fuel i p h e l =
      let here : i ≡ j =
        sym (mod-eq_of_lt (get_elem?-lt m.index i p h))
        ∙ ap (λ (t : ℕ). t % length m.index) (omega arith)
        ∙ e in
      let same : q ≡ p = ground (arith, sym g ∙ ap (get_elem? m.index) (sym here) ∙ h) in
      next_descends fuel i p h (subst (λ (r : ℕ). is_empty (m.cell r).value ≡ true) same w)
        (omega (arith, low i p h, l))
  next_rounds bound j q g w low (suc distance) zero i p h e l = absurd (omega (arith, l))
  next_rounds bound j q g w low (suc distance) (suc fuel) i p h e l =
      elim (Bool-cases (is_empty (m.cell p).value)) [
        | inl full ↦ next_descends (suc fuel) i p h full (omega (arith, low i p h, l))
        | inr has ↦
            let n = length m.index in
            let some_left : 0 < n = omega (arith, get_elem?-lt m.index i p h) in
            let (p', h') = get_elem?_of_lt m.index ((i + 1) % n) (omega (arith, some_left)) in
            let (r, s) =
              next_rounds bound j q g w low distance fuel ((i + 1) % n) p' h'
                (mod-add-mod (i + 1) n distance ∙ ap (λ (t : ℕ). t % n) (omega arith) ∙ e)
                (omega (arith, l)) in
            (
              r,
              next_found fuel m (m.cell p).key idx (i, p)
                    (any_incomplete_of_empty m.cell m.index j q g w) (find_own m i p v h)
                  ∙ next_at_skip (λ key. next fuel m key idx) m idx (i, p) p' has h'
                  ∙ s,
            )
      ]

-- In a well-formed manifest where the action at j has no value and all depths are below a bound,
-- next from any action returns a relation, on fuel for one round of the index and a descent.
pub next_total :
    (m : ActionManifest) (idx bound fuel i p j q : ℕ)
    → IsWellFormed m
    → ((i p : ℕ) → get_elem? m.index i ≡ some p → (m.cell p).depth < bound)
    → get_elem? m.index i ≡ some p
    → get_elem? m.index j ≡ some q
    → is_empty (m.cell q).value ≡ true
    → length m.index + bound ≤ fuel
    → (r : ℕ) × (next fuel m (m.cell p).key idx ≡ ok (some r))
next_total m idx bound fuel i p j q v low h g w l =
    let n = length m.index in
    let (distance, a, b) =
      offset_of n i j (get_elem?-lt m.index i p h) (get_elem?-lt m.index j q g) in
    next_rounds m idx v bound j q g w low distance fuel i p h b (omega (arith, a, l))

-- Where all actions have a value, and one of the values is "null", next from any action of the
-- manifest does not return, on any fuel.
pub next_diverges :
    (m : ActionManifest) (idx fuel i p : ℕ)
    → IsWellFormed m
    → any_incomplete m.cell m.index ≡ true
    → ((i p : ℕ) → get_elem? m.index i ≡ some p → is_empty (m.cell p).value ≡ false)
    → get_elem? m.index i ≡ some p
    → next fuel m (m.cell p).key idx ≡ out_of_fuel
next_diverges m idx zero i p v a full h = unfold next in refl
next_diverges m idx (suc fuel) i p v a full h =
    let n = length m.index in
    let some_left : 0 < n = omega (arith, get_elem?-lt m.index i p h) in
    let (p', h') = get_elem?_of_lt m.index ((i + 1) % n) (omega (arith, some_left)) in
    next_found fuel m (m.cell p).key idx (i, p) a (find_own m i p v h)
    ∙ next_at_skip (λ key. next fuel m key idx) m idx (i, p) p' (full i p h) h'
    ∙ next_diverges m idx fuel ((i + 1) % n) p' v a full h'

or_left : (a b : Bool) → (a || b) ≡ false → a ≡ false
or_left a b h = ground arith

or_right : (a b : Bool) → (a || b) ≡ false → b ≡ false
or_right a b h = ground arith

pub all_complete :
    (cell : Cells) (ps : List ℕ)
    → any_incomplete cell ps ≡ false
    → (i p : ℕ) → get_elem? ps i ≡ some p
    → is_incomplete (cell p).value ≡ false
unfolding any_incomplete
all_complete cell [] a i p h = cc
all_complete cell (q ∷ ps) a zero p h =
    let same : q ≡ p = ground arith in
    subst (λ (r : ℕ). is_incomplete (cell r).value ≡ false) same (or_left _ _ a)
all_complete cell (q ∷ ps) a (suc i) p h = all_complete cell ps (or_right _ _ a) i p h

none_incomplete :
    (cell : Cells) (ps : List ℕ)
    → ((i p : ℕ) → get_elem? ps i ≡ some p → is_incomplete (cell p).value ≡ false)
    → any_incomplete cell ps ≡ false
unfolding any_incomplete
none_incomplete cell [] all = refl
none_incomplete cell (q ∷ ps) all = rw (all 0 q refl) (none_incomplete cell ps (λ i. all (suc i)))

some-ne-none : {p : ℕ} → ◌≢◌ {A = Outcome (Option ℕ)} (ok (some p)) (ok none)
some-ne-none h = cc

next-ne-none :
    (fuel : ℕ) (m : ActionManifest) (key : Bytes) (idx : ℕ)
    → any_incomplete m.cell m.index ≡ true
    → next fuel m key idx ≢ ok none
next-ne-none zero m key idx a h = next-zero m key idx h
next-ne-none (suc fuel) m key idx a h = elim (Option-cases (find m.cell key m.index 0)) [
  | inl f ↦ thrown-ne-ok (sym (next_missing fuel m key idx a f) ∙ h)
  | inr (it, f) ↦
      let g = sym (next_found fuel m key idx it a f) ∙ h in
      let again = λ (key : Bytes). next fuel m key idx in
      elim (Bool-cases (is_empty (m.cell it.1).value)) [
        | inl e ↦
            let k = sym (next_at_wait again m idx it e) ∙ g in
            elim (next_with_lem again m.cell idx it.1 (m.cell it.1).dependencies) [
              | inl (b, all) ↦ some-ne-none (sym b ∙ k)
              | inr (d, _, b, _, _) ↦ next-ne-none fuel m (m.cell d).key idx a (sym b ∙ k)
            ]
        | inr e ↦ elim (Option-cases (get_elem? m.index ((it.0 + 1) % length m.index))) [
          | inl b ↦ fault-ne-ok (sym (next_at_fault again m idx it e b) ∙ g)
          | inr (q, b) ↦
              next-ne-none fuel m (m.cell q).key idx a (sym (next_at_skip again m idx it q e b) ∙ g)
        ]
      ]
]

-- A call of next with fuel returns the default constructed relation exactly where every action
-- has a value other than "null".
pub next-none_iff :
    (m : ActionManifest) (fuel idx : ℕ) (key : Bytes)
    → (next (suc fuel) m key idx ≡ ok none)
      ↔ ((i p : ℕ) → get_elem? m.index i ≡ some p → is_incomplete (m.cell p).value ≡ false)
next-none_iff m fuel idx key = (
  λ h. elim (Bool-cases (any_incomplete m.cell m.index)) [
    | inl a ↦ absurd (next-ne-none (suc fuel) m key idx a h)
    | inr a ↦ all_complete m.cell m.index a
  ],
  λ all. next_done fuel m key idx (none_incomplete m.cell m.index all),
)
