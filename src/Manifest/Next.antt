-- ===== src/Manifest/Next.antt =====
-- What ActionManifest::next returns.
use native.Mathlib.Nat.{mod-eq_of_lt, add-mod_right}
use stochastic_scheduler_con.Prelude.{
  ℕ, zero, suc, ◌+◌, ◌-◌, ◌%◌, ◌<◌, ◌≤◌, ◌≡◌, ◌≢◌, ◌⊎◌, inl, inr, refl, sym, ap, ◌∙◌, subst, true,
  false, Option, none, some, List, [], ◌∷◌, arith, length, get_elem?, is_empty, if◌then◌else◌,
  Bytes, Option-cases, Bool-cases, ◌==◌, ==_iff, leb,
}
use stochastic_scheduler_con.Prelude.Outcome.{Outcome, ok, thrown, fault, ◌>>=◌, or_throw}
use stochastic_scheduler_con.Manifest.{
  ActionManifest, Cells, find, next, next_at, next_with, first_empty, any_incomplete,
}
use stochastic_scheduler_con.Manifest.Index.{find_sound, get_elem?_of_lt, get_elem?-lt}
use stochastic_scheduler_con.Manifest.Invariant.{Indexed}

-- The action has not run, and all that it depends on has.
pub record IsReady (m : ActionManifest) (p : ℕ) : Type 0 where
  pub listed : Indexed m p
  pub waiting : is_empty (m.cell p).value ≡ true
  pub supplied :
      (k d : ℕ) → get_elem? (m.cell p).dependencies k ≡ some d → is_empty (m.cell d).value ≡ false

module _ (cell : Cells) (deps : List ℕ) (start : ℕ) where
  -- The dependency that one round reads.
  abbrev at_offset : ℕ → Option ℕ
  at_offset offset = get_elem? deps ((start + offset) % length deps)

  pub first_empty_step :
      (offset count d : ℕ)
      → at_offset offset ≡ some d
      → first_empty cell deps start offset (suc count) ≡ (
          if is_empty (cell d).value
          then ok (some d)
          else first_empty cell deps start (offset + 1) count)
  unfolding first_empty
  first_empty_step offset count d h = rw h

  pub at_offset_total : (offset : ℕ) → 0 < length deps → (d : ℕ) × (at_offset offset ≡ some d)
  at_offset_total offset h =
      get_elem?_of_lt deps ((start + offset) % length deps) (omega (arith, h))

  -- The loop returns, with a dependency whose value is empty, or none where all that it reads
  -- have values.
  pub first_empty_lem :
      0 < length deps
      → (offset count : ℕ)
      → ((first_empty cell deps start offset count ≡ ok none)
          × ((o d : ℕ)
              → offset ≤ o
              → o < offset + count
              → at_offset o ≡ some d
              → is_empty (cell d).value ≡ false))
        ⊎ ((d : ℕ) × (k : ℕ) × (first_empty cell deps start offset count ≡ ok (some d))
            × (get_elem? deps k ≡ some d)
            × (is_empty (cell d).value ≡ true))
  first_empty_lem n offset zero =
      inl (unfold first_empty in refl, λ o d a b. absurd (omega (arith, a, b)))
  first_empty_lem n offset (suc count) =
      let (d, e) = at_offset_total offset n in
      elim (Bool-cases (is_empty (cell d).value)) [
        | inl v ↦
            inr (d, (start + offset) % length deps, first_empty_step offset count d e ∙ rw v, e, v)
        | inr v ↦ elim (first_empty_lem n (offset + 1) count) [
          | inl (f, all) ↦ inl (
            first_empty_step offset count d e ∙ rw v f,
            λ o d' a b g. elim (Bool-cases (o == offset)) [
              | inl s ↦
                  let same : o ≡ offset = (==_iff o offset).0 s in
                  let eq : d ≡ d' = ground (arith, sym e ∙ ap at_offset (sym same) ∙ g) in
                  subst (λ (d : ℕ). is_empty (cell d).value ≡ false) eq v
              | inr s ↦ all o d' (ground arith) (omega (arith, b)) g
            ],
          )
          | inr (d', k, f, g, w) ↦ inr (d', k, first_empty_step offset count d e ∙ rw v f, g, w)
        ]
      ]

mod_add : (n k : ℕ) → k < n → (k + n) % n ≡ k
mod_add n k l = add-mod_right k n ∙ mod-eq_of_lt l

-- The rounds from 0 to the number of dependencies read every dependency.
pub offset_of : (n start k : ℕ) → start < n → k < n → (o : ℕ) × (o < n) × ((start + o) % n ≡ k)
offset_of n start k h l = elim (Bool-cases (leb start k)) [
  | inl e ↦ (k - start, ground arith, ap (λ (t : ℕ). t % n) (before start k e) ∙ mod-eq_of_lt l)
  | inr e ↦
      (k + n - start, ground arith, ap (λ (t : ℕ). t % n) (after start k n h e) ∙ mod_add n k l)
]
  where
    before : (start k : ℕ) → leb start k ≡ true → start + (k - start) ≡ k
    before start k e = ground arith

    after : (start k n : ℕ) → start < n → leb start k ≡ false → start + (k + n - start) ≡ k + n
    after start k n h e = ground arith

pub first_empty_all :
    (cell : Cells) (deps : List ℕ) (idx : ℕ)
    → 0 < length deps
    → ((first_empty cell deps (idx % length deps) 0 (length deps) ≡ ok none)
        × ((k d : ℕ) → get_elem? deps k ≡ some d → is_empty (cell d).value ≡ false))
      ⊎ ((d : ℕ) × (k : ℕ) × (first_empty cell deps (idx % length deps) 0 (length deps)
            ≡ ok (some d))
          × (get_elem? deps k ≡ some d)
          × (is_empty (cell d).value ≡ true))
first_empty_all cell deps idx n =
    elim (first_empty_lem cell deps (idx % length deps) n 0 (length deps)) [
      | inr r ↦ inr r
      | inl (f, all) ↦ inl (
        f,
        λ k d g.
            let (o, a, b) =
              offset_of (length deps) (idx % length deps) k (omega (arith, n))
                (get_elem?-lt deps k d g) in
            all o d (omega arith) (omega (arith, a)) (ap (get_elem? deps) b ∙ g),
      )
    ]

-- The branches of a call with fuel.
module _ (fuel : ℕ) (m : ActionManifest) (key : Bytes) (idx : ℕ) where
  pub next_done : any_incomplete m.cell m.index ≡ false → next (suc fuel) m key idx ≡ ok none
  unfolding next
  next_done a = rw (a, next)

  next_lem :
      any_incomplete m.cell m.index ≡ true
      → next (suc fuel) m key idx
        ≡ (or_throw (find m.cell key m.index 0) >>= next_at (λ key. next fuel m key idx) m idx)
  unfolding next
  next_lem a = rw (a, next)

  pub next_missing :
      any_incomplete m.cell m.index ≡ true
      → find m.cell key m.index 0 ≡ none
      → next (suc fuel) m key idx ≡ thrown
  next_missing a f =
      next_lem a
      ∙ ap (λ (o : Option (ℕ × ℕ)). or_throw o >>= next_at (λ key. next fuel m key idx) m idx) f

  pub next_found :
      (it : ℕ × ℕ)
      → any_incomplete m.cell m.index ≡ true
      → find m.cell key m.index 0 ≡ some it
      → next (suc fuel) m key idx ≡ next_at (λ key. next fuel m key idx) m idx it
  next_found it a f =
      next_lem a
      ∙ ap (λ (o : Option (ℕ × ℕ)). or_throw o >>= next_at (λ key. next fuel m key idx) m idx) f

module _ (again : Bytes → Outcome (Option ℕ)) (m : ActionManifest) (idx : ℕ) (it : ℕ × ℕ) where
  pub next_at_skip :
      (p : ℕ)
      → is_empty (m.cell it.1).value ≡ false
      → get_elem? m.index ((it.0 + 1) % length m.index) ≡ some p
      → next_at again m idx it ≡ again (m.cell p).key
  unfolding next_at
  next_at_skip p e g = rw (e, next_at) (rw g)

  pub next_at_wait :
      is_empty (m.cell it.1).value ≡ true
      → next_at again m idx it ≡ next_with again m.cell idx it.1 (m.cell it.1).dependencies
  unfolding next_at
  next_at_wait e = rw (e, next_at)

-- At an action that has not run, next returns it where all its dependencies have values, and
-- goes on at one that has none otherwise.
pub next_with_lem :
    (again : Bytes → Outcome (Option ℕ)) (cell : Cells) (idx p : ℕ) (deps : List ℕ)
    → ((next_with again cell idx p deps ≡ ok (some p))
        × ((k d : ℕ) → get_elem? deps k ≡ some d → is_empty (cell d).value ≡ false))
      ⊎ ((d : ℕ) × (k : ℕ) × (next_with again cell idx p deps ≡ again (cell d).key)
          × (get_elem? deps k ≡ some d)
          × (is_empty (cell d).value ≡ true))
next_with_lem again cell idx p [] = inl (unfold next_with in refl, λ k d h. cc)
next_with_lem again cell idx p (e ∷ es) = elim (first_empty_all cell (e ∷ es) idx (omega arith)) [
  | inl (f, all) ↦ inl (unfold next_with in rw f, all)
  | inr (d, k, f, g, v) ↦ inr (d, k, unfold next_with in rw f, g, v)
]

pub next_at_fault :
    (again : Bytes → Outcome (Option ℕ)) (m : ActionManifest) (idx : ℕ) (it : ℕ × ℕ)
    → is_empty (m.cell it.1).value ≡ false
    → get_elem? m.index ((it.0 + 1) % length m.index) ≡ none
    → next_at again m idx it ≡ fault
unfolding next_at
next_at_fault again m idx it e g = rw (e, next_at) (rw g)

pub next-zero :
    (m : ActionManifest) (key : Bytes) (idx : ℕ) {r : Option ℕ} → next zero m key idx ≢ ok r
unfolding next
next-zero m key idx h = cc

pub thrown-ne-ok : {r : Option ℕ} → ◌≢◌ {A = Outcome (Option ℕ)} thrown (ok r)
thrown-ne-ok h = cc

pub fault-ne-ok : {r : Option ℕ} → ◌≢◌ {A = Outcome (Option ℕ)} fault (ok r)
fault-ne-ok h = cc

none-ne-some : {p : ℕ} → ◌≢◌ {A = Outcome (Option ℕ)} (ok none) (ok (some p))
none-ne-some h = cc

-- A relation that next returns stands in the index, has no value, and all that it depends on has
-- one.
pub next-IsReady :
    (fuel : ℕ) (m : ActionManifest) (key : Bytes) (idx p : ℕ)
    → next fuel m key idx ≡ ok (some p)
    → IsReady m p
next-IsReady zero m key idx p h = absurd (next-zero m key idx h)
next-IsReady (suc fuel) m key idx p h = elim (Bool-cases (any_incomplete m.cell m.index)) [
  | inl a ↦ elim (Option-cases (find m.cell key m.index 0)) [
    | inl f ↦ absurd (thrown-ne-ok (sym (next_missing fuel m key idx a f) ∙ h))
    | inr (it, f) ↦
        let g = sym (next_found fuel m key idx it a f) ∙ h in
        let again = λ (key : Bytes). next fuel m key idx in
        elim (Bool-cases (is_empty (m.cell it.1).value)) [
          | inl e ↦ elim (next_with_lem again m.cell idx it.1 (m.cell it.1).dependencies) [
            | inl (b, all) ↦
                let same : it.1 ≡ p =
                  ground (arith, sym b ∙ sym (next_at_wait again m idx it e) ∙ g) in
                let (k, _, at, _) = find_sound m.cell key m.index 0 it.0 it.1 f in
                subst (IsReady m) same (record { listed = (k, at); waiting = e; supplied = all })
            | inr (d, k, b, c, v) ↦
                next-IsReady fuel m (m.cell d).key idx p
                  (sym b ∙ sym (next_at_wait again m idx it e) ∙ g)
          ]
          | inr e ↦ elim (Option-cases (get_elem? m.index ((it.0 + 1) % length m.index))) [
            | inl b ↦ absurd (fault-ne-ok (sym (next_at_fault again m idx it e b) ∙ g))
            | inr (q, b) ↦
                next-IsReady fuel m (m.cell q).key idx p
                  (sym (next_at_skip again m idx it q e b) ∙ g)
          ]
        ]
  ]
  | inr a ↦ absurd (none-ne-some (sym (next_done fuel m key idx a) ∙ h))
]
