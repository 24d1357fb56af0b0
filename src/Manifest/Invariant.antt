-- ===== src/Manifest/Invariant.antt =====
-- Well-formed manifests, and what a manifest keeps while it grows.
use stochastic_scheduler_con.Prelude.{
  ℕ, zero, suc, ◌+◌, ◌<◌, ◌≤◌, ◌≡◌, ◌≢◌, ◌⊎◌, inl, inr, refl, sym, ap, ◌∙◌, subst, some, List, [],
  ◌∷◌, map, arith, length, get_elem?, Bytes, Option-cases,
}
use stochastic_scheduler_con.Manifest.{
  Relation, Cells, ActionManifest, depth_over, find, write, push_new, new_relation,
}
use stochastic_scheduler_con.Manifest.Index.{
  get_elem?-append, get_elem?-last, get_elem?-append_one, find_complete,
}

-- The pointers of the index are allocated, every dependency of an action stands in the index at
-- a smaller depth, and no two actions share a key.
pub record IsWellFormed (m : ActionManifest) : Type 0 where
  pub allocated : (i p : ℕ) → get_elem? m.index i ≡ some p → p < m.fresh
  pub closed :
      (i p k d : ℕ)
      → get_elem? m.index i ≡ some p
      → get_elem? (m.cell p).dependencies k ≡ some d
      → (j : ℕ) × (get_elem? m.index j ≡ some d) × ((m.cell d).depth < (m.cell p).depth)
  pub distinct :
      (i j p q : ℕ)
      → get_elem? m.index i ≡ some p
      → get_elem? m.index j ≡ some q
      → (m.cell p).key ≡ (m.cell q).key
      → i ≡ j

-- What grows from m to m', where all that is new has a key that ranks below the bound.
pub record Grows (rank : Bytes → ℕ) (bound : ℕ) (m m' : ActionManifest) : Type 0 where
  pub kept : (i p : ℕ) → get_elem? m.index i ≡ some p → get_elem? m'.index i ≡ some p
  pub same : (p : ℕ) → p < m.fresh → m'.cell p ≡ m.cell p
  pub fresh_le : m.fresh ≤ m'.fresh
  pub added :
      (i p : ℕ)
      → get_elem? m'.index i ≡ some p
      → (get_elem? m.index i ≡ some p) ⊎ (rank (m'.cell p).key < bound)

pub Grows-refl : (rank : Bytes → ℕ) (bound : ℕ) (m : ActionManifest) → Grows rank bound m m
Grows-refl rank bound m = record {
  kept = λ i p h. h;
  same = λ p h. refl;
  fresh_le = omega arith;
  added = λ i p h. inl h;
}

pub Grows-trans :
    (rank : Bytes → ℕ) (bound : ℕ) {l m n : ActionManifest}
    → IsWellFormed m
    → Grows rank bound l m
    → Grows rank bound m n
    → Grows rank bound l n
Grows-trans rank bound {l} {m} {n} v g h = record {
  kept = λ i p e. h.kept i p (g.kept i p e);
  same = λ p e. h.same p (omega (arith, g.fresh_le, e)) ∙ g.same p e;
  fresh_le = omega (arith, g.fresh_le, h.fresh_le);
  added = λ i p e. elim (h.added i p e) [
    | inr b ↦ inr b
    | inl f ↦ elim (g.added i p f) [
      | inl a ↦ inl a
      | inr b ↦ inr (rw (h.same p (v.allocated i p f)) b)
    ]
  ];
}

pub Grows-weaken :
    (rank : Bytes → ℕ) {a b : ℕ} {m n : ActionManifest}
    → a ≤ b
    → Grows rank a m n
    → Grows rank b m n
Grows-weaken rank l g = record {
  kept = g.kept;
  same = g.same;
  fresh_le = g.fresh_le;
  added = λ i p e. elim (g.added i p e) [ inl x ↦ inl x | inr y ↦ inr (omega (arith, l, y)) ];
}

-- The depth of a relation is above the depths of its dependencies.
depth_over_le : (ds : List ℕ) (depth : ℕ) → depth ≤ depth_over ds depth
unfolding depth_over
depth_over_le [] depth = omega arith
depth_over_le (d ∷ ds) depth = ground (arith, depth_over_le ds (d + 1), depth_over_le ds depth)

pub depth_over_lt :
    (cell : Cells) (ds : List ℕ) (depth k d : ℕ)
    → get_elem? ds k ≡ some d
    → (cell d).depth < depth_over (map (λ p. (cell p).depth) ds) depth
unfolding depth_over
depth_over_lt cell [] depth k d h = cc
depth_over_lt cell (e ∷ ds) depth zero d h =
    let same : e ≡ d = ground arith in
    rw (← same) (
      ground (
        arith,
        depth_over_le (map (λ p. (cell p).depth) ds) ((cell e).depth + 1),
        depth_over_le (map (λ p. (cell p).depth) ds) depth,
      ))
depth_over_lt cell (e ∷ ds) depth (suc k) d h = depth_over_lt cell ds _ k d h

-- A pointer of the index.
abbrev pub Indexed : ActionManifest → ℕ → Type 0
Indexed m d = (j : ℕ) × (get_elem? m.index j ≡ some d)

write_self : (cell : Cells) (p : ℕ) (r : Relation) → write cell p r p ≡ r
write_self cell p r = ground arith

write-ne : (cell : Cells) (p q : ℕ) (r : Relation) → q < p → write cell p r q ≡ cell q
write-ne cell p q r h = ground arith

last_indexed :
    (m : ActionManifest) (key path : Bytes) (deps : List ℕ)
    → get_elem? (push_new m key path deps).index (length m.index) ≡ some m.fresh
unfolding push_new
last_indexed m key path deps = get_elem?-last m.index m.fresh

-- A new relation at the end of a well-formed manifest, under a key that is not in it and over
-- dependencies that are.
module _ (m : ActionManifest) (key path : Bytes) (deps : List ℕ) (v : IsWellFormed m)
    (listed : (k d : ℕ) → get_elem? deps k ≡ some d → Indexed m d)
    (absent : (i p : ℕ) → get_elem? m.index i ≡ some p → (m.cell p).key ≢ key) where
  old_cell : (p : ℕ) → p < m.fresh → (push_new m key path deps).cell p ≡ m.cell p
  unfolding push_new
  old_cell p h = write-ne m.cell m.fresh p (new_relation m.cell key path deps) h

  new_cell : (push_new m key path deps).cell m.fresh ≡ new_relation m.cell key path deps
  unfolding push_new
  new_cell = write_self m.cell m.fresh (new_relation m.cell key path deps)

  indexed :
      (i p : ℕ)
      → get_elem? (push_new m key path deps).index i ≡ some p
      → (get_elem? m.index i ≡ some p) ⊎ ((i ≡ length m.index) × (p ≡ m.fresh))
  unfolding push_new
  indexed i p h = get_elem?-append_one m.index m.fresh i p h

  indexed_old :
      (i p : ℕ)
      → get_elem? m.index i ≡ some p
      → get_elem? (push_new m key path deps).index i ≡ some p
  unfolding push_new
  indexed_old i p h = get_elem?-append m.index (m.fresh ∷ []) i p h

  new_fresh : (push_new m key path deps).fresh ≡ suc m.fresh
  unfolding push_new
  new_fresh = refl

  new_dependencies : (new_relation m.cell key path deps).dependencies ≡ deps
  unfolding new_relation
  new_dependencies = refl

  new_key : (new_relation m.cell key path deps).key ≡ key
  unfolding new_relation
  new_key = refl

  new_depth :
      (k d : ℕ)
      → get_elem? deps k ≡ some d
      → (m.cell d).depth < (new_relation m.cell key path deps).depth
  unfolding new_relation
  new_depth k d h = depth_over_lt m.cell deps 1 k d h

  closed_old :
      (i p k d : ℕ)
      → get_elem? m.index i ≡ some p
      → get_elem? ((push_new m key path deps).cell p).dependencies k ≡ some d
      → (j : ℕ) × (get_elem? (push_new m key path deps).index j ≡ some d)
        × (((push_new m key path deps).cell d).depth < ((push_new m key path deps).cell p).depth)
  closed_old i p k d e f =
      let eq = old_cell p (v.allocated i p e) in
      let (j, a, b) =
        v.closed i p k d e (subst (λ (r : Relation). get_elem? r.dependencies k ≡ some d) eq f) in
      (j, indexed_old j d a, rw (eq, old_cell d (v.allocated j d a)) b)

  closed_new :
      (k d : ℕ)
      → get_elem? ((push_new m key path deps).cell m.fresh).dependencies k ≡ some d
      → (j : ℕ) × (get_elem? (push_new m key path deps).index j ≡ some d)
        × (((push_new m key path deps).cell d).depth
            < ((push_new m key path deps).cell m.fresh).depth)
  closed_new k d f =
      let g : get_elem? deps k ≡ some d =
        ap (λ (ds : List ℕ). get_elem? ds k)
          (sym (ap (λ (r : Relation). r.dependencies) new_cell ∙ new_dependencies))
        ∙ f in
      let (j, a) = listed k d g in
      (j, indexed_old j d a, rw (new_cell, old_cell d (v.allocated j d a)) (new_depth k d g))

  key_old :
      (i p : ℕ)
      → get_elem? m.index i ≡ some p
      → ((push_new m key path deps).cell p).key ≡ (m.cell p).key
  key_old i p e = ap (λ (r : Relation). r.key) (old_cell p (v.allocated i p e))

  key_new : ((push_new m key path deps).cell m.fresh).key ≡ key
  key_new = ap (λ (r : Relation). r.key) new_cell ∙ new_key

  pub push_new-IsWellFormed : IsWellFormed (push_new m key path deps)
  push_new-IsWellFormed = record {
    allocated = λ i p e. elim (indexed i p e) [
      | inl f ↦ omega (arith, v.allocated i p f, new_fresh)
      | inr (_, q) ↦ omega (arith, q, new_fresh)
    ];
    closed = λ i p k d e f. elim (indexed i p e) [
      | inl g ↦ closed_old i p k d g f
      | inr (_, q) ↦ rw q (
          closed_new k d (
            subst (λ (p : ℕ). get_elem? ((push_new m key path deps).cell p).dependencies k ≡ some d)
              q f))
    ];
    distinct = λ i j p q e f g. elim (indexed i p e) [
      | inl a ↦ elim (indexed j q f) [
        | inl b ↦ v.distinct i j p q a b (sym (key_old i p a) ∙ g ∙ key_old j q b)
        | inr (_, w) ↦ absurd (
            absent i p a (
              sym (key_old i p a)
              ∙ g
              ∙ ap (λ (q : ℕ). ((push_new m key path deps).cell q).key) w
              ∙ key_new))
      ]
      | inr (x, u) ↦ elim (indexed j q f) [
        | inl b ↦ absurd (
            absent j q b (
              sym (key_old j q b)
              ∙ sym g
              ∙ ap (λ (q : ℕ). ((push_new m key path deps).cell q).key) u
              ∙ key_new))
        | inr (y, w) ↦ omega (arith, x, y)
      ]
    ];
  }

  pub push_new-Grows : (rank : Bytes → ℕ) → Grows rank (suc (rank key)) m (push_new m key path deps)
  push_new-Grows rank = record {
    kept = indexed_old;
    same = old_cell;
    fresh_le = omega (arith, new_fresh);
    added = λ i p e. elim (indexed i p e) [
      | inl f ↦ inl f
      | inr (_, q) ↦ inr (rw (q, key_new) (omega arith))
    ];
  }

  pub push_new-find :
      (it : ℕ × ℕ) × (find (push_new m key path deps).cell key (push_new m key path deps).index 0
        ≡ some it)
  push_new-find =
      elim (Option-cases
        (find (push_new m key path deps).cell key (push_new m key path deps).index 0)) [
          | inl e ↦ absurd (
              find_complete (push_new m key path deps).cell key (push_new m key path deps).index 0
                (length m.index) m.fresh (last_indexed m key path deps) key_new e)
          | inr w ↦ w
        ]
