-- ===== src/Controller/Response/Result.antt =====
-- The result that a stopped context sends: the actions at the greatest depth.
use stochastic_scheduler_con.Prelude.{
  ℕ, ◌<◌, ◌≡◌, refl, sym, ap, ◌∙◌, Bool, true, false, ◌&&◌, Option, none, some, List, [], ◌∷◌, ◌++◌,
  map, append_assoc, append-nil, ltb, ◌==◌, ==_self, arith, if◌then◌else◌, Bytes, bytes_eq, All,
  Bool-cases, inl, inr,
}
use stochastic_scheduler_con.Prelude.Outcome.{Outcome, ok}
use stochastic_scheduler_con.Manifest.{Relation, is_incomplete}
use stochastic_scheduler_con.Controller.Response.{
  Gathered, gather, gather_value, emplace_member, nothing_gathered,
}

-- The greatest depth, and the relations at a depth.
pub deepest : List Relation → ℕ
deepest [] = 0
deepest (r ∷ rs) = let d = deepest rs in if ltb d r.depth then r.depth else d

pub at_depth : ℕ → List Relation → List Relation
at_depth d [] = []
at_depth d (r ∷ rs) = let rest = at_depth d rs in if r.depth == d then r ∷ rest else rest

pub all_incomplete : List Relation → Bool
all_incomplete [] = true
all_incomplete (r ∷ rs) = is_incomplete r.value && all_incomplete rs

deepest_last :
    (ps : List Relation) (r : Relation)
    → deepest (ps ++ r ∷ []) ≡ (if ltb (deepest ps) r.depth then r.depth else deepest ps)
unfolding deepest
deepest_last [] r = refl
deepest_last (p ∷ ps) r = ground (arith, deepest_last ps r)

at_depth_last :
    (d : ℕ) (ps : List Relation) (r : Relation)
    → at_depth d (ps ++ r ∷ []) ≡ (if r.depth == d then at_depth d ps ++ r ∷ [] else at_depth d ps)
unfolding at_depth
at_depth_last d [] r = refl
at_depth_last d (p ∷ ps) r = ground (arith, at_depth_last d ps r)

at_depth_above : (d : ℕ) (ps : List Relation) → deepest ps < d → at_depth d ps ≡ []
unfolding at_depth deepest
at_depth_above d [] h = refl
at_depth_above d (p ∷ ps) h = ground (arith, at_depth_above d ps, h)

all_incomplete_last :
    (ps : List Relation) (r : Relation)
    → all_incomplete (ps ++ r ∷ []) ≡ (all_incomplete ps && is_incomplete r.value)
unfolding all_incomplete
all_incomplete_last [] r = ground arith
all_incomplete_last (p ∷ ps) r = ground (arith, all_incomplete_last ps r)

abbrev pub IsFresh : Bytes → List Relation → Type 0
IsFresh key = All (λ p. bytes_eq p.key key ≡ false)

-- Each key differs from those before it.
abbrev pub IsUniqueAfter : List Relation → List Relation → Type 0
IsUniqueAfter ps [] = Unit
IsUniqueAfter ps (r ∷ rs) = IsFresh r.key ps × IsUniqueAfter (ps ++ r ∷ []) rs

IsFresh-at_depth :
    (key : Bytes) (d : ℕ) (ps : List Relation) → IsFresh key ps → IsFresh key (at_depth d ps)
unfolding at_depth
IsFresh-at_depth key d [] h = tt
IsFresh-at_depth key d (p ∷ ps) h = elim (Bool-cases (p.depth == d)) [
  | inl e ↦ rw e (h.0, IsFresh-at_depth key d ps h.1)
  | inr e ↦ rw e (IsFresh-at_depth key d ps h.1)
]

module _ {Json : Type 0} (parse : Bytes → Option Json) (null : Json)
    (serialize : List (Bytes × Json) → Bytes) where
  -- The member of a relation: null where its value is incomplete.
  pub member_of : Relation → Bytes × Json
  member_of r = (
    r.key,
    if is_incomplete r.value then null else elim (parse r.value) [ none ↦ null | some jv ↦ jv ],
  )

  abbrev pub IsParsed : Relation → Type 0
  IsParsed r = is_incomplete r.value ≡ false → (jv : Json) × (parse r.value ≡ some jv)

  emplace_fresh :
      (ps : List Relation) (key : Bytes) (jv : Json)
      → IsFresh key ps
      → emplace_member parse null serialize (map member_of ps) key jv
        ≡ map member_of ps ++ (key, jv) ∷ []
  unfolding emplace_member member_of
  emplace_fresh [] key jv h = refl
  emplace_fresh (p ∷ ps) key jv h =
      rw (h.0, emplace_member) (ap (◌∷◌ (member_of p)) (emplace_fresh ps key jv h.1))

  -- What the loop has gathered of some relations.
  abbrev pub gathered : List Relation → Gathered parse null serialize
  gathered ps = record {
    max_depth = deepest ps;
    jrel = map member_of (at_depth (deepest ps) ps);
    all_null = all_incomplete (at_depth (deepest ps) ps);
  }

  map_last :
      (ps : List Relation) (r : Relation)
      → map member_of (ps ++ r ∷ []) ≡ map member_of ps ++ member_of r ∷ []
  map_last [] r = refl
  map_last (p ∷ ps) r = ap (◌∷◌ (member_of p)) (map_last ps r)

  member_incomplete : (r : Relation) → is_incomplete r.value ≡ true → (r.key, null) ≡ member_of r
  unfolding member_of
  member_incomplete r e = rw e refl

  member_complete :
      (r : Relation) (jv : Json)
      → is_incomplete r.value ≡ false
      → parse r.value ≡ some jv
      → (r.key, jv) ≡ member_of r
  unfolding member_of
  member_complete r jv e f = rw (e, f) refl

  abbrev at : ℕ → List (Bytes × Json) → Bool → Outcome (Gathered parse null serialize)
  at d jrel b = ok (record { max_depth = d; jrel = jrel; all_null = b })

  -- One relation that is put to others at its depth.
  value_lem :
      (d : ℕ) (qs : List Relation) (r : Relation)
      → IsFresh r.key qs
      → IsParsed r
      → gather_value parse null serialize
          (record { max_depth = d; jrel = map member_of qs; all_null = all_incomplete qs })
          r
        ≡ ok (record {
          max_depth = d;
          jrel = map member_of (qs ++ r ∷ []);
          all_null = all_incomplete (qs ++ r ∷ []);
        })
  unfolding gather_value
  value_lem d qs r f parsed = elim (Bool-cases (is_incomplete r.value)) [
    | inl e ↦
        let members =
          emplace_fresh qs r.key null f
          ∙ ap (λ m. map member_of qs ++ m ∷ []) (member_incomplete r e)
          ∙ sym (map_last qs r) in
        let nulls : all_incomplete qs ≡ all_incomplete (qs ++ r ∷ []) =
          ground (arith, all_incomplete_last qs r, e) in
        rw (gather_value, e)
          (ap (λ j. at d j (all_incomplete qs)) members
            ∙ ap (at d (map member_of (qs ++ r ∷ []))) nulls)
    | inr e ↦
        let (jv, g) = parsed e in
        let members =
          emplace_fresh qs r.key jv f
          ∙ ap (λ m. map member_of qs ++ m ∷ []) (member_complete r jv e g)
          ∙ sym (map_last qs r) in
        let nulls : false ≡ all_incomplete (qs ++ r ∷ []) =
          ground (arith, all_incomplete_last qs r, e) in
        rw (gather_value, e)
          (rw g (ap (λ j. at d j false) members ∙ ap (at d (map member_of (qs ++ r ∷ []))) nulls))
  ]

  gather_less :
      (g : Gathered parse null serialize) (r : Relation) (rs : List Relation)
      → ltb r.depth g.max_depth ≡ true
      → gather parse null serialize g (r ∷ rs) ≡ gather parse null serialize g rs
  unfolding gather
  gather_less g r rs e = rw (gather, e) refl

  gather_more :
      (g g' : Gathered parse null serialize) (r : Relation) (rs : List Relation)
      → ltb r.depth g.max_depth ≡ false
      → gather_value parse null serialize
          (if ltb g.max_depth r.depth
            then record { max_depth = r.depth; jrel = []; all_null = true }
            else g)
          r
        ≡ ok g'
      → gather parse null serialize g (r ∷ rs) ≡ gather parse null serialize g' rs
  unfolding gather
  gather_more g g' r rs e f = rw (gather, e) (rw f refl)

  abbrev made : ℕ → List Relation → Gathered parse null serialize
  made d qs = record { max_depth = d; jrel = map member_of qs; all_null = all_incomplete qs }

  made-gathered :
      (d : ℕ) (qs ps : List Relation)
      → deepest ps ≡ d
      → at_depth d ps ≡ qs
      → made d qs ≡ gathered ps
  made-gathered d qs ps e f = sym (ap (made d) f) ∙ ap (λ d. made d (at_depth d ps)) (sym e)

  -- The loop, one relation on.
  gather_one :
      (ps : List Relation) (r : Relation) (rs : List Relation)
      → IsFresh r.key ps
      → IsParsed r
      → gather parse null serialize (gathered ps) (r ∷ rs)
        ≡ gather parse null serialize (gathered (ps ++ r ∷ [])) rs
  unfolding all_incomplete
  gather_one ps r rs f parsed =
      let d = deepest ps in
      let qs = at_depth d ps in
      elim (Bool-cases (ltb r.depth d)) [
        | inl e ↦
            let at : at_depth d (ps ++ r ∷ []) ≡ qs = ground (arith, at_depth_last d ps r, e) in
            gather_less (gathered ps) r rs e
            ∙ ap (λ g. gather parse null serialize g rs)
                (made-gathered d qs (ps ++ r ∷ []) (ground (arith, deepest_last ps r, e)) at)
        | inr e ↦ elim (Bool-cases (ltb d r.depth)) [
          | inl k ↦
              let alone : at_depth r.depth (ps ++ r ∷ []) ≡ r ∷ [] =
                at_depth_last r.depth ps r
                ∙ (rw (==_self r.depth)
                    (ap (λ qs. qs ++ r ∷ []) (at_depth_above r.depth ps (ground (arith, k))))) in
              gather_more (gathered ps) (gathered (ps ++ r ∷ [])) r rs e (
                (rw k refl)
                ∙ value_lem r.depth [] r tt parsed
                ∙ ap (λ g. ok g)
                    (made-gathered r.depth (r ∷ []) (ps ++ r ∷ [])
                      (ground (arith, deepest_last ps r, k)) alone))
          | inr k ↦
              let here : d ≡ r.depth = ground (arith, e, k) in
              let also : at_depth d (ps ++ r ∷ []) ≡ qs ++ r ∷ [] =
                ground (arith, at_depth_last d ps r, here) in
              gather_more (gathered ps) (gathered (ps ++ r ∷ [])) r rs e (
                (rw k refl)
                ∙ value_lem d qs r (IsFresh-at_depth r.key d ps f) parsed
                ∙ ap (λ g. ok g)
                    (made-gathered d (qs ++ r ∷ []) (ps ++ r ∷ [])
                      (ground (arith, deepest_last ps r, k)) also))
        ]
      ]

  gather_nil : (g : Gathered parse null serialize) → gather parse null serialize g [] ≡ ok g
  unfolding gather
  gather_nil g = refl

  nothing_lem : nothing_gathered parse null serialize ≡ gathered []
  unfolding deepest at_depth all_incomplete
  nothing_lem = refl

  gather-All :
      (ps rs : List Relation)
      → IsUniqueAfter ps rs
      → All IsParsed rs
      → gather parse null serialize (gathered ps) rs ≡ ok (gathered (ps ++ rs))
  gather-All ps [] u h =
      gather_nil (gathered ps) ∙ ap (λ ps. ok (gathered ps)) (sym (append-nil ps))
  gather-All ps (r ∷ rs) u h =
      gather_one ps r rs u.0 h.0
      ∙ gather-All (ps ++ r ∷ []) rs u.1 h.1
      ∙ ap (λ ps. ok (gathered ps)) (append_assoc ps (r ∷ []) rs)

  -- Where no two actions share a key and every complete value is parsed, the loop over the manifest
  -- returns: it has gathered just the actions at the greatest depth, in the order of the manifest,
  -- each with its value or null, and knows whether one of these has a value, whatever the order of
  -- the depths.
  pub gather_lem :
      (relations : List Relation)
      → IsUniqueAfter [] relations
      → All IsParsed relations
      → gather parse null serialize (nothing_gathered parse null serialize) relations
        ≡ ok (record {
          max_depth = deepest relations;
          jrel = map member_of (at_depth (deepest relations) relations);
          all_null = all_incomplete (at_depth (deepest relations) relations);
        })
  gather_lem relations u h =
      ap (λ g. gather parse null serialize g relations) nothing_lem ∙ gather-All [] relations u h
