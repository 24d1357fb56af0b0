-- ===== src/Controller/Results/Store.antt =====
-- What the write of a value leaves of a context.
use stochastic_scheduler_con.Prelude.{
  ℕ, ◌≡◌, ◌⊎◌, inl, inr, refl, sym, ap, ◌∙◌, true, false, some, arith, length, get_elem?, is_empty,
  Bytes, subst, Bool-cases, ◌==◌, ==_iff,
}
use stochastic_scheduler_con.Manifest.{Relation, ActionManifest, write, is_incomplete}
use stochastic_scheduler_con.Manifest.Invariant.{IsWellFormed}
use stochastic_scheduler_con.Controller.Schedule.{Context}
use stochastic_scheduler_con.Controller.Schedule.Ready.{IsSchedule}
use stochastic_scheduler_con.Controller.Results.{Route, request, response, replaced, store}

-- Only an incomplete value is replaced, and an empty one always.
replaced-incomplete : (route : Route) (v : Bytes) → replaced route v ≡ true → is_incomplete v ≡ true
unfolding replaced is_incomplete
replaced-incomplete request v h = h
replaced-incomplete response v h = ground (arith, h)

pub replaced-empty : (route : Route) (v : Bytes) → is_empty v ≡ true → replaced route v ≡ true
unfolding replaced is_incomplete
replaced-empty request v h = ground (arith, h)
replaced-empty response v h = h

-- What a write of values leaves as it was.
pub record SameActions (m m' : ActionManifest) : Type 0 where
  pub index : m'.index ≡ m.index
  pub fresh : m'.fresh ≡ m.fresh
  pub key : (p : ℕ) → (m'.cell p).key ≡ (m.cell p).key
  pub dependencies : (p : ℕ) → (m'.cell p).dependencies ≡ (m.cell p).dependencies
  pub depth : (p : ℕ) → (m'.cell p).depth ≡ (m.cell p).depth

pub SameActions-refl : (m : ActionManifest) → SameActions m m
SameActions-refl m = record {
  index = refl;
  fresh = refl;
  key = λ p. refl;
  dependencies = λ p. refl;
  depth = λ p. refl;
}

SameActions-trans : (l m n : ActionManifest) → SameActions l m → SameActions m n → SameActions l n
SameActions-trans l m n g h = record {
  index = h.index ∙ g.index;
  fresh = h.fresh ∙ g.fresh;
  key = λ p. h.key p ∙ g.key p;
  dependencies = λ p. h.dependencies p ∙ g.dependencies p;
  depth = λ p. h.depth p ∙ g.depth p;
}

write_value-field :
    {A : Type 0} (f : Relation → A) (m : ActionManifest) (p : ℕ) (text : Bytes)
    → (f (record (m.cell p) { value = text }) ≡ f (m.cell p))
    → (q : ℕ) → f (write m.cell p (record (m.cell p) { value = text }) q) ≡ f (m.cell q)
write_value-field f m p text h q = elim (Bool-cases (p == q)) [
  | inl e ↦ rw e (h ∙ ap (λ p. f (m.cell p)) ((==_iff p q).0 e))
  | inr e ↦ rw e refl
]

pub store-SameActions :
    (route : Route) (m : ActionManifest) (p : ℕ) (text : Bytes)
    → SameActions m (store route m p text)
unfolding store
store-SameActions route m p text = elim (Bool-cases (replaced route (m.cell p).value)) [
  | inl e ↦ rw e (record {
    index = refl;
    fresh = refl;
    key = write_value-field (λ r. r.key) m p text refl;
    dependencies = write_value-field (λ r. r.dependencies) m p text refl;
    depth = write_value-field (λ r. r.depth) m p text refl;
  })
  | inr e ↦ rw e (SameActions-refl m)
]

SameActions-IsWellFormed :
    (m m' : ActionManifest) → SameActions m m' → IsWellFormed m → IsWellFormed m'
SameActions-IsWellFormed m m' s v = record {
  allocated = λ i p e.
      omega (arith, s.fresh, v.allocated i p (sym (ap (λ is. get_elem? is i) s.index) ∙ e));
  closed = λ i p k d e f.
      let (j, a, b) =
        v.closed i p k d (sym (ap (λ is. get_elem? is i) s.index) ∙ e)
          (sym (ap (λ ds. get_elem? ds k) (s.dependencies p)) ∙ f) in
      (j, ap (λ is. get_elem? is j) s.index ∙ a, omega (arith, b, s.depth d, s.depth p));
  distinct = λ i j p q e f g.
      v.distinct i j p q (sym (ap (λ is. get_elem? is i) s.index) ∙ e)
        (sym (ap (λ is. get_elem? is j) s.index) ∙ f) (sym (s.key p) ∙ g ∙ s.key q);
}

-- The value of a relation after a store.
pub store_values :
    (route : Route) (m : ActionManifest) (p : ℕ) (text : Bytes) (q : ℕ)
    → (((store route m p text).cell q).value ≡ text) × (replaced route (m.cell q).value ≡ true)
      ⊎ (((store route m p text).cell q).value ≡ (m.cell q).value)
        × (p ≡ q → replaced route (m.cell q).value ≡ false)
unfolding store
store_values route m p text q = elim (Bool-cases (replaced route (m.cell p).value)) [
  | inr e ↦ inr (rw e refl, λ same. ap (λ p. replaced route (m.cell p).value) (sym same) ∙ e)
  | inl e ↦ elim (Bool-cases (p == q)) [
    | inl f ↦
        let same : p ≡ q = (==_iff p q).0 f in
        inl (rw (e, f) refl, ap (λ p. replaced route (m.cell p).value) (sym same) ∙ e)
    | inr f ↦ inr (rw (e, f) refl, λ same. absurd (ground arith))
  ]
]

-- A result that is stored: text that is not empty, and not "null".
abbrev pub IsResult : Bytes → Type 0
IsResult text = is_incomplete text ≡ false

pub store-IsSchedule :
    (bound : ℕ) (route : Route) (c : Context) (p : ℕ) (text : Bytes)
    → IsResult text
    → IsSchedule bound c
    → IsSchedule bound (record c { manifest = store route c.manifest p text })
store-IsSchedule bound route c p text r s =
    let m = c.manifest in
    let m' = store route m p text in
    let same = store-SameActions route m p text in
    let old : (i q : ℕ) → get_elem? m'.index i ≡ some q → get_elem? m.index i ≡ some q =
      λ i q e. sym (ap (λ is. get_elem? is i) same.index) ∙ e in
    record {
      well_formed = SameActions-IsWellFormed m m' same s.well_formed;
      named = λ i q e. ap is_empty (same.key q) ∙ s.named i q (old i q e);
      low = λ i q e. omega (arith, same.depth q, s.low i q (old i q e));
      settled = λ i q e h. elim (store_values route m p text q) [
        | inl (f, _) ↦ absurd (cc (ap is_incomplete f, h, r))
        | inr (f, _) ↦ ap is_empty f ∙ s.settled i q (old i q e) (sym (ap is_incomplete f) ∙ h)
      ];
      same_length = s.same_length ∙ sym (ap length same.index);
    }

-- What a merge keeps of a context: its actions, and every value that is complete.
pub record Keeps (c c' : Context) : Type 0 where
  pub actions : SameActions c.manifest c'.manifest
  pub values :
      (q : ℕ)
      → is_incomplete (c.manifest.cell q).value ≡ false
      → (c'.manifest.cell q).value ≡ (c.manifest.cell q).value

pub Keeps-trans : (c d e : Context) → Keeps c d → Keeps d e → Keeps c e
Keeps-trans c d e g h = record {
  actions = SameActions-trans c.manifest d.manifest e.manifest g.actions h.actions;
  values = λ q i. h.values q (ap is_incomplete (g.values q i) ∙ i) ∙ g.values q i;
}

pub store-Keeps :
    (route : Route) (c : Context) (p : ℕ) (text : Bytes)
    → Keeps c (record c { manifest = store route c.manifest p text })
store-Keeps route c p text = record {
  actions = store-SameActions route c.manifest p text;
  values = λ q h. elim (store_values route c.manifest p text q) [
    | inl (_, e) ↦ absurd (cc (replaced-incomplete route (c.manifest.cell q).value e, h))
    | inr (e, _) ↦ e
  ];
}

pub same_manifest :
    (bound : ℕ) (c c' : Context)
    → c'.manifest ≡ c.manifest
    → length c'.thread_controls ≡ length c.thread_controls
    → IsSchedule bound c
    → IsSchedule bound c'
same_manifest bound c c' e f s =
    let d : Context = record c' { manifest = c.manifest } in
    let s' : IsSchedule bound d = record {
      well_formed = s.well_formed;
      named = s.named;
      low = s.low;
      settled = s.settled;
      same_length = f ∙ s.same_length;
    } in
    subst (λ m. IsSchedule bound (record c' { manifest = m })) (sym e) s'

pub store_has :
    (route : Route) (m : ActionManifest) (p : ℕ) (text : Bytes)
    → IsResult text
    → (is_incomplete (m.cell p).value ≡ true → is_empty (m.cell p).value ≡ true)
    → is_incomplete ((store route m p text).cell p).value ≡ false
store_has route m p text r s = elim (store_values route m p text p) [
  | inl (e, _) ↦ ap is_incomplete e ∙ r
  | inr (e, f) ↦ elim (Bool-cases (is_incomplete (m.cell p).value)) [
    | inl i ↦ absurd (cc (replaced-empty route (m.cell p).value (s i), f refl))
    | inr i ↦ ap is_incomplete e ∙ i
  ]
]
