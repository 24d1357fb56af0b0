-- ===== src/Context/Construct/Filling.antt =====
-- The loop of the constructor puts every key of the object into the manifest, once.
use stochastic_scheduler_con.Prelude.{
  ℕ, zero, suc, ◌+◌, ◌<◌, ◌≤◌, ◌≡◌, inl, inr, refl, sym, ap, ◌∙◌, subst, Bool, true, false, ◌||◌,
  Option, none, some, List, [], ◌∷◌, ltb, if◌then◌else◌, arith, length, get_elem?, Bytes, bytes_eq,
  bytes_eq_refl, bytes_eq_sound, Bool-cases, Option-cases,
}
use stochastic_scheduler_con.Prelude.Outcome.{ok}
use stochastic_scheduler_con.Manifest.{ActionManifest, Json, find, emplace}
use stochastic_scheduler_con.Manifest.Index.{
  find_sound, find_complete, get_elem?-lt, get_elem?_of_lt,
}
use stochastic_scheduler_con.Manifest.Invariant.{IsWellFormed, Grows}
use stochastic_scheduler_con.Manifest.Emplace.{IsAcyclic, Found, emplace-IsWellFormed}
use stochastic_scheduler_con.Manifest.Totality.{IsComplete, emplace_total}
use stochastic_scheduler_con.Context.Construct.{missing, fill}
use stochastic_scheduler_con.Context.Construct.Counting.{counting}

abbrev pub IsKey : List Bytes → Bytes → Type 0
IsKey keys key = (i : ℕ) × (get_elem? keys i ≡ some key)

-- What the parsed object is: no key twice, entries for its keys and for no others, which depend on
-- its keys only, in no circle.
pub record IsObject (json : Json) (keys : List Bytes) (rank : Bytes → ℕ) : Type 0 where
  pub unique :
      (i j : ℕ) (key : Bytes) → get_elem? keys i ≡ some key → get_elem? keys j ≡ some key → i ≡ j
  pub only :
      (key : Bytes) (deps : List (Option Bytes)) → json.depends key ≡ some deps → IsKey keys key
  pub complete : IsComplete json (IsKey keys)
  pub acyclic : IsAcyclic json rank

-- The actions of the manifest are keys of the object.
abbrev pub HoldsOnly : List Bytes → ActionManifest → Type 0
HoldsOnly keys m = (i p : ℕ) → get_elem? m.index i ≡ some p → IsKey keys (m.cell p).key

is_key : List Bytes → Bytes → Bool
is_key [] key = false
is_key (k ∷ ks) key = bytes_eq k key || is_key ks key

is_key-IsKey : (keys : List Bytes) (key : Bytes) → is_key keys key ≡ true → IsKey keys key
unfolding is_key
is_key-IsKey [] key h = absurd (cc h)
is_key-IsKey (k ∷ ks) key h = elim (Bool-cases (bytes_eq k key)) [
  | inl e ↦ (0, ap some (bytes_eq_sound k key e))
  | inr e ↦ let (i, a) = is_key-IsKey ks key (ground arith) in (suc i, a)
]

IsKey-is_key : (keys : List Bytes) (key : Bytes) → IsKey keys key → is_key keys key ≡ true
unfolding is_key
IsKey-is_key [] key (i, h) = absurd (cc h)
IsKey-is_key (k ∷ ks) key (zero, h) =
    let same : k ≡ key = ground arith in ground (arith, ap (bytes_eq k) same, bytes_eq_refl k)
IsKey-is_key (k ∷ ks) key (suc i, h) = ground (arith, IsKey-is_key ks key (i, h))

missing-none :
    (m : ActionManifest) (keys : List Bytes) (key : Bytes)
    → missing m keys ≡ none
    → IsKey keys key
    → Found m key
unfolding missing
missing-none m [] key h (i, e) = absurd (cc e)
missing-none m (k ∷ ks) key h (zero, e) = elim (Option-cases (find m.cell k m.index 0)) [
  | inl f ↦ absurd (ground arith)
  | inr (it, f) ↦
      let same : k ≡ key = ground arith in
      (it, subst (λ k. find m.cell k m.index 0 ≡ some it) same f)
]
missing-none m (k ∷ ks) key h (suc i, e) = elim (Option-cases (find m.cell k m.index 0)) [
  | inl f ↦ absurd (ground arith)
  | inr (it, f) ↦ missing-none m ks key (ground arith) (i, e)
]

missing-some :
    (m : ActionManifest) (keys : List Bytes) (key : Bytes)
    → missing m keys ≡ some key
    → IsKey keys key × (find m.cell key m.index 0 ≡ none)
unfolding missing
missing-some m [] key h = absurd (cc h)
missing-some m (k ∷ ks) key h = elim (Option-cases (find m.cell k m.index 0)) [
  | inl f ↦
      let e : k ≡ key = ground arith in
      ((0, ap some e), subst (λ k. find m.cell k m.index 0 ≡ none) e f)
  | inr (it, f) ↦ let ((i, e), g) = missing-some m ks key (ground arith) in ((suc i, e), g)
]

-- A manifest that has come to hold a new key is longer.
longer :
    (rank : Bytes → ℕ) (bound : ℕ) (m m' : ActionManifest) (key : Bytes)
    → IsWellFormed m
    → Grows rank bound m m'
    → Found m' key
    → find m.cell key m.index 0 ≡ none
    → length m.index < length m'.index
longer rank bound m m' key v g (it, f) n =
    let (j, _, at, same) = find_sound m'.cell key m'.index 0 it.0 it.1 f in
    elim (Bool-cases (ltb j (length m.index))) [
      | inr e ↦ ground (arith, e, get_elem?-lt m'.index j it.1 at)
      | inl e ↦
          let (q, a) = get_elem?_of_lt m.index j (ground arith) in
          let here : q ≡ it.1 = cc (at, g.kept j q a) in
          absurd (
            find_complete m.cell key m.index 0 j q a
              (ap (λ r. r.key) (sym (g.same q (v.allocated j q a)))
                ∙ ap (λ p. (m'.cell p).key) here
                ∙ same)
              n)
    ]

-- The index has a place for each key of the object where none is missing, and no more.
module _ (json : Json) (keys : List Bytes) (rank : Bytes → ℕ) (object : IsObject json keys rank)
    (m : ActionManifest) (v : IsWellFormed m) (h : HoldsOnly keys m) where
  abbrev IsPlace : ℕ → ℕ → Type 0
  IsPlace i j = (p : ℕ) × (get_elem? m.index j ≡ some p) × (get_elem? keys i ≡ some (m.cell p).key)

  keys_le : missing m keys ≡ none → length keys ≤ length m.index
  keys_le n =
      counting IsPlace (length keys) (length m.index)
        (λ i l.
          let (key, a) = get_elem?_of_lt keys i l in
          let (it, f) = missing-none m keys key n (i, a) in
          let (j, _, at, same) = find_sound m.cell key m.index 0 it.0 it.1 f in
          (j, get_elem?-lt m.index j it.1 at, (it.1, at, a ∙ ap some (sym same))))
        (λ i i' j (p, a, b) (q, c, d).
          let same : q ≡ p = cc (a, c) in
          object.unique i i' (m.cell p).key b (d ∙ ap (λ q. some (m.cell q).key) same))

  index_le : length m.index ≤ length keys
  index_le =
      counting (λ j i. IsPlace i j) (length m.index) (length keys)
        (λ j l.
          let (p, a) = get_elem?_of_lt m.index j l in
          let (i, b) = h j p a in (i, get_elem?-lt keys i (m.cell p).key b, (p, a, b)))
        (λ j j' i (p, a, b) (q, c, d).
          let same : (m.cell p).key ≡ (m.cell q).key = cc (b, d) in v.distinct j j' p q a c same)

module _ (json : Json) (actions : Bytes) (keys : List Bytes) (rank : Bytes → ℕ)
    (object : IsObject json keys rank) where
  -- Keys of the object rank as they did, all others above the bound.
  lifted : ℕ → Bytes → ℕ
  lifted bound key = if is_key keys key then rank key else suc bound

  lifted_key : (bound : ℕ) (key : Bytes) → IsKey keys key → lifted bound key ≡ rank key
  unfolding lifted
  lifted_key bound key h = rw (IsKey-is_key keys key h) refl

  lifted_low : (bound : ℕ) (key : Bytes) → lifted bound key < suc bound → IsKey keys key
  unfolding lifted
  lifted_low bound key h = is_key-IsKey keys key (ground (arith, h))

  lifted-IsAcyclic : (bound : ℕ) → IsAcyclic json (lifted bound)
  lifted-IsAcyclic bound = record {
    lower = λ key deps k dep e f.
        let here = object.only key deps e in
        let (deps', e', known) = object.complete.depends key here in
        let same : deps ≡ deps' = cc (e, e') in
        let (dep', f', there) =
          known k (some dep) (subst (λ ds. get_elem? ds k ≡ some (some dep)) same f) in
        let same' : dep' ≡ dep = cc f' in
        omega (
          arith,
          lifted_key bound key here,
          lifted_key bound dep (subst (IsKey keys) same' there),
          object.acyclic.lower key deps k dep e f,
        );
  }

  -- One round of the loop: a key that is not there is emplaced, so that the index gets longer.
  round_lem :
      (depth : ℕ) (key : Bytes) (m : ActionManifest)
      → IsKey keys key
      → rank key < depth
      → find m.cell key m.index 0 ≡ none
      → IsWellFormed m
      → HoldsOnly keys m
      → (m' : ActionManifest) × (emplace json actions depth key m ≡ ok m')
        × IsWellFormed m'
        × HoldsOnly keys m'
        × (length m.index < length m'.index)
  round_lem depth key m k l f v h =
      let (m', e) =
        emplace_total json actions rank object.acyclic (IsKey keys) object.complete depth key m k l
          v in
      let bound = rank key in
      let (v', g, found) =
        emplace-IsWellFormed json actions (lifted bound) (lifted-IsAcyclic bound) depth key m m' e
          v in
      let only : HoldsOnly keys m' = λ i p a. elim (g.added i p a) [
        | inl b ↦
            subst (IsKey keys) (sym (ap (λ r. r.key) (g.same p (v.allocated i p b)))) (h i p b)
        | inr b ↦ lifted_low bound (m'.cell p).key (omega (arith, b, lifted_key bound key k))
      ] in
      (m', e, v', only, longer (lifted bound) (suc (lifted bound key)) m m' key v g found f)

  fill_done :
      (depth fuel : ℕ) (m : ActionManifest)
      → ltb (length m.index) (length keys) ≡ false
      → fill json actions keys depth (suc fuel) m ≡ ok m
  unfolding fill
  fill_done depth fuel m e = rw (fill, e) refl

  fill_step :
      (depth fuel : ℕ) (m m' : ActionManifest) (key : Bytes)
      → ltb (length m.index) (length keys) ≡ true
      → missing m keys ≡ some key
      → emplace json actions depth key m ≡ ok m'
      → fill json actions keys depth (suc fuel) m ≡ fill json actions keys depth fuel m'
  unfolding fill
  fill_step depth fuel m m' key e f g = rw (fill, e) (rw (f, g) refl)

  -- What the loop leaves: a well-formed manifest with just the keys of the object, each once.
  abbrev pub IsFilled : ActionManifest → Type 0
  IsFilled m =
      IsWellFormed m
      × HoldsOnly keys m
      × ((key : Bytes) → IsKey keys key → Found m key)
      × (length m.index ≡ length keys)

  -- Where none is missing the loop is done.
  full-IsFilled :
      (m : ActionManifest) → IsWellFormed m → HoldsOnly keys m → missing m keys ≡ none → IsFilled m
  full-IsFilled m v h n = (
    v,
    h,
    (λ key k. missing-none m keys key n k),
    omega (arith, keys_le json keys rank object m v h n, index_le json keys rank object m v h),
  )

  -- From a well-formed manifest that holds keys of a file without circles, the loop over the keys
  -- of the file returns, on fuel above the number of keys that are missing and for emplace above
  -- all ranks; each key is then there once and nothing else is.
  pub fill_total :
      (depth : ℕ)
      → ((key : Bytes) → IsKey keys key → rank key < depth)
      → (fuel : ℕ) (m : ActionManifest) → IsWellFormed m
      → HoldsOnly keys m
      → length keys < fuel + length m.index
      → (m' : ActionManifest) × (fill json actions keys depth fuel m ≡ ok m') × IsFilled m'
  fill_total depth low zero m v h l =
      absurd (omega (arith, l, index_le json keys rank object m v h))
  fill_total depth low (suc fuel) m v h l = elim (Option-cases (missing m keys)) [
    | inl n ↦ (
      m,
      fill_done depth fuel m (ground (arith, keys_le json keys rank object m v h n)),
      full-IsFilled m v h n,
    )
    | inr (key, n) ↦
        let (k, f) = missing-some m keys key n in
        let (m', e, v', h', g) = round_lem depth key m k (low key k) f v h in
        let (m'', e', filled) = fill_total depth low fuel m' v' h' (omega (arith, g, l)) in
        let more : ltb (length m.index) (length keys) ≡ true =
          ground (arith, g, index_le json keys rank object m' v' h') in
        (m'', fill_step depth fuel m m' key more n e ∙ e', filled)
  ]
