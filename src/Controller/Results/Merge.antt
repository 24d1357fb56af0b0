-- ===== src/Controller/Results/Merge.antt =====
-- What the merge of results does to the values of a context.
use stochastic_scheduler_con.Prelude.{
  ℕ, ◌+◌, ◌≤◌, ◌≡◌, inl, inr, refl, sym, ap, ◌∙◌, Bool, true, false, some, List, [], ◌∷◌, arith,
  length, is_empty, Bytes, bytes_eq, codes, subst, Bool-cases, All,
}
use stochastic_scheduler_con.Prelude.Outcome.{ok}
use stochastic_scheduler_con.Manifest.{ActionManifest, find, is_incomplete}
use stochastic_scheduler_con.Manifest.Index.{find_sound, get_elem?-lt, get_elem?_of_lt}
use stochastic_scheduler_con.Manifest.Emplace.{Found}
use stochastic_scheduler_con.Controller.Schedule.{Context, reschedule_actions}
use stochastic_scheduler_con.Controller.Schedule.Ready.{IsSchedule}
use stochastic_scheduler_con.Controller.Schedule.Returns.{reschedule_returns}
use stochastic_scheduler_con.Controller.Results.{Route, store, merge_result, merge_results}
use stochastic_scheduler_con.Controller.Results.Store.{
  SameActions, SameActions-refl, store-SameActions, IsResult, store-IsSchedule, Keeps, Keeps-trans,
  store-Keeps, same_manifest, store_has,
}

-- The action of a key has a value that is complete.
abbrev pub HasResult : Context → Bytes → Type 0
HasResult c key =
    (it : ℕ × ℕ) × (find c.manifest.cell key c.manifest.index 0 ≡ some it)
    × (is_incomplete (c.manifest.cell it.1).value ≡ false)

find_same :
    (m m' : ActionManifest) (key : Bytes) (ps : List ℕ) (i : ℕ)
    → ((p : ℕ) → (m'.cell p).key ≡ (m.cell p).key)
    → find m'.cell key ps i ≡ find m.cell key ps i
unfolding find
find_same m m' key [] i h = refl
find_same m m' key (p ∷ ps) i h = rw (h p, find_same m m' key ps (i + 1) h) refl

find-SameActions :
    (m m' : ActionManifest) (key : Bytes)
    → SameActions m m'
    → find m'.cell key m'.index 0 ≡ find m.cell key m.index 0
find-SameActions m m' key s =
    find_same m m' key m'.index 0 s.key ∙ ap (λ is. find m.cell key is 0) s.index

HasResult-Keeps : (c c' : Context) (key : Bytes) → Keeps c c' → HasResult c key → HasResult c' key
HasResult-Keeps c c' key k (it, f, r) = (
  it,
  find-SameActions c.manifest c'.manifest key k.actions ∙ f,
  ap is_incomplete (k.values it.1 r) ∙ r,
)

-- A member of the object: a key of the manifest with its value serialized.
abbrev pub IsMember : Context → Bytes × Bytes → Type 0
IsMember c kvp = Found c.manifest kvp.0 × (is_empty kvp.1 ≡ false)

merge_null :
    (route : Route) (fuel now : ℕ) (k text : Bytes) (c : Context) (it : ℕ × ℕ)
    → find c.manifest.cell k c.manifest.index 0 ≡ some it
    → bytes_eq text (codes "null") ≡ true
    → merge_result route fuel now (k, text) c ≡ ok c
unfolding merge_result
merge_null route fuel now k text c it f e = rw (f, merge_result) (rw e refl)

merge_one :
    (route : Route) (fuel now : ℕ) (k text : Bytes) (c c' : Context) (b : Bool) (it : ℕ × ℕ)
    → find c.manifest.cell k c.manifest.index 0 ≡ some it
    → bytes_eq text (codes "null") ≡ false
    → reschedule_actions fuel now it.0 (record c { manifest = store route c.manifest it.1 text })
      ≡ ok (c', b)
    → merge_result route fuel now (k, text) c ≡ ok c'
unfolding merge_result
merge_one route fuel now k text c c' b it f e g = rw (f, merge_result) (rw (e, g) refl)

-- What the merge of one member does.
abbrev pub Merged : ℕ → Context → Context → Bytes × Bytes → Type 0
Merged bound c c' kvp = IsSchedule bound c' × Keeps c c' × (IsResult kvp.1 → HasResult c' kvp.0)

text-IsResult :
    (text : Bytes) → is_empty text ≡ false → bytes_eq text (codes "null") ≡ false → IsResult text
unfolding is_incomplete
text-IsResult text a b = ground (arith, a, b)

null-IsResult : (text : Bytes) → bytes_eq text (codes "null") ≡ true → is_incomplete text ≡ true
unfolding is_incomplete
null-IsResult text a = ground (arith, a)

merge_result_lem :
    (bound : ℕ) (route : Route) (fuel now : ℕ) (kvp : Bytes × Bytes) (c : Context)
    → IsSchedule bound c
    → length c.manifest.index + bound ≤ fuel
    → IsMember c kvp
    → (c' : Context) × (merge_result route fuel now kvp c ≡ ok c') × Merged bound c c' kvp
merge_result_lem bound route fuel now (k, text) c s l ((it, f), n) =
    elim (Bool-cases (bytes_eq text (codes "null"))) [
      | inl e ↦ (
        c,
        merge_null route fuel now k text c it f e,
        (
          s,
          record { actions = SameActions-refl c.manifest; values = λ q h. refl },
          λ r. absurd (cc (null-IsResult text e, r)),
        ),
      )
      | inr e ↦
          let r = text-IsResult text n e in
          let m = c.manifest in
          let d : Context = record c { manifest = store route m it.1 text } in
          let (j, a, at, _) = find_sound m.cell k m.index 0 it.0 it.1 f in
          let (t, here) =
            get_elem?_of_lt c.thread_controls it.0
              (omega (arith, s.same_length, a, get_elem?-lt m.index j it.1 at)) in
          let same = store-SameActions route m it.1 text in
          let (c', b, g, h, w) =
            reschedule_returns bound fuel now it.0 d t
              (store-IsSchedule bound route c it.1 text r s)
              (omega (arith, l, ap length same.index)) here in
          let k' : Keeps d c' = record {
            actions = subst (SameActions d.manifest) (sym h) (SameActions-refl d.manifest);
            values = λ q _. ap (λ m. (m.cell q).value) h;
          } in
          (
            c',
            merge_one route fuel now k text c c' b it f e g,
            (
              same_manifest bound d c' h w (store-IsSchedule bound route c it.1 text r s),
              Keeps-trans c d c' (store-Keeps route c it.1 text) k',
              λ _. HasResult-Keeps d c' k k' (
                it,
                find-SameActions m d.manifest k same ∙ f,
                store_has route m it.1 text r (s.settled j it.1 at),
              ),
            ),
          )
    ]

IsMember-Keeps :
    (c c' : Context) (kvps : List (Bytes × Bytes))
    → Keeps c c'
    → All (IsMember c) kvps
    → All (IsMember c') kvps
IsMember-Keeps c c' [] k h = tt
IsMember-Keeps c c' (kvp ∷ kvps) k (((it, f), n), h) = (
  ((it, find-SameActions c.manifest c'.manifest kvp.0 k.actions ∙ f), n),
  IsMember-Keeps c c' kvps k h,
)

merge_results_step :
    (route : Route) (fuel now : ℕ) (kvp : Bytes × Bytes) (kvps : List (Bytes × Bytes))
    (c c' : Context)
    → merge_result route fuel now kvp c ≡ ok c'
    → merge_results route fuel now (kvp ∷ kvps) c ≡ merge_results route fuel now kvps c'
unfolding merge_results
merge_results_step route fuel now kvp kvps c c' h = rw (h, merge_results) refl

All-HasResult :
    (c c' : Context) (kvps : List (Bytes × Bytes))
    → Keeps c c'
    → All (λ kvp. IsResult kvp.1 → HasResult c kvp.0) kvps
    → All (λ kvp. IsResult kvp.1 → HasResult c' kvp.0) kvps
All-HasResult c c' [] k h = tt
All-HasResult c c' (kvp ∷ kvps) k (g, h) =
    (λ r. HasResult-Keeps c c' kvp.0 k (g r), All-HasResult c c' kvps k h)

-- The members of a "result" object, all of them keys of the manifest, merged by either
-- route into a well-formed context with a thread for each named action and no value "null", on
-- enough fuel for next: the merge returns, the context is such a context again, with
-- the same actions and with every value that was complete, and every action whose member is not
-- "null" has a complete value.
pub merge_results_lem :
    (bound : ℕ) (route : Route) (fuel now : ℕ) (kvps : List (Bytes × Bytes)) (c : Context)
    → IsSchedule bound c
    → length c.manifest.index + bound ≤ fuel
    → All (IsMember c) kvps
    → (c' : Context) × (merge_results route fuel now kvps c ≡ ok c')
      × IsSchedule bound c'
      × Keeps c c'
      × All (λ kvp. IsResult kvp.1 → HasResult c' kvp.0) kvps
merge_results_lem bound route fuel now [] c s l h = (
  c,
  unfold merge_results in refl,
  s,
  record { actions = SameActions-refl c.manifest; values = λ q h. refl },
  tt,
)
merge_results_lem bound route fuel now (kvp ∷ kvps) c s l (g, h) =
    let (c₁, e, (s₁, k₁, r₁)) = merge_result_lem bound route fuel now kvp c s l g in
    let (c', e', s', k', r') =
      merge_results_lem bound route fuel now kvps c₁ s₁
        (omega (arith, l, ap length k₁.actions.index)) (IsMember-Keeps c c₁ kvps k₁ h) in
    (
      c',
      merge_results_step route fuel now kvp kvps c c₁ e ∙ e',
      s',
      Keeps-trans c c₁ c' k₁ k',
      (λ r. HasResult-Keeps c₁ c' kvp.0 k' (r₁ r), r'),
    )
