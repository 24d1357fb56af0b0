-- ===== src/Controller/Schedule/Ready.antt =====
-- The contexts that the scheduling works on, what next gives there, and the relation between the
-- threads before and after indices have been handed out.
use stochastic_scheduler_con.Prelude.{
  ℕ, zero, suc, ◌+◌, ◌<◌, ◌≤◌, ◌≡◌, inl, inr, refl, ap, ◌∙◌, true, false, some, List, [], ◌∷◌,
  arith, length, get_elem?, set, is_empty, Bool-cases, length-append,
}
use stochastic_scheduler_con.Prelude.Outcome.{ok}
use stochastic_scheduler_con.Manifest.{
  ActionManifest, Cells, find, next, is_incomplete, any_incomplete,
}
use stochastic_scheduler_con.Manifest.Index.{get_elem?-lt, get_elem?_of_lt}
use stochastic_scheduler_con.Manifest.Invariant.{IsWellFormed}
use stochastic_scheduler_con.Manifest.Next.{IsReady, next-IsReady}
use stochastic_scheduler_con.Manifest.Progress.{find_own, next_total}
use stochastic_scheduler_con.Threads.{ThreadControls, Scheduler, notify}
use stochastic_scheduler_con.Controller.Schedule.{Context}

-- A well-formed manifest of named actions with a thread for each, where no value is "null".
pub record IsSchedule (bound : ℕ) (c : Context) : Type 0 where
  pub well_formed : IsWellFormed c.manifest
  pub named :
      (i p : ℕ) → get_elem? c.manifest.index i ≡ some p → is_empty (c.manifest.cell p).key ≡ false
  pub low : (i p : ℕ) → get_elem? c.manifest.index i ≡ some p → (c.manifest.cell p).depth < bound
  pub settled :
      (i p : ℕ)
      → get_elem? c.manifest.index i ≡ some p
      → is_incomplete (c.manifest.cell p).value ≡ true
      → is_empty (c.manifest.cell p).value ≡ true
  pub same_length : length c.thread_controls ≡ length c.manifest.index

pub incomplete_action :
    (cell : Cells) (ps : List ℕ)
    → any_incomplete cell ps ≡ true
    → (j : ℕ) × (q : ℕ) × (get_elem? ps j ≡ some q) × (is_incomplete (cell q).value ≡ true)
unfolding any_incomplete
incomplete_action cell [] h = absurd (cc h)
incomplete_action cell (p ∷ ps) h = elim (Bool-cases (is_incomplete (cell p).value)) [
  | inl e ↦ (0, p, refl, e)
  | inr e ↦ let (j, q, a, b) = incomplete_action cell ps (ground arith) in (suc j, q, a, b)
]

-- Where an action is incomplete, next gives a ready one, and there is a thread for it.
pub next-IsReady_lem :
    (bound fuel : ℕ) (c : Context) (i p idx : ℕ)
    → IsSchedule bound c
    → any_incomplete c.manifest.cell c.manifest.index ≡ true
    → length c.manifest.index + bound ≤ fuel
    → get_elem? c.manifest.index i ≡ some p
    → (r : ℕ) × (j : ℕ) × (t : ThreadControls) × (next fuel c.manifest (c.manifest.cell p).key idx
        ≡ ok (some r))
      × IsReady c.manifest r
      × (get_elem? c.manifest.index j ≡ some r)
      × (find c.manifest.cell (c.manifest.cell r).key c.manifest.index 0 ≡ some (j, r))
      × (get_elem? c.thread_controls j ≡ some t)
next-IsReady_lem bound fuel c i p idx s a l h =
    let m = c.manifest in
    let (j', q, b, e) = incomplete_action m.cell m.index a in
    let (r, g) =
      next_total m idx bound fuel i p j' q s.well_formed s.low h b (s.settled j' q b e) l in
    let ready = next-IsReady fuel m (m.cell p).key idx r g in
    let (j, at) = ready.listed in
    let (t, k) =
      get_elem?_of_lt c.thread_controls j
        (omega (arith, get_elem?-lt m.index j r at, s.same_length)) in
    (r, j, t, g, ready, at, find_own m j r s.well_formed at, k)

-- Each of the indices has been handed to the thread of a ready action.
pub data Handed (m : ActionManifest)
    : List ℕ → List ThreadControls → List ThreadControls → Type 0 where
  nothing : {ts : List ThreadControls} → Handed m [] ts ts
  hands :
      {idxs : List ℕ} {ts ts' : List ThreadControls}
      → (now idx j p : ℕ) (t : ThreadControls) (s : Scheduler) → IsReady m p
      → get_elem? m.index j ≡ some p
      → get_elem? ts j ≡ some t
      → Handed m idxs (set ts j (notify now idx (t, s)).0.0) ts'
      → Handed m (idx ∷ idxs) ts ts'

-- The number of indices that are pending in all threads.
pub pending : List ThreadControls → ℕ
pending [] = 0
pending (t ∷ ts) = length t.execution_context_idxs + pending ts

pub length-set {ℓ} : {A : Type ℓ} (xs : List A) (i : ℕ) (x : A) → length (set xs i x) ≡ length xs
length-set [] i x = refl
length-set (y ∷ xs) zero x = refl
length-set (y ∷ xs) (suc i) x = ap suc (length-set xs i x)

pub pending-set :
    (ts : List ThreadControls) (j : ℕ) (t t' : ThreadControls)
    → get_elem? ts j ≡ some t
    → pending (set ts j t') + length t.execution_context_idxs
      ≡ pending ts + length t'.execution_context_idxs
unfolding pending
pending-set [] j t t' h = absurd (cc h)
pending-set (u ∷ ts) zero t t' h =
    let same : u ≡ t = cc h in omega (arith, ap (λ u. length u.execution_context_idxs) same)
pending-set (u ∷ ts) (suc j) t t' h = omega (arith, pending-set ts j t t' h)

length-notify :
    (now idx : ℕ) (t : ThreadControls) (s : Scheduler)
    → length (notify now idx (t, s)).0.0.execution_context_idxs
      ≡ length t.execution_context_idxs + 1
unfolding notify
length-notify now idx t s = length-append t.execution_context_idxs (idx ∷ [])

-- No index is lost while they are handed out.
pub Handed-pending :
    {m : ActionManifest} {idxs : List ℕ} {ts ts' : List ThreadControls}
    → Handed m idxs ts ts'
    → (pending ts' ≡ pending ts + length idxs) × (length ts' ≡ length ts)
Handed-pending nothing = (omega arith, refl)
Handed-pending {ts = ts} (hands now idx j p t s r a b h) =
    let (e, f) = Handed-pending h in
    let new = (notify now idx (t, s)).0.0 in
    (omega (arith, e, pending-set ts j t new b, length-notify now idx t s), f ∙ length-set ts j new)
