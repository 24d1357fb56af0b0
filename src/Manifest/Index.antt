-- ===== src/Manifest/Index.antt =====
-- The index of a manifest as a list of pointers: lookup by position and by key.
use stochastic_scheduler_con.Prelude.{
  ℕ, zero, suc, ◌+◌, ◌<◌, ◌≡◌, ◌≢◌, ◌⊎◌, inl, inr, refl, sym, ap, ◌∙◌, true, false, none, some,
  List, [], ◌∷◌, ◌++◌, arith, length, get_elem?, Bytes, bytes_eq, bytes_eq_refl, bytes_eq_sound,
  Bool-cases,
}
use stochastic_scheduler_con.Manifest.{Cells, find}

module _ {ℓ} {A : Type ℓ} where
  pub get_elem?-append :
      (xs ys : List A) (i : ℕ) (a : A) → get_elem? xs i ≡ some a → get_elem? (xs ++ ys) i ≡ some a
  get_elem?-append [] ys i a h = cc
  get_elem?-append (x ∷ xs) ys zero a h = h
  get_elem?-append (x ∷ xs) ys (suc i) a h = get_elem?-append xs ys i a h

  pub get_elem?-last : (xs : List A) (y : A) → get_elem? (xs ++ y ∷ []) (length xs) ≡ some y
  get_elem?-last [] y = refl
  get_elem?-last (x ∷ xs) y = get_elem?-last xs y

  pub get_elem?-append_one :
      (xs : List A) (y : A) (i : ℕ) (a : A)
      → get_elem? (xs ++ y ∷ []) i ≡ some a
      → (get_elem? xs i ≡ some a) ⊎ ((i ≡ length xs) × (a ≡ y))
  get_elem?-append_one [] y zero a h = inr (refl, ground arith)
  get_elem?-append_one [] y (suc i) a h = cc
  get_elem?-append_one (x ∷ xs) y zero a h = inl h
  get_elem?-append_one (x ∷ xs) y (suc i) a h = ground (arith, get_elem?-append_one xs y i a h)

  pub get_elem?-lt : (xs : List A) (i : ℕ) (a : A) → get_elem? xs i ≡ some a → i < length xs
  get_elem?-lt [] i a h = cc
  get_elem?-lt (x ∷ xs) zero a h = omega arith
  get_elem?-lt (x ∷ xs) (suc i) a h = omega (arith, get_elem?-lt xs i a h)

  pub get_elem?_of_lt : (xs : List A) (i : ℕ) → i < length xs → (a : A) × (get_elem? xs i ≡ some a)
  get_elem?_of_lt [] i h = absurd (omega arith)
  get_elem?_of_lt (x ∷ xs) zero h = (x, refl)
  get_elem?_of_lt (x ∷ xs) (suc i) h = get_elem?_of_lt xs i (omega arith)

find-nil : (cell : Cells) (key : Bytes) (i : ℕ) {it : ℕ × ℕ} → find cell key [] i ≢ some it
unfolding find
find-nil cell key i h = cc

find-yes :
    (cell : Cells) (key : Bytes) (p : ℕ) (ps : List ℕ) (i : ℕ)
    → (cell p).key ≡ key
    → find cell key (p ∷ ps) i ≡ some (i, p)
unfolding find
find-yes cell key p ps i e =
    let yes' : bytes_eq (cell p).key key ≡ true = rw e (bytes_eq_refl key) in rw yes'

find-no :
    (cell : Cells) (key : Bytes) (p : ℕ) (ps : List ℕ) (i : ℕ)
    → bytes_eq (cell p).key key ≡ false
    → find cell key (p ∷ ps) i ≡ find cell key ps (i + 1)
unfolding find
find-no cell key p ps i e = rw e

-- What is found stands there, under the key that was looked for.
pub find_sound :
    (cell : Cells) (key : Bytes) (ps : List ℕ) (i j p : ℕ)
    → find cell key ps i ≡ some (j, p)
    → (k : ℕ) × (j ≡ i + k) × (get_elem? ps k ≡ some p) × ((cell p).key ≡ key)
find_sound cell key [] i j p h = absurd (find-nil cell key i h)
find_sound cell key (q ∷ ps) i j p h = elim (Bool-cases (bytes_eq (cell q).key key)) [
  | inl e ↦
      let same = bytes_eq_sound (cell q).key key e in
      let f = sym (find-yes cell key q ps i same) ∙ h in
      (0, ground arith, ground arith, ground arith)
  | inr e ↦
      let (k, a, b, c) = find_sound cell key ps (i + 1) j p (sym (find-no cell key q ps i e) ∙ h) in
      (suc k, omega (arith, a), b, c)
]

-- A key that stands in the index is found.
pub find_complete :
    (cell : Cells) (key : Bytes) (ps : List ℕ) (i k p : ℕ)
    → get_elem? ps k ≡ some p
    → (cell p).key ≡ key
    → find cell key ps i ≢ none
find_complete cell key [] i k p h e f = cc
find_complete cell key (q ∷ ps) i zero p h e f =
    let same : q ≡ p = ground arith in
    cc (find-yes cell key q ps i (ap (λ r. (cell r).key) same ∙ e))
find_complete cell key (q ∷ ps) i (suc k) p h e f = elim (Bool-cases (bytes_eq (cell q).key key)) [
  | inl b ↦ cc (find-yes cell key q ps i (bytes_eq_sound (cell q).key key b))
  | inr b ↦ find_complete cell key ps (i + 1) k p h e (sym (find-no cell key q ps i b) ∙ f)
]
