-- ===== src/Controller/Requests/Indices.antt =====
-- Which indices the concurrent contexts are given.
use native.Mathlib.Nat.{le-div_iff_mul-le, mul-pos, mul-lt-mul_of_pos_right, mul-div-le, one-mul}
use stochastic_scheduler_con.Prelude.{
  ℕ, zero, suc, ◌+◌, ◌-◌, ◌*◌, ◌/◌, ◌<◌, ◌≤◌, ◌≡◌, refl, sym, ap, ◌∙◌, true, false, some, List, [],
  ◌∷◌, ltb, if◌then◌else◌, arith, length, get_elem?, drop, drop-nil, Bool-cases, inl, inr, ◌⊎◌,
}
use stochastic_scheduler_con.Prelude.Outcome.{ok, fault}
use stochastic_scheduler_con.Manifest.Index.{get_elem?_of_lt}
use stochastic_scheduler_con.Controller.Requests.{
  indices_from, populate_indices, request_indices, make_api_requests,
}

length-indices_from : (step i count : ℕ) → length (indices_from step i count) ≡ count
unfolding indices_from
length-indices_from step i zero = refl
length-indices_from step i (suc count) = ap suc (length-indices_from step (i + 1) count)

get_elem?-indices_from :
    (step i count k : ℕ)
    → k < count
    → get_elem? (indices_from step i count) k ≡ some ((i + k) * step)
unfolding indices_from
get_elem?-indices_from step i zero k h = absurd (omega (arith, h))
get_elem?-indices_from step i (suc count) zero h =
    let e : i ≡ i + 0 = omega arith in ap (λ j. some (j * step)) e
get_elem?-indices_from step i (suc count) (suc k) h =
    let e : i + 1 + k ≡ i + suc k = omega arith in
    get_elem?-indices_from step (i + 1) count k (omega (arith, h)) ∙ ap (λ j. some (j * step)) e

-- The distance of two neighbouring indices.
abbrev pub step_of : ℕ → ℕ → ℕ
step_of manifest_size concurrency =
    if ltb manifest_size concurrency then 1 else manifest_size / concurrency

step_pos : (m c : ℕ) → 0 < c → 0 < step_of m c
step_pos m c h = elim (Bool-cases (ltb m c)) [
  | inl e ↦ rw e (omega arith)
  | inr e ↦ rw e ((le-div_iff_mul-le h).1 (ground (arith, e, one-mul c)))
]

step_bound : (m c k : ℕ) → k < c → c ≤ m → 0 < step_of m c → k * step_of m c < m
step_bound m c k h q s =
    let e : ltb m c ≡ false = ground (arith, q) in
    let less = mul-lt-mul_of_pos_right h s in
    let same : step_of m c ≡ m / c = rw e refl in
    omega (arith, less, ap (λ s. c * s) same, mul-div-le m c)

populate_lem : (m c : ℕ) → populate_indices m c ≡ indices_from (step_of m c) 1 (c - 1)
unfolding populate_indices
populate_lem m c = elim (Bool-cases (ltb m c)) [ inl e ↦ rw e refl | inr e ↦ rw e refl ]

drop-all : (n : ℕ) (xs : List ℕ) → length xs ≤ n → drop n xs ≡ []
drop-all n [] h = drop-nil n
drop-all zero (x ∷ xs) h = absurd (omega (arith, h))
drop-all (suc n) (x ∷ xs) h = drop-all n xs (omega (arith, h))

drop-cons : (xs : List ℕ) (i x : ℕ) → get_elem? xs i ≡ some x → drop i xs ≡ x ∷ drop (i + 1) xs
drop-cons [] i x h = absurd (cc h)
drop-cons (y ∷ xs) zero x h = let e : y ≡ x = cc h in ap (λ y. y ∷ xs) e
drop-cons (y ∷ xs) (suc i) x h =
    let e : suc (i + 1) ≡ suc i + 1 = omega arith in
    drop-cons xs i x h ∙ ap (λ j. x ∷ drop j (y ∷ xs)) e

-- The loop reads the indices that are there, one after the other.
request_all :
    (indices : List ℕ) (i count : ℕ)
    → i + count ≡ length indices
    → request_indices indices i count ≡ ok (drop i indices)
unfolding request_indices
request_all indices i zero h = ap (λ xs. ok xs) (sym (drop-all i indices (omega (arith, h))))
request_all indices i (suc count) h =
    let (x, e) = get_elem?_of_lt indices i (omega (arith, h)) in
    rw (e, request_indices)
      (rw (request_all indices (i + 1) count (omega (arith, h)))
        (ap (λ xs. ok xs) (sym (drop-cons indices i x e))))

requests_lem : (m c : ℕ) → 3 ≤ c → make_api_requests m c ≡ ok (populate_indices m c)
unfolding make_api_requests
requests_lem m c h =
    let size : length (populate_indices m c) ≡ c - 1 =
      ap length (populate_lem m c) ∙ length-indices_from (step_of m c) 1 (c - 1) in
    let (x, e) = get_elem?_of_lt (populate_indices m c) 1 (omega (arith, size, h)) in
    let l : ltb 1 c ≡ true = ground (arith, h) in
    rw (l, make_api_requests)
      (rw (e) (request_all (populate_indices m c) 0 (c - 1) (omega (arith, size))))

within : (m c k : ℕ) → k < c → 0 < step_of m c → (m < c) ⊎ (k * step_of m c < m)
within m c k l s = elim (Bool-cases (ltb m c)) [
  | inl e ↦ inl (ground (arith, e))
  | inr e ↦ inr (step_bound m c k l (ground (arith, e)) s)
]

-- With a concurrency of at least three there is one request for each other context, and the k-th
-- is given the index (k + 1) * step: one step is manifest_size / concurrency, so that all indices
-- lie in the manifest, where that has as many actions as there are contexts, and else 1. No index
-- is 0, that of the primary context, and each is greater than the one before it.
pub make_api_requests_lem :
    (m c : ℕ)
    → 3 ≤ c
    → (indices : List ℕ) × (make_api_requests m c ≡ ok indices)
      × (length indices ≡ c - 1)
      × ((k : ℕ)
          → k < c - 1
          → (idx : ℕ) × (get_elem? indices k ≡ some idx)
            × (idx ≡ (k + 1) * step_of m c)
            × (0 < idx)
            × (idx < (k + 2) * step_of m c)
            × ((m < c) ⊎ (idx < m)))
make_api_requests_lem m c h = (
  populate_indices m c,
  requests_lem m c h,
  ap length (populate_lem m c) ∙ length-indices_from (step_of m c) 1 (c - 1),
  λ k l.
      let s = step_pos m c (omega (arith, h)) in
      let e : 1 + k ≡ k + 1 = omega arith in
      (
        (k + 1) * step_of m c,
        ap (λ xs. get_elem? xs k) (populate_lem m c)
            ∙ get_elem?-indices_from (step_of m c) 1 (c - 1) k l
            ∙ ap (λ j. some (j * step_of m c)) e,
        refl,
        mul-pos (omega arith) s,
        mul-lt-mul_of_pos_right (omega arith) s,
        within m c (k + 1) (omega (arith, l)) s,
      ),
)

-- With a concurrency of two, the only other context's index stands at 0, and populate_request_data
-- reads past the end of the vector.
pub make_api_requests_two : (m : ℕ) → make_api_requests m 2 ≡ fault
unfolding make_api_requests populate_indices indices_from
make_api_requests_two m = elim (Bool-cases (ltb m 2)) [ inl e ↦ rw e refl | inr e ↦ rw e refl ]
