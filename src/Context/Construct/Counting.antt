-- ===== src/Context/Construct/Counting.antt =====
-- Two lists of which each element of the one has its own in the other.
use stochastic_scheduler_con.Prelude.{
  ℕ, zero, suc, subst, ◌<◌, ◌≤◌, ◌≡◌, ltb, ◌==◌, if◌then◌else◌, arith, Bool-cases, inl, inr,
}

-- An injective function from the numbers below n into those below m.
pigeonhole :
    (n m : ℕ) (f : ℕ → ℕ)
    → ((i : ℕ) → i < n → f i < m)
    → ((i j : ℕ) → i < n → j < n → f i ≡ f j → i ≡ j)
    → n ≤ m
pigeonhole zero m f b inj = omega arith
pigeonhole (suc n) zero f b inj = absurd (omega (arith, b 0 (omega arith)))
pigeonhole (suc n) (suc m) f b inj =
    let g : ℕ → ℕ = λ i. if f i == m then f n else f i in
    let rest =
      pigeonhole n m g
        (λ i l. ground (
          arith,
          b i (omega (arith, l)),
          b n (omega arith),
          inj i n (omega (arith, l)) (omega arith),
        ))
        (λ i j l k e. ground (
          arith,
          e,
          inj i j (omega (arith, l)) (omega (arith, k)),
          inj i n (omega (arith, l)) (omega arith),
          inj j n (omega (arith, k)) (omega arith),
        )) in
    omega (arith, rest)

choose :
    {P : ℕ → ℕ → Type 0} (n : ℕ)
    → ((i : ℕ) → i < n → (j : ℕ) × P i j)
    → (i : ℕ) → (j : ℕ) × (i < n → P i j)
choose n h i = elim (Bool-cases (ltb i n)) [
  | inl e ↦ let (j, p) = h i (ground arith) in (j, λ _. p)
  | inr e ↦ (0, λ l. absurd (ground arith))
]

-- Where every position below n has one below m that belongs to no other, n is at most m.
pub counting :
    (P : ℕ → ℕ → Type 0) (n m : ℕ)
    → ((i : ℕ) → i < n → (j : ℕ) × (j < m) × P i j)
    → ((i i' j : ℕ) → P i j → P i' j → i ≡ i')
    → n ≤ m
counting P n m h u =
    let f = choose {P = λ i j. (j < m) × P i j} n (λ i l. let (j, a, b) = h i l in (j, (a, b))) in
    pigeonhole n m (λ i. (f i).0) (λ i l. ((f i).1 l).0)
      (λ i j l k e. u i j (f j).0 (subst (P i) e ((f i).1 l).1) ((f j).1 k).1)
