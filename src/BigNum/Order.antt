-- ===== src/BigNum/Order.antt =====
-- The comparisons of HttpBigNum compare the numbers that canonical vectors stand for.
use stochastic_scheduler_con.Prelude.{
  ℕ, ◌+◌, ◌*◌, ◌≤◌, ◌<◌, ◌≡◌, ◌↔◌, ◌⊎◌, inr, refl, ap, Bool, true, false, not, List, [], ◌∷◌, arith,
  length,
}
use stochastic_scheduler_con.BigNum.{
  BigNum, eq, ne, lt, le, gt, ge, words_lt, words_gt, words_eq, words_ne,
}
use stochastic_scheduler_con.BigNum.Value.{
  weight, value, IsWords, IsCanonical, weight_eq, weight_mono, value-lt-weight,
}

digit_lt : (x y p a b : ℕ) → x < y → a < p → x * p + a < y * p + b
digit_lt x y p a b h k = grind arith

-- The comparison of vectors of one length, by what they stand for.
words_lt_lem :
    (same : Bool) (xs ys : List ℕ)
    → length xs ≡ length ys
    → IsWords xs
    → IsWords ys
    → ((value xs < value ys) × (words_lt same xs ys ≡ true))
      ⊎ ((value ys < value xs) × (words_lt same xs ys ≡ false))
      ⊎ ((xs ≡ ys) × (words_lt same xs ys ≡ same))
unfolding words_lt value
words_lt_lem same [] [] e h k = inr (inr (refl, refl))
words_lt_lem same [] (y ∷ ys) e h k = absurd (omega arith)
words_lt_lem same (x ∷ xs) [] e h k = absurd (omega arith)
words_lt_lem same (x ∷ xs) (y ∷ ys) e h k = ground (
  arith,
  words_lt_lem same xs ys (omega arith) h.1 k.1,
  weight_eq xs ys (omega arith),
  value-lt-weight xs h.1,
  value-lt-weight ys k.1,
  digit_lt x y (weight xs) (value xs) (value ys),
  digit_lt y x (weight xs) (value ys) (value xs),
)

length-lt-value :
    (xs ys : BigNum)
    → IsWords xs
    → IsCanonical ys
    → length xs < length ys
    → 0 < length xs
    → value xs < value ys
unfolding value
length-lt-value xs [] h c l p = absurd (omega arith)
length-lt-value xs (y ∷ []) h c l p = absurd (omega arith)
length-lt-value xs (y ∷ z ∷ ys) h c l p =
    grind (arith, value-lt-weight xs h, weight_mono xs (z ∷ ys) (omega arith), c)

-- The comparison by length and then by words, by what canonical vectors stand for.
pub lt_trichotomy :
    (x y : BigNum)
    → IsWords x
    → IsWords y
    → IsCanonical x
    → IsCanonical y
    → ((value x < value y) × (lt x y ≡ true) × (le x y ≡ true))
      ⊎ ((value y < value x) × (lt x y ≡ false) × (le x y ≡ false))
      ⊎ ((x ≡ y) × (lt x y ≡ false) × (le x y ≡ true))
unfolding lt le
lt_trichotomy [] y h k c d = absurd c
lt_trichotomy (x ∷ xs) [] h k c d = absurd d
lt_trichotomy (x ∷ xs) (y ∷ ys) h k c d = ground (
  arith,
  words_lt_lem false (x ∷ xs) (y ∷ ys),
  words_lt_lem true (x ∷ xs) (y ∷ ys),
  length-lt-value (x ∷ xs) (y ∷ ys),
  length-lt-value (y ∷ ys) (x ∷ xs),
)

value_eq : (x y : BigNum) → x ≡ y → value x ≡ value y
value_eq x y e = ap value e

-- operator< and operator<= on canonical vectors compare the numbers.
pub lt-value :
    (x y : BigNum)
    → IsWords x
    → IsWords y
    → IsCanonical x
    → IsCanonical y
    → ((lt x y ≡ true) ↔ (value x < value y)) × ((le x y ≡ true) ↔ (value x ≤ value y))
lt-value x y h k c d = ground (arith, lt_trichotomy x y h k c d, value_eq x y)

gt_iff : (x y : BigNum) → length x ≡ length y → (words_gt false x y ≡ words_lt false y x)
unfolding words_lt words_gt
gt_iff [] [] e = refl
gt_iff [] (y ∷ ys) e = refl
gt_iff (x ∷ xs) [] e = refl
gt_iff (x ∷ xs) (y ∷ ys) e = ground (arith, gt_iff xs ys)

ge_iff : (x y : BigNum) → length x ≡ length y → (words_gt true x y ≡ words_lt true y x)
unfolding words_lt words_gt
ge_iff [] [] e = refl
ge_iff [] (y ∷ ys) e = refl
ge_iff (x ∷ xs) [] e = refl
ge_iff (x ∷ xs) (y ∷ ys) e = ground (arith, ge_iff xs ys)

-- operator> and operator>= are operator< and operator<= with the sides swapped.
pub gt-lt : (x y : BigNum) → (gt x y ≡ lt y x) × (ge x y ≡ le y x)
unfolding gt lt ge le
gt-lt x y = (ground (arith, gt_iff x y), ground (arith, ge_iff x y))

words_eq_iff : (xs ys : List ℕ) → length xs ≡ length ys → (words_eq xs ys ≡ true) ↔ (xs ≡ ys)
unfolding words_eq
words_eq_iff [] [] e = ground arith
words_eq_iff [] (y ∷ ys) e = absurd (omega arith)
words_eq_iff (x ∷ xs) [] e = absurd (omega arith)
words_eq_iff (x ∷ xs) (y ∷ ys) e = ground (arith, words_eq_iff xs ys (omega arith))

words_ne_lem : (xs ys : List ℕ) → words_ne xs ys ≡ not (words_eq xs ys)
unfolding words_eq words_ne
words_ne_lem [] ys = refl
words_ne_lem (x ∷ xs) [] = refl
words_ne_lem (x ∷ xs) (y ∷ ys) = ground (arith, words_ne_lem xs ys)

-- operator== decides whether the two vectors are the same, and operator!= the opposite.
pub eq_iff : (x y : BigNum) → ((eq x y ≡ true) ↔ (x ≡ y)) × (ne x y ≡ not (eq x y))
unfolding eq ne
eq_iff x y = (
  (ground (arith, words_eq_iff x y), λ e. rw e (ground (arith, words_eq_iff y y))),
  ground (arith, words_ne_lem x y),
)
