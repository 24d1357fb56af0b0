-- ===== src/BigNum/Canonical.antt =====
-- Which vectors are canonical, by what they stand for; operator++ keeps vectors canonical, and
-- canonical vectors of one number are the same.
use stochastic_scheduler_con.Prelude.{
  ℕ, zero, suc, ◌≤◌, ◌<◌, ◌≡◌, ◌⊎◌, inl, inr, refl, List, [], ◌∷◌, reverse, arith, length,
  length-reverse,
}
use stochastic_scheduler_con.BigNum.{BigNum, increment, increment_loop}
use stochastic_scheduler_con.BigNum.Value.{
  weight, value, le_value, IsWords, IsCanonical, value_of_reverse, weight_eq, weight-reverse,
  value-lt-weight, weight_pos,
}
use stochastic_scheduler_con.BigNum.Order.{lt_trichotomy}
use stochastic_scheduler_con.BigNum.Increment.{value-increment}

-- A carry out of all words leaves zeros below it.
length-increment_loop :
    (ws : List ℕ)
    → (length (increment_loop ws) ≡ length ws)
      ⊎ ((length (increment_loop ws) ≡ suc (length ws))
          × (le_value (increment_loop ws) ≡ weight ws))
unfolding increment_loop le_value weight
length-increment_loop [] = inr (refl, refl)
length-increment_loop (w ∷ ws) = ground (arith, length-increment_loop ws)

length-increment :
    (x : BigNum)
    → (length (increment x) ≡ length x)
      ⊎ ((length (increment x) ≡ suc (length x)) × (value (increment x) ≡ weight x))
unfolding increment
length-increment x = ground (
  arith,
  length-increment_loop (reverse x),
  length-reverse x,
  length-reverse (increment_loop (reverse x)),
  weight-reverse x,
  value_of_reverse (increment_loop (reverse x)),
)

IsCanonical-of_value :
    (x y : BigNum)
    → IsWords x
    → length x ≡ suc (length y)
    → 0 < length y
    → weight y ≤ value x
    → IsCanonical x
unfolding value
IsCanonical-of_value [] y h l p v = absurd (omega arith)
IsCanonical-of_value (w ∷ []) y h l p v = tt
IsCanonical-of_value (zero ∷ u ∷ ws) y h l p v =
    absurd (omega (arith, value-lt-weight (u ∷ ws) h.1, weight_eq (u ∷ ws) y (omega (arith, l)), v))
IsCanonical-of_value (suc w ∷ u ∷ ws) y h l p v = omega arith

value_of_canonical : (w v : ℕ) (ws : BigNum) → 0 < w → weight (v ∷ ws) ≤ value (w ∷ v ∷ ws)
unfolding value
value_of_canonical zero v ws h = absurd (omega arith)
value_of_canonical (suc w) v ws h = grind (arith, weight_pos (v ∷ ws))

one_word : (x : BigNum) → length x ≡ 1 → IsCanonical x
one_word [] h = absurd (omega arith)
one_word (w ∷ []) h = tt
one_word (w ∷ v ∷ ws) h = absurd (omega arith)

-- operator++ keeps a vector canonical.
pub increment-IsCanonical : (x : BigNum) → IsWords x → IsCanonical x → IsCanonical (increment x)
increment-IsCanonical [] h c = absurd c
increment-IsCanonical (w ∷ []) h c = elim (length-increment (w ∷ [])) [
  | inl e ↦ one_word (increment (w ∷ [])) e
  | inr (e, f) ↦
      IsCanonical-of_value (increment (w ∷ [])) (w ∷ []) (value-increment (w ∷ []) h).1 e
        (omega arith) (omega (arith, f))
]
increment-IsCanonical (w ∷ v ∷ ws) h c = elim (length-increment (w ∷ v ∷ ws)) [
  | inl e ↦
      IsCanonical-of_value (increment (w ∷ v ∷ ws)) (v ∷ ws) (value-increment (w ∷ v ∷ ws) h).1 e
        (omega arith)
        (omega (arith, value_of_canonical w v ws c, (value-increment (w ∷ v ∷ ws) h).0))
  | inr (e, f) ↦
      IsCanonical-of_value (increment (w ∷ v ∷ ws)) (w ∷ v ∷ ws) (value-increment (w ∷ v ∷ ws) h).1
        e (omega arith) (omega (arith, f))
]

-- Canonical vectors of one number are the same vector.
pub canonical_unique :
    (x y : BigNum)
    → IsWords x
    → IsWords y
    → IsCanonical x
    → IsCanonical y
    → value x ≡ value y
    → x ≡ y
canonical_unique x y h k c d e = elim (lt_trichotomy x y h k c d) [
  | inl p ↦ absurd (omega (arith, p.0))
  | inr (inl p) ↦ absurd (omega (arith, p.0))
  | inr (inr p) ↦ p.0
]
