-- ===== src/BigNum/Increment.antt =====
-- operator++ adds one and operator-- takes one away, with the carry through all words.
use stochastic_scheduler_con.Prelude.{
  ℕ, ◌+◌, ◌<◌, ◌≡◌, refl, ap, ◌∙◌, List, [], ◌∷◌, reverse, arith,
}
use stochastic_scheduler_con.BigNum.{
  BigNum, increment, increment_loop, decrement, decrement_loop, erase_front,
}
use stochastic_scheduler_con.BigNum.Value.{
  value, le_value, IsWords, IsWords-reverse, le_value-reverse, value_of_reverse,
}

increment_loop_value : (ws : List ℕ) → le_value (increment_loop ws) ≡ le_value ws + 1
unfolding increment_loop le_value
increment_loop_value [] = omega arith
increment_loop_value (w ∷ ws) = ground (arith, increment_loop_value ws)

increment_loop-IsWords : (ws : List ℕ) → IsWords ws → IsWords (increment_loop ws)
unfolding increment_loop
increment_loop-IsWords [] h = omega arith
increment_loop-IsWords (w ∷ ws) h = ground (arith, increment_loop-IsWords ws h.1)

-- operator++ adds one to the number that a vector of words stands for, and leaves words.
pub value-increment :
    (x : BigNum) → IsWords x → (value (increment x) ≡ value x + 1) × IsWords (increment x)
unfolding increment
value-increment x h = (
  value_of_reverse (increment_loop (reverse x))
      ∙ increment_loop_value (reverse x)
      ∙ ap (λ (n : ℕ). n + 1) (le_value-reverse x),
  IsWords-reverse (increment_loop (reverse x))
      (increment_loop-IsWords (reverse x) (IsWords-reverse x h)),
)

decrement_loop_value :
    (ws : List ℕ) → 0 < le_value ws → le_value (decrement_loop ws) + 1 ≡ le_value ws
unfolding decrement_loop le_value
decrement_loop_value [] p = absurd (omega arith)
decrement_loop_value (w ∷ ws) p = ground (arith, decrement_loop_value ws)

decrement_loop-IsWords : (ws : List ℕ) → IsWords ws → IsWords (decrement_loop ws)
unfolding decrement_loop
decrement_loop-IsWords [] h = tt
decrement_loop-IsWords (w ∷ ws) h = ground (arith, decrement_loop-IsWords ws h.1)

value-erase_front : (xs : List ℕ) → value (erase_front xs) ≡ value xs
unfolding erase_front value
value-erase_front [] = refl
value-erase_front (x ∷ xs) = ground arith

erase_front-IsWords : (xs : List ℕ) → IsWords xs → IsWords (erase_front xs)
unfolding erase_front
erase_front-IsWords [] h = tt
erase_front-IsWords (x ∷ xs) h = ground arith

-- operator-- on a positive number takes one away, and leaves words.
pub value-decrement :
    (x : BigNum)
    → IsWords x
    → 0 < value x
    → (value (decrement x) + 1 ≡ value x) × IsWords (decrement x)
unfolding decrement
value-decrement x h p =
    let y = reverse (decrement_loop (reverse x)) in
    ground (
      arith,
      value-erase_front y,
      erase_front-IsWords y,
      IsWords-reverse (decrement_loop (reverse x)),
      decrement_loop-IsWords (reverse x),
      IsWords-reverse x,
      value_of_reverse (decrement_loop (reverse x)),
      decrement_loop_value (reverse x),
      le_value-reverse x,
    )
