-- ===== src/BigNum/Value.antt =====
-- What an HttpBigNum stands for: its words are the digits in base 2 ^ 64, the most significant
-- first. `le_value` reads the reversed list, on which the loops run.
use mathlib.Core.List.{reverse-cons, reverse-reverse}
use stochastic_scheduler_con.Prelude.{
  ℕ, ◌+◌, ◌*◌, ◌≤◌, ◌<◌, ◌≡◌, refl, sym, ap, ◌∙◌, List, [], ◌∷◌, ◌++◌, reverse, arith, length, All,
  All-append,
}
use stochastic_scheduler_con.BigNum.{BigNum, word}

-- 2 ^ 64 to the number of words
unfoldable pub weight : List ℕ → ℕ
weight [] = 1
weight (w ∷ ws) = word * weight ws

unfoldable pub value : BigNum → ℕ
unfolding weight
value [] = 0
value (w ∷ ws) = w * weight ws + value ws

unfoldable pub le_value : List ℕ → ℕ
le_value [] = 0
le_value (w ∷ ws) = w + word * le_value ws

-- Every element is a 64-bit word.
abbrev pub IsWords : List ℕ → Type 0
IsWords = All (λ w. w < word)

-- At least one word, and no leading zero before another word.
abbrev pub IsCanonical : BigNum → Type 0
IsCanonical [] = ⊥
IsCanonical (w ∷ []) = Unit
IsCanonical (w ∷ v ∷ ws) = 0 < w

pub weight_pos : (xs : List ℕ) → 0 < weight xs
unfolding weight
weight_pos [] = omega arith
weight_pos (x ∷ xs) = omega (arith, weight_pos xs)

pub weight_eq : (xs ys : List ℕ) → length xs ≡ length ys → weight xs ≡ weight ys
unfolding weight
weight_eq [] [] h = refl
weight_eq [] (y ∷ ys) h = absurd (omega arith)
weight_eq (x ∷ xs) [] h = absurd (omega arith)
weight_eq (x ∷ xs) (y ∷ ys) h = ap (λ (n : ℕ). word * n) (weight_eq xs ys (omega arith))

pub weight_mono : (xs ys : List ℕ) → length xs ≤ length ys → weight xs ≤ weight ys
unfolding weight
weight_mono [] ys h = weight_pos ys
weight_mono (x ∷ xs) [] h = absurd (omega arith)
weight_mono (x ∷ xs) (y ∷ ys) h = omega (arith, weight_mono xs ys)

pub weight-append : (xs ys : List ℕ) → weight (xs ++ ys) ≡ weight xs * weight ys
unfolding weight
weight-append [] ys = omega arith
weight-append (x ∷ xs) ys = grind (arith, weight-append xs ys)

pub weight-reverse : (xs : List ℕ) → weight (reverse xs) ≡ weight xs
unfolding weight
weight-reverse [] = refl
weight-reverse (x ∷ xs) =
    rw (reverse-cons x xs, weight-append (reverse xs) (x ∷ []), weight-reverse xs) (omega arith)

pub value-lt-weight : (xs : List ℕ) → IsWords xs → value xs < weight xs
unfolding value
value-lt-weight [] h = omega arith
value-lt-weight (x ∷ xs) h = grind (arith, value-lt-weight xs h.1, h.0)

pub le_value-lt-weight : (xs : List ℕ) → IsWords xs → le_value xs < weight xs
unfolding le_value weight
le_value-lt-weight [] h = omega arith
le_value-lt-weight (x ∷ xs) h = omega (arith, le_value-lt-weight xs h.1)

pub le_value-append : (xs ys : List ℕ) → le_value (xs ++ ys) ≡ le_value xs + weight xs * le_value ys
unfolding le_value weight
le_value-append [] ys = omega arith
le_value-append (x ∷ xs) ys = grind (arith, le_value-append xs ys)

pub le_value-reverse : (xs : BigNum) → le_value (reverse xs) ≡ value xs
unfolding value le_value
le_value-reverse [] = refl
le_value-reverse (x ∷ xs) =
    rw (reverse-cons x xs, le_value-append (reverse xs) (x ∷ []), weight-reverse xs)
      (omega (arith, le_value-reverse xs))

pub value_of_reverse : (ws : List ℕ) → value (reverse ws) ≡ le_value ws
value_of_reverse ws = sym (le_value-reverse (reverse ws)) ∙ ap le_value (reverse-reverse ws)

pub IsWords-reverse : (xs : List ℕ) → IsWords xs → IsWords (reverse xs)
IsWords-reverse [] h = tt
IsWords-reverse (x ∷ xs) h =
    rw reverse-cons (All-append _ (reverse xs) (x ∷ []) (IsWords-reverse xs h.1) (h.0, tt))
