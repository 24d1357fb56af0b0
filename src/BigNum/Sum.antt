-- ===== src/BigNum/Sum.antt =====
-- operator+= adds the numbers as long as no carry leaves the words of the right side. A carry
-- that does is inserted in front of the whole vector, also where the left side has more words.
use mathlib.Core.List.{reverse-append}
use stochastic_scheduler_con.Prelude.{
  ℕ, ◌+◌, ◌-◌, ◌*◌, ◌≤◌, ◌<◌, ◌≡◌, sym, ◌∙◌, List, [], ◌∷◌, ◌++◌, reverse, arith, length,
  length-reverse, leb, if◌then◌else◌, All-append_right,
}
use stochastic_scheduler_con.BigNum.{BigNum, word, add_assign, add_loop, carried, carry_left}
use stochastic_scheduler_con.BigNum.Value.{
  weight, value, le_value, IsWords, IsWords-reverse, le_value-reverse, weight-reverse,
  le_value-append, value_of_reverse, weight_pos,
}

-- The carry and the word of a sum of two words and a carry.
over : ℕ → ℕ → ℕ → ℕ
over x y c = if leb word (x + y + c) then 1 else 0

digit : ℕ → ℕ → ℕ → ℕ
digit x y c = if leb word (x + y + c) then x + y + c - word else x + y + c

digit_lem : (x y c : ℕ) → x < word → y < word → c ≤ 1 → digit x y c + word * over x y c ≡ x + y + c
unfolding digit over
digit_lem x y c h k l = ground arith

over_bound : (x y c : ℕ) → over x y c ≤ 1
unfolding over
over_bound x y c = ground arith

digit_bound : (x y c : ℕ) → x < word → y < word → c ≤ 1 → digit x y c < word
unfolding digit
digit_bound x y c h k l = ground arith

carried_lem :
    (y c : ℕ) → y < word → c ≤ 1 → (carried y c ≡ digit 0 y c) × (carry_left y c ≡ over 0 y c)
unfolding carried carry_left digit over
carried_lem y c h k = (ground arith, ground arith)

-- One round of the loop, where the left side has a word.
add_loop-cons :
    (x : ℕ) (xs : List ℕ) (y : ℕ) (ys : List ℕ) (c : ℕ)
    → x < word
    → y < word
    → c ≤ 1
    → add_loop (x ∷ xs) (y ∷ ys) c ≡ digit x y c ∷ add_loop xs ys (over x y c)
unfolding add_loop digit over
add_loop-cons x xs y ys c h k l = ground arith

add_loop-nil :
    (y : ℕ) (ys : List ℕ) (c : ℕ)
    → y < word
    → c ≤ 1
    → add_loop [] (y ∷ ys) c ≡ digit 0 y c ∷ add_loop [] ys (over 0 y c)
unfolding add_loop
add_loop-nil y ys c h k = ground (arith, carried_lem y c h k)

-- Where the right side has at least as many words, the sum is exact.
add_loop_short :
    (xs ys : List ℕ) (c : ℕ)
    → length xs ≤ length ys
    → IsWords xs
    → IsWords ys
    → c ≤ 1
    → le_value (add_loop xs ys c) ≡ le_value xs + le_value ys + c
unfolding le_value
add_loop_short [] [] c l h k b = unfold add_loop in ground arith
add_loop_short (x ∷ xs) [] c l h k b = absurd (omega arith)
add_loop_short [] (y ∷ ys) c l h k b = rw (add_loop-nil y ys c k.0 b) (
    omega (
      arith,
      add_loop_short [] ys (over 0 y c) (omega arith) tt k.1 (over_bound 0 y c),
      digit_lem 0 y c (omega arith) k.0 b,
    ))
add_loop_short (x ∷ xs) (y ∷ ys) c l h k b = rw (add_loop-cons x xs y ys c h.0 k.0 b) (
    omega (
      arith,
      add_loop_short xs ys (over x y c) (omega arith) h.1 k.1 (over_bound x y c),
      digit_lem x y c h.0 k.0 b,
    ))

-- Where the left side has words `hi` beyond those of the right side, a carry out of `lo` is
-- counted after all of them.
add_loop_long :
    (lo hi ys : List ℕ) (c : ℕ)
    → length lo ≡ length ys
    → IsWords lo
    → IsWords ys
    → c ≤ 1
    → let carry = leb (weight lo) (le_value lo + le_value ys + c) in
      le_value (add_loop (lo ++ hi) ys c) + (if carry then weight lo else 0)
      ≡ le_value lo
        + le_value ys
        + c
        + weight lo * le_value hi
        + (if carry then weight lo * weight hi else 0)
unfolding le_value weight
add_loop_long [] hi [] c l h k b = unfold add_loop in ground (arith, le_value-append hi (c ∷ []))
add_loop_long (x ∷ xs) hi [] c l h k b = absurd (omega arith)
add_loop_long [] hi (y ∷ ys) c l h k b = absurd (omega arith)
add_loop_long (x ∷ xs) hi (y ∷ ys) c l h k b = rw (add_loop-cons x (xs ++ hi) y ys c h.0 k.0 b) (
    ground (
      arith,
      add_loop_long xs hi ys (over x y c) (omega arith) h.1 k.1 (over_bound x y c),
      digit_lem x y c h.0 k.0 b,
      digit_bound x y c h.0 k.0 b,
    ))

weight_grows : (lo hi : List ℕ) → 0 < length hi → weight lo < weight lo * weight hi
unfolding weight
weight_grows lo [] h = absurd (omega arith)
weight_grows lo (x ∷ hi) h = grind (arith, weight_pos lo, weight_pos hi)

-- operator+= adds the numbers where the right side has at least as many words.
pub value-add_assign :
    (x y : BigNum)
    → length x ≤ length y
    → IsWords x
    → IsWords y
    → value (add_assign x y) ≡ value x + value y
unfolding add_assign
value-add_assign x y l h k = rw value_of_reverse (
    omega (
      arith,
      add_loop_short (reverse x) (reverse y) 0
          (omega (arith, length-reverse x, length-reverse y, l)) (IsWords-reverse x h)
          (IsWords-reverse y k) (omega arith),
      le_value-reverse x,
      le_value-reverse y,
    ))

-- The left side is `hi ++ lo`, and `lo` has as many words as the right side.
module _ (hi lo y : BigNum) (l : length lo ≡ length y) (h : IsWords (hi ++ lo))
    (k : IsWords y) where
  reversed_sum :
      let carry = leb (weight lo) (value lo + value y) in
      value (add_assign (hi ++ lo) y) + (if carry then weight lo else 0)
      ≡ value lo + value y + weight lo * value hi + (if carry then weight lo * weight hi else 0)
  unfolding add_assign
  reversed_sum =
      rw (value_of_reverse, reverse-append hi lo)
        (ground (
          arith,
          add_loop_long (reverse lo) (reverse hi) (reverse y) 0
              (omega (arith, length-reverse lo, length-reverse y, l))
              (IsWords-reverse lo (All-append_right _ hi lo h)) (IsWords-reverse y k) (omega arith),
          weight-reverse lo,
          weight-reverse hi,
          le_value-reverse lo,
          le_value-reverse hi,
          le_value-reverse y,
        ))

  value-append : value (hi ++ lo) ≡ value lo + weight lo * value hi
  value-append =
      sym (le_value-reverse (hi ++ lo))
      ∙ (rw (reverse-append hi lo, le_value-append (reverse lo) (reverse hi), weight-reverse lo)
          (rw (le_value-reverse lo, le_value-reverse hi)))

  -- operator+= adds the numbers where the left side has more words and the sum of its low words
  -- with the right side fits in those.
  pub value-add_assign_fits :
      value lo + value y < weight lo → value (add_assign (hi ++ lo) y) ≡ value (hi ++ lo) + value y
  value-add_assign_fits f = ground (arith, reversed_sum, value-append)

  -- Where a carry leaves the low words and the left side has more words, operator+= gives a
  -- number larger than the sum, since the carry is put in front of all words.
  pub add_assign_misplaces_carry :
      weight lo ≤ value lo + value y
      → 0 < length hi
      → value (hi ++ lo) + value y < value (add_assign (hi ++ lo) y)
  add_assign_misplaces_carry f g = ground (arith, reversed_sum, value-append, weight_grows lo hi g)
