-- ===== src/BigNum/Difference.antt =====
-- operator-= : saturation at 0, the words that need no borrow, and the one that a borrow loses.
use stochastic_scheduler_con.Prelude.{
  ℕ, zero, suc, ◌+◌, ◌*◌, ◌≤◌, ◌<◌, ◌≡◌, refl, false, List, [], ◌∷◌, reverse, arith, ltb, leb,
  if◌then◌else◌,
}
use stochastic_scheduler_con.BigNum.{
  BigNum, word, le, sub_assign, sub_loop, borrow_loop, erase_zeros,
}
use stochastic_scheduler_con.BigNum.Order.{lt-value}
use stochastic_scheduler_con.BigNum.Value.{
  value, le_value, IsWords, IsCanonical, IsWords-reverse, le_value-reverse, value_of_reverse,
}

-- What the loop subtracts too much: one at each word where a borrow begins.
lost : List ℕ → List ℕ → ℕ → ℕ
lost [] ys c = 0
lost (x ∷ xs) [] c = 0
lost (x ∷ xs) (y ∷ ys) zero =
    (if ltb x y then 1 else 0) + word * lost xs ys (if ltb x y then 1 else 0)
lost (x ∷ xs) (y ∷ ys) (suc c) = word * lost xs ys (if leb x y then suc c else 0)

borrow_loop_value :
    (xs : List ℕ) (c : ℕ) → c ≤ 1 → c ≤ le_value xs → le_value (borrow_loop xs c) + c ≡ le_value xs
unfolding borrow_loop le_value
borrow_loop_value [] c b p = omega arith
borrow_loop_value (x ∷ xs) c b p = ground (arith, borrow_loop_value xs c)

value-erase_zeros : (xs : List ℕ) → value (erase_zeros xs) ≡ value xs
unfolding erase_zeros value
value-erase_zeros [] = refl
value-erase_zeros (x ∷ xs) = ground (arith, value-erase_zeros xs)

sub_loop_value :
    (xs ys : List ℕ) (c : ℕ)
    → IsWords xs
    → IsWords ys
    → c ≤ 1
    → le_value ys + c ≤ le_value xs
    → le_value (sub_loop xs ys c) + le_value ys + c + lost xs ys c ≡ le_value xs
unfolding sub_loop lost le_value
sub_loop_value [] [] c h k b p = unfold borrow_loop in omega arith
sub_loop_value (x ∷ xs) [] c h k b p = omega (arith, borrow_loop_value (x ∷ xs) c b (omega arith))
sub_loop_value [] (y ∷ ys) c h k b p = omega arith
sub_loop_value (x ∷ xs) (y ∷ ys) zero h k b p =
    ground (arith, sub_loop_value xs ys 0 h.1 k.1, sub_loop_value xs ys 1 h.1 k.1)
sub_loop_value (x ∷ xs) (y ∷ ys) (suc c) h k b p =
    ground (arith, sub_loop_value xs ys 0 h.1 k.1, sub_loop_value xs ys (suc c) h.1 k.1)

-- operator-= gives 0 where the right side is at least the left.
pub sub_assign_saturates :
    (x y : BigNum)
    → IsWords x
    → IsWords y
    → IsCanonical x
    → IsCanonical y
    → value x ≤ value y
    → sub_assign x y ≡ 0 ∷ []
unfolding sub_assign
sub_assign_saturates x y h k c d p = rw ((lt-value x y h k c d).1.1 p)

-- Where the left side is larger, the result and what the borrows lose make up the difference.
module _ (x y : BigNum) (h : IsWords x) (k : IsWords y) (c : IsCanonical x) (d : IsCanonical y)
    (p : value y < value x) where
  not_le : le x y ≡ false
  not_le = ground (arith, lt-value x y h k c d)

  value-sub_assign : value (sub_assign x y) + value y + lost (reverse x) (reverse y) 0 ≡ value x
  unfolding sub_assign
  value-sub_assign =
      rw (not_le, value-erase_zeros, value_of_reverse)
        (omega (
          arith,
          sub_loop_value (reverse x) (reverse y) 0 (IsWords-reverse x h) (IsWords-reverse y k)
              (omega arith) (omega (arith, le_value-reverse x, le_value-reverse y, p)),
          le_value-reverse x,
          le_value-reverse y,
        ))

-- Counted from the back, no word of the left side is below its partner on the right.
abbrev pub Dominates : List ℕ → List ℕ → Type 0
Dominates xs [] = Unit
Dominates [] (y ∷ ys) = Unit
Dominates (x ∷ xs) (y ∷ ys) = (y ≤ x) × Dominates xs ys

lost-Dominates : (xs ys : List ℕ) → Dominates xs ys → lost xs ys 0 ≡ 0
unfolding lost
lost-Dominates [] [] h = refl
lost-Dominates [] (y ∷ ys) h = refl
lost-Dominates (x ∷ xs) [] h = refl
lost-Dominates (x ∷ xs) (y ∷ ys) h = ground (arith, lost-Dominates xs ys h.1)

-- operator-= subtracts the right side from a larger left side, where no word needs a borrow.
pub sub_assign_exact :
    (x y : BigNum)
    → IsWords x
    → IsWords y
    → IsCanonical x
    → IsCanonical y
    → value y < value x
    → Dominates (reverse x) (reverse y)
    → value (sub_assign x y) + value y ≡ value x
sub_assign_exact x y h k c d p e =
    omega (arith, value-sub_assign x y h k c d p, lost-Dominates (reverse x) (reverse y) e)
