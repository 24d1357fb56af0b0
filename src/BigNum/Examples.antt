-- ===== src/BigNum/Examples.antt =====
-- Concrete numbers, on which the results about HttpBigNum apply.
use stochastic_scheduler_con.Prelude.{
  ℕ, ◌+◌, ◌<◌, ◌≤◌, ◌≡◌, refl, some, none, List, [], ◌∷◌, arith, codes,
}
use stochastic_scheduler_con.BigNum.{add_assign}
use stochastic_scheduler_con.BigNum.Value.{value, weight}
use stochastic_scheduler_con.BigNum.Sum.{add_assign_misplaces_carry}
use stochastic_scheduler_con.BigNum.Print.{print, of_hex}
use stochastic_scheduler_con.BigNum.RoundTrip.{of_hex-print, of_hex-multiple}
use stochastic_scheduler_con.BigNum.Decimal.{decimal_value}

abbrev two_words : List ℕ
two_words = 1 ∷ 5 ∷ []

abbrev larger : List ℕ
larger = 2 ∷ 7 ∷ []

positive : 0 < value (1 ∷ 0 ∷ [])
unfolding value weight
positive = omega arith

fits : value (5 ∷ []) + value (7 ∷ []) < weight (5 ∷ [])
unfolding value weight
fits = omega arith

overflows : weight (18446744073709551615 ∷ []) ≤ value (18446744073709551615 ∷ []) + value (1 ∷ [])
unfolding value weight
overflows = omega arith

add_assign_misplaces_carry_example :
    value (1 ∷ 18446744073709551615 ∷ []) + value (1 ∷ [])
    < value (add_assign (1 ∷ 18446744073709551615 ∷ []) (1 ∷ []))
add_assign_misplaces_carry_example =
    add_assign_misplaces_carry (1 ∷ []) (18446744073709551615 ∷ []) (1 ∷ []) refl (omega arith)
      (omega arith) overflows (omega arith)

smaller : value two_words < value larger
unfolding value weight
smaller = omega arith

smaller_le : value two_words ≤ value larger
smaller_le = omega (arith, smaller)

of_hex-print_example : of_hex (print two_words) ≡ some two_words
of_hex-print_example = of_hex-print 1 (5 ∷ []) (omega arith) (omega arith)

of_hex-multiple_example : of_hex (codes "00000000000000ff") ≡ none
of_hex-multiple_example = of_hex-multiple (codes "00000000000000ff") refl

small : decimal_value 0 (codes "1234") < 18446744073709551616
unfolding decimal_value
small = omega arith
