-- ===== src/BigNum/Decimal.antt =====
-- HttpBigNum(Dec, …), which reads a Content-Length.
use stochastic_scheduler_con.Prelude.{
  ℕ, zero, suc, ◌+◌, ◌-◌, ◌*◌, ◌≤◌, ◌<◌, ◌≡◌, refl, ap, ◌∙◌, some, [], ◌∷◌, arith, Bytes, All,
  from_chars,
}
use stochastic_scheduler_con.BigNum.{BigNum, word, add_assign, add_assign_word}
use stochastic_scheduler_con.BigNum.Print.{add_times, dec_loop, of_dec}

abbrev pub IsDecimal : ℕ → Type 0
IsDecimal c = (48 ≤ c) × (c < 58)

-- The number that decimal digits continue.
unfoldable pub decimal_value : ℕ → Bytes → ℕ
decimal_value acc [] = acc
decimal_value acc (c ∷ cs) = decimal_value (acc * 10 + (c - 48)) cs

decimal_value_le : (acc : ℕ) (s : Bytes) → acc ≤ decimal_value acc s
unfolding decimal_value
decimal_value_le acc [] = omega arith
decimal_value_le acc (c ∷ cs) = omega (arith, decimal_value_le (acc * 10 + (c - 48)) cs)

add_assign_single : (a b : ℕ) → a + b < word → add_assign (a ∷ []) (b ∷ []) ≡ (a + b) ∷ []
unfolding add_assign
add_assign_single a b h = ground arith

add_assign_word_single : (a d : ℕ) → a + d < word → add_assign_word (a ∷ []) d ≡ (a + d) ∷ []
unfolding add_assign_word
add_assign_word_single a d h = ground arith

add_times_single : (j a b : ℕ) → a + j * b < word → add_times j (a ∷ []) (b ∷ []) ≡ (a + j * b) ∷ []
unfolding add_times
add_times_single zero a b h = ap (λ (n : ℕ). n ∷ []) (omega arith)
add_times_single (suc j) a b h =
    ap (λ (x : BigNum). add_times j x (b ∷ [])) (add_assign_single a b (grind (arith, h)))
    ∙ add_times_single j (a + b) b (grind (arith, h))
    ∙ ap (λ (n : ℕ). n ∷ []) (grind arith)

from_chars-decimal : (c : ℕ) → IsDecimal c → from_chars word 10 (c ∷ []) ≡ some (c - 48)
unfolding from_chars
from_chars-decimal c h = ground arith

-- One round: the number times ten, and the digit.
times_ten :
    (acc d : ℕ)
    → acc * 10 + d < word
    → add_assign_word (add_times 9 (acc ∷ []) (acc ∷ [])) d ≡ (acc * 10 + d) ∷ []
times_ten acc d h =
    ap (λ x. add_assign_word x d) (add_times_single 9 acc acc (omega (arith, h)))
    ∙ add_assign_word_single (acc + 9 * acc) d (omega (arith, h))
    ∙ ap (λ (n : ℕ). n ∷ []) (omega arith)

dec_loop_lem :
    (s : Bytes) (acc : ℕ)
    → All IsDecimal s
    → decimal_value acc s < word
    → dec_loop s (acc ∷ []) ≡ some (decimal_value acc s ∷ [])
unfolding dec_loop decimal_value
dec_loop_lem [] acc h l = refl
dec_loop_lem (c ∷ cs) acc h l =
    let room : acc * 10 + (c - 48) < word =
      omega (arith, decimal_value_le (acc * 10 + (c - 48)) cs, l) in
    rw (from_chars-decimal c h.0, dec_loop)
      (ap (dec_loop cs) (times_ten acc (c - 48) room) ∙ dec_loop_lem cs (acc * 10 + (c - 48)) h.1 l)

-- Decimal digits below 2 ^ 64 are read as the one word that they stand for.
pub of_dec_lem :
    (s : Bytes)
    → All IsDecimal s
    → decimal_value 0 s < word
    → of_dec s ≡ some (decimal_value 0 s ∷ [])
unfolding of_dec
of_dec_lem s h l = dec_loop_lem s 0 h l
