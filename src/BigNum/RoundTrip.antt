-- ===== src/BigNum/RoundTrip.antt =====
-- A number that is printed and read back as hexadecimal text.
use stochastic_scheduler_con.Prelude.{
  ℕ, suc, ◌+◌, ◌-◌, ◌*◌, ◌/◌, ◌%◌, ◌^◌, ◌<◌, ◌≡◌, refl, sym, ap, ◌∙◌, Option, none, some, [], ◌∷◌,
  ◌++◌, append_assoc, arith, length, length-append, take, drop, Bytes, All, All-append, from_chars,
  hex, setw, hex_digits, IsHexDigit, hex-IsHexDigit, setw-hex, length-hex, length-hex_pos, scan-hex,
  hex_digits-IsHexDigit, length-hex_digits, scan-hex_digits, from_chars_lem,
}
use stochastic_scheduler_con.BigNum.{BigNum, word}
use stochastic_scheduler_con.BigNum.Value.{IsWords}
use stochastic_scheduler_con.BigNum.Print.{partition, hex_words, of_hex, print, print_rest, ◌>>=◌}

drop-append : (xs ys : Bytes) → drop (length xs) (xs ++ ys) ≡ ys
drop-append [] ys = refl
drop-append (x ∷ xs) ys = drop-append xs ys

take-append : (xs ys : Bytes) → take (length xs) (xs ++ ys) ≡ xs
take-append [] ys = refl
take-append (x ∷ xs) ys = ap (◌∷◌ x) (take-append xs ys)

from_chars-hex : (w : ℕ) → w < word → from_chars word 16 (hex w) ≡ some w
from_chars-hex w h =
    from_chars_lem word (hex w) (length-hex_pos w) (hex-IsHexDigit w) (rw (scan-hex w h) h)
    ∙ ap some (scan-hex w h)

from_chars-hex_digits : (w : ℕ) → w < word → from_chars word 16 (hex_digits 16 w) ≡ some w
from_chars-hex_digits w h =
    from_chars_lem word (hex_digits 16 w) (rw (length-hex_digits 16 w) (omega arith))
      (hex_digits-IsHexDigit 16 w) (rw (scan-hex_digits 16 w h) h)
    ∙ ap some (scan-hex_digits 16 w h)

length-print_rest : (ws : BigNum) → length (print_rest ws) ≡ length ws * 16
unfolding print_rest
length-print_rest [] = omega arith
length-print_rest (w ∷ ws) = omega (
  arith,
  length-append (setw 16 (hex w)) (print_rest ws),
  ap length (setw-hex w) ∙ length-hex_digits 16 w,
  length-print_rest ws,
)

print_rest-cons : (w : ℕ) (ws : BigNum) → print_rest (w ∷ ws) ≡ hex_digits 16 w ++ print_rest ws
unfolding print_rest
print_rest-cons w ws = ap (λ (s : Bytes). s ++ print_rest ws) (setw-hex w)

take-digits : (w : ℕ) (rest : Bytes) → take 16 (hex_digits 16 w ++ rest) ≡ hex_digits 16 w
take-digits w rest =
    ap (λ (k : ℕ). take k (hex_digits 16 w ++ rest)) (sym (length-hex_digits 16 w))
    ∙ take-append (hex_digits 16 w) rest

-- The partition that holds the first of the padded words.
partition_lem :
    (pre : Bytes) (w : ℕ) (ws : BigNum)
    → partition (pre ++ print_rest (w ∷ ws)) (length ws) ≡ hex_digits 16 w
unfolding partition
partition_lem pre w ws =
    let s = pre ++ print_rest (w ∷ ws) in
    let start : length s - (length ws + 1) * 16 ≡ length pre =
      omega (arith, length-append pre (print_rest (w ∷ ws)), length-print_rest (w ∷ ws)) in
    ap (λ (k : ℕ). take 16 (drop k s)) start
    ∙ ap (take 16) (drop-append pre (print_rest (w ∷ ws)) ∙ print_rest-cons w ws)
    ∙ take-digits w (print_rest ws)

hex_words_step :
    (s : Bytes) (k : ℕ)
    → hex_words s (suc k)
      ≡ (from_chars word 16 (partition s k) >>= λ num. hex_words s k >>= λ rest. some (num ∷ rest))
unfolding hex_words
hex_words_step s k = refl

hex_words-suc :
    (s : Bytes) (k num : ℕ) (rest : BigNum)
    → from_chars word 16 (partition s k) ≡ some num
    → hex_words s k ≡ some rest
    → hex_words s (suc k) ≡ some (num ∷ rest)
hex_words-suc s k num rest e f =
    hex_words_step s k
    ∙ ap (λ (m : Option ℕ). m >>= λ num. hex_words s k >>= λ rest. some (num ∷ rest)) e
    ∙ ap (λ (m : Option BigNum). m >>= λ rest. some (num ∷ rest)) f

shift :
    (pre : Bytes) (w : ℕ) (ws : BigNum)
    → pre ++ print_rest (w ∷ ws) ≡ (pre ++ hex_digits 16 w) ++ print_rest ws
shift pre w ws = rw (print_rest-cons w ws, append_assoc)

hex_words-print_rest :
    (pre : Bytes) (ws : BigNum)
    → IsWords ws
    → hex_words (pre ++ print_rest ws) (length ws) ≡ some ws
hex_words-print_rest pre [] h = unfold hex_words in refl
hex_words-print_rest pre (w ∷ ws) h =
    hex_words-suc (pre ++ print_rest (w ∷ ws)) (length ws) w ws
      (ap (from_chars word 16) (partition_lem pre w ws) ∙ from_chars-hex_digits w h.0)
      (ap (λ s. hex_words s (length ws)) (shift pre w ws)
        ∙ hex_words-print_rest (pre ++ hex_digits 16 w) ws h.1)

print_lem : (w : ℕ) (ws : BigNum) → print (w ∷ ws) ≡ hex w ++ print_rest ws
unfolding print
print_lem w ws = refl

print_rest-IsHexDigit : (ws : BigNum) → All IsHexDigit (print_rest ws)
print_rest-IsHexDigit [] = unfold print_rest in tt
print_rest-IsHexDigit (w ∷ ws) = rw (print_rest-cons w ws) (
    All-append IsHexDigit (hex_digits 16 w) (print_rest ws) (hex_digits-IsHexDigit 16 w)
      (print_rest-IsHexDigit ws))

-- The text of a number is one or more hexadecimal digits.
pub print-IsHexDigit : (w : ℕ) (ws : BigNum) → All IsHexDigit (print (w ∷ ws))
print-IsHexDigit w ws =
    rw (print_lem w ws)
      (All-append IsHexDigit (hex w) (print_rest ws) (hex-IsHexDigit w) (print_rest-IsHexDigit ws))

pub length-print_pos : (w : ℕ) (ws : BigNum) → 0 < length (print (w ∷ ws))
length-print_pos w ws =
    rw (print_lem w ws) (omega (arith, length-append (hex w) (print_rest ws), length-hex_pos w))

length-print : (w : ℕ) (ws : BigNum) → w < 16 ^ 15 → length (print (w ∷ ws)) / 16 ≡ length ws
length-print w ws l = omega (
  arith,
  ap length (print_lem w ws) ∙ length-append (hex w) (print_rest ws),
  length-print_rest ws,
  length-hex w l,
  length-hex_pos w,
)

first_part :
    (w : ℕ) (ws : BigNum) → take (length (print (w ∷ ws)) - length ws * 16) (print (w ∷ ws)) ≡ hex w
first_part w ws =
    let start : length (print (w ∷ ws)) - length ws * 16 ≡ length (hex w) = omega (
      arith,
      ap length (print_lem w ws) ∙ length-append (hex w) (print_rest ws),
      length-print_rest ws,
    ) in
    ap (λ (k : ℕ). take k (print (w ∷ ws))) start
    ∙ ap (take (length (hex w))) (print_lem w ws)
    ∙ take-append (hex w) (print_rest ws)

abbrev of_parts : Bytes → ℕ → Option BigNum
of_parts s k = from_chars word 16 (take (length s - k * 16) s) >>= λ num.
    hex_words s k >>= λ rest. some (num ∷ rest)

of_hex_lem : (s : Bytes) → of_hex s ≡ of_parts s (length s / 16)
unfolding of_hex
of_hex_lem s = refl

of_hex_parts :
    (s : Bytes) (k num : ℕ) (rest : BigNum)
    → length s / 16 ≡ k
    → from_chars word 16 (take (length s - k * 16) s) ≡ some num
    → hex_words s k ≡ some rest
    → of_hex s ≡ some (num ∷ rest)
of_hex_parts s k num rest l e f =
    of_hex_lem s
    ∙ ap (λ (k : ℕ). of_parts s k) l
    ∙ ap (λ (m : Option ℕ). m >>= λ num. hex_words s k >>= λ rest. some (num ∷ rest)) e
    ∙ ap (λ (m : Option BigNum). m >>= λ rest. some (num ∷ rest)) f

-- A number whose first word is below 2 ^ 60 is read back from its text.
pub of_hex-print :
    (w : ℕ) (ws : BigNum) → w < 16 ^ 15 → IsWords ws → of_hex (print (w ∷ ws)) ≡ some (w ∷ ws)
of_hex-print w ws l h =
    of_hex_parts (print (w ∷ ws)) (length ws) w ws (length-print w ws l)
      (ap (from_chars word 16) (first_part w ws) ∙ from_chars-hex w (omega (arith, l)))
      (ap (λ s. hex_words s (length ws)) (print_lem w ws) ∙ hex_words-print_rest (hex w) ws h)

-- Text of a length that is a multiple of sixteen, the empty text included, is refused: the
-- partition that is not of full width is then empty.
pub of_hex-multiple : (s : Bytes) → length s % 16 ≡ 0 → of_hex s ≡ none
unfolding of_hex from_chars
of_hex-multiple s h = let e : length s - length s / 16 * 16 ≡ 0 = omega (arith, h) in rw e
