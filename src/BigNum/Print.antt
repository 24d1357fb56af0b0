-- ===== src/BigNum/Print.antt =====
-- The constructors of HttpBigNum from hexadecimal and decimal text, and operator<<.
use stochastic_scheduler_con.Prelude.{
  ℕ, zero, suc, ◌+◌, ◌-◌, ◌*◌, ◌/◌, Option, none, some, [], ◌∷◌, ◌++◌, length, take, drop, Bytes,
  from_chars, hex, setw,
}
use stochastic_scheduler_con.BigNum.{BigNum, word, default, add_assign, add_assign_word}

infixl 5 ◌>>=◌
abbrev pub ◌>>=◌ : {A B : Type 0} → Option A → (A → Option B) → Option B
none >>= f = none
some a >>= f = f a

-- hex_str_partitions[offset] of full width: sixteen characters, counted from the end.
unfoldable pub partition : Bytes → ℕ → Bytes
partition s offset = take 16 (drop (length s - (offset + 1) * 16) s)

-- The loop over the partitions of full width, from the last one made to the first.
unfoldable pub hex_words : Bytes → ℕ → Option BigNum
hex_words s zero = some []
hex_words s (suc offset) = do
  num ← from_chars word 16 (partition s offset)
  rest ← hex_words s offset
  some (num ∷ rest)

-- HttpBigNum(Hex, hex_str); `none` is the std::domain_error.
unfoldable pub of_hex : Bytes → Option BigNum
unfolding hex_words
of_hex s =
    let offset = length s / 16 in
    do
      num ← from_chars word 16 (take (length s - offset * 16) s)
      rest ← hex_words s offset
      some (num ∷ rest)

-- The loop that adds `tmp` j times.
unfoldable pub add_times : ℕ → BigNum → BigNum → BigNum
add_times zero x tmp = x
add_times (suc j) x tmp = add_times j (add_assign x tmp) tmp

unfoldable pub dec_loop : Bytes → BigNum → Option BigNum
dec_loop [] x = some x
dec_loop (c ∷ cs) x = elim (from_chars word 10 (c ∷ [])) [
  | none ↦ none
  | some val ↦ dec_loop cs (add_assign_word (add_times 9 x x) val)
]

-- HttpBigNum(Dec, dec_str); `none` is the thrown string.
unfoldable pub of_dec : Bytes → Option BigNum
unfolding dec_loop
of_dec s = dec_loop s default

unfoldable pub print_rest : BigNum → Bytes
print_rest [] = []
print_rest (w ∷ ws) = setw 16 (hex w) ++ print_rest ws

-- operator<<; the source reads `*begin()` first, so the vector is not empty.
unfoldable pub print : BigNum → Bytes
unfolding print_rest hex setw
print [] = []
print (w ∷ ws) = hex w ++ print_rest ws
