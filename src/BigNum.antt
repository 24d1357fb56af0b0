-- ===== src/BigNum.antt =====
-- HttpBigNum of application-servers/http/http-requests: numbers of any size as vectors of 64-bit
-- words, the most significant word first. The list is the vector. A loop that runs from the
-- back of the vector (`rbegin`, `end() - offset - 1`) is a recursion over the reversed list, on
-- which `insert(begin(), w)` appends `w`. Words are ℕ below `word`, and what a `std::size_t`
-- expression computes is written with its wrap-around only where it can wrap.
mod Examples
pub mod Value
pub mod Order
pub mod Increment
pub mod Sum
pub mod Canonical
pub mod Difference
pub mod Print
pub mod RoundTrip
pub mod Decimal
use stochastic_scheduler_con.Prelude.{
  ℕ, zero, suc, ◌+◌, ◌-◌, ◌*◌, ◌^◌, ◌≡◌, Bool, true, false, not, ◌&&◌, ◌||◌, Option, none, some,
  List, [], ◌∷◌, ◌++◌, reverse, ltb, leb, ◌==◌, if◌then◌else◌, length, is_empty, Bytes,
}

abbrev pub BigNum : Type 0
BigNum = List ℕ

-- 2 ^ 64
abbrev pub word : ℕ
word = 18446744073709551616

-- std::numeric_limits<std::size_t>::max()
abbrev pub max : ℕ
max = 18446744073709551615

-- HttpBigNum()
abbrev pub default : BigNum
default = 0 ∷ []

words_eq : BigNum → BigNum → Bool
words_eq (x ∷ xs) (y ∷ ys) = if not (x == y) then false else words_eq xs ys
words_eq _ _ = true

-- operator==
unfoldable pub eq : BigNum → BigNum → Bool
unfolding words_eq
eq x y = if not (length x == length y) then false else words_eq x y

words_ne : BigNum → BigNum → Bool
words_ne (x ∷ xs) (y ∷ ys) = if not (x == y) then true else words_ne xs ys
words_ne _ _ = false

-- operator!=
unfoldable pub ne : BigNum → BigNum → Bool
unfolding words_ne
ne x y = if not (length x == length y) then true else words_ne x y

-- The loop of operator< and operator<=, over vectors of one length; `same` is its result if all
-- words are equal.
words_lt : Bool → BigNum → BigNum → Bool
words_lt same (x ∷ xs) (y ∷ ys) =
    let rest = words_lt same xs ys in if ltb y x then false else if ltb x y then true else rest
words_lt same _ _ = same

-- The loop of operator> and operator>=.
words_gt : Bool → BigNum → BigNum → Bool
words_gt same (x ∷ xs) (y ∷ ys) =
    let rest = words_gt same xs ys in if ltb x y then false else if ltb y x then true else rest
words_gt same _ _ = same

-- operator<
unfoldable pub lt : BigNum → BigNum → Bool
unfolding words_lt
lt x y =
    if ltb (length x) (length y)
    then true
    else if ltb (length y) (length x)
    then false
    else words_lt false x y

-- operator<=
unfoldable pub le : BigNum → BigNum → Bool
unfolding words_lt
le x y =
    if ltb (length x) (length y)
    then true
    else if ltb (length y) (length x)
    then false
    else words_lt true x y

-- operator>
unfoldable pub gt : BigNum → BigNum → Bool
unfolding words_gt
gt x y =
    if ltb (length x) (length y)
    then false
    else if ltb (length y) (length x)
    then true
    else words_gt false x y

-- operator>=
unfoldable pub ge : BigNum → BigNum → Bool
unfolding words_gt
ge x y =
    if ltb (length x) (length y)
    then false
    else if ltb (length y) (length x)
    then true
    else words_gt true x y

-- The loop of operator++ from the back, while the carry is 1; at `rend()` it is inserted.
increment_loop : List ℕ → List ℕ
increment_loop [] = 1 ∷ []
increment_loop (w ∷ ws) = if w == max then 0 ∷ increment_loop ws else (w + 1) ∷ ws

-- operator++(); operator++(int) returns the same value, the incremented one. The source reads
-- `*rbegin()` first, so the vector is not empty.
unfoldable pub increment : BigNum → BigNum
unfolding increment_loop
increment x = reverse (increment_loop (reverse x))

-- The loop of operator-- from the back, with whether it reached `rend()`.
decrement_loop : List ℕ → List ℕ
decrement_loop [] = []
decrement_loop (w ∷ ws) = if w == 0 then max ∷ decrement_loop ws else (w - 1) ∷ ws

reached_rend : List ℕ → Bool
reached_rend [] = true
reached_rend (w ∷ ws) = if w == 0 then reached_rend ws else is_empty ws

-- One leading zero word is removed.
erase_front : List ℕ → List ℕ
erase_front [] = []
erase_front (w ∷ ws) = if w == 0 then ws else w ∷ ws

-- operator--(), on a vector that is not empty.
unfoldable pub decrement : BigNum → BigNum
unfolding decrement_loop reached_rend erase_front
decrement x =
    let y = reverse (decrement_loop (reverse x)) in
    if reached_rend (reverse x) then erase_front y else y

-- The word of the right side with the carry, and the carry that is left.
carried : ℕ → ℕ → ℕ
carried y carry = if ltb 0 carry && ltb (max - y) carry then y - (max - carry + 1) else y + carry

carry_left : ℕ → ℕ → ℕ
carry_left y carry = if ltb 0 carry && ltb (max - y) carry then 1 else 0

-- The loop of operator+= from the back. What is left of the left side when the right side ends
-- stays as it is, and the last carry is inserted at the front of the whole vector.
add_loop : List ℕ → List ℕ → ℕ → List ℕ
unfolding carried carry_left
add_loop xs [] carry = if ltb 0 carry then xs ++ carry ∷ [] else xs
add_loop [] (y ∷ ys) carry = carried y carry ∷ add_loop [] ys (carry_left y carry)
add_loop (x ∷ xs) (y ∷ ys) carry =
    let tmp = carried y carry in
    let over = ltb 0 tmp && ltb (max - x) tmp in
    (if over then x - (max - tmp + 1) else x + tmp)
    ∷ add_loop xs ys (if over then 1 else carry_left y carry)

-- operator+=(const HttpBigNum&)
unfoldable pub add_assign : BigNum → BigNum → BigNum
unfolding add_loop
add_assign x y = reverse (add_loop (reverse x) (reverse y) 0)

-- operator+=(const std::size_t&): the same loop over a vector of the one word.
unfoldable pub add_assign_word : BigNum → ℕ → BigNum
unfolding add_assign
add_assign_word x w = add_assign x (w ∷ [])

-- The loop that subtracts the last carry.
borrow_loop : List ℕ → ℕ → List ℕ
borrow_loop [] carry = []
borrow_loop (x ∷ xs) carry =
    if ltb 0 carry
    then (if x == 0 then max ∷ borrow_loop xs carry else (x - carry) ∷ xs)
    else x ∷ xs

-- The main loop of operator-=, from the back. The left side is the larger number; where it is
-- the shorter list the source would read before the front.
sub_loop : List ℕ → List ℕ → ℕ → List ℕ
unfolding borrow_loop
sub_loop xs [] carry = borrow_loop xs carry
sub_loop [] (y ∷ ys) carry = []
sub_loop (x ∷ xs) (y ∷ ys) zero =
    (if ltb x y then max - (y - x) else x - y) ∷ sub_loop xs ys (if ltb x y then 1 else 0)
sub_loop (x ∷ xs) (y ∷ ys) (suc carry) =
    (if leb x y then max - (y - x) else x - y - suc carry)
    ∷ sub_loop xs ys (if leb x y then suc carry else 0)

-- The leading zero words are erased. (On a vector of zeros the source reads past the end.)
erase_zeros : List ℕ → List ℕ
erase_zeros [] = []
erase_zeros (w ∷ ws) = let rest = erase_zeros ws in if w == 0 then rest else w ∷ ws

-- operator-=(const HttpBigNum&)
unfoldable pub sub_assign : BigNum → BigNum → BigNum
unfolding sub_loop erase_zeros
sub_assign x y =
    if le x y then 0 ∷ [] else erase_zeros (reverse (sub_loop (reverse x) (reverse y) 0))

-- operator-=(const std::size_t&)
unfoldable pub sub_assign_word : BigNum → ℕ → BigNum
unfolding sub_assign
sub_assign_word x w = sub_assign x (w ∷ [])
