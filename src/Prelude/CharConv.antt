-- ===== src/Prelude/CharConv.antt =====
-- The numeric conversions of the standard library that the program calls: std::from_chars of an
-- unsigned number, and the hexadecimal output of an ostream with std::setw and std::setfill('0').
use native.Mathlib.Nat.{pow-suc}
use Prim.Native.Nat.{ℕ, zero, suc, ◌+◌, ◌-◌, ◌*◌, ◌/◌, ◌%◌, ◌^◌, ◌≤◌, ◌<◌}
use mathlib.Core.Bool.{◌&&◌}
use mathlib.Core.List.{[], ◌∷◌, ◌++◌}
use mathlib.Core.Option.{Option, none, some}
use mathlib.Core.Logic.{inl, inr}
use mathlib.Core.Path.{◌≡◌, refl, sym, ap, ◌∙◌, subst}
use native.Mathlib.Omega.{arith}
use stochastic_scheduler_con.Prelude.Tests.{
  ◌==◌, leb, ltb, if◌then◌else◌, lt→ltb, Bool-cases, ==_iff,
}
use stochastic_scheduler_con.Prelude.Lists.{length, length-append, All, All-append}
use stochastic_scheduler_con.Prelude.Text.{Bytes}

-- The value of a digit in bases up to 36.
unfoldable pub digit_value : ℕ → ℕ → Option ℕ
digit_value base c =
    if leb 48 c && ltb c 58 && ltb (c - 48) base
    then some (c - 48)
    else if leb 97 c && ltb c 123 && ltb (c - 87) base
    then some (c - 87)
    else if leb 65 c && ltb c 91 && ltb (c - 55) base
    then some (c - 55)
    else none

-- The number that the longest prefix of digits continues.
unfoldable pub scan : ℕ → ℕ → Bytes → ℕ
scan base acc [] = acc
scan base acc (c ∷ cs) = elim (digit_value base c) [
  | none ↦ acc
  | some d ↦ scan base (acc * base + d) cs
]

-- std::from_chars into an unsigned type with `limit` values; `none` is an error code: no digit,
-- or a number out of range.
unfoldable pub from_chars : ℕ → ℕ → Bytes → Option ℕ
unfolding digit_value scan
from_chars limit base [] = none
from_chars limit base (c ∷ cs) = elim (digit_value base c) [
  | none ↦ none
  | some d ↦ if ltb (scan base d cs) limit then some (scan base d cs) else none
]

unfoldable pub hex_char : ℕ → ℕ
hex_char d = if ltb d 10 then 48 + d else 87 + d

-- The last k hexadecimal digits of a number, the most significant first.
unfoldable pub hex_digits : ℕ → ℕ → Bytes
unfolding hex_char
hex_digits zero n = []
hex_digits (suc k) n = hex_digits k (n / 16) ++ hex_char (n % 16) ∷ []

unfoldable pub strip : Bytes → Bytes
strip [] = []
strip (c ∷ []) = c ∷ []
strip (c ∷ d ∷ cs) = let rest = strip (d ∷ cs) in if c == 48 then rest else c ∷ d ∷ cs

-- os << std::hex << n, for a number of at most 64 bits.
unfoldable pub hex : ℕ → Bytes
unfolding hex_digits strip
hex n = strip (hex_digits 16 n)

unfoldable pub zeros : ℕ → Bytes
zeros zero = []
zeros (suc k) = 48 ∷ zeros k

-- os << std::setfill('0') << std::setw(width) << text
unfoldable pub setw : ℕ → Bytes → Bytes
unfolding zeros
setw width text = zeros (width - length text) ++ text

abbrev pub IsHexDigit : ℕ → Type 0
IsHexDigit c = (d : ℕ) × (digit_value 16 c ≡ some d)

pub digit_value-hex_char : (d : ℕ) → d < 16 → digit_value 16 (hex_char d) ≡ some d
unfolding digit_value hex_char
digit_value-hex_char d h = ground arith

pub scan-append :
    (acc : ℕ) (xs : Bytes) (c d : ℕ)
    → All IsHexDigit xs
    → digit_value 16 c ≡ some d
    → scan 16 acc (xs ++ c ∷ []) ≡ scan 16 acc xs * 16 + d
unfolding scan
scan-append acc [] c d h e = rw (e, scan)
scan-append acc (x ∷ xs) c d h e = rw (h.0.1, scan) (scan-append (acc * 16 + h.0.0) xs c d h.1 e)

pub length-hex_digits : (k n : ℕ) → length (hex_digits k n) ≡ k
unfolding hex_digits
length-hex_digits zero n = refl
length-hex_digits (suc k) n = omega (
  arith,
  length-append (hex_digits k (n / 16)) (hex_char (n % 16) ∷ []),
  length-hex_digits k (n / 16),
)

pub hex_digits-IsHexDigit : (k n : ℕ) → All IsHexDigit (hex_digits k n)
unfolding hex_digits
hex_digits-IsHexDigit zero n = tt
hex_digits-IsHexDigit (suc k) n =
    All-append IsHexDigit (hex_digits k (n / 16)) (hex_char (n % 16) ∷ [])
      (hex_digits-IsHexDigit k (n / 16)) ((n % 16, digit_value-hex_char (n % 16) (omega arith)), tt)

pub scan-hex_digits : (k n : ℕ) → n < 16 ^ k → scan 16 0 (hex_digits k n) ≡ n
unfolding hex_digits
scan-hex_digits zero n h = unfold scan in omega (arith, h)
scan-hex_digits (suc k) n h =
    scan-append 0 (hex_digits k (n / 16)) (hex_char (n % 16)) (n % 16)
      (hex_digits-IsHexDigit k (n / 16)) (digit_value-hex_char (n % 16) (omega arith))
    ∙ omega (arith, scan-hex_digits k (n / 16) (omega (arith, pow-suc 16 k, h)))

pub hex_digits-zero : (k n : ℕ) → n < 16 ^ k → hex_digits (suc k) n ≡ 48 ∷ hex_digits k n
unfolding hex_digits hex_char
hex_digits-zero zero n h = ground arith
hex_digits-zero (suc k) n h =
    ap (λ (xs : Bytes). xs ++ hex_char (n % 16) ∷ [])
      (hex_digits-zero k (n / 16) (omega (arith, pow-suc 16 k, h)))

scan-zero : (xs : Bytes) → scan 16 0 (48 ∷ xs) ≡ scan 16 0 xs
unfolding scan digit_value
scan-zero xs = refl

pub scan-strip : (xs : Bytes) → scan 16 0 (strip xs) ≡ scan 16 0 xs
unfolding strip
scan-strip [] = refl
scan-strip (c ∷ []) = refl
scan-strip (c ∷ d ∷ cs) = elim (Bool-cases (c == 48)) [
  | inl e ↦ rw e (
      scan-strip (d ∷ cs)
      ∙ sym (ap (λ t. scan 16 0 (t ∷ d ∷ cs)) ((==_iff c 48).0 e) ∙ scan-zero (d ∷ cs)))
  | inr e ↦ rw e
]

pub strip-IsHexDigit : (xs : Bytes) → All IsHexDigit xs → All IsHexDigit (strip xs)
unfolding strip
strip-IsHexDigit [] h = tt
strip-IsHexDigit (c ∷ []) h = h
strip-IsHexDigit (c ∷ d ∷ cs) h = elim (Bool-cases (c == 48)) [
  | inl e ↦ rw e (strip-IsHexDigit (d ∷ cs) h.1)
  | inr e ↦ rw e h
]

pub length-strip_le : (xs : Bytes) → length (strip xs) ≤ length xs
unfolding strip
length-strip_le [] = omega arith
length-strip_le (c ∷ []) = omega arith
length-strip_le (c ∷ d ∷ cs) = ground (arith, length-strip_le (d ∷ cs))

pub length-strip_pos : (c : ℕ) (xs : Bytes) → 0 < length (strip (c ∷ xs))
unfolding strip
length-strip_pos c [] = omega arith
length-strip_pos c (d ∷ cs) = ground (arith, length-strip_pos d cs)

setw-suc : (n : ℕ) (xs : Bytes) → length xs ≤ n → setw (suc n) xs ≡ 48 ∷ setw n xs
unfolding setw zeros
setw-suc n xs h = let e : suc n - length xs ≡ suc (n - length xs) = omega (arith, h) in rw e

setw_full : (xs : Bytes) → setw (length xs) xs ≡ xs
unfolding setw zeros
setw_full xs = let e : length xs - length xs ≡ 0 = omega arith in rw e

-- Padding a stripped number with zeros gives its digits back.
pub setw-strip : (xs : Bytes) → setw (length xs) (strip xs) ≡ xs
unfolding strip
setw-strip [] = setw_full []
setw-strip (c ∷ []) = setw_full (c ∷ [])
setw-strip (c ∷ d ∷ cs) = elim (Bool-cases (c == 48)) [
  | inl e ↦ rw e (
      setw-suc (suc (length cs)) (strip (d ∷ cs)) (length-strip_le (d ∷ cs))
      ∙ ap (◌∷◌ 48) (setw-strip (d ∷ cs))
      ∙ ap (λ (t : ℕ). t ∷ d ∷ cs) (sym ((==_iff c 48).0 e)))
  | inr e ↦ rw e (setw_full (c ∷ d ∷ cs))
]

length-strip_zero : (xs : Bytes) → length xs ≡ 15 → length (strip (48 ∷ xs)) ≤ 15
unfolding strip
length-strip_zero [] h = omega arith
length-strip_zero (x ∷ xs) h = omega (arith, length-strip_le (x ∷ xs), h)

scan_digit :
    (c : ℕ) (cs : Bytes) (d : ℕ) → digit_value 16 c ≡ some d → scan 16 0 (c ∷ cs) ≡ scan 16 d cs
unfolding scan
scan_digit c cs d e = rw (e, scan) (ap (λ (n : ℕ). scan 16 n cs) (omega arith))

from_digit :
    (limit c : ℕ) (cs : Bytes) (d : ℕ)
    → digit_value 16 c ≡ some d
    → scan 16 0 (c ∷ cs) < limit
    → from_chars limit 16 (c ∷ cs) ≡ some (scan 16 0 (c ∷ cs))
unfolding from_chars
from_digit limit c cs d e l =
    rw (scan_digit c cs d e, from_chars, e)
      (rw (lt→ltb (scan 16 d cs) limit (subst (λ (n : ℕ). n < limit) (scan_digit c cs d e) l)))

strip_pos : (xs : Bytes) → 0 < length xs → 0 < length (strip xs)
strip_pos [] h = absurd (omega arith)
strip_pos (c ∷ cs) h = length-strip_pos c cs

hex_digits_pos : (n : ℕ) → 0 < length (strip (hex_digits 16 n))
hex_digits_pos n = strip_pos (hex_digits 16 n) (omega (arith, length-hex_digits 16 n))

-- The text of a number below 2 ^ 64: hexadecimal digits, at least one and at most sixteen.
pub hex-IsHexDigit : (n : ℕ) → All IsHexDigit (hex n)
unfolding hex
hex-IsHexDigit n = strip-IsHexDigit (hex_digits 16 n) (hex_digits-IsHexDigit 16 n)

pub setw-hex : (n : ℕ) → setw 16 (hex n) ≡ hex_digits 16 n
unfolding hex
setw-hex n =
    ap (λ (k : ℕ). setw k (strip (hex_digits 16 n))) (sym (length-hex_digits 16 n))
    ∙ setw-strip (hex_digits 16 n)

pub hex_lem : (n : ℕ) → hex n ≡ strip (hex_digits 16 n)
unfolding hex
hex_lem n = refl

pub length-hex_pos : (n : ℕ) → 0 < length (hex n)
length-hex_pos n = rw hex_lem (hex_digits_pos n)

pub scan-hex : (n : ℕ) → n < 16 ^ 16 → scan 16 0 (hex n) ≡ n
scan-hex n h = ap (scan 16 0) (hex_lem n) ∙ scan-strip (hex_digits 16 n) ∙ scan-hex_digits 16 n h

pub length-hex : (n : ℕ) → n < 16 ^ 15 → length (hex n) ≤ 15
length-hex n h =
    rw (hex_lem n, hex_digits-zero 15 n h)
      (length-strip_zero (hex_digits 15 n) (length-hex_digits 15 n))

pub from_chars_lem :
    (limit : ℕ) (xs : Bytes)
    → 0 < length xs
    → All IsHexDigit xs
    → scan 16 0 xs < limit
    → from_chars limit 16 xs ≡ some (scan 16 0 xs)
unfolding from_chars
from_chars_lem limit [] p h l = absurd (omega arith)
from_chars_lem limit (c ∷ cs) p h l = from_digit limit c cs h.0.0 h.0.1 l
