-- ===== src/Prelude/ToChars.antt =====
-- std::to_chars of a port in base 10, and std::from_chars of what it writes.
use native.Mathlib.Nat.{pow-suc}
use Prim.Native.Nat.{ℕ, zero, suc, ◌+◌, ◌*◌, ◌/◌, ◌%◌, ◌^◌, ◌<◌}
use mathlib.Core.List.{[], ◌∷◌, ◌++◌}
use mathlib.Core.Option.{some}
use mathlib.Core.Logic.{◌≢◌, inl, inr}
use mathlib.Core.Path.{◌≡◌, refl, sym, ap, ◌∙◌}
use native.Mathlib.Omega.{arith}
use stochastic_scheduler_con.Prelude.Tests.{◌==◌, Bool-cases, ==_iff}
use stochastic_scheduler_con.Prelude.Lists.{All, All-append}
use stochastic_scheduler_con.Prelude.Text.{Bytes}
use stochastic_scheduler_con.Prelude.CharConv.{digit_value, scan, from_chars, strip}

-- The last k decimal digits of a number, the most significant first.
unfoldable pub dec_digits : ℕ → ℕ → Bytes
dec_digits zero n = []
dec_digits (suc k) n = dec_digits k (n / 10) ++ (48 + n % 10) ∷ []

-- A 16 bit number has at most five digits.
unfoldable pub to_chars : ℕ → Bytes
unfolding dec_digits strip
to_chars n = strip (dec_digits 5 n)

-- os << n for a number of at most 64 bits, while the stream is in decimal.
unfoldable pub dec : ℕ → Bytes
unfolding dec_digits strip
dec n = strip (dec_digits 20 n)

abbrev pub IsDecDigit : ℕ → Type 0
IsDecDigit c = (d : ℕ) × (digit_value 10 c ≡ some d)

digit_value_dec : (d : ℕ) → d < 10 → digit_value 10 (48 + d) ≡ some d
unfolding digit_value
digit_value_dec d h = ground arith

scan_dec-append :
    (acc : ℕ) (xs : Bytes) (c d : ℕ)
    → All IsDecDigit xs
    → digit_value 10 c ≡ some d
    → scan 10 acc (xs ++ c ∷ []) ≡ scan 10 acc xs * 10 + d
unfolding scan
scan_dec-append acc [] c d h e = rw (e, scan)
scan_dec-append acc (x ∷ xs) c d h e =
    rw (h.0.1, scan) (scan_dec-append (acc * 10 + h.0.0) xs c d h.1 e)

dec_digits-IsDecDigit : (k n : ℕ) → All IsDecDigit (dec_digits k n)
unfolding dec_digits
dec_digits-IsDecDigit zero n = tt
dec_digits-IsDecDigit (suc k) n =
    All-append IsDecDigit (dec_digits k (n / 10)) ((48 + n % 10) ∷ [])
      (dec_digits-IsDecDigit k (n / 10)) ((n % 10, digit_value_dec (n % 10) (omega arith)), tt)

scan-dec_digits : (k n : ℕ) → n < 10 ^ k → scan 10 0 (dec_digits k n) ≡ n
unfolding dec_digits
scan-dec_digits zero n h = unfold scan in omega (arith, h)
scan-dec_digits (suc k) n h =
    scan_dec-append 0 (dec_digits k (n / 10)) (48 + n % 10) (n % 10)
      (dec_digits-IsDecDigit k (n / 10)) (digit_value_dec (n % 10) (omega arith))
    ∙ omega (arith, scan-dec_digits k (n / 10) (omega (arith, pow-suc 10 k, h)))

scan_dec-zero : (xs : Bytes) → scan 10 0 (48 ∷ xs) ≡ scan 10 0 xs
unfolding scan digit_value
scan_dec-zero xs = refl

scan_dec-strip : (xs : Bytes) → scan 10 0 (strip xs) ≡ scan 10 0 xs
unfolding strip
scan_dec-strip [] = refl
scan_dec-strip (c ∷ []) = refl
scan_dec-strip (c ∷ d ∷ cs) = elim (Bool-cases (c == 48)) [
  | inl e ↦ rw e (
      scan_dec-strip (d ∷ cs)
      ∙ sym (ap (λ t. scan 10 0 (t ∷ d ∷ cs)) ((==_iff c 48).0 e) ∙ scan_dec-zero (d ∷ cs)))
  | inr e ↦ rw e
]

strip-IsDecDigit : (xs : Bytes) → All IsDecDigit xs → All IsDecDigit (strip xs)
unfolding strip
strip-IsDecDigit [] h = tt
strip-IsDecDigit (c ∷ []) h = h
strip-IsDecDigit (c ∷ d ∷ cs) h = elim (Bool-cases (c == 48)) [
  | inl e ↦ rw e (strip-IsDecDigit (d ∷ cs) h.1)
  | inr e ↦ rw e h
]

strip-ne_nil : (c : ℕ) (cs : Bytes) → strip (c ∷ cs) ≢ []
unfolding strip
strip-ne_nil c [] h = cc
strip-ne_nil c (d ∷ cs) h = elim (Bool-cases (c == 48)) [
  | inl e ↦ strip-ne_nil d cs (rw e at h)
  | inr e ↦ ground arith
]

from_chars-scan :
    (limit n : ℕ) (xs : Bytes)
    → xs ≢ []
    → All IsDecDigit xs
    → scan 10 0 xs ≡ n
    → n < limit
    → from_chars limit 10 xs ≡ some n
unfolding from_chars scan
from_chars-scan limit n [] ne h e l = absurd (ne refl)
from_chars-scan limit n (c ∷ cs) ne h e l =
    let (d, v) = h.0 in
    let z : d ≡ 0 * 10 + d = omega arith in
    let s : scan 10 d cs ≡ n = ap (λ a. scan 10 a cs) z ∙ (rw (v, scan) refl) ∙ e in
    rw (v, from_chars) (ground (arith, s, l))

first_of : (xs : Bytes) (y : ℕ) → (c : ℕ) × (cs : Bytes) × (xs ++ y ∷ [] ≡ c ∷ cs)
first_of [] y = (y, [], refl)
first_of (x ∷ xs) y = (x, xs ++ y ∷ [], refl)

dec_digits_first : (k n : ℕ) → 0 < k → (c : ℕ) × (cs : Bytes) × (dec_digits k n ≡ c ∷ cs)
unfolding dec_digits
dec_digits_first zero n h = absurd (omega (arith, h))
dec_digits_first (suc k) n h = first_of (dec_digits k (n / 10)) (48 + n % 10)

dec_digits-ne_nil : (k n : ℕ) → 0 < k → strip (dec_digits k n) ≢ []
dec_digits-ne_nil k n l h =
    let (c, cs, e) = dec_digits_first k n l in strip-ne_nil c cs (ap strip (sym e) ∙ h)

from_chars-dec_digits :
    (k limit n : ℕ)
    → 0 < k
    → n < 10 ^ k
    → n < limit
    → from_chars limit 10 (strip (dec_digits k n)) ≡ some n
from_chars-dec_digits k limit n p l h =
    from_chars-scan limit n (strip (dec_digits k n)) (dec_digits-ne_nil k n p)
      (strip-IsDecDigit (dec_digits k n) (dec_digits-IsDecDigit k n))
      (scan_dec-strip (dec_digits k n) ∙ scan-dec_digits k n l) h

-- What to_chars writes of a port is read back.
pub from_chars-to_chars : (n : ℕ) → n < 65536 → from_chars 65536 10 (to_chars n) ≡ some n
unfolding to_chars
from_chars-to_chars n h = from_chars-dec_digits 5 65536 n (omega arith) (omega (arith, h)) h

-- What a stream writes of a 64 bit number is read back.
pub from_chars-dec : (n : ℕ) → n < 2 ^ 64 → from_chars (2 ^ 64) 10 (dec n) ≡ some n
unfolding dec
from_chars-dec n h = from_chars-dec_digits 20 (2 ^ 64) n (omega arith) (omega (arith, h)) h
