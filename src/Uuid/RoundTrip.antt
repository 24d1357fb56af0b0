-- ===== src/Uuid/RoundTrip.antt =====
-- The text of a UUID is read back.
use native.Mathlib.Nat.{pow-suc}
use stochastic_scheduler_con.Prelude.{
  ℕ, zero, suc, ◌+◌, ◌-◌, ◌*◌, ◌/◌, ◌%◌, ◌^◌, ◌≤◌, ◌<◌, ◌≡◌, refl, sym, ap, ◌∙◌, subst, some, List,
  [], ◌∷◌, ◌++◌, arith, append_assoc, append-nil, length, take, drop, All, All-append_left,
  All-append_right, take-append-drop, take-append, drop-append, take-add, length-take, length-drop,
  Bytes, hex, setw, from_chars, strip, hex_digits, length-hex_digits, hex_digits-zero, hex_lem,
  setw-strip, hex_digits-IsHexDigit, scan-hex_digits, from_chars_lem,
}
use stochastic_scheduler_con.Uuid.{
  load, stored, print_fields, print, read_chars, read_fields, read, fields, node_fields, zero_chars,
}

abbrev pub IsByte : ℕ → Type 0
IsByte b = b < 256

load_lt : (bs : Bytes) → All IsByte bs → load bs < 16 ^ (2 * length bs)
unfolding load
load_lt [] h = omega arith
load_lt (b ∷ bs) h =
    let e : 2 * suc (length bs) ≡ suc (suc (2 * length bs)) = omega arith in
    rw e (
      omega
        (arith, load_lt bs h.1, h.0, pow-suc 16 (suc (2 * length bs)), pow-suc 16 (2 * length bs)))

pub stored-load : (bs : Bytes) → All IsByte bs → stored (length bs) (load bs) ≡ bs
unfolding load stored
stored-load [] h = refl
stored-load (b ∷ bs) h =
    let low : (b + 256 * load bs) % 256 ≡ b = omega (arith, h.0) in
    let high : (b + 256 * load bs) / 256 ≡ load bs = omega (arith, h.0) in
    rw (low, high) (ap (◌∷◌ b) (stored-load bs h.1))

pow_mono : (j k n : ℕ) → n < 16 ^ k → n < 16 ^ (j + k)
pow_mono zero k n h = let e : 0 + k ≡ k = omega arith in rw e h
pow_mono (suc j) k n h =
    let e : suc j + k ≡ suc (j + k) = omega arith in
    rw e (omega (arith, pow_mono j k n h, pow-suc 16 (j + k)))

strip_zero : (c : ℕ) (cs : Bytes) → strip (48 ∷ c ∷ cs) ≡ strip (c ∷ cs)
unfolding strip
strip_zero c cs = refl

strip_longer : (xs : Bytes) → 0 < length xs → strip (48 ∷ xs) ≡ strip xs
strip_longer [] h = absurd (omega (arith, h))
strip_longer (c ∷ cs) h = strip_zero c cs

strip-hex_digits :
    (j k n : ℕ) → 0 < k → n < 16 ^ k → strip (hex_digits (j + k) n) ≡ strip (hex_digits k n)
strip-hex_digits zero k n p h =
    let e : 0 + k ≡ k = omega arith in ap (λ k. strip (hex_digits k n)) e
strip-hex_digits (suc j) k n p h =
    let e : suc j + k ≡ suc (j + k) = omega arith in
    ap (λ k. strip (hex_digits k n)) e
    ∙ ap strip (hex_digits-zero (j + k) n (pow_mono j k n h))
    ∙ strip_longer (hex_digits (j + k) n) (omega (arith, length-hex_digits (j + k) n, p))
    ∙ strip-hex_digits j k n p h

-- A number that fits is written as its last k digits.
setw_digits : (k n : ℕ) → 0 < k → k ≤ 16 → n < 16 ^ k → setw k (hex n) ≡ hex_digits k n
setw_digits k n p q h =
    let e : 16 ≡ (16 - k) + k = omega (arith, q) in
    ap (setw k) (hex_lem n ∙ ap (λ j. strip (hex_digits j n)) e ∙ strip-hex_digits (16 - k) k n p h)
    ∙ ap (λ j. setw j (strip (hex_digits k n))) (sym (length-hex_digits k n))
    ∙ setw-strip (hex_digits k n)

-- The text of one field, and what from_chars makes of it.
field_text :
    (k : ℕ) (bs : Bytes)
    → 0 < k
    → k ≤ 8
    → length bs ≡ k
    → All IsByte bs
    → (length (setw (2 * k) (hex (load bs))) ≡ 2 * k)
      × (from_chars (16 ^ (2 * k)) 16 (setw (2 * k) (hex (load bs))) ≡ some (load bs))
field_text k bs p q e h =
    let l : load bs < 16 ^ (2 * k) = subst (λ n. load bs < 16 ^ (2 * n)) e (load_lt bs h) in
    let digits = setw_digits (2 * k) (load bs) (omega (arith, p)) (omega (arith, q)) l in
    let value = scan-hex_digits (2 * k) (load bs) l in
    (
      ap length digits ∙ length-hex_digits (2 * k) (load bs),
      ap (from_chars (16 ^ (2 * k)) 16) digits
          ∙ from_chars_lem (16 ^ (2 * k)) (hex_digits (2 * k) (load bs))
              (omega (arith, length-hex_digits (2 * k) (load bs), p))
              (hex_digits-IsHexDigit (2 * k) (load bs)) (omega (arith, value, l))
          ∙ ap some value,
    )

read_chars_full :
    (n : ℕ) (text stream hex_str : Bytes)
    → length text ≡ n
    → (buffer : Bytes) × (read_chars n (text ++ stream) hex_str ≡ buffer)
      × (take n buffer ≡ text)
      × (drop n (text ++ stream) ≡ stream)
unfolding read_chars
read_chars_full n text stream hex_str e =
    let got : take n (text ++ stream) ≡ text =
      ap (λ n. take n (text ++ stream)) (sym e) ∙ take-append text stream in
    let left = drop (length text) hex_str in
    (
      text ++ left,
      ap (λ (got : Bytes). got ++ drop (length got) hex_str) got,
      ap (λ n. take n (text ++ left)) (sym e) ∙ take-append text left,
      ap (λ n. drop n (text ++ stream)) (sym e) ∙ drop-append text stream,
    )

read_field :
    (k v : ℕ) (ks : List ℕ) (text stream hex_str : Bytes)
    → length text ≡ 2 * k
    → from_chars (16 ^ (2 * k)) 16 text ≡ some v
    → (buffer : Bytes) × (read_fields (k ∷ ks) (text ++ stream) hex_str
        ≡ (stored k v ++ (read_fields ks stream buffer).0, (read_fields ks stream buffer).1))
unfolding read_fields
read_field k v ks text stream hex_str e f =
    let (buffer, a, b, c) = read_chars_full (2 * k) text stream hex_str e in
    (buffer, rw (read_fields, a) (rw (b, c) (rw f refl)))

pub sum : List ℕ → ℕ
sum [] = 0
sum (k ∷ ks) = k + sum ks

abbrev IsSize : ℕ → Type 0
IsSize k = (0 < k) × (k ≤ 8)

print_step :
    (k : ℕ) (ks : List ℕ) (bytes : Bytes)
    → print_fields (k ∷ ks) bytes
      ≡ setw (2 * k) (hex (load (take k bytes))) ++ print_fields ks (drop k bytes)
unfolding print_fields
print_step k ks bytes = refl

one-IsSize : IsSize 1
one-IsSize = (omega arith, omega arith)

two-IsSize : IsSize 4 × IsSize 2
two-IsSize = ((omega arith, omega arith), (omega arith, omega arith))

fields-IsSize : All IsSize fields
fields-IsSize = (two-IsSize.0, (two-IsSize.1, (two-IsSize.1, (one-IsSize, (one-IsSize, tt)))))

node_fields-IsSize : All IsSize node_fields
node_fields-IsSize = (two-IsSize.1, (two-IsSize.1, (two-IsSize.1, tt)))

read-print_fields :
    (ks : List ℕ) (bytes rest hex_str : Bytes)
    → All IsSize ks
    → sum ks ≤ length bytes
    → All IsByte bytes
    → read_fields ks (print_fields ks bytes ++ rest) hex_str ≡ (take (sum ks) bytes, rest)
unfolding sum
read-print_fields [] bytes rest hex_str s l h = unfold read_fields in unfold print_fields in refl
read-print_fields (k ∷ ks) bytes rest hex_str s l h =
    let bs = take k bytes in
    let later = drop k bytes in
    let split = subst (All IsByte) (sym (take-append-drop k bytes)) h in
    let low = All-append_left IsByte bs later split in
    let size : length bs ≡ k = omega (arith, length-take k bytes, l) in
    let (e, f) = field_text k bs s.0.0 s.0.1 size low in
    let text = setw (2 * k) (hex (load bs)) in
    let stream = print_fields ks later ++ rest in
    let (buffer, g) = read_field k (load bs) ks text stream hex_str e f in
    let tail =
      read-print_fields ks later rest buffer s.1 (omega (arith, length-drop k bytes, l))
        (All-append_right IsByte bs later split) in
    let whole : stored k (load bs) ≡ bs =
      ap (λ k. stored k (load bs)) (sym size) ∙ stored-load bs low in
    ap (λ t. read_fields (k ∷ ks) t hex_str)
      (ap (λ t. t ++ rest) (print_step k ks bytes) ∙ append_assoc text (print_fields ks later) rest)
    ∙ g
    ∙ ap (λ (r : Bytes × Bytes). (stored k (load bs) ++ r.0, r.1)) tail
    ∙ ap (λ (xs : Bytes). (xs ++ take (sum ks) later, rest)) whole
    ∙ ap (λ (xs : Bytes). (xs, rest)) (sym (take-add k (sum ks) bytes))

take-all : (n : ℕ) (xs : Bytes) → length xs ≡ n → take n xs ≡ xs
take-all n xs e =
    ap (λ n. take n xs) (sym e) ∙ ap (take (length xs)) (sym (append-nil xs)) ∙ take-append xs []

-- What operator<< writes of sixteen bytes, operator>> reads back, and leaves what follows it.
pub read_uuid-print :
    (bytes rest : Bytes)
    → length bytes ≡ 16
    → All IsByte bytes
    → read (print bytes ++ rest) ≡ (bytes, rest)
unfolding read print sum
read_uuid-print bytes rest l h =
    let head = print_fields fields bytes in
    let node = print_fields node_fields (drop 10 bytes) in
    let split = subst (All IsByte) (sym (take-append-drop 10 bytes)) h in
    let low = All-append_right IsByte (take 10 bytes) (drop 10 bytes) split in
    let six : length (drop 10 bytes) ≡ 6 = omega (arith, length-drop 10 bytes, l) in
    let e =
      read-print_fields fields bytes (node ++ rest) (zero_chars 8) fields-IsSize (omega (arith, l))
        h in
    let f =
      read-print_fields node_fields (drop 10 bytes) rest (zero_chars 4) node_fields-IsSize
        (omega (arith, six)) low in
    let both : Bytes × Bytes → Bytes × Bytes = λ r. (
      r.0 ++ (read_fields node_fields r.1 (zero_chars 4)).0,
      (read_fields node_fields r.1 (zero_chars 4)).1,
    ) in
    ap (λ t. both (read_fields fields t (zero_chars 8))) (append_assoc head node rest)
    ∙ ap both e
    ∙ ap (λ (r : Bytes × Bytes). (take 10 bytes ++ r.0, r.1)) f
    ∙ ap (λ (xs : Bytes). (take 10 bytes ++ xs, rest)) (take-all 6 (drop 10 bytes) six)
    ∙ ap (λ (xs : Bytes). (xs, rest)) (take-append-drop 10 bytes)
