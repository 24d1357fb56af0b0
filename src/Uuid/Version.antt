-- ===== src/Uuid/Version.antt =====
-- The bits that Uuid(v4) sets, and the comparison of UUIDs.
use stochastic_scheduler_con.Prelude.{
  ℕ, ◌/◌, ◌%◌, ◌≡◌, refl, sym, ap, ◌∙◌, ◌++◌, arith, length, take, drop, take-append, drop-append,
  drop-drop, length-take, length-drop, length-append, take-append-drop, All, All-append,
  All-append_left, All-append_right, Bytes, subst,
}
use stochastic_scheduler_con.Uuid.{load, stored, set_reserved, set_version, version_4}
use stochastic_scheduler_con.Uuid.RoundTrip.{IsByte}

set_version_lem : (x : ℕ) → (set_version x / 4096 ≡ 4) × (set_version x % 4096 ≡ x % 4096)
unfolding set_version
set_version_lem x = (ground arith, ground arith)

set_reserved_lem : (x : ℕ) → (set_reserved x / 64 ≡ 2) × (set_reserved x % 64 ≡ x % 64)
unfolding set_reserved
set_reserved_lem x = (ground arith, ground arith)

stored-IsByte_two :
    (n : ℕ) → (load (stored 2 n) ≡ n % 65536) × All IsByte (stored 2 n) × (length (stored 2 n) ≡ 2)
unfolding load stored
stored-IsByte_two n = (omega arith, (omega arith, (omega arith, tt)), omega arith)

stored-IsByte :
    (n : ℕ) → (load (stored 1 n) ≡ n % 256) × All IsByte (stored 1 n) × (length (stored 1 n) ≡ 1)
unfolding load stored
stored-IsByte n = (omega arith, (omega arith, tt), omega arith)

take_of : (n : ℕ) (xs ys : Bytes) → length xs ≡ n → take n (xs ++ ys) ≡ xs
take_of n xs ys e = ap (λ n. take n (xs ++ ys)) (sym e) ∙ take-append xs ys

drop_of : (n : ℕ) (xs ys : Bytes) → length xs ≡ n → drop n (xs ++ ys) ≡ ys
drop_of n xs ys e = ap (λ n. drop n (xs ++ ys)) (sym e) ∙ drop-append xs ys

-- The bits of a UUID of version 4 with the variant of RFC 4122.
pub record IsVersion4 (bytes : Bytes) : Type 0 where
  pub size : length bytes ≡ 16
  pub low : All IsByte bytes
  pub version : load (take 2 (drop 6 bytes)) / 4096 ≡ 4
  pub variant : load (take 1 (drop 8 bytes)) / 64 ≡ 2

module _ (bytes : Bytes) (l : length bytes ≡ 16) (h : All IsByte bytes) where
  abbrev start : Bytes
  start = take 6 bytes

  abbrev version_of : ℕ
  version_of = set_version (load (take 2 (drop 6 bytes)))

  abbrev reserved_of : ℕ
  reserved_of = set_reserved (load (take 1 (drop 8 bytes)))

  abbrev end : Bytes
  end = drop 9 bytes

  six : length start ≡ 6
  six = omega (arith, length-take 6 bytes, l)

  parts : version_4 bytes ≡ start ++ (stored 2 version_of ++ (stored 1 reserved_of ++ end))
  unfolding version_4
  parts = refl

  after_six : drop 6 (version_4 bytes) ≡ stored 2 version_of ++ (stored 1 reserved_of ++ end)
  after_six = ap (drop 6) parts ∙ drop_of 6 start _ six

  after_eight : drop 8 (version_4 bytes) ≡ stored 1 reserved_of ++ end
  after_eight =
      drop-drop 6 2 (version_4 bytes)
      ∙ ap (drop 2) after_six
      ∙ drop_of 2 (stored 2 version_of) _ (stored-IsByte_two version_of).2

  new_version : load (take 2 (drop 6 (version_4 bytes))) ≡ version_of % 65536
  new_version =
      ap (λ bs. load (take 2 bs)) after_six
      ∙ ap load (take_of 2 (stored 2 version_of) _ (stored-IsByte_two version_of).2)
      ∙ (stored-IsByte_two version_of).0

  new_reserved : load (take 1 (drop 8 (version_4 bytes))) ≡ reserved_of % 256
  new_reserved =
      ap (λ bs. load (take 1 bs)) after_eight
      ∙ ap load (take_of 1 (stored 1 reserved_of) _ (stored-IsByte reserved_of).2)
      ∙ (stored-IsByte reserved_of).0

  lengths : length (start ++ (stored 2 version_of ++ (stored 1 reserved_of ++ end))) ≡ 16
  lengths = omega (
    arith,
    l,
    six,
    length-drop 9 bytes,
    (stored-IsByte_two version_of).2,
    (stored-IsByte reserved_of).2,
    length-append start (stored 2 version_of ++ (stored 1 reserved_of ++ end)),
    length-append (stored 2 version_of) (stored 1 reserved_of ++ end),
    length-append (stored 1 reserved_of) end,
  )

  low_start : All IsByte start
  low_start =
      All-append_left IsByte start (drop 6 bytes)
        (subst (All IsByte) (sym (take-append-drop 6 bytes)) h)

  low_end : All IsByte end
  low_end =
      All-append_right IsByte (take 9 bytes) end
        (subst (All IsByte) (sym (take-append-drop 9 bytes)) h)

  lows : All IsByte (start ++ (stored 2 version_of ++ (stored 1 reserved_of ++ end)))
  lows = All-append IsByte start _ low_start (
      All-append IsByte (stored 2 version_of) _ (stored-IsByte_two version_of).1
        (All-append IsByte (stored 1 reserved_of) end (stored-IsByte reserved_of).1 low_end))

  version_4-IsVersion4 : IsVersion4 (version_4 bytes)
  version_4-IsVersion4 = record {
    size = ap length parts ∙ lengths;
    low = subst (All IsByte) (sym parts) lows;
    version = omega (arith, new_version, (set_version_lem (load (take 2 (drop 6 bytes)))).0);
    variant = omega (arith, new_reserved, (set_reserved_lem (load (take 1 (drop 8 bytes)))).0);
  }

  -- Of sixteen bytes, Uuid(v4) makes a UUID of version 4 that differs from them in no other bits:
  -- in time_hi_and_version the low 12 bits stay, in clock_seq_hi_and_reserved the low 6 bits, and
  -- all other bytes.
  pub version_4_lem :
      IsVersion4 (version_4 bytes)
      × (load (take 2 (drop 6 (version_4 bytes))) % 4096 ≡ load (take 2 (drop 6 bytes)) % 4096)
      × (load (take 1 (drop 8 (version_4 bytes))) % 64 ≡ load (take 1 (drop 8 bytes)) % 64)
      × (take 6 (version_4 bytes) ≡ take 6 bytes)
      × (drop 9 (version_4 bytes) ≡ drop 9 bytes)
  version_4_lem = (
    version_4-IsVersion4,
    omega (arith, new_version, (set_version_lem (load (take 2 (drop 6 bytes)))).1),
    omega (arith, new_reserved, (set_reserved_lem (load (take 1 (drop 8 bytes)))).1),
    ap (take 6) parts ∙ take_of 6 start _ six,
    drop-drop 8 1 (version_4 bytes)
        ∙ ap (drop 1) after_eight
        ∙ drop_of 1 (stored 1 reserved_of) _ (stored-IsByte reserved_of).2,
  )
