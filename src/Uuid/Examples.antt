-- ===== src/Uuid/Examples.antt =====
-- The results about UUIDs on concrete bytes.
use stochastic_scheduler_con.Prelude.{
  ◌%◌, ◌≡◌, [], ◌∷◌, ◌++◌, arith, take, drop, All, Bytes, codes, refl,
}
use stochastic_scheduler_con.Uuid.{load, print, read, version_4}
use stochastic_scheduler_con.Uuid.RoundTrip.{IsByte, read_uuid-print}
use stochastic_scheduler_con.Uuid.Version.{IsVersion4, version_4_lem}

abbrev random_bytes : Bytes
random_bytes = 255 ∷ 1 ∷ 2 ∷ 3 ∷ 4 ∷ 5 ∷ 6 ∷ 255 ∷ 255 ∷ 9 ∷ 10 ∷ 11 ∷ 12 ∷ 13 ∷ 14 ∷ 15 ∷ []

random_low : All IsByte random_bytes
random_low = (
  omega arith,
  (
    omega arith,
    (
      omega arith,
      (
        omega arith,
        (
          omega arith,
          (
            omega arith,
            (
              omega arith,
              (
                omega arith,
                (
                  omega arith,
                  (
                    omega arith,
                    (
                      omega arith,
                      (omega arith, (omega arith, (omega arith, (omega arith, (omega arith, tt))))),
                    ),
                  ),
                ),
              ),
            ),
          ),
        ),
      ),
    ),
  ),
)

read_uuid-print_example : read (print random_bytes ++ codes ",") ≡ (random_bytes, codes ",")
read_uuid-print_example = read_uuid-print random_bytes (codes ",") refl random_low

version_4_lem_example :
    IsVersion4 (version_4 random_bytes)
    × (load (take 2 (drop 6 (version_4 random_bytes))) % 4096
        ≡ load (take 2 (drop 6 random_bytes)) % 4096)
    × (load (take 1 (drop 8 (version_4 random_bytes))) % 64
        ≡ load (take 1 (drop 8 random_bytes)) % 64)
    × (take 6 (version_4 random_bytes) ≡ take 6 random_bytes)
    × (drop 9 (version_4 random_bytes) ≡ drop 9 random_bytes)
version_4_lem_example = version_4_lem random_bytes refl random_low
