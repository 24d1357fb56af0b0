-- ===== src/Uuid.antt =====
-- UUID::Uuid of controller-lib/src/uuid: sixteen bytes, their text in hexadecimal digits, and the
-- bits of version 4. memcpy between bytes and integers is that of a little-endian machine.

mod Examples
pub mod RoundTrip
pub mod Version
use stochastic_scheduler_con.Prelude.{
  ℕ, zero, suc, ◌+◌, ◌-◌, ◌*◌, ◌/◌, ◌%◌, ◌^◌, ◌≡◌, Bool, true, false, not, Option, none, some, List,
  [], ◌∷◌, ◌++◌, ◌==◌, if◌then◌else◌, length, take, drop, set, Bytes, bytes_eq, hex, setw,
  from_chars,
}

-- The integer whose bytes are these, and the first k bytes of an integer.
unfoldable pub load : Bytes → ℕ
load [] = 0
load (b ∷ bs) = b + 256 * load bs

unfoldable pub stored : ℕ → ℕ → Bytes
stored zero n = []
stored (suc k) n = n % 256 ∷ stored k (n / 256)

-- The fields of a UUID by their sizes in bytes: time_low, time_mid, time_hi_and_version,
-- clock_seq_hi_and_reserved and clock_seq_low; and the three pairs of bytes of a node.
abbrev pub fields : List ℕ
fields = 4 ∷ 2 ∷ 2 ∷ 1 ∷ 1 ∷ []

abbrev pub node_fields : List ℕ
node_fields = 2 ∷ 2 ∷ 2 ∷ []

-- os << std::setfill('0') << std::setw(2 * k) << std::hex << field, for one field after the other.
unfoldable pub print_fields : List ℕ → Bytes → Bytes
unfolding load hex setw
print_fields [] bytes = []
print_fields (k ∷ ks) bytes =
    setw (2 * k) (hex (load (take k bytes))) ++ print_fields ks (drop k bytes)

-- operator<<(std::ostream&, const Uuid&), with that of the node.
unfoldable pub print : Bytes → Bytes
unfolding print_fields
print bytes = print_fields fields bytes ++ print_fields node_fields (drop 10 bytes)

-- is.read(hex_str, n): where the stream ends before, the rest of the buffer stays.
unfoldable pub read_chars : ℕ → Bytes → Bytes → Bytes
read_chars n stream hex_str = let got = take n stream in got ++ drop (length got) hex_str

-- One field after the other: the bytes that are written, and what is left of the stream. Where
-- from_chars gives an error, the integer is still 0.
unfoldable pub read_fields : List ℕ → Bytes → Bytes → Bytes × Bytes
unfolding stored read_chars from_chars
read_fields [] stream hex_str = ([], stream)
read_fields (k ∷ ks) stream hex_str =
    let buffer = read_chars (2 * k) stream hex_str in
    let value : ℕ = elim (from_chars (16 ^ (2 * k)) 16 (take (2 * k) buffer)) [
      | none ↦ 0
      | some n ↦ n
    ] in
    let rest = read_fields ks (drop (2 * k) stream) buffer in (stored k value ++ rest.0, rest.1)

abbrev pub zero_chars : ℕ → Bytes
zero_chars zero = []
zero_chars (suc n) = 0 ∷ zero_chars n

-- operator>>(std::istream&, Uuid&), with that of the node.
unfoldable pub read : Bytes → Bytes × Bytes
unfolding read_fields
read stream =
    let head = read_fields fields stream (zero_chars 8) in
    let node = read_fields node_fields head.1 (zero_chars 4) in (head.0 ++ node.0, node.1)

-- operator==(const Uuid&, const Uuid&)
unfoldable pub eq : Bytes → Bytes → Bool
unfolding bytes_eq
eq lhs rhs = bytes_eq lhs rhs

-- Uuid(): all bytes are 0.
abbrev pub nil_uuid : Bytes
nil_uuid = zero_chars 16

-- x |= 0x80; x &= 0xbf, for a byte.
unfoldable pub set_reserved : ℕ → ℕ
set_reserved x = let y = if x / 128 % 2 == 0 then x + 128 else x in y / 128 % 2 * 128 + y % 64

-- x |= 0x4000; x &= 0x4FFF, for two bytes.
unfoldable pub set_version : ℕ → ℕ
set_version x =
    let y = if x / 16384 % 2 == 0 then x + 16384 else x in y / 16384 % 2 * 16384 + y % 4096

-- What Uuid(v4) makes of the bytes of getrandom.
unfoldable pub version_4 : Bytes → Bytes
unfolding load stored set_reserved set_version
version_4 bytes =
    take 6 bytes
    ++ (stored 2 (set_version (load (take 2 (drop 6 bytes))))
        ++ (stored 1 (set_reserved (load (take 1 (drop 8 bytes)))) ++ drop 9 bytes))
