-- ===== src/Hex/RoundTrip.antt =====
-- src/crydna.rs: `hex_to_bytes` reads back what `bytes_to_hex` writes.
use cry.Base.{
  ℕ, ◌*◌, ◌/◌, ◌%◌, ◌<◌, ◌≡◌, refl, List, [], ◌∷◌, some, true, false, arith, ◌==◌, length, All,
  IsByte,
}
use cry.Fmt.{hex_digit, format_02x}
use cry.Hex.{
  bytes_to_hex, bytes, hex_value, from_str_radix, starts_inside, is_continuation, hex_pairs,
  hex_to_bytes,
}

-- Two digits for each byte.
pub length-bytes_to_hex : (bs : List ℕ) → length (bytes_to_hex bs) ≡ 2 * length bs
unfolding bytes_to_hex format_02x
length-bytes_to_hex [] = omega arith
length-bytes_to_hex (b ∷ bs) = omega (arith, length-bytes_to_hex bs)

hex_value-hex_digit : (v : ℕ) → v < 16 → hex_value (hex_digit v) ≡ some v
unfolding hex_value hex_digit
hex_value-hex_digit v h = ground arith

hex_digit-ascii : (v : ℕ) → v < 16 → is_continuation (hex_digit v) ≡ false
unfolding is_continuation hex_digit
hex_digit-ascii v h = ground arith

from_str_radix-format :
    (b : ℕ) → b < 256 → from_str_radix (hex_digit (b / 16)) (hex_digit (b % 16)) ≡ some b
unfolding from_str_radix hex_value hex_digit
from_str_radix-format b h = ground arith

starts_inside-hex : (bs : List ℕ) → All IsByte bs → starts_inside (bytes_to_hex bs) ≡ false
unfolding starts_inside bytes_to_hex format_02x
starts_inside-hex [] h = refl
starts_inside-hex (b ∷ bs) h = hex_digit-ascii (b / 16) (omega arith)

hex_pairs-bytes_to_hex : (bs : List ℕ) → All IsByte bs → hex_pairs (bytes_to_hex bs) ≡ bytes bs
unfolding hex_pairs bytes_to_hex format_02x
hex_pairs-bytes_to_hex [] h = refl
hex_pairs-bytes_to_hex (b ∷ bs) h = rw (
  hex_digit-ascii (b / 16) (omega arith),
  starts_inside-hex bs h.1,
  from_str_radix-format b h.0,
  hex_pairs-bytes_to_hex bs h.1,
)

-- Every string of bytes comes back from its hex form.
pub hex_to_bytes-bytes_to_hex :
    (bs : List ℕ) → All IsByte bs → hex_to_bytes (bytes_to_hex bs) ≡ bytes bs
unfolding hex_to_bytes
hex_to_bytes-bytes_to_hex bs h =
    let even : (length (bytes_to_hex bs) % 2 == 0) ≡ true =
      rw (length-bytes_to_hex bs) (ground arith) in
    rw even (hex_pairs-bytes_to_hex bs h)
