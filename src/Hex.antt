-- ===== src/Hex.antt =====
-- src/crydna.rs: `bytes_to_hex` and `hex_to_bytes`. A `&str` is its UTF-8 bytes, which is what
-- `len` counts and what slicing cuts.
pub mod RoundTrip
pub mod Accepts
use cry.Base.{
  ℕ, zero, suc, ◌+◌, ◌-◌, ◌*◌, ◌%◌, List, [], ◌∷◌, ◌++◌, Option, none, some, Bool, true, false,
  ◌&&◌, ◌||◌, ltb, leb, ◌==◌, if◌then◌else◌, length, Text, codes,
}
use cry.Fmt.{format_02x, decimal}

unfoldable pub bytes_to_hex : List ℕ → Text
bytes_to_hex [] = []
bytes_to_hex (b ∷ bs) = format_02x b ++ bytes_to_hex bs

-- `Result<Vec<u8>, String>`, or a panic.
pub data Decoded : Type 0 where
  bytes : List ℕ → Decoded
  refused : Text → Decoded
  panics : Decoded

-- The value of a digit in base 16, of either case.
unfoldable pub hex_value : ℕ → Option ℕ
hex_value d =
    if leb b'0' d && leb d b'9'
    then some (d - b'0')
    else if leb b'a' d && leb d b'f'
    then some (d - 87)
    else if leb b'A' d && leb d b'F'
    then some (d - 55)
    else none

abbrev pub two_digits : Option ℕ → Option ℕ → Option ℕ
two_digits (some hi) (some lo) = some (hi * 16 + lo)
two_digits none lo = none
two_digits (some hi) none = none

-- `u8::from_str_radix(s, 16)` on two bytes: the standard library takes a leading `+`.
unfoldable pub from_str_radix : ℕ → ℕ → Option ℕ
unfolding hex_value
from_str_radix a b = if a == b'+' then hex_value b else two_digits (hex_value a) (hex_value b)

-- A byte inside a character of several bytes. A slice that begins or ends in front of one panics.
unfoldable pub is_continuation : ℕ → Bool
is_continuation b = leb 0x80 b && ltb b 0xc0

unfoldable pub starts_inside : Text → Bool
unfolding is_continuation
starts_inside [] = false
starts_inside (b ∷ bs) = is_continuation b

abbrev pub prepend : ℕ → Decoded → Decoded
prepend b (bytes bs) = bytes (b ∷ bs)
prepend b (refused e) = refused e
prepend b panics = panics

unfoldable pub invalid_digit : Text
invalid_digit = codes "invalid digit found in string"

-- One step of the iterator: `&s[i..i + 2]` is cut out and parsed; the first error ends `collect`.
abbrev pub hex_pair : Bool → Option ℕ → Decoded → Decoded
hex_pair true v rest = panics
hex_pair false none rest = refused invalid_digit
hex_pair false (some b) rest = prepend b rest

unfoldable pub hex_pairs : Text → Decoded
unfolding starts_inside from_str_radix
hex_pairs [] = bytes []
hex_pairs (a ∷ []) = panics
hex_pairs (a ∷ b ∷ s) =
    hex_pair (starts_inside (a ∷ []) || starts_inside s) (from_str_radix a b) (hex_pairs s)

unfoldable pub hex_to_bytes : Text → Decoded
unfolding hex_pairs
hex_to_bytes s =
    if length s % 2 == 0
    then hex_pairs s
    else refused (codes "odd hex length (" ++ decimal (length s) ++ codes ")")
