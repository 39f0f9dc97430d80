-- ===== src/Examples/Texts.antt =====
-- The hex forms of src/crydna.rs at concrete inputs.
use cry.Base.{ℕ, ◌≡◌, ◌↔◌, refl, List, [], ◌∷◌, arith, codes}
use cry.Hex.{bytes, panics, bytes_to_hex, hex_to_bytes, is_continuation}
use cry.Hex.RoundTrip.{hex_to_bytes-bytes_to_hex}
use cry.Hex.Accepts.{Spells, hex_to_bytes_iff, hex_to_bytes_plus, hex_to_bytes_panics}

abbrev two_bytes : List ℕ
two_bytes = 15 ∷ 250 ∷ []

hex_to_bytes-bytes_to_hex_example : hex_to_bytes (bytes_to_hex two_bytes) ≡ bytes two_bytes
hex_to_bytes-bytes_to_hex_example =
    hex_to_bytes-bytes_to_hex two_bytes (omega arith, (omega arith, tt))

hex_to_bytes_iff_example :
    (hex_to_bytes (codes "+fFa") ≡ bytes two_bytes) ↔ Spells (codes "+fFa") two_bytes
hex_to_bytes_iff_example = hex_to_bytes_iff (codes "+fFa") two_bytes

plus_test : hex_to_bytes (codes "+fFa") ≡ hex_to_bytes (codes "0fFa")
unfolding codes
plus_test = hex_to_bytes_plus b'f' (codes "Fa")

-- "aéb" is four bytes long.
hex_to_bytes_panics_example : hex_to_bytes (b'a' ∷ 0xc3 ∷ 0xa9 ∷ b'b' ∷ []) ≡ panics
hex_to_bytes_panics_example =
    hex_to_bytes_panics b'a' 0xc3 0xa9 (b'b' ∷ []) (unfold is_continuation in refl) refl
