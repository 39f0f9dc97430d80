-- ===== src/Utf8.antt =====
-- `std::str::from_utf8`: which byte strings are UTF-8. The well-formed sequences are those of the
-- Unicode standard, by the ranges of their bytes.
use cry.Base.{
  ℕ, List, [], ◌∷◌, Option, none, some, Bool, true, false, ◌&&◌, ltb, leb, if◌then◌else◌,
}

abbrev continuation : ℕ × ℕ
continuation = (0x80, 0xbf)

-- The ranges of the bytes that must follow a first byte.
unfoldable pub following : ℕ → Option (List (ℕ × ℕ))
following b =
    if ltb b 0x80
    then some []
    else if ltb b 0xc2
    then none
    else if ltb b 0xe0
    then some (continuation ∷ [])
    else if ltb b 0xe1
    then some ((0xa0, 0xbf) ∷ continuation ∷ [])
    else if ltb b 0xed
    then some (continuation ∷ continuation ∷ [])
    else if ltb b 0xee
    then some ((0x80, 0x9f) ∷ continuation ∷ [])
    else if ltb b 0xf0
    then some (continuation ∷ continuation ∷ [])
    else if ltb b 0xf1
    then some ((0x90, 0xbf) ∷ continuation ∷ continuation ∷ [])
    else if ltb b 0xf4
    then some (continuation ∷ continuation ∷ continuation ∷ [])
    else if ltb b 0xf5
    then some ((0x80, 0x8f) ∷ continuation ∷ continuation ∷ [])
    else none

-- Whether the bytes complete the character that waits for the given ranges, and go on well.
utf8_from : List (ℕ × ℕ) → List ℕ → Bool
unfolding following
utf8_from [] [] = true
utf8_from (_ ∷ _) [] = false
utf8_from [] (b ∷ bs) = elim (following b) [ none ↦ false | some ranges ↦ utf8_from ranges bs ]
utf8_from ((lo, hi) ∷ ranges) (b ∷ bs) = leb lo b && leb b hi && utf8_from ranges bs

unfoldable pub is_utf8 : List ℕ → Bool
unfolding utf8_from
is_utf8 bs = utf8_from [] bs
