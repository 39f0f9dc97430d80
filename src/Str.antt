-- ===== src/Str.antt =====
-- What the standard library does with a `str`, for src/ssh.rs: `from_utf8_lossy`, `lines`, `trim`,
-- `strip_prefix` and `split`. A text is its UTF-8 bytes.
pub mod Words
use cry.Base.{
  ℕ, zero, suc, List, [], ◌∷◌, ◌++◌, Option, none, some, Bool, true, false, ◌&&◌, ◌||◌, ltb, leb,
  ◌==◌, if◌then◌else◌, Text,
}
use mathlib.Core.List.{reverse}
use cry.Utf8.{following}

-- U+FFFD.
abbrev pub replacement : Text
replacement = 0xef ∷ 0xbf ∷ 0xbd ∷ []

-- How the loop of `from_utf8_lossy` takes a byte where a character may begin: the ranges that the
-- character waits for, or nothing if no character begins so.
abbrev pub begin : Option (List (ℕ × ℕ)) → ℕ → (List (ℕ × ℕ) → Text → Text) → Text
begin none b go = replacement ++ go [] []
begin (some []) b go = b ∷ go [] []
begin (some (r ∷ ranges)) b go = go (r ∷ ranges) (b ∷ [])

-- The bytes of the character so far are held; what is ill-formed gives one replacement for each of
-- its longest parts that begin a character.
unfoldable pub lossy_from : List (ℕ × ℕ) → Text → List ℕ → Text
unfolding following
lossy_from [] held [] = []
lossy_from (_ ∷ _) held [] = replacement
lossy_from [] held (b ∷ bs) = begin (following b) b (λ ranges held'. lossy_from ranges held' bs)
lossy_from ((lo, hi) ∷ ranges) held (b ∷ bs) =
    let whole = held ++ b ∷ [] in
    elim (leb lo b && leb b hi) [
      | true ↦ elim ranges [
        | [] ↦ whole ++ lossy_from [] [] bs
        | r ∷ more ↦ lossy_from (r ∷ more) whole bs
      ]
      | false ↦ replacement ++ begin (following b) b (λ rs held'. lossy_from rs held' bs)
    ]

-- `String::from_utf8_lossy`.
unfoldable pub from_utf8_lossy : List ℕ → Text
unfolding lossy_from
from_utf8_lossy bs = lossy_from [] [] bs

-- The characters of `char::is_whitespace`, by the number of their bytes.
abbrev pub white_1 : ℕ → Bool
white_1 a = (leb 9 a && leb a 13) || a == 32

abbrev pub white_2 : ℕ → ℕ → Bool
white_2 a b = a == 0xc2 && (b == 0x85 || b == 0xa0)

-- U+2000 to U+200A, U+2028, U+2029, U+202F and U+205F, behind their first byte.
abbrev pub white_e2 : ℕ → ℕ → Bool
white_e2 b c =
    (b == 0x80 && ((leb 0x80 c && leb c 0x8a) || c == 0xa8 || c == 0xa9 || c == 0xaf))
    || (b == 0x81 && c == 0x9f)

abbrev pub white_3 : ℕ → ℕ → ℕ → Bool
white_3 a b c =
    (a == 0xe1 && b == 0x9a && c == 0x80)
    || (a == 0xe2 && white_e2 b c)
    || (a == 0xe3 && b == 0x80 && c == 0x80)

-- How many bytes the white space takes that a text begins with.
unfoldable pub white_len : Text → ℕ
white_len [] = 0
white_len (a ∷ []) = if white_1 a then 1 else 0
white_len (a ∷ b ∷ []) = if white_1 a then 1 else if white_2 a b then 2 else 0
white_len (a ∷ b ∷ c ∷ _) =
    if white_1 a then 1 else if white_2 a b then 2 else if white_3 a b c then 3 else 0

-- The same of a text that is read from its end.
unfoldable pub white_len_back : Text → ℕ
white_len_back [] = 0
white_len_back (a ∷ []) = if white_1 a then 1 else 0
white_len_back (b ∷ a ∷ []) = if white_1 b then 1 else if white_2 a b then 2 else 0
white_len_back (c ∷ b ∷ a ∷ _) =
    if white_1 c then 1 else if white_2 b c then 2 else if white_3 a b c then 3 else 0

-- Drops the given number of bytes, and white space after that.
unfoldable pub skip_white : (Text → ℕ) → ℕ → Text → Text
skip_white width n [] = []
skip_white width (suc n) (x ∷ s) = skip_white width n s
skip_white width zero (x ∷ s) = elim (width (x ∷ s)) [ zero ↦ x ∷ s | suc n ↦ skip_white width n s ]

-- `trim`.
unfoldable pub trim : Text → Text
unfolding skip_white white_len white_len_back
trim s = reverse (skip_white white_len_back 0 (reverse (skip_white white_len 0 s)))

-- `strip_prefix`.
unfoldable pub strip_prefix : Text → Text → Option Text
strip_prefix [] s = some s
strip_prefix (p ∷ ps) [] = none
strip_prefix (p ∷ ps) (x ∷ s) = if p == x then strip_prefix ps s else none

-- `split(c).next()`: up to the first `c`, or all.
unfoldable pub until : ℕ → Text → Text
until c [] = []
until c (x ∷ s) = if x == c then [] else x ∷ until c s

-- What follows the first `c`, if there is one.
unfoldable pub beyond : ℕ → Text → Option Text
beyond c [] = none
beyond c (x ∷ s) = if x == c then some s else beyond c s

-- A line's end without its `\r`.
unfoldable pub drop_return : Text → Text
drop_return [] = []
drop_return (x ∷ []) = if x == 13 then [] else x ∷ []
drop_return (x ∷ y ∷ s) = x ∷ drop_return (y ∷ s)

-- The lines of a text, behind the line so far. A text that ends in a line feed has no empty line
-- after it, and only a line that a line feed ends loses its `\r`.
unfoldable pub lines_from : Text → Text → List Text
unfolding drop_return
lines_from [] [] = []
lines_from [] (x ∷ line) = (x ∷ line) ∷ []
lines_from (c ∷ s) line = elim (c == 10) [
  | true ↦ drop_return line ∷ lines_from s []
  | false ↦ lines_from s (line ++ c ∷ [])
]

-- `lines()`.
unfoldable pub lines : Text → List Text
unfolding lines_from
lines s = lines_from s []
