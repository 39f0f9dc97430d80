-- ===== src/Str/Words.antt =====
-- How the operations on text act on words of printable ASCII characters.
use cry.Base.{ℕ, ◌<◌, ◌≡◌, ◌≢◌, refl, [], ◌∷◌, ◌++◌, All, append-nil, append_assoc, Text, arith}
use mathlib.Core.List.{reverse, reverse-reverse}
use cry.Utf8.{following}
use cry.CryDna.Export.{trim_end_matches}
use cry.Str.{
  from_utf8_lossy, lossy_from, white_len, white_len_back, skip_white, trim, until, drop_return,
  lines_from, lines,
}

-- Printable, and no space.
abbrev pub IsGraphic : ℕ → Type 0
IsGraphic b = (32 < b) × (b < 127)

-- No character `c`.
abbrev pub Lacks : ℕ → Text → Type 0
Lacks c = All (λ b. b ≢ c)

abbrev pub StartsGraphic : Text → Type 0
StartsGraphic [] = Unit
StartsGraphic (x ∷ s) = IsGraphic x

pub from_utf8_lossy-ascii : (s : Text) → All (λ b. b < 128) s → from_utf8_lossy s ≡ s
unfolding from_utf8_lossy lossy_from following
from_utf8_lossy-ascii [] h = refl
from_utf8_lossy-ascii (b ∷ s) (h, hs) = ground (arith, from_utf8_lossy-ascii s hs)

white_len-graphic : (x : ℕ) (s : Text) → IsGraphic x → white_len (x ∷ s) ≡ 0
unfolding white_len
white_len-graphic x [] h = ground arith
white_len-graphic x (a ∷ []) h = ground arith
white_len-graphic x (a ∷ b ∷ s) h = ground arith

white_len_back-graphic : (x : ℕ) (s : Text) → IsGraphic x → white_len_back (x ∷ s) ≡ 0
unfolding white_len_back
white_len_back-graphic x [] h = ground arith
white_len_back-graphic x (a ∷ []) h = ground arith
white_len_back-graphic x (a ∷ b ∷ s) h = ground arith

skip_white-graphic :
    (width : Text → ℕ) (s : Text)
    → ((x : ℕ) (r : Text) → IsGraphic x → width (x ∷ r) ≡ 0)
    → StartsGraphic s
    → skip_white width 0 s ≡ s
unfolding skip_white
skip_white-graphic width [] w h = refl
skip_white-graphic width (x ∷ s) w h = rw (w x s h, skip_white) refl

-- A text that begins and ends with a printable character has nothing to trim.
pub trim-graphic : (s : Text) → StartsGraphic s → StartsGraphic (reverse s) → trim s ≡ s
unfolding trim
trim-graphic s h k = rw (skip_white-graphic white_len s white_len-graphic h) (
    rw (skip_white-graphic white_len_back (reverse s) white_len_back-graphic k) (reverse-reverse s))

pub until_lem : (c : ℕ) (s rest : Text) → Lacks c s → until c (s ++ c ∷ rest) ≡ s
unfolding until
until_lem c [] rest h = ground arith
until_lem c (x ∷ s) rest (h, hs) = ground (arith, until_lem c s rest hs)

pub until_all : (c : ℕ) (s : Text) → Lacks c s → until c s ≡ s
unfolding until
until_all c [] h = refl
until_all c (x ∷ s) (h, hs) = ground (arith, until_all c s hs)

pub trim_end_matches_lem : (c : ℕ) (s : Text) → Lacks c s → trim_end_matches c (s ++ c ∷ []) ≡ s
unfolding trim_end_matches
trim_end_matches_lem c [] h = ground arith
trim_end_matches_lem c (x ∷ []) (h, hs) = ground arith
trim_end_matches_lem c (x ∷ y ∷ s) (h, hs) = ground (arith, trim_end_matches_lem c (y ∷ s) hs)

pub drop_return-Lacks : (s : Text) → Lacks 13 s → drop_return s ≡ s
unfolding drop_return
drop_return-Lacks [] h = refl
drop_return-Lacks (x ∷ []) (h, hs) = ground arith
drop_return-Lacks (x ∷ y ∷ s) (h, hs) = ground (arith, drop_return-Lacks (y ∷ s) hs)

lines_from-line :
    (s rest line : Text)
    → Lacks 10 s
    → lines_from (s ++ 10 ∷ rest) line ≡ drop_return (line ++ s) ∷ lines_from rest []
unfolding lines_from
lines_from-line [] rest line h = rw append-nil refl
lines_from-line (c ∷ s) rest line (h, hs) =
    ground (arith, lines_from-line s rest (line ++ c ∷ []) hs, append_assoc line (c ∷ []) s)

-- A line that a line feed ends, in front of others.
pub lines-line : (s rest : Text) → Lacks 10 s → Lacks 13 s → lines (s ++ 10 ∷ rest) ≡ s ∷ lines rest
unfolding lines
lines-line s rest h k = rw (lines_from-line s rest [] h) (rw (drop_return-Lacks s k) refl)
