-- ===== src/Fs/Path.antt =====
-- `Path::with_extension`, for a path whose last part is a file name: not empty, `.` or `..`.
use cry.Base.{ℕ, [], ◌∷◌, ◌++◌, Option, none, some, ◌==◌, if◌then◌else◌, Text}

-- The text before the last `sep`, and the text behind it.
unfoldable pub split_last : ℕ → Text → Option (Text × Text)
split_last sep [] = none
split_last sep (x ∷ xs) = elim (split_last sep xs) [
  | some (a, b) ↦ some (x ∷ a, b)
  | none ↦ if x == sep then some ([], xs) else none
]

-- The directory with its slash, and the file name.
unfoldable pub split_name : Text → Text × Text
unfolding split_last
split_name p = elim (split_last b'/' p) [ none ↦ ([], p) | some (d, f) ↦ (d ++ (b'/' ∷ []), f) ]

-- `file_stem`: a dot at the front begins no extension.
unfoldable pub file_stem : Text → Text
unfolding split_last
file_stem name = elim (split_last b'.' name) [
  | none ↦ name
  | some ([], e) ↦ name
  | some (s ∷ ss, e) ↦ s ∷ ss
]

unfoldable pub with_extension : Text → Text → Text
unfolding split_name file_stem
with_extension p ext = let (d, f) = split_name p in d ++ (file_stem f ++ (b'.' ∷ ext))
