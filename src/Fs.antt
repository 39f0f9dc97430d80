-- ===== src/Fs.antt =====
-- `std::fs`, `std::path` and `OsRng` as the program uses them: a world of regular files by path, in
-- which every call may fail.
pub mod Path
pub mod Stands
pub mod Keeps
pub mod Ends
pub mod Calm
pub mod Fails
use cry.Base.{
  ℕ, zero, suc, ◌+◌, ◌%◌, List, [], ◌∷◌, ◌++◌, Option, none, some, Bool, true, false, list_eq,
  if◌then◌else◌, length, Text,
}
use cry.Error.{IoError, other, CryError, io, file_exists, Result, ok, err, panicked, stuck}

pub record World : Type 0 where
  pub files : Text → Option (List ℕ)
  -- For each coming call on a path, the error that it fails with, if it fails.
  pub faults : List (Option IoError)
  -- The same for the writes of a stream.
  pub stream_faults : List (Option IoError)
  -- For each coming `path.exists()`, the error that its call of the system fails with, if it fails.
  pub stat_faults : List (Option IoError)
  -- What a stream that fails has left in its file.
  pub residue : List ℕ
  -- The bytes that the system's generator gives, and how many are drawn.
  pub entropy : ℕ → ℕ
  pub drawn : ℕ

-- `ErrorKind::NotFound`.
abbrev pub not_found : IoError
not_found = other 2

abbrev pub Action {ℓ} : Type ℓ → Type ℓ
Action A = World → Result A × World

module _ {ℓ} {A : Type ℓ} where
  abbrev pub pure : A → Action A
  pure a w = (ok a, w)

  abbrev pub raise : CryError → Action A
  raise e w = (err e, w)

  abbrev pub lift : Result A → Action A
  lift r w = (r, w)

  -- Runs a closure and hands on how it ended.
  abbrev pub attempt : Action A → Action (Result A)
  attempt m w = let (r, w') = m w in (ok r, w')

  -- `let _ = m`: the outcome is dropped.
  abbrev pub ignore : Action A → Action (Unit {0})
  ignore m w = let (r, w') = m w in (ok tt, w')

abbrev pub carry_on {ℓ κ} : {A : Type ℓ} {B : Type κ} → (A → Action B) → Result A → Action B
carry_on f (ok a) w = f a w
carry_on f (err e) w = (err e, w)
carry_on f panicked w = (panicked, w)
carry_on f stuck w = (stuck, w)

infixl 5 ◌>>=◌ ◌>>◌
abbrev pub ◌>>=◌ {ℓ κ} : {A : Type ℓ} {B : Type κ} → Action A → (A → Action B) → Action B
◌>>=◌ m f w = let (r, w') = m w in carry_on f r w'

abbrev pub ◌>>◌ {ℓ κ} : {A : Type ℓ} {B : Type κ} → Action A → Action B → Action B
m >> k = m >>= λ _. k

-- The file table with one path given anew.
abbrev pub update : (Text → Option (List ℕ)) → Text → Option (List ℕ) → Text → Option (List ℕ)
update files p v q = if list_eq p q then v else files q

-- Whether the next call on a path fails.
unfoldable pub next_call : Action (Unit {0})
next_call w = elim w.faults [
  | [] ↦ (ok tt, w)
  | none ∷ faults ↦ (ok tt, record w { faults = faults })
  | some e ∷ faults ↦ (err (io e), record w { faults = faults })
]

-- The contents of a file, or `NotFound`.
abbrev pub contents : Text → Action (List ℕ)
contents p w = elim (w.files p) [ none ↦ (err (io not_found), w) | some bs ↦ (ok bs, w) ]

abbrev pub put_file : Text → Option (List ℕ) → Action (Unit {0})
put_file p v w = (ok tt, record w { files = update w.files p v })

abbrev pub is_there : Option (List ℕ) → Bool
is_there none = false
is_there (some bs) = true

-- `path.exists()`, which takes any failure for a path that is not there.
unfoldable pub exists : Text → Action Bool
exists p w = elim w.stat_faults [
  | [] ↦ (ok (is_there (w.files p)), w)
  | none ∷ faults ↦ (ok (is_there (w.files p)), record w { stat_faults = faults })
  | some e ∷ faults ↦ (ok false, record w { stat_faults = faults })
]

-- `metadata(path)?.len()`.
unfoldable pub metadata_len : Text → Action ℕ
unfolding next_call
metadata_len p = do next_call; bs ← contents p; pure (length bs)

-- `File::open(path)`: the handle reads the file as it is when it is read.
unfoldable pub open_file : Text → Action (Unit {0})
unfolding next_call
open_file p = do next_call; bs ← contents p; pure tt

-- `File::create(path)`: an empty file.
unfoldable pub create_file : Text → Action (Unit {0})
unfolding next_call
create_file p = do next_call; put_file p (some [])

-- `fs::read(path)`.
unfoldable pub read_file : Text → Action (List ℕ)
unfolding next_call
read_file p = do next_call; contents p

unfoldable pub rename_file : Text → Text → Action (Unit {0})
unfolding next_call
rename_file from to = do next_call; bs ← contents from; put_file from none; put_file to (some bs)

unfoldable pub remove_file : Text → Action (Unit {0})
unfolding next_call
remove_file p = do next_call; bs ← contents p; put_file p none

-- `fs::write(path, bytes)`: the file is created, and then written, which may fail too.
unfoldable pub write_file : Text → List ℕ → Action (Unit {0})
unfolding create_file next_call
write_file p bs = do create_file p; next_call; put_file p (some bs)

-- `OsRng.fill_bytes` on an array of `n` bytes.
unfoldable pub draw : ℕ → (ℕ → ℕ) → ℕ → List ℕ
draw zero entropy at = []
draw (suc n) entropy at = (entropy at % 256) ∷ draw n entropy (at + 1)

unfoldable pub fill_bytes : ℕ → Action (List ℕ)
unfolding draw
fill_bytes n w = (ok (draw n w.entropy w.drawn), record w { drawn = w.drawn + n })

-- `if path.exists() && !force { return Err(FileExists) }`.
unfoldable pub ensure_writable : Text → Bool → Action (Unit {0})
unfolding exists
ensure_writable p force = do
  there ← exists p
  if there then (if force then pure tt else raise (file_exists p)) else pure tt
