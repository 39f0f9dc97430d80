-- ===== src/Process.antt =====
-- `std::process` and the files of src/ssh.rs: what the program asks of the system, in order, and
-- how the system answers. The system is a parameter, and may answer anything at each call.
use cry.Base.{ℕ, List, [], ◌∷◌, ◌++◌, Option, none, some, Bool, ◌⊎◌, inl, inr, Text}
use cry.Error.{IoError, CryError, io, Result, ok, err, panicked, stuck}

-- `std::process::Command`: the variables that are set (`some`) or removed (`none`) stand in order.
pub record Command : Type 0 where
  pub program : Text
  pub args : List Text
  pub envs : List (Text × Option Text)

abbrev pub new : Text → Command
new program = record { program = program; args = []; envs = [] }

abbrev pub arg : Text → Command → Command
arg a cmd = record cmd { args = cmd.args ++ a ∷ [] }

abbrev pub env : Text → Text → Command → Command
env name value cmd = record cmd { envs = cmd.envs ++ (name, some value) ∷ [] }

abbrev pub env_remove : Text → Command → Command
env_remove name cmd = record cmd { envs = cmd.envs ++ (name, none) ∷ [] }

-- `std::process::Output`; a status that was not collected has empty texts.
pub record Output : Type 0 where
  pub success : Bool
  pub stdout : List ℕ
  pub stderr : List ℕ

-- The calls that answer with nothing but success or an error.
pub data Call : Type 0 where
  spawn : Command → Call
  write_stdin : List ℕ → Call
  create_new : Text → Call
  open_write : Text → Call
  metadata : Text → Call
  write_all : Text → List ℕ → Call
  flush : Text → Call
  sync_all : Text → Call
  remove_file : Text → Call

-- What has been done: a program that was run to its end, the wait for the program that was
-- spawned, or a call; and how it came out.
pub data Event : Type 0 where
  ran : Command → IoError ⊎ Output → Event
  waited : Command → IoError ⊎ Output → Event
  called : Call → Option IoError → Event

-- All that has been done, the latest first.
abbrev pub Log : Type 0
Log = List Event

pub record System : Type 0 where
  pub run : Log → Command → IoError ⊎ Output
  pub wait : Log → Command → IoError ⊎ Output
  pub call : Log → Call → Option IoError
  -- `metadata(path)?.len()`.
  pub file_len : Log → Text → ℕ
  -- `OsRng.fill_bytes`.
  pub random : Log → ℕ → List ℕ
  -- `std::env::temp_dir().join(name)`.
  pub temp_path : Text → Text
  -- `format!("{e}")`.
  pub describe : IoError → Text

abbrev pub Session {ℓ} : Type ℓ → Type ℓ
Session A = Log → Result A × Log

module _ {ℓ} {A : Type ℓ} where
  abbrev pub pure : A → Session A
  pure a log = (ok a, log)

  abbrev pub raise : CryError → Session A
  raise e log = (err e, log)

  abbrev pub lift : Result A → Session A
  lift r log = (r, log)

  -- A scope that ends by dropping a value: `drop` runs however `body` ends.
  abbrev pub scope : Session (Unit {0}) → Session A → Session A
  scope drop body log = let (r, log') = body log in (r, (drop log').1)

abbrev pub carry_on {ℓ κ} : {A : Type ℓ} {B : Type κ} → (A → Session B) → Result A → Session B
carry_on f (ok a) log = f a log
carry_on f (err e) log = (err e, log)
carry_on f panicked log = (panicked, log)
carry_on f stuck log = (stuck, log)

infixl 5 ◌>>=◌ ◌>>◌
abbrev pub ◌>>=◌ {ℓ κ} : {A : Type ℓ} {B : Type κ} → Session A → (A → Session B) → Session B
◌>>=◌ m f log = let (r, log') = m log in carry_on f r log'

abbrev pub ◌>>◌ {ℓ κ} : {A : Type ℓ} {B : Type κ} → Session A → Session B → Session B
m >> k = m >>= λ _. k

module _ (sys : System) where
  -- `output()` and `status()`; the outcome is a value, for the caller to look at.
  abbrev pub run : Command → Session (IoError ⊎ Output)
  run cmd log = (ok (sys.run log cmd), ran cmd (sys.run log cmd) ∷ log)

  abbrev pub wait_with_output : Command → Session (IoError ⊎ Output)
  wait_with_output cmd log = (ok (sys.wait log cmd), waited cmd (sys.wait log cmd) ∷ log)

  abbrev pub try_call : Call → Session (Option IoError)
  try_call c log = (ok (sys.call log c), called c (sys.call log c) ∷ log)

  abbrev pub file_len : Text → Session ℕ
  file_len p log = (ok (sys.file_len log p), log)

  abbrev pub random : ℕ → Session (List ℕ)
  random n log = (ok (sys.random log n), log)

-- `map_err(CryError::Io)?` on a call, and on a program's outcome.
abbrev pub or_io : Option IoError → Session (Unit {0})
or_io none log = (ok tt, log)
or_io (some e) log = (err (io e), log)

abbrev pub output_or_io : IoError ⊎ Output → Session Output
output_or_io (inr out) log = (ok out, log)
output_or_io (inl e) log = (err (io e), log)
