-- ===== src/Ssh/KeyFile.antt =====
-- src/ssh.rs, Windows: a temporary file for the key, restricted to its owner before the key is
-- written and removed when the session ends.
pub mod Restricted
pub mod Left
pub mod Users
use cry.Base.{
  ℕ, List, [], ◌∷◌, ◌++◌, Option, none, some, Bool, true, false, ◌⊎◌, inl, inr, if◌then◌else◌,
  replicate, Text, codes,
}
use cry.Error.{IoError, invalid_format}
use cry.Hex.{bytes_to_hex}
use cry.Utf8.{is_utf8}
use cry.Str.{trim}
use cry.Process.{
  Command, new, arg, Output, create_new, open_write, metadata, write_all, flush, sync_all,
  remove_file, System, Session, pure, raise, scope, ◌>>=◌, ◌>>◌, run, try_call, file_len, random,
  or_io,
}
use cry.Ssh.Args.{SshArgs, append_common_ssh_args, opt}
use cry.Ssh.Agent.{run_ssh_program}

abbrev pub users : Text
users = codes "BUILTIN\\Users"

-- `.filter(|s| !s.is_empty()).unwrap_or_else(…)`.
abbrev pub or_users : Text → Text
or_users [] = users
or_users (c ∷ s) = c ∷ s

-- What `whoami_windows` makes of the outcome of `whoami`, whatever its status.
unfoldable pub user_of : IoError ⊎ Output → Text
unfolding is_utf8 trim
user_of (inl e) = users
user_of (inr out) = if is_utf8 out.stdout then or_users (trim out.stdout) else users

-- `path.to_str().unwrap_or("")`.
abbrev pub to_str_or_empty : Text → Text
to_str_or_empty path = if is_utf8 path then path else []

unfoldable pub icacls_command : Text → Text → Command
icacls_command path username = arg (username ++ codes ":F") (
    arg (codes "/grant:r")
      (arg (codes "/inheritance:r") (arg (to_str_or_empty path) (new (codes "icacls")))))

-- `.map(|s| s.success()).unwrap_or(false)`.
abbrev pub succeeded : IoError ⊎ Output → Bool
succeeded (inl e) = false
succeeded (inr out) = out.success

unfoldable pub windows_command : Text → SshArgs → Command
unfolding append_common_ssh_args
windows_command path args = append_common_ssh_args args (
    opt (codes "IdentityAgent=none") (
      opt (codes "PreferredAuthentications=publickey") (
        opt (codes "PubkeyAuthentication=yes")
          (opt (codes "IdentitiesOnly=yes") (arg path (arg (codes "-i") (new (codes "ssh"))))))))

module _ (sys : System) where
  unfoldable pub whoami_windows : Session Text
  unfolding user_of
  whoami_windows = do o ← run sys (new (codes "whoami")); pure (user_of o)

  -- Step 3: the key is written into the file that is locked down.
  unfoldable pub write_key_pem : Text → Text → Session Text
  write_key_pem path key_pem = do
    opened ← try_call sys (open_write path)
    or_io opened
    written ← try_call sys (write_all path key_pem)
    or_io written
    flushed ← try_call sys (flush path)
    or_io flushed
    pure path

  unfoldable pub give_up : Text → Session Text
  give_up path = do
    _ ← try_call sys (remove_file path)
    raise (
        invalid_format (
          codes
            "Failed to restrict temp key file permissions with icacls; refusing to write key material to an unsecured file."))

  -- Steps 1 to 3 on a path.
  unfoldable pub create_at : Text → Text → Session Text
  unfolding whoami_windows write_key_pem give_up icacls_command
  create_at path key_pem = do
    created ← try_call sys (create_new path)
    or_io created
    username ← whoami_windows
    o ← run sys (icacls_command path username)
    if succeeded o then write_key_pem path key_pem else give_up path

  abbrev pub key_path : List ℕ → Text
  key_path rng_bytes = sys.temp_path (codes "cry_" ++ (bytes_to_hex rng_bytes ++ codes ".pem"))

  -- `TempKeyFile::create`.
  unfoldable pub create_key_file : Text → Session Text
  unfolding create_at
  create_key_file key_pem = do rng_bytes ← random sys 8; create_at (key_path rng_bytes) key_pem

  -- The overwriting in `Drop`, by the outcomes of `metadata` and of `open`.
  unfoldable pub write_zeros : Text → Option IoError → Session (Unit {0})
  write_zeros path (some e) = pure tt
  write_zeros path none = do
    len ← file_len sys path
    _ ← try_call sys (write_all path (replicate len 0))
    _ ← try_call sys (sync_all path)
    pure tt

  unfoldable pub overwrite : Text → Option IoError → Session (Unit {0})
  unfolding write_zeros
  overwrite path (some e) = pure tt
  overwrite path none = do opened ← try_call sys (open_write path); write_zeros path opened

  -- `Drop for TempKeyFile`.
  unfoldable pub drop_key_file : Text → Session (Unit {0})
  unfolding overwrite
  drop_key_file path = do
    meta ← try_call sys (metadata path)
    overwrite path meta
    _ ← try_call sys (remove_file path)
    pure tt

  unfoldable pub run_ssh_windows : SshArgs → Text → Session (Unit {0})
  unfolding create_key_file drop_key_file windows_command run_ssh_program
  run_ssh_windows args key_pem = do
    path ← create_key_file key_pem
    scope (drop_key_file path) (run_ssh_program sys (windows_command path args))
