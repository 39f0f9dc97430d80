-- ===== src/Ssh/KeyFile/Users.antt =====
-- src/ssh.rs, Windows: whom the key file is restricted to.
use cry.Base.{◌≡◌, ap, ◌∙◌, ◌∷◌, none, true, inl, Text, codes, arith}
use cry.Error.{IoError, ok}
use cry.Process.{Command, new, create_new, open_write, write_all, flush, ran, called, Log, System}
use cry.Ssh.KeyFile.{
  users, user_of, succeeded, icacls_command, whoami_windows, write_key_pem, create_at, key_path,
  create_key_file,
}

module _ (sys : System) (key_pem : Text) (log : Log) where
  abbrev pub who : Command
  who = new (codes "whoami")

  abbrev pub path : Text
  path = key_path sys (sys.random log 8)

  abbrev pub created : Log
  created = called (create_new path) none ∷ log

  abbrev pub asked : Log
  asked = ran who (sys.run created who) ∷ created

  -- The log when icacls has been run for an account.
  abbrev pub granted : Text → Log
  granted user = ran (icacls_command path user) (sys.run asked (icacls_command path user)) ∷ asked

  -- The log when the key has been written.
  abbrev pub stored : Text → Log
  stored user =
      called (flush path) none
      ∷ called (write_all path key_pem) none
      ∷ called (open_write path) none
      ∷ granted user

  -- When no call on the file fails and icacls succeeds.
  create_key_file_account :
      ((l : Log) (p : Text) → sys.call l (create_new p) ≡ none)
      → ((l : Log) (p : Text) → sys.call l (open_write p) ≡ none)
      → ((l : Log) (p bs : Text) → sys.call l (write_all p bs) ≡ none)
      → ((l : Log) (p : Text) → sys.call l (flush p) ≡ none)
      → ((l : Log) (user : Text) → succeeded (sys.run l (icacls_command path user)) ≡ true)
      → create_key_file sys key_pem log ≡ (ok path, stored (user_of (sys.run created who)))
  unfolding create_key_file create_at whoami_windows write_key_pem
  create_key_file_account creates opens writes flushes grants =
      let user = user_of (sys.run created who) in
      let opened = called (open_write path) none ∷ granted user in
      let written = called (write_all path key_pem) none ∷ opened in
      ground (
        arith,
        creates log path,
        grants asked user,
        opens (granted user) path,
        writes opened path key_pem,
        flushes written path,
      )

  -- When `whoami` cannot be run, no call on a file fails and icacls succeeds on the key file, the
  -- key is written to the file after full control has been granted to the group BUILTIN\Users.
  pub create_key_file-users :
      (x : IoError)
      → ((l : Log) → sys.run l who ≡ inl x)
      → ((l : Log) (p : Text) → sys.call l (create_new p) ≡ none)
      → ((l : Log) (p : Text) → sys.call l (open_write p) ≡ none)
      → ((l : Log) (p bs : Text) → sys.call l (write_all p bs) ≡ none)
      → ((l : Log) (p : Text) → sys.call l (flush p) ≡ none)
      → ((l : Log) (user : Text) → succeeded (sys.run l (icacls_command path user)) ≡ true)
      → create_key_file sys key_pem log ≡ (ok path, stored users)
  unfolding user_of
  create_key_file-users x failed creates opens writes flushes grants =
      create_key_file_account creates opens writes flushes grants
      ∙ ap (λ o. (ok path, stored (user_of o))) (failed created)
