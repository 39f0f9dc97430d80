-- ===== src/Ssh/KeyFile/Left.antt =====
-- src/ssh.rs, Windows: which key files a log leaves behind.
use cry.Base.{
  ◌≡◌, refl, ◌∙◌, List, [], ◌∷◌, Option, none, some, true, list_eq, list_eq_refl, if◌then◌else◌,
  Text, codes, arith,
}
use cry.Error.{IoError, io, Result, ok, err, panicked, stuck}
use cry.Process.{
  Command, new, create_new, open_write, metadata, write_all, flush, remove_file, Event, ran, called,
  Log, System, Session, scope, carry_on,
}
use cry.Ssh.Args.{SshArgs}
use cry.Ssh.Agent.{run_ssh_program}
use cry.Ssh.KeyFile.{
  user_of, succeeded, icacls_command, windows_command, whoami_windows, write_key_pem, give_up,
  create_at, key_path, create_key_file, write_zeros, overwrite, drop_key_file, run_ssh_windows,
}

unfoldable pub drop_path : Text → List Text → List Text
drop_path path [] = []
drop_path path (p ∷ l) = if list_eq p path then l else p ∷ drop_path path l

-- What an event makes of the files that are left.
abbrev pub after_event : Event → List Text → List Text
after_event (called (create_new p) none) l = p ∷ l
after_event (called (remove_file p) none) l = drop_path p l
after_event e l = l

-- The files that have been created and not been removed, the latest first.
unfoldable pub left : Log → List Text
unfolding drop_path
left [] = []
left (e ∷ log) = after_event e (left log)

drop_path_latest : (p : Text) (l : List Text) → drop_path p (p ∷ l) ≡ l
unfolding drop_path
drop_path_latest p l = rw (list_eq_refl p) refl

module _ (sys : System) where
  -- A file that this program has created can be removed.
  abbrev pub Removes : Type 0
  Removes = (log : Log) (p : Text) → sys.call log (remove_file p) ≡ none

  -- A file that has been created can be opened, written and flushed.
  abbrev pub Writes : Type 0
  Writes =
      (log : Log) (p bs : Text)
      → (sys.call log (open_write p) ≡ none)
        × (sys.call log (write_all p bs) ≡ none)
        × (sys.call log (flush p) ≡ none)

  write_key_pem-ok :
      Writes
      → (path key_pem : Text) (log : Log)
      → let (r, log') = write_key_pem sys path key_pem log in (r ≡ ok path) × (left log' ≡ left log)
  unfolding write_key_pem left
  write_key_pem-ok writes path key_pem log =
      let opened = called (open_write path) none ∷ log in
      let written = called (write_all path key_pem) none ∷ opened in
      ground
        (arith, writes log path key_pem, writes opened path key_pem, writes written path key_pem)

  run_ssh_program-left :
      (cmd : Command) (log : Log) → left (run_ssh_program sys cmd log).1 ≡ left log
  unfolding run_ssh_program left
  run_ssh_program-left cmd log = ground arith

  -- The overwriting leaves the files as they are.
  overwrite-left :
      (path : Text) (r : Option IoError) (log : Log) → left (overwrite sys path r log).1 ≡ left log
  unfolding overwrite write_zeros left
  overwrite-left path r log = ground arith

  overwrite-ok :
      (path : Text) (r : Option IoError) (log : Log) → (overwrite sys path r log).0 ≡ ok tt
  unfolding overwrite write_zeros
  overwrite-ok path r log = ground arith

  drop_key_file-left :
      Removes
      → (path : Text) (log : Log) (l : List Text) → left log ≡ path ∷ l
      → left (drop_key_file sys path log).1 ≡ l
  unfolding drop_key_file left
  drop_key_file-left removes path log l e =
      let meta = sys.call log (metadata path) in
      let looked = called (metadata path) meta ∷ log in
      rw (overwrite-ok path meta looked, carry_on)
        (rw (removes (overwrite sys path meta looked).1 path)
          (rw (overwrite-left path meta looked) (rw e (drop_path_latest path l))))

  -- A creation leaves the file that it gives, and nothing if it fails.
  abbrev with_result : Result Text → List Text → List Text
  with_result (ok p) l = p ∷ l
  with_result (err e) l = l
  with_result panicked l = l
  with_result stuck l = l

  create_at-left :
      Removes
      → Writes
      → (path key_pem : Text) (log : Log)
      → let (r, log') = create_at sys path key_pem log in left log' ≡ with_result r (left log)
  unfolding create_at whoami_windows give_up left
  create_at-left removes writes path key_pem log =
      let made = called (create_new path) none ∷ log in
      let who = new (codes "whoami") in
      let asked = ran who (sys.run made who) ∷ made in
      let icacls = icacls_command path (user_of (sys.run made who)) in
      let after = ran icacls (sys.run asked icacls) ∷ asked in
      ground (
        arith,
        removes after path,
        write_key_pem-ok writes path key_pem after,
        drop_path_latest path (left log),
      )

  -- A session on Windows has removed at its end every file that it has created, whether icacls
  -- succeeds or not and however `ssh` ends, where no call fails that removes, opens, writes or
  -- flushes a file.
  pub run_ssh_windows-left :
      Removes
      → Writes
      → (args : SshArgs) (key_pem : Text) (log : Log)
      → left (run_ssh_windows sys args key_pem log).1 ≡ left log
  unfolding run_ssh_windows create_key_file
  run_ssh_windows-left removes writes args key_pem log =
      let path = key_path sys (sys.random log 8) in
      let (r, log') = create_at sys path key_pem log in
      go r log' (create_at-left removes writes path key_pem log)
    where
      session : Text → Session (Unit {0})
      session p = scope (drop_key_file sys p) (run_ssh_program sys (windows_command p args))

      go :
          (r : Result Text) (log' : Log)
          → left log' ≡ with_result r (left log)
          → left (carry_on session r log').1 ≡ left log
      go (ok p) log' e =
          drop_key_file-left removes p (run_ssh_program sys (windows_command p args) log').1
            (left log) (run_ssh_program-left (windows_command p args) log' ∙ e)
      go (err x) log' e = e
      go panicked log' e = e
      go stuck log' e = e

  -- On Windows, when every program succeeds, and files can be created and opened but not written,
  -- the session ends with the error of the write, and the key file is left.
  pub run_ssh_windows_unwritten :
      (x : IoError) (args : SshArgs) (key_pem : Text) (log : Log)
      → ((l : Log) (p : Text) → sys.call l (create_new p) ≡ none)
      → ((l : Log) (cmd : Command) → succeeded (sys.run l cmd) ≡ true)
      → ((l : Log) (p : Text) → sys.call l (open_write p) ≡ none)
      → ((l : Log) (p bs : Text) → sys.call l (write_all p bs) ≡ some x)
      → ((run_ssh_windows sys args key_pem log).0 ≡ err (io x))
        × (left (run_ssh_windows sys args key_pem log).1
            ≡ key_path sys (sys.random log 8) ∷ left log)
  unfolding run_ssh_windows create_key_file create_at whoami_windows write_key_pem left
  run_ssh_windows_unwritten x args key_pem log creates runs opens fails =
      let path = key_path sys (sys.random log 8) in
      let made = called (create_new path) none ∷ log in
      let who = new (codes "whoami") in
      let asked = ran who (sys.run made who) ∷ made in
      let icacls = icacls_command path (user_of (sys.run made who)) in
      let after = ran icacls (sys.run asked icacls) ∷ asked in
      ground (
        arith,
        creates log path,
        runs asked icacls,
        opens after path,
        fails (called (open_write path) none ∷ after) path key_pem,
      )
