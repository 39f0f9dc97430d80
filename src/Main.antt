-- ===== src/Main.antt =====
-- src/main.rs: `main`, from the command that is parsed to the exit status, over the files and the
-- log of what other programs have been asked for. Output is left out.
pub mod Agents
pub mod Calm
pub mod Kept
pub mod Outcome
pub mod Passphrases
pub mod Recovered
pub mod Reproduced
pub mod SameKey
pub mod Size
pub mod Verdict
use cry.Base.{ℕ, List, Option, none, some, Bool, true, false, Text}
use cry.Error.{Result, ok, err, panicked, stuck}
use cry.Crypto.{Crypto, KeyCrates}
use cry.Fs.{World, Action, pure}
use cry.File.{Os}
use cry.Keygen.{KeygenArgs, DeriveArgs}
use cry.Passphrase.{Terminal, read_passphrase}
use cry.Commands.{
  EncryptArgs, DecryptArgs, SignArgs, VerifyArgs, encrypt_command, decrypt_command, keygen_command,
  derive_command, sign_command, verify_command,
}
use cry.Bench.{Floats, BenchArgs}
use cry.Bench.Run.{run_bench}
use cry.Process.{Log, System}
use cry.Process
use cry.Ssh.Args.{SshArgs}
use cry.Ssh.{Platform, run_ssh}

-- `enum Command` of the command line.
pub data CliCommand : Type 0 where
  encrypt : EncryptArgs → CliCommand
  decrypt : DecryptArgs → CliCommand
  keygen : KeygenArgs → CliCommand
  derive : DeriveArgs → CliCommand
  sign : SignArgs → CliCommand
  verify : VerifyArgs → CliCommand
  bench : BenchArgs → CliCommand
  ssh : SshArgs → CliCommand

-- The passphrase of `cry ssh`.
unfoldable pub ssh_pass : Terminal → Option Text → Action (List ℕ)
unfolding read_passphrase
ssh_pass t (some raw) = pure raw
ssh_pass t none = read_passphrase t none false

-- What a run changes.
pub record State : Type 0 where
  pub world : World
  pub log : Log

-- What a command prints is left out.
abbrev pub forget {ℓ} : {A : Type ℓ} → Result A → Result (Unit {0})
forget (ok a) = ok tt
forget (err e) = err e
forget panicked = panicked
forget stuck = stuck

-- A command that runs no other program.
abbrev pub on_world {ℓ} : {A : Type ℓ} → Action A → State → Result (Unit {0}) × State
on_world m s = (forget (m s.world).0, record s { world = (m s.world).1 })

-- The status that the process exits with: `main` returns, calls `exit(1)`, or panics. A model that
-- is stuck has none.
unfoldable pub exit_status {ℓ} : {A : Type ℓ} → Result A → Option ℕ
exit_status (ok a) = some 0
exit_status (err e) = some 1
exit_status panicked = some 101
exit_status stuck = none

module _ (fl : Floats) (c : Crypto) (k : KeyCrates) (os : Os) (t : Terminal) (sys : System)
    (platform : Platform) where
  unfoldable pub ssh_command : SshArgs → State → Result (Unit {0}) × State
  unfolding ssh_pass run_ssh
  ssh_command args s =
      let (p, w) = ssh_pass t args.passphrase s.world in
      let (r, log) = Process.carry_on (run_ssh c k sys platform args) p s.log in
      (r, record { world = w; log = log })

  -- The `match` on the command.
  unfoldable pub dispatch : CliCommand → State → Result (Unit {0}) × State
  unfolding ssh_command
  dispatch (encrypt args) = on_world (encrypt_command c k os t args)
  dispatch (decrypt args) = on_world (decrypt_command c k os t args)
  dispatch (keygen args) = on_world (keygen_command c k os t args)
  dispatch (derive args) = on_world (derive_command c k os t args)
  dispatch (sign args) = on_world (sign_command c k os t args)
  dispatch (verify args) = on_world (verify_command c k os t args)
  dispatch (bench args) = on_world (run_bench fl c args)
  dispatch (ssh args) = ssh_command args

  -- Without a command the help is printed.
  unfoldable pub main : Option CliCommand → State → Option ℕ × State
  unfolding dispatch exit_status
  main none s = (some 0, s)
  main (some command) s = let (r, s') = dispatch command s in (exit_status r, s')
