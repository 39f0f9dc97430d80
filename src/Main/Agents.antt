-- ===== src/Main/Agents.antt =====
-- src/main.rs on Unix: no run of the program leaves an agent behind.
use cry.Base.{ℕ, ◌≡◌, refl, ◌∙◌, List, Option, none, some, Text}
use cry.Error.{Result, ok, err, panicked, stuck}
use cry.Crypto.{Crypto, KeyCrates}
use cry.File.{Os}
use cry.Passphrase.{Terminal}
use cry.Bench.{Floats}
use cry.Process.{Log, System}
use cry.Process
use cry.Ssh.Args.{SshArgs}
use cry.Ssh.{unix, session_key, run_ssh}
use cry.Ssh.Agent.{run_ssh_unix}
use cry.Ssh.Agent.Running.{unkilled}
use cry.Ssh.Agent.Left.{Announces, run_ssh_unix-unkilled}
use cry.Main.{
  CliCommand, encrypt, decrypt, keygen, derive, sign, verify, bench, ssh, State, ssh_pass,
  ssh_command, dispatch, main,
}

module _ (fl : Floats) (c : Crypto) (k : KeyCrates) (os : Os) (t : Terminal) (sys : System)
    (announces : Announces sys) where
  run_ssh-unkilled :
      (args : SshArgs) (p : List ℕ) (log : Log)
      → unkilled (run_ssh c k sys unix args p log).1 ≡ unkilled log
  unfolding run_ssh
  run_ssh-unkilled args p log = go (session_key c k args p)
    where
      go :
          (r : Result Text)
          → unkilled (Process.carry_on (run_ssh_unix sys args) r log).1 ≡ unkilled log
      go (ok pem) = run_ssh_unix-unkilled sys announces args pem log
      go (err e) = refl
      go panicked = refl
      go stuck = refl

  ssh_command-unkilled :
      (args : SshArgs) (s : State)
      → unkilled (ssh_command fl c k os t sys unix args s).1.log ≡ unkilled s.log
  unfolding ssh_command
  ssh_command-unkilled args s = go (ssh_pass t args.passphrase s.world).0
    where
      go :
          (p : Result (List ℕ))
          → unkilled (Process.carry_on (run_ssh c k sys unix args) p s.log).1 ≡ unkilled s.log
      go (ok p) = run_ssh-unkilled args p s.log
      go (err e) = refl
      go panicked = refl
      go stuck = refl

  main-unkilled :
      (command : Option CliCommand) (s : State)
      → unkilled (main fl c k os t sys unix command s).1.log ≡ unkilled s.log
  unfolding main dispatch
  main-unkilled none s = refl
  main-unkilled (some (encrypt args)) s = refl
  main-unkilled (some (decrypt args)) s = refl
  main-unkilled (some (keygen args)) s = refl
  main-unkilled (some (derive args)) s = refl
  main-unkilled (some (sign args)) s = refl
  main-unkilled (some (verify args)) s = refl
  main-unkilled (some (bench args)) s = refl
  main-unkilled (some (ssh args)) s = ssh_command-unkilled args s

  -- The states that runs of the program reach from one, with any commands, one after the other.
  pub data Reach (from : State) : State → Type 0 where
    here : Reach from from
    next :
        {s : State}
        → Reach from s
        → (command : Option CliCommand) → Reach from (main fl c k os t sys unix command s).1

  -- On Unix, whatever commands are run, one after the other, with whatever outcome: the agents
  -- that have been started and that `ssh-agent -k` has not been run for are at the end those of
  -- the start, if `ssh-agent -s`, whenever it succeeds, prints an SSH_AUTH_SOCK that is found.
  pub Reach-unkilled : {from s : State} → Reach from s → unkilled s.log ≡ unkilled from.log
  Reach-unkilled here = refl
  Reach-unkilled (next {s} before command) = main-unkilled command s ∙ Reach-unkilled before
