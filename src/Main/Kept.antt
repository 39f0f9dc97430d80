-- ===== src/Main/Kept.antt =====
-- src/main.rs: what runs of the program without `--force` leave as it is.
use cry.Base.{ℕ, ◌≡◌, ◌≢◌, List, [], Option, none, some, true, false, Text}
use cry.Crypto.{Crypto, KeyCrates}
use cry.Header.{Algorithm}
use cry.Fs.Keeps.{Keeps, Holds, keeps_rules}
use cry.File.{Os, encrypt_tmp, decrypt_tmp}
use cry.Passphrase.{Terminal}
use cry.Passphrase.Keeps.{passphrase_rules}
use cry.Commands.Guard.{
  encrypt_command-Keeps, decrypt_command-Keeps, keygen_command-Keeps, derive_command-Keeps,
  sign_command-Keeps, verify_command-Keeps,
}
use cry.Bench.{Floats, BenchArgs}
use cry.Bench.Run.{benchmark_algorithm, run_bench}
use cry.Process.{System}
use cry.Ssh.{Platform}
use cry.Main.{
  CliCommand, encrypt, decrypt, keygen, derive, sign, verify, bench, ssh, State, ssh_pass,
  ssh_command, dispatch, main,
}

-- The command is not forced, and `q` is not the path of its temporary file.
abbrev pub Spares : Text → Option CliCommand → Type 0
Spares q none = Unit
Spares q (some (encrypt args)) = (args.force ≡ false) × (q ≢ encrypt_tmp args.cipher)
Spares q (some (decrypt args)) = (args.force ≡ false) × (q ≢ decrypt_tmp args.plain)
Spares q (some (keygen args)) = args.force ≡ false
Spares q (some (derive args)) = args.force ≡ false
Spares q (some (sign args)) = Unit
Spares q (some (verify args)) = Unit
Spares q (some (bench args)) = Unit
Spares q (some (ssh args)) = Unit

module _ (fl : Floats) (c : Crypto) {q : Text} {v : Option (List ℕ)} where
  benchmark_algorithm-Keeps :
      (algo : Algorithm) (plain key : List ℕ) (warmup samples : ℕ)
      → Keeps true q v (benchmark_algorithm fl c algo plain key warmup samples)
  unfolding benchmark_algorithm
  benchmark_algorithm-Keeps algo plain key warmup samples = search keeps_rules

  run_bench-Keeps : (args : BenchArgs) → Keeps true q v (run_bench fl c args)
  unfolding run_bench
  run_bench-Keeps args = search (keeps_rules, benchmark_algorithm-Keeps) depth 20

ssh_pass-Keeps :
    {q : Text} {v : Option (List ℕ)} (t : Terminal) (given : Option Text)
    → Keeps true q v (ssh_pass t given)
unfolding ssh_pass
ssh_pass-Keeps t (some raw) = search passphrase_rules
ssh_pass-Keeps t none = search passphrase_rules

module _ (fl : Floats) (c : Crypto) (k : KeyCrates) (os : Os) (t : Terminal) (sys : System)
    (platform : Platform) where
  main-kept :
      (q : Text) (bs : List ℕ) (command : Option CliCommand) (s : State)
      → Spares q command
      → Holds true q (some bs) s.world
      → Holds true q (some bs) (main fl c k os t sys platform command s).1.world
  unfolding main dispatch ssh_command
  main-kept q bs none s spared e = e
  main-kept q bs (some (encrypt args)) s (unforced, ne) e =
      (encrypt_command-Keeps c k os t args unforced ne).at s.world e
  main-kept q bs (some (decrypt args)) s (unforced, ne) e =
      (decrypt_command-Keeps c k os t args unforced ne).at s.world e
  main-kept q bs (some (keygen args)) s unforced e =
      (keygen_command-Keeps c k os t args unforced).at s.world e
  main-kept q bs (some (derive args)) s unforced e =
      (derive_command-Keeps c k os t args unforced).at s.world e
  main-kept q bs (some (sign args)) s spared e = (sign_command-Keeps c k os t args).at s.world e
  main-kept q bs (some (verify args)) s spared e = (verify_command-Keeps c k os t args).at s.world e
  main-kept q bs (some (bench args)) s spared e = (run_bench-Keeps fl c args).at s.world e
  main-kept q bs (some (ssh args)) s spared e = (ssh_pass-Keeps t args.passphrase).at s.world e

  -- The states that runs of the program reach from one with commands that spare a file, one after
  -- the other.
  pub data Runs (q : Text) (from : State) : State → Type 0 where
    start : Runs q from from
    run :
        {s : State}
        → Runs q from s
        → (command : Option CliCommand) → Spares q command
        → Runs q from (main fl c k os t sys platform command s).1

  pub Runs-Holds :
      {q : Text} {from s : State} (bs : List ℕ)
      → Runs q from s
      → Holds true q (some bs) from.world
      → Holds true q (some bs) s.world
  Runs-Holds bs start h = h
  Runs-Holds {q} bs (run {s} before command spared) h =
      main-kept q bs command s spared (Runs-Holds bs before h)

  -- Whatever commands are run, one after the other, with whatever outcome, where no `Path::exists`
  -- fails, whatever other calls do: a file that is there keeps its contents, if no `--force` is
  -- given and its path is not the temporary file of an encryption or a decryption among them. The
  -- key file of a session on Windows is not among these files.
  pub Runs-kept :
      {q : Text} {from s : State} (bs : List ℕ)
      → Runs q from s
      → from.world.stat_faults ≡ []
      → from.world.files q ≡ some bs
      → s.world.files q ≡ some bs
  Runs-kept bs runs sound e = (Runs-Holds bs runs (sound, e)).1
