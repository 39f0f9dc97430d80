-- ===== src/Examples/Sessions.antt =====
-- SSH sessions of src/ssh.rs at a concrete system, whose programs all succeed, and at systems that
-- fail in one respect.
use cry.Base.{
  ◌≡◌, ◌⊎◌, refl, [], ◌∷◌, ◌++◌, Option, none, some, true, inl, inr, list_eq, if◌then◌else◌, arith,
  Text, codes,
}
use mathlib.Core.Path.{subst}
use cry.Error.{IoError, other, CryError, io, ok, err}
use cry.Utf8.{is_utf8}
use cry.Str.{from_utf8_lossy, trim, lines, replacement}
use cry.Process.{Output, Call, write_all, System}
use cry.Ssh.Args.{SshArgs}
use cry.Ssh.Agent.{TempAgent, agent_in, agent_of, extract_var, run_ssh_unix}
use cry.Ssh.Agent.Settings.{sh, csh, printed, IsWord}
use cry.Ssh.Agent.Parse.{agent_of-printed}
use cry.Ssh.Agent.Running.{has_args, unkilled}
use cry.Ssh.Agent.Left.{Announces, run_ssh_unix_unparsed}
use cry.Ssh.Agent.Safe.{safe, run_ssh_unix-safe}
use cry.Ssh.KeyFile.{run_ssh_windows, key_path}
use cry.Ssh.KeyFile.Restricted.{guarded, run_ssh_windows-guarded}
use cry.Ssh.KeyFile.Left.{left, run_ssh_windows-left, run_ssh_windows_unwritten}

trim_test : trim (codes " \t ab c;\r ") ≡ codes "ab c;"
unfolding trim codes
trim_test = refl

lines_test : lines (codes "ab\r\n\ncd") ≡ codes "ab" ∷ [] ∷ codes "cd" ∷ []
unfolding lines codes
lines_test = refl

lossy_test :
    from_utf8_lossy (b'a' ∷ 0xff ∷ 0xe2 ∷ 0x80 ∷ b'b' ∷ 0xc3 ∷ 0xa9 ∷ [])
    ≡ b'a' ∷ (replacement ++ (replacement ++ b'b' ∷ 0xc3 ∷ 0xa9 ∷ []))
unfolding from_utf8_lossy
lossy_test = refl

abbrev pub a_socket : Text
a_socket = codes "/tmp/ssh-x/agent.7"

abbrev pub a_pid : Text
a_pid = codes "8"

a_socket-IsWord : IsWord a_socket
unfolding codes
a_socket-IsWord = omega arith

a_pid-IsWord : IsWord a_pid
unfolding codes
a_pid-IsWord = omega arith

agent_of-printed_example :
    agent_of
      (λ e. [])
      (inr (record { success = true; stdout = printed csh a_socket a_pid; stderr = [] }))
    ≡ ok (record { socket = a_socket; pid = some a_pid })
agent_of-printed_example =
    agent_of-printed csh a_socket a_pid a_socket-IsWord a_pid-IsWord (λ e. []) []

-- A program that succeeds and prints the given text.
abbrev pub prints : Text → IoError ⊎ Output
prints text = inr (record { success = true; stdout = text; stderr = [] })

-- A system in which every program prints one text, and every call is answered alike.
abbrev pub a_system : (IoError ⊎ Output) → (Call → Option IoError) → System
a_system ended answer = record {
  run = λ log cmd. ended;
  wait = λ log cmd. ended;
  call = λ log c. answer c;
  file_len = λ log p. 3;
  random = λ log n. 1 ∷ 2 ∷ [];
  temp_path = λ name. codes "/tmp/";
  describe = λ e. [];
}

abbrev pub a_good_system : System
a_good_system = a_system (prints (printed sh a_socket a_pid)) (λ c. none)

pub a_good_system-Announces : Announces a_good_system
unfolding agent_of
a_good_system-Announces log out e good =
    let text = printed sh a_socket a_pid in
    let same : ◌≡◌ {A = Output} (record { success = true; stdout = text; stderr = [] }) out = cc in
    let agent : TempAgent = record { socket = a_socket; pid = some a_pid } in
    subst (λ o. (a : TempAgent) × (agent_in (from_utf8_lossy o.stdout) ≡ ok a)) same
      (agent, agent_of-printed sh a_socket a_pid a_socket-IsWord a_pid-IsWord (λ e. []) [])

abbrev pub an_args : SshArgs
an_args = record {
  target = codes "me@host";
  passphrase = some (codes "secret");
  namespace = codes "default";
  key_version = 0;
  sub_id = none;
  pass_file = none;
  port = some 22;
  ssh_args = codes "-v" ∷ [];
}

abbrev pub a_pem : Text
a_pem = codes "KEY"

run_ssh_unix-safe_example : safe (run_ssh_unix a_good_system an_args a_pem []).1 ≡ true
run_ssh_unix-safe_example = run_ssh_unix-safe a_good_system an_args a_pem [] (unfold safe in refl)

-- A session with the good system, by evaluation: the agent is started and ended.
session_test : unkilled (run_ssh_unix a_good_system an_args a_pem []).1 ≡ []
unfolding run_ssh_unix unkilled codes from_utf8_lossy agent_in printed list_eq has_args
session_test = refl

abbrev a_silent_system : System
a_silent_system = a_system (prints []) (λ c. none)

run_ssh_unix_unparsed_example :
    ((e : CryError) × ((run_ssh_unix a_silent_system an_args a_pem []).0 ≡ err e))
    × (unkilled (run_ssh_unix a_silent_system an_args a_pem []).1 ≡ none ∷ [])
unfolding unkilled
run_ssh_unix_unparsed_example =
    run_ssh_unix_unparsed a_silent_system an_args a_pem []
      (record { success = true; stdout = []; stderr = [] }) refl refl
      (unfold extract_var from_utf8_lossy in refl)

abbrev an_owner : Text
an_owner = codes "home\\me"

-- `whoami` ends its line.
abbrev a_windows : System
a_windows = a_system (prints (codes "home\\me\r\n")) (λ c. none)

run_ssh_windows-guarded_example :
    guarded an_owner (run_ssh_windows a_windows an_args a_pem []).1 ≡ true
run_ssh_windows-guarded_example =
    run_ssh_windows-guarded a_windows an_owner
      (
        unfold codes in λ e. cc,
        λ log. (
          record { success = true; stdout = codes "home\\me\r\n"; stderr = [] },
          refl,
          unfold is_utf8 codes in refl,
          unfold trim codes in refl,
        ),
      )
      (λ name. unfold is_utf8 codes in refl) an_args a_pem [] (unfold guarded in refl)

run_ssh_windows-left_example : left (run_ssh_windows a_good_system an_args a_pem []).1 ≡ left []
run_ssh_windows-left_example =
    run_ssh_windows-left a_good_system (λ log p. refl) (λ log p bs. (refl, refl, refl)) an_args
      a_pem []

-- Every write fails.
abbrev full_disk : Call → Option IoError
full_disk (write_all p bs) = some (other 28)
full_disk c = none

abbrev a_full_system : System
a_full_system = a_system (prints (codes "me")) full_disk

run_ssh_windows_unwritten_example :
    ((run_ssh_windows a_full_system an_args a_pem []).0 ≡ err (io (other 28)))
    × (left (run_ssh_windows a_full_system an_args a_pem []).1
        ≡ key_path a_full_system (1 ∷ 2 ∷ []) ∷ left [])
run_ssh_windows_unwritten_example =
    run_ssh_windows_unwritten a_full_system (other 28) an_args a_pem [] (λ l p. refl)
      (λ l cmd. refl) (λ l p. refl) (λ l p bs. refl)

-- `whoami` cannot be run.
abbrev a_nameless_system : System
a_nameless_system = record (a_system (prints []) (λ c. none)) {
  run = λ log cmd. if list_eq cmd.program (codes "whoami") then inl (other 2) else prints [];
}
