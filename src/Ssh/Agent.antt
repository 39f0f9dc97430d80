-- ===== src/Ssh/Agent.antt =====
-- src/ssh.rs, Unix: a temporary `ssh-agent`, which the key is piped into, and the session.
pub mod Settings
pub mod Parse
pub mod Running
pub mod Left
pub mod Safe
use cry.Base.{
  List, [], ◌∷◌, ◌++◌, Option, none, some, Bool, true, false, ◌⊎◌, inl, inr, list_eq, if◌then◌else◌,
  Text, codes,
}
use cry.Error.{IoError, CryError, invalid_format, Result, ok, err}
use cry.CryDna.Export.{trim_end_matches}
use cry.Str.{from_utf8_lossy, trim, strip_prefix, until, beyond, lines}
use cry.Process.{
  Command, new, arg, env, env_remove, Output, spawn, write_stdin, System, Session, pure, raise,
  lift, scope, ◌>>=◌, ◌>>◌, run, wait_with_output, try_call, or_io, output_or_io,
}
use cry.Ssh.Args.{SshArgs, append_common_ssh_args, opt}

-- `setenv VAR value;`, behind `setenv `: nothing if another variable is set; a variable without a
-- value ends the search without one.
unfoldable pub csh_value : Text → Text → Option (Option Text)
unfolding until beyond trim_end_matches
csh_value var rest =
    if list_eq (until b' ' rest) var
    then (elim (beyond b' ' rest) [
      | none ↦ some none
      | some more ↦ some (some (trim_end_matches b';' (until b' ' more)))
    ])
    else none

-- What the loop of `extract_var` returns at a line that is trimmed, if it returns there.
unfoldable pub value_at : Text → Text → Option (Option Text)
unfolding strip_prefix trim until csh_value
value_at var line = elim (strip_prefix (var ++ codes "=") line) [
  | some rest ↦ some (some (trim (until b';' rest)))
  | none ↦ elim (strip_prefix (codes "setenv ") line) [
    | none ↦ none
    | some rest ↦ csh_value var rest
  ]
]

unfoldable pub search_lines : Text → List Text → Option Text
unfolding value_at trim
search_lines var [] = none
search_lines var (line ∷ more) = elim (value_at var (trim line)) [
  | some found ↦ found
  | none ↦ search_lines var more
]

unfoldable pub extract_var : Text → Text → Option Text
unfolding lines search_lines
extract_var text var = search_lines var (lines text)

pub record TempAgent : Type 0 where
  pub socket : Text
  pub pid : Option Text

abbrev pub auth_sock : Text
auth_sock = codes "SSH_AUTH_SOCK"

abbrev pub agent_pid : Text
agent_pid = codes "SSH_AGENT_PID"

-- What `TempAgent::spawn` makes of the output of `ssh-agent -s`.
unfoldable pub agent_in : Text → Result TempAgent
unfolding extract_var
agent_in stdout = elim (extract_var stdout auth_sock) [
  | none ↦
      err
        (invalid_format (codes "Could not parse SSH_AUTH_SOCK from ssh-agent output:\n" ++ stdout))
  | some socket ↦ ok (record { socket = socket; pid = extract_var stdout agent_pid })
]

unfoldable pub agent_of : (IoError → Text) → IoError ⊎ Output → Result TempAgent
unfolding from_utf8_lossy
agent_of describe (inl e) = err (
    invalid_format (
      codes "Failed to spawn ssh-agent: "
      ++ (describe e
          ++ codes "\nMake sure openssh-client is installed (e.g. `apt install openssh-client`).")))
agent_of describe (inr out) =
    if out.success
    then agent_in (from_utf8_lossy out.stdout)
    else err (invalid_format (codes "ssh-agent exited with error: " ++ from_utf8_lossy out.stderr))

abbrev pub start_command : Command
start_command = arg (codes "-s") (new (codes "ssh-agent"))

abbrev pub pid_env : Option Text → Command → Command
pid_env none cmd = cmd
pid_env (some pid) cmd = env agent_pid pid cmd

-- The command of `Drop for TempAgent`.
unfoldable pub kill_command : TempAgent → Command
kill_command agent =
    pid_env agent.pid (env auth_sock agent.socket (arg (codes "-k") (new (codes "ssh-agent"))))

unfoldable pub add_command : TempAgent → Command
add_command agent = env auth_sock agent.socket (arg (codes "-") (new (codes "ssh-add")))

unfoldable pub unix_command : TempAgent → SshArgs → Command
unfolding append_common_ssh_args
unix_command agent args = append_common_ssh_args args (
    opt (codes "PreferredAuthentications=publickey") (
      opt (codes "PubkeyAuthentication=yes") (
        opt (codes "IdentitiesOnly=yes") (
          opt (codes "IdentityAgent=" ++ agent.socket)
            (env_remove agent_pid (env auth_sock agent.socket (new (codes "ssh"))))))))

-- `map_err(|e| InvalidFormat(format!("…{e}")))?`, on a call and on a program's outcome.
abbrev pub or_failed : (IoError → Text) → Text → Option IoError → Session (Unit {0})
or_failed describe message none = pure tt
or_failed describe message (some e) = raise (invalid_format (message ++ describe e))

abbrev pub output_or_failed : (IoError → Text) → Text → IoError ⊎ Output → Session Output
output_or_failed describe message (inr out) = pure out
output_or_failed describe message (inl e) = raise (invalid_format (message ++ describe e))

-- The test of the status of `ssh-add`.
abbrev pub accepted : Output → Session (Unit {0})
accepted out =
    if out.success
    then pure tt
    else raise (invalid_format (codes "ssh-add failed: " ++ from_utf8_lossy out.stderr))

module _ (sys : System) where
  -- `TempAgent::spawn`.
  unfoldable pub spawn_agent : Session TempAgent
  unfolding agent_of
  spawn_agent = do o ← run sys start_command; lift (agent_of sys.describe o)

  unfoldable pub add_private_key : TempAgent → Text → Session (Unit {0})
  unfolding add_command
  add_private_key agent key_pem = do
    spawned ← try_call sys (spawn (add_command agent))
    or_failed sys.describe (codes "Failed to spawn ssh-add: ") spawned
    written ← try_call sys (write_stdin key_pem)
    or_io written
    o ← wait_with_output sys (add_command agent)
    out ← output_or_io o
    accepted out

  -- `Drop for TempAgent`: how the program ends is not looked at.
  unfoldable pub drop_agent : TempAgent → Session (Unit {0})
  unfolding kill_command
  drop_agent agent = do _ ← run sys (kill_command agent); pure tt

  -- A status of failure is only reported.
  unfoldable pub run_ssh_program : Command → Session (Unit {0})
  run_ssh_program ssh = do
    o ← run sys ssh
    _ ← output_or_failed sys.describe (codes "Failed to exec ssh: ") o
    pure tt

  unfoldable pub run_ssh_unix : SshArgs → Text → Session (Unit {0})
  unfolding spawn_agent add_private_key drop_agent run_ssh_program unix_command
  run_ssh_unix args key_pem = do
    agent ← spawn_agent
    scope (drop_agent agent)
        do add_private_key agent key_pem; run_ssh_program (unix_command agent args)
