-- ===== src/Ssh/Agent/Safe.antt =====
-- src/ssh.rs, Unix: where the key goes, and which agent `ssh` is pointed at.
use cry.Base.{
  ℕ, ◌≡◌, ◌≢◌, refl, ap, ◌∙◌, List, [], ◌∷◌, ◌++◌, Option, none, some, Bool, true, false, ◌&&◌,
  ◌||◌, ◌⊎◌, inl, inr, list_eq, list_eq_refl, if◌then◌else◌, Text, codes, arith,
}
use cry.Error.{IoError, CryError, invalid_format, Result, ok, err, panicked, stuck}
use cry.Process.{
  Command, arg, Output, Call, spawn, write_stdin, Event, ran, waited, called, Log, System, carry_on,
  ◌>>◌,
}
use cry.Str.{from_utf8_lossy}
use cry.Ssh.Args.{SshArgs, port_args, each_arg, append_common_ssh_args}
use cry.Ssh.Agent.{
  TempAgent, auth_sock, agent_in, agent_of, start_command, kill_command, add_command, unix_command,
  spawn_agent, add_private_key, drop_agent, run_ssh_program, run_ssh_unix,
}
use cry.Ssh.Agent.Running.{
  env_of, or_empty, started, killed, unkilled, unkilled-started, start_command-started,
}

-- Whether an agent with this socket has been started and not been asked to end.
unfoldable pub any_at : Text → List (Option TempAgent) → Bool
any_at socket [] = false
any_at socket (none ∷ l) = any_at socket l
any_at socket (some a ∷ l) = list_eq a.socket socket || any_at socket l

abbrev pub alive : Text → Log → Bool
alive socket log = any_at socket (unkilled log)

-- The socket that a command is given.
unfoldable pub socket_of : Command → Text
unfolding env_of
socket_of cmd = or_empty (env_of auth_sock cmd.envs)

abbrev pub spawned_add : Call → Option IoError → Log → Bool
spawned_add (spawn cmd) none log =
    list_eq cmd.program (codes "ssh-add") && alive (socket_of cmd) log
spawned_add c r log = false

-- The last thing done is the start of `ssh-add` with the socket of an agent that is alive.
abbrev pub feeds_add : Log → Bool
feeds_add [] = false
feeds_add (ran cmd o ∷ log) = false
feeds_add (waited cmd o ∷ log) = false
feeds_add (called c r ∷ log) = spawned_add c r log

-- A program is fed only if it is such an `ssh-add`, and no file is touched.
abbrev pub safe_call : Call → Log → Bool
safe_call (write_stdin bs) log = feeds_add log
safe_call (spawn cmd) log = true
safe_call c log = false

-- `ssh` is given the socket of an agent that is alive.
abbrev pub safe_event : Event → Log → Bool
safe_event (ran cmd o) log =
    if list_eq cmd.program (codes "ssh") then alive (socket_of cmd) log else true
safe_event (waited cmd o) log = true
safe_event (called c r) log = safe_call c log

unfoldable pub safe : Log → Bool
safe [] = true
safe (e ∷ log) = safe_event e log && safe log

-- The log is safe, and the agent is alive.
abbrev IsReady : TempAgent → Log → Type 0
IsReady a log = (safe log ≡ true) × (alive a.socket log ≡ true)

each_arg-kept :
    (l : List Text) (cmd : Command)
    → ((each_arg l cmd).program ≡ cmd.program) × ((each_arg l cmd).envs ≡ cmd.envs)
each_arg-kept [] cmd = (refl, refl)
each_arg-kept (a ∷ l) cmd = each_arg-kept l (arg a cmd)

port_args-kept :
    (p : Option ℕ) (cmd : Command)
    → ((port_args p cmd).program ≡ cmd.program) × ((port_args p cmd).envs ≡ cmd.envs)
port_args-kept none cmd = (refl, refl)
port_args-kept (some p) cmd = (refl, refl)

append_common_ssh_args-kept :
    (args : SshArgs) (cmd : Command)
    → ((append_common_ssh_args args cmd).program ≡ cmd.program)
      × ((append_common_ssh_args args cmd).envs ≡ cmd.envs)
unfolding append_common_ssh_args
append_common_ssh_args-kept args cmd =
    let (p, e) = each_arg-kept args.ssh_args (port_args args.port cmd) in
    let (q, f) = port_args-kept args.port cmd in (p ∙ q, e ∙ f)

-- The user's arguments do not change the socket.
unix_command-socket : (a : TempAgent) (args : SshArgs) → socket_of (unix_command a args) ≡ a.socket
unfolding unix_command socket_of env_of list_eq codes
unix_command-socket a args = rw ((append_common_ssh_args-kept args _).1) refl

kill_command-program : (a : TempAgent) → (kill_command a).program ≡ codes "ssh-agent"
unfolding kill_command
kill_command-program a = go a.pid
  where
    go :
        (p : Option Text)
        → (kill_command (record { socket = a.socket; pid = p })).program ≡ codes "ssh-agent"
    go none = refl
    go (some p) = refl

agent_in-ne : (t : Text) → (agent_in t ≢ panicked) × (agent_in t ≢ stuck)
unfolding agent_in
agent_in-ne t = (λ h. ground arith, λ h. ground arith)

module _ (sys : System) where
  add_private_key-IsReady :
      (a : TempAgent) (key_pem : Text) (log : Log)
      → IsReady a log
      → IsReady a (add_private_key sys a key_pem log).1
  unfolding add_private_key unkilled started killed safe socket_of add_command env_of list_eq codes
  add_private_key-IsReady a key_pem log h = ground arith

  run_ssh_program-safe :
      (a : TempAgent) (args : SshArgs) (log : Log)
      → IsReady a log
      → safe (run_ssh_program sys (unix_command a args) log).1 ≡ true
  unfolding run_ssh_program safe
  run_ssh_program-safe a args log h =
      let s = unix_command-socket a args in ground (arith, ap (λ x. alive x log) s)

  drop_agent-safe :
      (a : TempAgent) (log : Log) → safe log ≡ true → safe (drop_agent sys a log).1 ≡ true
  unfolding drop_agent safe list_eq codes
  drop_agent-safe a log h = rw (kill_command-program a) h

  -- The scope of a session keeps the log safe.
  body-safe :
      (a : TempAgent) (args : SshArgs) (key_pem : Text) (log : Log)
      → IsReady a log
      → safe ((add_private_key sys a key_pem >> run_ssh_program sys (unix_command a args)) log).1
        ≡ true
  body-safe a args key_pem log h =
      let (r, log') = add_private_key sys a key_pem log in
      go r log' (add_private_key-IsReady a key_pem log h)
    where
      go :
          (r : Result (Unit {0})) (log' : Log)
          → IsReady a log'
          → safe (carry_on (λ _. run_ssh_program sys (unix_command a args)) r log').1 ≡ true
      go (ok u) log' k = run_ssh_program-safe a args log' k
      go (err x) log' k = k.0
      go panicked log' k = k.0
      go stuck log' k = k.0

  -- A start keeps the log safe, and an agent that it gives is alive.
  data Started (r : Result TempAgent) (log' : Log) : Type 0 where
    fails : (e : CryError) → r ≡ err e → safe log' ≡ true → Started r log'
    gives : (a : TempAgent) → r ≡ ok a → IsReady a log' → Started r log'

  spawn_agent-Started :
      (log : Log) → safe log ≡ true → Started (spawn_agent sys log).0 (spawn_agent sys log).1
  unfolding spawn_agent agent_of agent_in safe list_eq codes any_at
  spawn_agent-Started log h = go (sys.run log start_command) refl
    where
      parsed :
          (out : Output)
          → out.success ≡ true
          → (r : Result TempAgent) → agent_in (from_utf8_lossy out.stdout) ≡ r
          → Started r (ran start_command (inr out) ∷ log)
      parsed out good (ok a) e =
          let s =
            unkilled-started (ran start_command (inr out)) log (start_command-started out good) in
          gives a refl (h, rw (s, any_at) (rw (e, any_at) (rw (list_eq_refl a.socket) refl)))
      parsed out good (err x) e = fails x refl h
      parsed out good panicked e = absurd ((agent_in-ne (from_utf8_lossy out.stdout)).0 e)
      parsed out good stuck e = absurd ((agent_in-ne (from_utf8_lossy out.stdout)).1 e)

      finish :
          (out : Output) (b : Bool)
          → out.success ≡ b
          → Started (agent_of sys.describe (inr out)) (ran start_command (inr out) ∷ log)
      finish out true good = parsed out good (agent_of sys.describe (inr out)) (rw good refl)
      finish out false bad =
          fails
            (invalid_format (codes "ssh-agent exited with error: " ++ from_utf8_lossy out.stderr))
            (rw bad refl) h

      go :
          (o : IoError ⊎ Output)
          → sys.run log start_command ≡ o
          → Started (spawn_agent sys log).0 (spawn_agent sys log).1
      go (inl x) e = rw e (fails _ refl h)
      go (inr out) e = rw e (finish out out.success refl)

  -- Whatever the other programs do: in a session on Unix the key is fed to nothing but an
  -- `ssh-add` that has just been started with the socket of an agent that was started and not yet
  -- ended, no file is created, written or removed, and `ssh` is given the socket of such an agent.
  pub run_ssh_unix-safe :
      (args : SshArgs) (key_pem : Text) (log : Log)
      → safe log ≡ true
      → safe (run_ssh_unix sys args key_pem log).1 ≡ true
  unfolding run_ssh_unix
  run_ssh_unix-safe args key_pem log h = go (spawn_agent-Started log h)
    where
      go :
          Started (spawn_agent sys log).0 (spawn_agent sys log).1
          → safe (run_ssh_unix sys args key_pem log).1 ≡ true
      go (fails x r s) = rw (r, carry_on) s
      go (gives a r k) =
          rw (r, carry_on)
            (drop_agent-safe a _ (body-safe a args key_pem (spawn_agent sys log).1 k))
