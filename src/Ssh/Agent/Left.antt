-- ===== src/Ssh/Agent/Left.antt =====
-- src/ssh.rs, Unix: a session leaves no agent behind that it has started.
use cry.Base.{
  ℕ, ◌≡◌, refl, ap, ◌∙◌, List, [], ◌∷◌, ◌++◌, Option, none, some, Bool, true, false, ◌⊎◌, inl, inr,
  list_eq, Text, codes, arith,
}
use cry.Error.{IoError, CryError, invalid_format, Result, ok, err, panicked, stuck}
use cry.Process.{Command, arg, Output, ran, Log, System, Session, carry_on, ◌>>◌}
use cry.Str.{from_utf8_lossy}
use cry.Ssh.Args.{SshArgs, port_args, each_arg, append_common_ssh_args}
use cry.Ssh.Agent.{
  extract_var, TempAgent, auth_sock, agent_in, agent_of, start_command, kill_command, unix_command,
  spawn_agent, add_private_key, drop_agent, run_ssh_program, run_ssh_unix,
}
use cry.Ssh.Agent.Running.{
  has_args, ok_or_none, started, killed, unkilled, started_other, killed_other, unkilled_other,
  unkilled-started, unkilled-killed, start_command-started, kill_command-started,
  kill_command-killed,
}

-- A session that, however it ends, leaves the agents as they are.
abbrev pub Keeps {ℓ} : {A : Type ℓ} → Session A → Type 0
Keeps m = (log : Log) → unkilled (m log).1 ≡ unkilled log

each_arg-program : (l : List Text) (cmd : Command) → (each_arg l cmd).program ≡ cmd.program
each_arg-program [] cmd = refl
each_arg-program (a ∷ l) cmd = each_arg-program l (arg a cmd)

port_args-program : (p : Option ℕ) (cmd : Command) → (port_args p cmd).program ≡ cmd.program
port_args-program none cmd = refl
port_args-program (some p) cmd = refl

ssh_program :
    (a : TempAgent) (args : SshArgs)
    → list_eq (unix_command a args).program (codes "ssh-agent") ≡ false
unfolding unix_command append_common_ssh_args list_eq codes
ssh_program a args = rw (each_arg-program, port_args-program) refl

module _ (sys : System) where
  add_private_key-Keeps : (a : TempAgent) (key_pem : Text) → Keeps (add_private_key sys a key_pem)
  unfolding add_private_key unkilled started killed
  add_private_key-Keeps a key_pem log = ground arith

  run_ssh_program-Keeps :
      (cmd : Command)
      → list_eq cmd.program (codes "ssh-agent") ≡ false
      → Keeps (run_ssh_program sys cmd)
  unfolding run_ssh_program
  run_ssh_program-Keeps cmd h log =
      let o = sys.run log cmd in
      let kept : unkilled (ran cmd o ∷ log) ≡ unkilled log =
        unkilled_other (ran cmd o) log (started_other cmd o h) (killed_other cmd o h) in
      ground (arith, kept)

  -- What the scope of a session does, with the agent at hand.
  body-Keeps :
      (a : TempAgent) (args : SshArgs) (key_pem : Text)
      → Keeps (add_private_key sys a key_pem >> run_ssh_program sys (unix_command a args))
  body-Keeps a args key_pem log =
      let first = add_private_key-Keeps a key_pem log in
      let ran_ssh = run_ssh_program-Keeps (unix_command a args) (ssh_program a args) in
      go (add_private_key sys a key_pem log).0 (add_private_key sys a key_pem log).1 first ran_ssh
    where
      go :
          (r : Result (Unit {0})) (log' : Log)
          → unkilled log' ≡ unkilled log
          → Keeps (run_ssh_program sys (unix_command a args))
          → unkilled (carry_on (λ _. run_ssh_program sys (unix_command a args)) r log').1
            ≡ unkilled log
      go (ok u) log' e k = k log' ∙ e
      go (err x) log' e k = e
      go panicked log' e k = e
      go stuck log' e k = e

  pub drop_agent-unkilled :
      (a : TempAgent) (log : Log) (l : List (Option TempAgent))
      → unkilled log ≡ some a ∷ l
      → unkilled (drop_agent sys a log).1 ≡ l
  unfolding drop_agent
  drop_agent-unkilled a log l e =
      let o = sys.run log (kill_command a) in
      unkilled-killed (ran (kill_command a) o) log (kill_command-started a o)
        (kill_command-killed a o) e

  -- `ssh-agent -s` that succeeds prints its socket.
  abbrev pub Announces : Type 0
  Announces =
      (log : Log) (out : Output)
      → sys.run log start_command ≡ inr out
      → out.success ≡ true
      → (a : TempAgent) × (agent_in (from_utf8_lossy out.stdout) ≡ ok a)

  -- A start either fails and starts nothing, or gives the agent that it has started.
  data Starts (log : Log) (r : Result TempAgent) (log' : Log) : Type 0 where
    fails : (e : CryError) → r ≡ err e → unkilled log' ≡ unkilled log → Starts log r log'
    starts : (a : TempAgent) → r ≡ ok a → unkilled log' ≡ some a ∷ unkilled log → Starts log r log'

  spawn_agent-Starts :
      Announces → (log : Log) → Starts log (spawn_agent sys log).0 (spawn_agent sys log).1
  unfolding spawn_agent agent_of unkilled started killed has_args list_eq codes
  spawn_agent-Starts announces log = go (sys.run log start_command) refl
    where
      finish :
          (out : Output)
          → sys.run log start_command ≡ inr out
          → (b : Bool) → out.success ≡ b
          → Starts log (agent_of sys.describe (inr out)) (ran start_command (inr out) ∷ log)
      finish out e true good =
          let (a, found) = announces log out e good in
          starts a (rw good found) (
            unkilled-started (ran start_command (inr out)) log
              (start_command-started out good ∙ rw found refl))
      finish out e false bad =
          fails
            (invalid_format (codes "ssh-agent exited with error: " ++ from_utf8_lossy out.stderr))
            (rw bad refl) (rw bad refl)

      go :
          (o : IoError ⊎ Output)
          → sys.run log start_command ≡ o
          → Starts log (spawn_agent sys log).0 (spawn_agent sys log).1
      go (inl x) e = rw e (fails _ refl refl)
      go (inr out) e = rw e (finish out e out.success refl)

  -- A session of `cry ssh` leaves running the agents that were running before it, and no other.
  pub run_ssh_unix-unkilled :
      Announces
      → (args : SshArgs) (key_pem : Text) (log : Log)
      → unkilled (run_ssh_unix sys args key_pem log).1 ≡ unkilled log
  unfolding run_ssh_unix
  run_ssh_unix-unkilled announces args key_pem log = go (spawn_agent-Starts announces log)
    where
      go :
          Starts log (spawn_agent sys log).0 (spawn_agent sys log).1
          → unkilled (run_ssh_unix sys args key_pem log).1 ≡ unkilled log
      go (fails x r e) = rw (r, carry_on) e
      go (starts a r e) =
          rw (r, carry_on)
            (drop_agent-unkilled a _ _ (body-Keeps a args key_pem (spawn_agent sys log).1 ∙ e))

  -- When `ssh-agent -s` succeeds with an output in which no SSH_AUTH_SOCK is found, the session
  -- ends with an error, and the agent that has been started is left running.
  pub run_ssh_unix_unparsed :
      (args : SshArgs) (key_pem : Text) (log : Log) (out : Output)
      → sys.run log start_command ≡ inr out
      → out.success ≡ true
      → extract_var (from_utf8_lossy out.stdout) auth_sock ≡ none
      → ((e : CryError) × ((run_ssh_unix sys args key_pem log).0 ≡ err e))
        × (unkilled (run_ssh_unix sys args key_pem log).1 ≡ none ∷ unkilled log)
  unfolding run_ssh_unix spawn_agent agent_of agent_in
  run_ssh_unix_unparsed args key_pem log out e good missing =
      let text = from_utf8_lossy out.stdout in
      let message = codes "Could not parse SSH_AUTH_SOCK from ssh-agent output:\n" ++ text in
      let failed : agent_in text ≡ err (invalid_format message) = rw (missing, agent_in) refl in
      let s = start_command-started out good ∙ ap (λ r. some (ok_or_none r)) failed in
      let result : agent_of sys.describe (inr out) ≡ err (invalid_format message) =
        rw good failed in
      let after : run_ssh_unix sys args key_pem log
          ≡ (err (invalid_format message), ran start_command (inr out) ∷ log) =
        rw e (rw (result, carry_on) refl) in
      (
        (invalid_format message, ap (λ x. x.0) after),
        ap (λ x. unkilled x.1) after ∙ unkilled-started (ran start_command (inr out)) log s,
      )
