-- ===== src/Ssh/Agent/Running.antt =====
-- src/ssh.rs, Unix: which agents a log leaves running, read off its events.
use cry.Base.{
  ◌≡◌, refl, List, [], ◌∷◌, Option, none, some, Bool, true, false, ◌&&◌, ◌⊎◌, inl, inr, list_eq,
  list_eq_refl, if◌then◌else◌, Text, codes,
}
use cry.Error.{IoError, Result, ok, err, panicked, stuck}
use cry.Process.{Command, Output, Event, ran, waited, called, Log}
use cry.Str.{from_utf8_lossy}
use cry.Ssh.Agent.{TempAgent, auth_sock, agent_pid, agent_in, start_command, kill_command}

-- The last setting of a variable for a command.
unfoldable pub env_of : Text → List (Text × Option Text) → Option Text
env_of name [] = none
env_of name ((n, v) ∷ envs) = elim (env_of name envs) [
  | some w ↦ some w
  | none ↦ if list_eq n name then v else none
]

unfoldable pub has_args : Text → List Text → Bool
has_args flag [] = false
has_args flag (a ∷ []) = list_eq a flag
has_args flag (a ∷ b ∷ more) = false

-- `ssh-agent` with one argument.
abbrev pub is_agent : Text → Command → Bool
is_agent flag cmd = list_eq cmd.program (codes "ssh-agent") && has_args flag cmd.args

abbrev pub ok_or_none : Result TempAgent → Option TempAgent
ok_or_none (ok a) = some a
ok_or_none (err e) = none
ok_or_none panicked = none
ok_or_none stuck = none

-- What an event starts: an agent, by its socket and process if its output tells them.
unfoldable pub started : Event → Option (Option TempAgent)
started (ran cmd (inr out)) =
    if is_agent (codes "-s") cmd && out.success
    then some (ok_or_none (agent_in (from_utf8_lossy out.stdout)))
    else none
started (ran cmd (inl e)) = none
started (waited cmd o) = none
started (called c r) = none

abbrev pub or_empty : Option Text → Text
or_empty none = []
or_empty (some s) = s

-- The agent that an event asks to end.
unfoldable pub killed : Event → Option TempAgent
unfolding env_of
killed (ran cmd o) =
    if is_agent (codes "-k") cmd
    then some
        (record { socket = or_empty (env_of auth_sock cmd.envs); pid = env_of agent_pid cmd.envs })
    else none
killed (waited cmd o) = none
killed (called c r) = none

abbrev pub same_pid : Option Text → Option Text → Bool
same_pid none none = true
same_pid none (some q) = false
same_pid (some p) none = false
same_pid (some p) (some q) = list_eq p q

abbrev pub same : TempAgent → TempAgent → Bool
same a b = list_eq a.socket b.socket && same_pid a.pid b.pid

unfoldable pub remove : TempAgent → List (Option TempAgent) → List (Option TempAgent)
remove a [] = []
remove a (none ∷ l) = none ∷ remove a l
remove a (some b ∷ l) = if same a b then l else some b ∷ remove a l

-- The agents that have been started and not been asked to end, the latest first.
unfoldable pub unkilled : Log → List (Option TempAgent)
unfolding started killed remove
unkilled [] = []
unkilled (e ∷ log) = elim (started e) [
  | some a ↦ a ∷ unkilled log
  | none ↦ elim (killed e) [ none ↦ unkilled log | some a ↦ remove a (unkilled log) ]
]

pub started_other :
    (cmd : Command) (o : IoError ⊎ Output)
    → list_eq cmd.program (codes "ssh-agent") ≡ false
    → started (ran cmd o) ≡ none
unfolding started
started_other cmd (inl e) h = refl
started_other cmd (inr out) h = rw h refl

pub killed_other :
    (cmd : Command) (o : IoError ⊎ Output)
    → list_eq cmd.program (codes "ssh-agent") ≡ false
    → killed (ran cmd o) ≡ none
unfolding killed
killed_other cmd o h = rw h refl

pub unkilled_other :
    (e : Event) (log : Log) → started e ≡ none → killed e ≡ none → unkilled (e ∷ log) ≡ unkilled log
unfolding unkilled
unkilled_other e log s k = rw (s, unkilled) (rw (k, unkilled) refl)

same_refl : (a : TempAgent) → same a a ≡ true
same_refl a = rw (list_eq_refl a.socket) (go a.pid)
  where
    go : (p : Option Text) → same_pid p p ≡ true
    go none = refl
    go (some p) = list_eq_refl p

remove_latest : (a : TempAgent) (l : List (Option TempAgent)) → remove a (some a ∷ l) ≡ l
unfolding remove
remove_latest a l = rw (same_refl a) refl

pub unkilled-started :
    (e : Event) (log : Log) {a : Option TempAgent}
    → started e ≡ some a
    → unkilled (e ∷ log) ≡ a ∷ unkilled log
unfolding unkilled
unkilled-started e log s = rw (s, unkilled) refl

pub unkilled-killed :
    (e : Event) (log : Log) {a : TempAgent} {l : List (Option TempAgent)}
    → started e ≡ none
    → killed e ≡ some a
    → unkilled log ≡ some a ∷ l
    → unkilled (e ∷ log) ≡ l
unfolding unkilled
unkilled-killed e log {a} {l} s k h = rw (s, unkilled) (rw (k, unkilled) (rw h (remove_latest a l)))

pub start_command-started :
    (out : Output)
    → out.success ≡ true
    → started (ran start_command (inr out))
      ≡ some (ok_or_none (agent_in (from_utf8_lossy out.stdout)))
unfolding started has_args list_eq codes
start_command-started out good = rw good refl

pub kill_command-started :
    (a : TempAgent) (o : IoError ⊎ Output) → started (ran (kill_command a) o) ≡ none
unfolding started kill_command has_args list_eq codes
kill_command-started a (inl e) = refl
kill_command-started a (inr out) = go a.pid
  where
    go :
        (p : Option Text)
        → started (ran (kill_command (record { socket = a.socket; pid = p })) (inr out)) ≡ none
    go none = refl
    go (some p) = refl

pub kill_command-killed :
    (a : TempAgent) (o : IoError ⊎ Output) → killed (ran (kill_command a) o) ≡ some a
unfolding killed kill_command env_of has_args list_eq codes
kill_command-killed a o = go a.pid
  where
    go :
        (p : Option Text)
        → killed (ran (kill_command (record { socket = a.socket; pid = p })) o)
          ≡ some (record { socket = a.socket; pid = p })
    go none = refl
    go (some p) = refl
