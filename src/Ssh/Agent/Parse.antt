-- ===== src/Ssh/Agent/Parse.antt =====
-- src/ssh.rs, Unix: what is read off the output of `ssh-agent`, in the form for either shell.
use cry.Base.{
  ◌<◌, ◌≡◌, ◌≢◌, refl, ap, ◌∙◌, List, [], ◌∷◌, ◌++◌, Option, none, some, true, All, All-append,
  All-imp, inr, Text, codes, arith,
}
use cry.Error.{IoError, ok}
use cry.Str.{trim, lines}
use cry.Str.Words.{from_utf8_lossy-ascii, lines-line}
use cry.Ssh.Agent.{value_at, search_lines, extract_var, auth_sock, agent_pid, agent_in, agent_of}
use cry.Ssh.Agent.Settings.{Shell, sh, csh, setting, echo, printed, IsWord, socket_line, pid_line}

-- ASCII, and no line's end.
abbrev IsPlain : Text → Type 0
IsPlain = All (λ b. (b < 128) × (b ≢ 10) × (b ≢ 13))

IsPlain-around : (a v b : Text) → IsPlain a → IsWord v → IsPlain b → IsPlain (a ++ (v ++ b))
IsPlain-around a v b h w l =
    All-append _ a (v ++ b) h (All-append _ v b (All-imp _ _ v (λ x k. omega arith) w) l)

setting-IsPlain :
    (shell : Shell) (v : Text)
    → IsWord v
    → IsPlain (setting shell auth_sock v) × IsPlain (setting shell agent_pid v)
unfolding setting codes
setting-IsPlain sh v w = (
  IsPlain-around (codes "SSH_AUTH_SOCK=") v (codes "; export SSH_AUTH_SOCK;") (omega arith) w
      (omega arith),
  IsPlain-around (codes "SSH_AGENT_PID=") v (codes "; export SSH_AGENT_PID;") (omega arith) w
      (omega arith),
)
setting-IsPlain csh v w = (
  IsPlain-around (codes "setenv SSH_AUTH_SOCK ") v (codes ";") (omega arith) w (omega arith),
  IsPlain-around (codes "setenv SSH_AGENT_PID ") v (codes ";") (omega arith) w (omega arith),
)

lines-plain : (s rest : Text) → IsPlain s → lines (s ++ 10 ∷ rest) ≡ s ∷ lines rest
lines-plain s rest h =
    lines-line s rest (All-imp _ _ s (λ b k. k.1) h) (All-imp _ _ s (λ b k. k.2) h)

IsPlain-ascii : (s : Text) → IsPlain s → All (λ b. b < 128) s
IsPlain-ascii s h = All-imp _ _ s (λ b k. k.0) h

printed-ascii :
    (shell : Shell) (socket pid : Text)
    → IsWord socket
    → IsWord pid
    → All (λ b. b < 128) (printed shell socket pid)
unfolding printed echo codes
printed-ascii shell socket pid v w =
    let a = setting shell auth_sock socket in
    let b = setting shell agent_pid pid in
    let ends : All (λ b. b < 128) (echo pid) =
      IsPlain-ascii (echo pid)
        (IsPlain-around (codes "echo Agent pid ") pid (codes ";") (omega arith) w (omega arith)) in
    All-append _ a (10 ∷ (b ++ 10 ∷ (echo pid ++ 10 ∷ [])))
      (IsPlain-ascii a (setting-IsPlain shell socket v).0)
      (
        omega arith,
        All-append _ b (10 ∷ (echo pid ++ 10 ∷ []))
            (IsPlain-ascii b (setting-IsPlain shell pid w).1)
            (omega arith, All-append _ (echo pid) (10 ∷ []) ends (omega arith)),
      )

search_lines-found :
    (var line : Text) (more : List Text) {found : Option Text}
    → value_at var (trim line) ≡ some found
    → search_lines var (line ∷ more) ≡ found
unfolding search_lines
search_lines-found var line more h = rw (h, search_lines) refl

search_lines-passed :
    (var line : Text) (more : List Text)
    → value_at var (trim line) ≡ none
    → search_lines var (line ∷ more) ≡ search_lines var more
unfolding search_lines
search_lines-passed var line more h = rw (h, search_lines) refl

module _ (shell : Shell) (socket pid : Text) (socket_word : IsWord socket)
    (pid_word : IsWord pid) where
  abbrev first : Text
  first = setting shell auth_sock socket

  abbrev second : Text
  second = setting shell agent_pid pid

  abbrev others : List Text
  others = lines (echo pid ++ 10 ∷ [])

  lines-printed : lines (printed shell socket pid) ≡ first ∷ second ∷ others
  unfolding printed
  lines-printed =
      lines-plain first _ (setting-IsPlain shell socket socket_word).0
      ∙ ap (◌∷◌ first) (lines-plain second _ (setting-IsPlain shell pid pid_word).1)

  extract_var-socket : extract_var (printed shell socket pid) auth_sock ≡ some socket
  unfolding extract_var
  extract_var-socket =
      ap (search_lines auth_sock) lines-printed
      ∙ search_lines-found auth_sock first (second ∷ others)
          (socket_line shell socket socket_word).0

  extract_var-pid : extract_var (printed shell socket pid) agent_pid ≡ some pid
  unfolding extract_var
  extract_var-pid =
      ap (search_lines agent_pid) lines-printed
      ∙ search_lines-passed agent_pid first (second ∷ others)
          (socket_line shell socket socket_word).1
      ∙ search_lines-found agent_pid second others (pid_line shell pid pid_word)

  agent_in-printed :
      agent_in (printed shell socket pid) ≡ ok (record { socket = socket; pid = some pid })
  unfolding agent_in
  agent_in-printed = rw (extract_var-socket, agent_in) (rw extract_var-pid refl)

  -- From the output of a successful `ssh-agent -s`, in its form for sh or for csh,
  -- `TempAgent::spawn` reads off the socket and the process that were printed, where both are
  -- printable ASCII without spaces and semicolons.
  pub agent_of-printed :
      (describe : IoError → Text) (stderr : Text)
      → agent_of describe
          (inr (record { success = true; stdout = printed shell socket pid; stderr = stderr }))
        ≡ ok (record { socket = socket; pid = some pid })
  unfolding agent_of
  agent_of-printed describe stderr =
      ap agent_in (
        from_utf8_lossy-ascii (printed shell socket pid)
          (printed-ascii shell socket pid socket_word pid_word))
      ∙ agent_in-printed
