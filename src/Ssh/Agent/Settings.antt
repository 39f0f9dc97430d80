-- ===== src/Ssh/Agent/Settings.antt =====
-- src/ssh.rs, Unix: the output of `ssh-agent` for either shell, and what is read off one line.
use cry.Base.{
  ℕ, list_eq, ◌<◌, ◌≡◌, ◌≢◌, refl, ap, [], ◌∷◌, ◌++◌, none, some, All, All-append, All-imp,
  All-reverse, inl, inr, ◌⊎◌, append_assoc, Text, codes, arith,
}
use mathlib.Core.List.{reverse, reverse-append}
use cry.CryDna.Export.{trim_end_matches}
use cry.Str.{trim, strip_prefix, until, beyond}
use cry.Str.Words.{Lacks, StartsGraphic, trim-graphic, until_lem, until_all, trim_end_matches_lem}
use cry.Ssh.Agent.{csh_value, value_at, auth_sock, agent_pid}

-- The shells that `ssh-agent` prints its commands for.
pub data Shell : Type 0 where
  sh csh : Shell

-- One line, without its line feed, that sets a variable.
unfoldable pub setting : Shell → Text → Text → Text
setting sh var value = var ++ (codes "=" ++ (value ++ (codes "; export " ++ (var ++ codes ";"))))
setting csh var value = codes "setenv " ++ (var ++ (codes " " ++ (value ++ codes ";")))

unfoldable pub echo : Text → Text
echo pid = codes "echo Agent pid " ++ (pid ++ codes ";")

-- All that `ssh-agent` prints.
unfoldable pub printed : Shell → Text → Text → Text
unfolding setting echo
printed shell socket pid =
    setting shell auth_sock socket
    ++ 10 ∷ (setting shell agent_pid pid ++ 10 ∷ (echo pid ++ 10 ∷ []))

-- A word for the shell: printable ASCII without `;`.
abbrev pub IsWord : Text → Type 0
IsWord = All (λ b. (32 < b) × (b < 127) × (b ≢ b';'))

trim_around :
    (a v b : Text)
    → StartsGraphic (a ++ (v ++ b))
    → StartsGraphic (reverse b ++ (reverse v ++ reverse a))
    → trim (a ++ (v ++ b)) ≡ a ++ (v ++ b)
trim_around a v b h k =
    trim-graphic (a ++ (v ++ b)) h
      (rw (reverse-append a (v ++ b), reverse-append v b, append_assoc) k)

IsWord-trim : (v : Text) → IsWord v → trim v ≡ v
IsWord-trim v w = trim-graphic v (start v w) (start (reverse v) (All-reverse _ v w))
  where
    start : (s : Text) → IsWord s → StartsGraphic s
    start [] h = tt
    start (x ∷ s) h = omega arith

IsWord-Lacks : (c : ℕ) (v : Text) → (c ≡ b';') ⊎ (c < 33) → IsWord v → Lacks c v
IsWord-Lacks c v k w = All-imp _ _ v (λ b h. λ e. absurd (ground arith)) w

-- What stands behind `VAR=` and behind `setenv VAR `.
sh_rest : (v rest : Text) → IsWord v → trim (until b';' (v ++ b';' ∷ rest)) ≡ v
sh_rest v rest w = rw (until_lem b';' v rest (IsWord-Lacks b';' v (inl refl) w)) (IsWord-trim v w)

csh_rest : (v : Text) → IsWord v → trim_end_matches b';' (until b' ' (v ++ b';' ∷ [])) ≡ v
csh_rest v w =
    rw
      (until_all b' ' (v ++ b';' ∷ [])
        (All-append _ v (b';' ∷ []) (IsWord-Lacks b' ' v (inr (omega arith)) w) (omega arith)))
      (trim_end_matches_lem b';' v (IsWord-Lacks b';' v (inl refl) w))

-- The first line gives the socket, and is passed over in the search for the process.
pub socket_line :
    (shell : Shell) (socket : Text)
    → IsWord socket
    → (value_at auth_sock (trim (setting shell auth_sock socket)) ≡ some (some socket))
      × (value_at agent_pid (trim (setting shell auth_sock socket)) ≡ none)
unfolding setting codes value_at csh_value strip_prefix until beyond list_eq
socket_line sh socket w =
    let t =
      trim_around (codes "SSH_AUTH_SOCK=") socket (codes "; export SSH_AUTH_SOCK;") (omega arith)
        (omega arith) in
    rw t (ap (λ x. some (some x)) (sh_rest socket _ w), refl)
socket_line csh socket w =
    let t =
      trim_around (codes "setenv SSH_AUTH_SOCK ") socket (codes ";") (omega arith) (omega arith) in
    rw t (ap (λ x. some (some x)) (csh_rest socket w), refl)

pub pid_line :
    (shell : Shell) (pid : Text)
    → IsWord pid
    → value_at agent_pid (trim (setting shell agent_pid pid)) ≡ some (some pid)
unfolding setting codes value_at csh_value strip_prefix until beyond list_eq
pid_line sh pid w =
    let t =
      trim_around (codes "SSH_AGENT_PID=") pid (codes "; export SSH_AGENT_PID;") (omega arith)
        (omega arith) in
    rw t (ap (λ x. some (some x)) (sh_rest pid _ w))
pid_line csh pid w =
    let t =
      trim_around (codes "setenv SSH_AGENT_PID ") pid (codes ";") (omega arith) (omega arith) in
    rw t (ap (λ x. some (some x)) (csh_rest pid w))
