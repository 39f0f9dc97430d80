-- ===== src/Passphrase.antt =====
-- src/main.rs: `read_passphrase` and `read_openssh_passphrase`.
pub mod Accepted
pub mod Same
pub mod Keeps
use cry.Base.{
  ℕ, List, [], ◌∷◌, Option, none, some, Bool, true, false, inl, inr, ◌⊎◌, ◌==◌, ◌||◌, if◌then◌else◌,
  list_eq, Text, codes,
}
use cry.Error.{IoError, io, empty_passphrase, passphrase_mismatch, Result, ok, err}
use cry.Fs.{World, Action, pure, raise, lift, ◌>>=◌, ◌>>◌, read_file}

-- `rpassword::prompt_password`: what the terminal answers to a prompt, the first time it is asked
-- and, for the confirmation, the second.
pub record Terminal : Type 0 where
  pub answer : Text → List ℕ ⊎ IoError

-- `prompt_password(…).map_err(CryError::Io)?`.
unfoldable pub prompt : Terminal → Text → Action (List ℕ)
prompt t message = elim (t.answer message) [ inl pass ↦ pure pass | inr e ↦ raise (io e) ]

-- The first part of `contents.split(|b| b == '\n' || b == '\r')`.
unfoldable pub first_line : List ℕ → List ℕ
first_line [] = []
first_line (b ∷ bs) = if b == 10 || b == 13 then [] else b ∷ first_line bs

-- `if pass.is_empty() { return Err(EmptyPassphrase) }`.
abbrev pub not_empty : List ℕ → Result (Unit {0})
not_empty [] = err empty_passphrase
not_empty (b ∷ bs) = ok tt

-- `if *pass != *confirm { return Err(PassphraseMismatch) }`.
abbrev pub same_again : List ℕ → List ℕ → Result (Unit {0})
same_again pass again = if list_eq pass again then ok tt else err passphrase_mismatch

unfoldable pub confirmed : Terminal → List ℕ → Text → Bool → Action (List ℕ)
unfolding prompt
confirmed t pass message true = do again ← prompt t message; lift (same_again pass again); pure pass
confirmed t pass message false = pure pass

unfoldable pub from_terminal : Terminal → Text → Text → Bool → Action (List ℕ)
unfolding prompt confirmed
from_terminal t message again confirm = do
  pass ← prompt t message
  lift (not_empty pass)
  confirmed t pass again confirm

unfoldable pub from_file : Text → Action (List ℕ)
unfolding first_line
from_file path = do
  contents ← read_file path
  let line = first_line contents
  lift (not_empty line)
  pure line

unfoldable pub read_passphrase : Terminal → Option Text → Bool → Action (List ℕ)
read_passphrase t (some path) confirm = from_file path
read_passphrase t none confirm =
    from_terminal t (codes "  Passphrase : ") (codes "  Confirm    : ") confirm

unfoldable pub read_openssh_passphrase : Terminal → Action (List ℕ)
read_openssh_passphrase t =
    from_terminal t (codes "  OpenSSH key passphrase : ") (codes "  Confirm OpenSSH passphrase : ")
      true
