-- ===== src/Passphrase/Keeps.antt =====
-- src/main.rs: `read_passphrase` and `read_openssh_passphrase` leave every file as it is.
use cry.Base.{ℕ, ◌≡◌, refl, List, Option, none, some, Bool, true, false, inl, inr, ◌⊎◌, Text}
use cry.Error.{IoError}
use cry.Fs.{World}
use cry.Fs.Keeps.{Keeps, Holds, keeps_rules}
use cry.Passphrase.{
  Terminal, prompt, confirmed, from_terminal, from_file, read_passphrase, read_openssh_passphrase,
}

module _ {sound : Bool} {q : Text} {v : Option (List ℕ)} where
  prompt-Keeps : (t : Terminal) (m : Text) → Keeps sound q v (prompt t m)
  unfolding prompt
  prompt-Keeps t m = record { at = λ w e. go (t.answer m) refl w e }
    where
      go :
          (a : List ℕ ⊎ IoError)
          → t.answer m ≡ a
          → (w : World) → Holds sound q v w
          → Holds sound q v (prompt t m w).1
      go (inl p) h w e = rw (h, prompt) e
      go (inr x) h w e = rw (h, prompt) e

  confirmed-Keeps :
      (t : Terminal) (pass : List ℕ) (m : Text) (confirm : Bool)
      → Keeps sound q v (confirmed t pass m confirm)
  unfolding confirmed
  confirmed-Keeps t pass m false = search keeps_rules
  confirmed-Keeps t pass m true = search (keeps_rules, prompt-Keeps)

  from_terminal-Keeps :
      (t : Terminal) (m m' : Text) (confirm : Bool) → Keeps sound q v (from_terminal t m m' confirm)
  unfolding from_terminal
  from_terminal-Keeps t m m' confirm = search (keeps_rules, prompt-Keeps, confirmed-Keeps)

  pub read_passphrase-Keeps :
      (t : Terminal) (pass_file : Option Text) (confirm : Bool)
      → Keeps sound q v (read_passphrase t pass_file confirm)
  unfolding read_passphrase from_file
  read_passphrase-Keeps t (some p) confirm = search keeps_rules
  read_passphrase-Keeps t none confirm = from_terminal-Keeps t _ _ confirm

  pub read_openssh_passphrase-Keeps : (t : Terminal) → Keeps sound q v (read_openssh_passphrase t)
  unfolding read_openssh_passphrase
  read_openssh_passphrase-Keeps t = from_terminal-Keeps t _ _ true

pub ruleset passphrase_rules = (keeps_rules, read_passphrase-Keeps, read_openssh_passphrase-Keeps)
