-- ===== src/Commands/Guard.antt =====
-- src/main.rs: without `--force` no command changes a file that is there, temporary files excepted,
-- where no `Path::exists` fails.
use cry.Base.{ℕ, ◌≡◌, ◌≢◌, List, Option, none, some, Bool, true, false, Text}
use cry.Crypto.{Crypto, KeyCrates}
use cry.Fs.Keeps.{Keeps, keeps_rules}
use cry.File.{Os, encrypt_tmp, decrypt_tmp}
use cry.File.Guard.{encrypt_file-Keeps, decrypt_file-Keeps}
use cry.Keygen.{KeygenArgs, DeriveArgs}
use cry.Keygen.Guard.{keygen-Keeps, derive-Keeps}
use cry.Passphrase.{Terminal}
use cry.Passphrase.Keeps.{passphrase_rules}
use cry.Commands.{
  EncryptArgs, DecryptArgs, SignArgs, VerifyArgs, openssh_pass, derive_pass, encrypt_command,
  decrypt_command, keygen_command, derive_command, sign_command, verify_command,
}

module _ {q : Text} {v : Option (List ℕ)} (t : Terminal) where
  openssh_pass-Keeps : (openssh : Bool) → Keeps true q v (openssh_pass t openssh)
  unfolding openssh_pass
  openssh_pass-Keeps openssh = search passphrase_rules

  derive_pass-Keeps : (given : Option Text) → Keeps true q v (derive_pass t given)
  unfolding derive_pass
  derive_pass-Keeps (some raw) = search passphrase_rules
  derive_pass-Keeps none = search passphrase_rules

module _ (c : Crypto) (k : KeyCrates) (os : Os) (t : Terminal) {q : Text} {bs : List ℕ} where
  pub encrypt_command-Keeps :
      (args : EncryptArgs)
      → args.force ≡ false
      → q ≢ encrypt_tmp args.cipher
      → Keeps true q (some bs) (encrypt_command c k os t args)
  unfolding encrypt_command
  encrypt_command-Keeps args e ne = rw e (search (passphrase_rules, encrypt_file-Keeps))

  pub decrypt_command-Keeps :
      (args : DecryptArgs)
      → args.force ≡ false
      → q ≢ decrypt_tmp args.plain
      → Keeps true q (some bs) (decrypt_command c k os t args)
  unfolding decrypt_command
  decrypt_command-Keeps args e ne = rw e (search (passphrase_rules, decrypt_file-Keeps))

  pub keygen_command-Keeps :
      (args : KeygenArgs)
      → args.force ≡ false
      → Keeps true q (some bs) (keygen_command c k os t args)
  unfolding keygen_command
  keygen_command-Keeps args e = search (keeps_rules, openssh_pass-Keeps, keygen-Keeps)

  pub derive_command-Keeps :
      (args : DeriveArgs)
      → args.force ≡ false
      → Keeps true q (some bs) (derive_command c k os t args)
  unfolding derive_command
  derive_command-Keeps args e =
      search (keeps_rules, openssh_pass-Keeps, derive_pass-Keeps, derive-Keeps)

module _ (c : Crypto) (k : KeyCrates) (os : Os) (t : Terminal) {q : Text}
    {v : Option (List ℕ)} where
  pub sign_command-Keeps : (args : SignArgs) → Keeps true q v (sign_command c k os t args)
  unfolding sign_command
  sign_command-Keeps args = search passphrase_rules depth 12

  pub verify_command-Keeps : (args : VerifyArgs) → Keeps true q v (verify_command c k os t args)
  unfolding verify_command
  verify_command-Keeps args = search keeps_rules depth 12
