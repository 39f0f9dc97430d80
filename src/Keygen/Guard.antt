-- ===== src/Keygen/Guard.antt =====
-- src/keygen.rs: without `--force` no file that is there is changed, where no `Path::exists`
-- fails.
use cry.Base.{ℕ, ◌≡◌, ◌≢◌, refl, List, Option, some, Bool, true, false, Text}
use cry.Crypto.{Crypto, KeyCrates}
use cry.CryDna.{Identity}
use cry.Fs.{Action, pure, ◌>>=◌, ensure_writable}
use cry.Fs.Keeps.{Keeps, keeps_rules, assoc-Keeps, guarded-Keeps}
use cry.Keygen.{
  KeyAlgorithm, ed25519, rsa, aes256gcm, KeygenArgs, DeriveArgs, private_name, public_name,
  openssh_path, openssh_pub_path, set_permissions, ensure_openssh, ensure_pair,
  write_private_key_hex_file, write_key, write_openssh_private_key, write_openssh, write_identity,
  keygen_rsa, keygen_for, keygen, derive_aes, derive_for, derive,
}

pub set_permissions-Keeps :
    {sound : Bool} {q : Text} {v : Option (List ℕ)} (p : Text) → Keeps sound q v (set_permissions p)
unfolding set_permissions
set_permissions-Keeps p = search keeps_rules

module _ (c : Crypto) (k : KeyCrates) {q : Text} {bs : List ℕ} where
  write_private_key_hex_file-Keeps :
      (id : Identity) (p : Text)
      → Keeps true q (some bs) (write_private_key_hex_file c k id p false)
  unfolding write_private_key_hex_file
  write_private_key_hex_file-Keeps id p =
      guarded-Keeps p _ λ ne. search (keeps_rules, set_permissions-Keeps)

  write_key-Keeps :
      (p : Text) (bytes : List ℕ) → Keeps true q (some bs) (write_key c k p bytes false)
  unfolding write_key
  write_key-Keeps p bytes = guarded-Keeps p _ λ ne. search keeps_rules

  write_openssh_private_key-Keeps :
      (p : Text) (id : Identity) (pass : List ℕ) (comment : Text)
      → Keeps true q (some bs) (write_openssh_private_key c k p id pass comment false)
  unfolding write_openssh_private_key
  write_openssh_private_key-Keeps p id pass comment = guarded-Keeps p _ λ ne. search keeps_rules

  -- The public line is written without a guard of its own.
  write_openssh-Keeps :
      (p : Text) (id : Identity) (pass : Option (List ℕ)) (comment : Text)
      → q ≢ openssh_pub_path p
      → Keeps true q (some bs) (write_openssh c k p id pass comment false)
  unfolding write_openssh
  write_openssh-Keeps p id pass comment ne = search (keeps_rules, write_openssh_private_key-Keeps)

  write_identity-Keeps :
      (base : Text) (id : Identity) (openssh : Bool) (pass : Option (List ℕ)) (comment : Text)
      → (openssh ≡ true → q ≢ openssh_pub_path (private_name base))
      → Keeps true q (some bs) (write_identity c k base id openssh pass comment false)
  unfolding write_identity
  write_identity-Keeps base id true pass comment ne =
      let other = ne refl in
      search (keeps_rules, write_private_key_hex_file-Keeps, write_key-Keeps, write_openssh-Keeps)
  write_identity-Keeps base id false pass comment ne =
      search (keeps_rules, write_private_key_hex_file-Keeps, write_key-Keeps)

  -- What follows the guards of an Ed25519 key may use that the public line's file is not there.
  after_pair :
      {B : Type 0} (base : Text) (openssh : Bool) (f : Unit {0} → Action B)
      → ((openssh ≡ true → q ≢ openssh_pub_path (private_name base))
          → Keeps true q (some bs) (f tt))
      → Keeps true q (some bs) (ensure_pair base openssh false >>= f)
  unfolding ensure_pair ensure_openssh
  after_pair base true f h = assoc-Keeps (ensure_writable (private_name base) false) _ f (
      guarded-Keeps (private_name base) _ λ _.
        assoc-Keeps (ensure_writable (public_name base) false) _ f (
          guarded-Keeps (public_name base) _ λ _.
            assoc-Keeps (ensure_writable (openssh_path (private_name base)) false)
              (λ _. ensure_writable (openssh_pub_path (private_name base)) false) f
              (guarded-Keeps (openssh_path (private_name base)) _
                λ _. guarded-Keeps (openssh_pub_path (private_name base)) f λ ne. h λ _. ne)))
  after_pair base false f h = assoc-Keeps (ensure_writable (private_name base) false) _ f (
      guarded-Keeps (private_name base) _ λ _.
        assoc-Keeps (ensure_writable (public_name base) false) (λ _. pure tt) f
          (guarded-Keeps (public_name base) f λ _. h λ e. absurd (cc)))

  keygen_rsa-Keeps :
      (bits : ℕ) (base : Text) → Keeps true q (some bs) (keygen_rsa c k bits base false)
  unfolding keygen_rsa
  keygen_rsa-Keeps bits base =
      guarded-Keeps (private_name base) _
        λ n1. guarded-Keeps (public_name base) _ λ n2. search keeps_rules depth 12

  keygen_for-Keeps :
      (algo : KeyAlgorithm) (args : KeygenArgs) (pass : Option (List ℕ))
      → args.force ≡ false
      → Keeps true q (some bs) (keygen_for c k algo args pass)
  unfolding keygen_for
  keygen_for-Keeps ed25519 args pass e =
      rw e (after_pair args.output args.openssh _ λ ne. search (keeps_rules, write_identity-Keeps))
  keygen_for-Keeps aes256gcm args pass e =
      rw e (guarded-Keeps (private_name args.output) _ λ _. search (keeps_rules, write_key-Keeps))
  keygen_for-Keeps rsa args pass e = rw e (keygen_rsa-Keeps args.bits args.output)

  derive_aes-Keeps :
      (args : DeriveArgs) (pass : List ℕ)
      → args.force ≡ false
      → Keeps true q (some bs) (derive_aes c k args pass)
  unfolding derive_aes
  derive_aes-Keeps args pass e =
      rw e (guarded-Keeps (private_name args.output) _ λ _. search (keeps_rules, write_key-Keeps))

  derive_for-Keeps :
      (algo : KeyAlgorithm) (args : DeriveArgs) (pass : List ℕ) (ssh : Option (List ℕ))
      → args.force ≡ false
      → Keeps true q (some bs) (derive_for c k algo args pass ssh)
  unfolding derive_for
  derive_for-Keeps ed25519 args pass ssh e =
      rw e (after_pair args.output args.openssh _ λ ne. search (keeps_rules, write_identity-Keeps))
  derive_for-Keeps aes256gcm args pass ssh e = derive_aes-Keeps args pass e
  derive_for-Keeps rsa args pass ssh e = search keeps_rules

  -- Without `--force`, `cry keygen` changes no file that is there, whatever its path, whichever
  -- algorithm is chosen, and whichever calls fail other than `Path::exists`.
  pub keygen-Keeps :
      (args : KeygenArgs) (ssh : Option (List ℕ))
      → args.force ≡ false
      → Keeps true q (some bs) (keygen c k args ssh)
  unfolding keygen
  keygen-Keeps args ssh e = keygen_for-Keeps args.algo args ssh e

  -- Nor does `cry derive`.
  pub derive-Keeps :
      (args : DeriveArgs) (pass : List ℕ) (ssh : Option (List ℕ))
      → args.force ≡ false
      → Keeps true q (some bs) (derive c k args pass ssh)
  unfolding derive
  derive-Keeps args pass ssh e = derive_for-Keeps args.algo args pass ssh e
