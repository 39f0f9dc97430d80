-- ===== src/Keygen/PrivateFile.antt =====
-- src/keygen.rs: the private key that `write_identity` writes stays in its file.
use cry.Base.{
  ℕ, ◌<◌, ◌≡◌, ◌≢◌, ap, List, ◌++◌, Option, some, Bool, false, arith, length, length-append,
  if◌then◌else◌, codes, Text,
}
use cry.Crypto.{Crypto, KeyCrates}
use cry.CryDna.{Identity, private_key_hex, verifying_key}
use cry.Fs.{World, Action, pure, ◌>>◌, write_file, ensure_writable}
use cry.Fs.Stands.{Stands}
use cry.Fs.Keeps.{Keeps, Keeps-Stands, keeps_rules}
use cry.Keygen.Guard.{set_permissions-Keeps}
use cry.Fs.Ends.{Ends, Ends-mono, >>=-Ends, always}
use cry.Keygen.{
  private_name, public_name, openssh_path, openssh_pub_path, set_permissions,
  write_private_key_hex_file, write_key, write_openssh_private_key, write_openssh, write_identity,
}
use cry.Keygen.Line.{Anyhow, behind, write_file-Ends}

-- A text and the same with something behind it are not one path.
longer : (base a b : Text) → length a < length b → base ++ a ≢ base ++ b
longer base a b l e = omega (arith, ap length e, length-append base a, length-append base b)

longer_path : (p b : Text) → 0 < length b → p ≢ p ++ b
longer_path p b l e = omega (arith, ap length e, length-append p b)

-- A file that an action leaves alone.
keeps {ℓ} :
    {A : Type ℓ} (q : Text) (v : Option (List ℕ)) (m : Action A)
    → Stands q v m
    → (w : World) → w.files q ≡ v
    → Ends (λ _ w'. w'.files q ≡ v) Anyhow (m w)
keeps q v m s w e =
    Ends-mono (m w) (λ _ w' h. h) (λ w' h. tt) (always (λ w'. w'.files q ≡ v) (m w) (s w e))

module _ (c : Crypto) (k : KeyCrates) where
  write_key-Keeps :
      {q : Text} {v : Option (List ℕ)} (p : Text) (bytes : List ℕ) (force : Bool)
      → q ≢ p
      → Keeps false q v (write_key c k p bytes force)
  unfolding write_key
  write_key-Keeps p bytes force ne = search keeps_rules

  write_openssh-Keeps :
      {q : Text} {v : Option (List ℕ)} (p : Text) (id : Identity) (pass : Option (List ℕ))
      (comment : Text) (force : Bool)
      → q ≢ openssh_path p
      → q ≢ openssh_pub_path p
      → Keeps false q v (write_openssh c k p id pass comment force)
  unfolding write_openssh write_openssh_private_key
  write_openssh-Keeps p id pass comment force n1 n2 = search keeps_rules depth 12

  -- What is written behind the private key of an identity leaves it alone.
  others-Keeps :
      (base : Text) (id : Identity) (openssh : Bool) (pass : Option (List ℕ)) (comment : Text)
      (force : Bool) (v : Option (List ℕ))
      → Keeps false (private_name base) v (
          write_key c k (public_name base) (verifying_key c id) force
          >> (if openssh
              then write_openssh c k (private_name base) id pass comment force
              else pure tt))
  others-Keeps base id openssh pass comment force v =
      let n1 = longer base (codes ".cry_id") (codes ".cry_pub_id") (unfold codes in omega arith) in
      let n2 =
        longer_path (private_name base) (codes ".openssh_id") (unfold codes in omega arith) in
      let n3 =
        longer_path (private_name base) (codes ".openssh_pub") (unfold codes in omega arith) in
      search (keeps_rules, write_key-Keeps, write_openssh-Keeps)

  pub write_identity-Private :
      (base : Text) (id : Identity) (openssh : Bool) (pass : Option (List ℕ)) (comment : Text)
      (force : Bool) (w : World)
      → Ends
          (λ _ w'. w'.files (private_name base) ≡ some (private_key_hex c id))
          Anyhow
          (write_identity c k base id openssh pass comment force w)
  unfolding write_identity write_private_key_hex_file
  write_identity-Private base id openssh pass comment force w =
      let q = private_name base in
      let v = some (private_key_hex c id) in
      let Q : Unit {0} → World → Type 0 = λ _ w'. w'.files q ≡ v in
      let others =
        write_key c k (public_name base) (verifying_key c id) force
        >> (if openssh then write_openssh c k q id pass comment force else pure tt) in
      >>=-Ends Q Q Anyhow (write_private_key_hex_file c k id q force) (λ _. others) w
        (behind Q (ensure_writable q force)
          (λ _. write_file q (private_key_hex c id) >> set_permissions q)
          (λ _ w1.
            >>=-Ends Q Q Anyhow (write_file q (private_key_hex c id)) (λ _. set_permissions q) w1
              (write_file-Ends q (private_key_hex c id) w1)
              λ _ w2 e.
                keeps q v (set_permissions q)
                  (Keeps-Stands (set_permissions q) (set_permissions-Keeps q)) w2 e)
          w)
        λ _ w1 e.
          keeps q v others (Keeps-Stands others (others-Keeps base id openssh pass comment force v))
            w1 e
