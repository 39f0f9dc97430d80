-- ===== src/Keygen/Line.antt =====
-- src/keygen.rs: the line that `cry derive --openssh` writes for `authorized_keys`.
use cry.Base.{ℕ, ◌≡◌, refl, List, [], ◌∷◌, ◌++◌, Option, some, Bool, true, false, Text}
use cry.Error.{Result, ok, err, panicked, stuck}
use cry.Crypto.{Crypto, KeyCrates}
use cry.CryDna
use cry.CryDna.{Identity, verifying_key}
use cry.CryDna.Export.{ssh_authorized_keys_line}
use cry.Fs.{World, Action, lift, ◌>>=◌, ◌>>◌, next_call, create_file, put_file, write_file}
use cry.Fs.Stands.{update_same}
use cry.Fs.Ends.{Ends, Ends-mono, >>=-Ends}
use cry.Keygen.{
  KeyAlgorithm, DeriveArgs, ed25519, aes256gcm, rsa, derive_for, derive, private_name, public_name,
  openssh_path, openssh_pub_path, ensure_pair, or_missing, write_private_key_hex_file, write_key,
  write_openssh_private_key, write_openssh, write_identity,
}

-- Nothing is said of a world.
abbrev pub Anyhow : World → Type 0
Anyhow w = Unit

-- A postcondition that says nothing.
no_claim {ℓ} : {A : Type ℓ} (x : Result A × World) → Ends (λ _. Anyhow) Anyhow x
no_claim (ok a, w) = tt
no_claim (err e, w) = tt
no_claim (panicked, w) = tt
no_claim (stuck, w) = tt

-- A step whose effect does not matter, and another behind it.
pub behind {ℓ κ} :
    {A : Type ℓ} {B : Type κ} (Q : B → World → Type 0) (m : Action A) (f : A → Action B)
    → ((a : A) (w : World) → Ends Q Anyhow (f a w))
    → (w : World) → Ends Q Anyhow ((m >>= f) w)
behind Q m f next w = >>=-Ends (λ _. Anyhow) Q Anyhow m f w (no_claim (m w)) (λ a w' _. next a w')

-- A step that only computes, and another behind it, which may use how it has ended.
pub lifted {ℓ κ} :
    {A : Type ℓ} {B : Type κ} (Q : B → World → Type 0) (r : Result A) (f : A → Action B)
    → ((a : A) → r ≡ ok a → (w : World) → Ends Q Anyhow (f a w))
    → (w : World) → Ends Q Anyhow ((lift r >>= f) w)
lifted Q (ok a) f next w = next a refl w
lifted Q (err e) f next w = tt
lifted Q panicked f next w = tt
lifted Q stuck f next w = tt

-- What is written is there, if the writing succeeds.
pub write_file-Ends :
    (p : Text) (bs : List ℕ) (w : World)
    → Ends (λ _ w'. w'.files p ≡ some bs) Anyhow (write_file p bs w)
unfolding write_file
write_file-Ends p bs w =
    behind (λ _ w'. w'.files p ≡ some bs) (create_file p) (λ _. next_call >> put_file p (some bs))
      (λ _ w1.
        behind (λ _ w'. w'.files p ≡ some bs) next_call (λ _. put_file p (some bs))
          (λ _ w2. update_same w2.files p (some bs)) w1)
      w

module _ (c : Crypto) (k : KeyCrates) where
  -- The file of the public line holds the line of an identity.
  abbrev pub HasLine : Text → Identity → Text → World → Type 0
  HasLine private id comment w =
      w.files (openssh_pub_path private) ≡ some (ssh_authorized_keys_line c id comment ++ 10 ∷ [])

  write_openssh-Ends :
      (private : Text) (id : Identity) (pass : Option (List ℕ)) (comment : Text) (force : Bool)
      (w : World)
      → Ends
          (λ _. HasLine private id comment)
          Anyhow
          (write_openssh c k private id pass comment force w)
  unfolding write_openssh
  write_openssh-Ends private id pass comment force w =
      let line = ssh_authorized_keys_line c id comment ++ 10 ∷ [] in
      let write = write_file (openssh_pub_path private) line in
      behind (λ _. HasLine private id comment) (lift (or_missing pass))
        (λ p. write_openssh_private_key c k (openssh_path private) id p comment force >> write)
        (λ p w1.
          behind (λ _. HasLine private id comment)
            (write_openssh_private_key c k (openssh_path private) id p comment force) (λ _. write)
            (λ _ w2. write_file-Ends (openssh_pub_path private) line w2) w1)
        w

  write_identity-Ends :
      (base : Text) (id : Identity) (pass : Option (List ℕ)) (comment : Text) (force : Bool)
      (w : World)
      → Ends
          (λ _. HasLine (private_name base) id comment)
          Anyhow
          (write_identity c k base id true pass comment force w)
  unfolding write_identity
  write_identity-Ends base id pass comment force w =
      let Q : Unit {0} → World → Type 0 = λ _. HasLine (private_name base) id comment in
      let rest = write_openssh c k (private_name base) id pass comment force in
      behind Q (write_private_key_hex_file c k id (private_name base) force)
        (λ _. write_key c k (public_name base) (verifying_key c id) force >> rest)
        (λ _ w1.
          behind Q (write_key c k (public_name base) (verifying_key c id) force) (λ _. rest)
            (λ _ w2. write_openssh-Ends (private_name base) id pass comment force w2) w1)
        w

  -- The identity that the arguments and a passphrase determine, and its line.
  abbrev pub WritesLine : DeriveArgs → List ℕ → World → Type 0
  WritesLine args passphrase w =
      (id : Identity) × (CryDna.derive c passphrase args.namespace args.key_version args.sub_id
        ≡ ok id)
      × HasLine (private_name args.output) id args.comment w

  with_openssh :
      (args : DeriveArgs) (passphrase : List ℕ) (pass : Option (List ℕ)) (id : Identity)
      → CryDna.derive c passphrase args.namespace args.key_version args.sub_id ≡ ok id
      → (b : Bool) → b ≡ true
      → (w : World)
      → Ends
          (λ _. WritesLine args passphrase)
          Anyhow
          (write_identity c k args.output id b pass args.comment args.force w)
  with_openssh args passphrase pass id e true t w =
      Ends-mono (write_identity c k args.output id true pass args.comment args.force w)
        (λ _ w' line. (id, e, line)) (λ w' x. x)
        (write_identity-Ends args.output id pass args.comment args.force w)
  with_openssh args passphrase pass id e false t w = absurd (cc)

  derive_for-Ends :
      (a : KeyAlgorithm) (args : DeriveArgs) (passphrase : List ℕ) (pass : Option (List ℕ))
      → a ≡ ed25519
      → args.openssh ≡ true
      → (w : World)
      → Ends (λ _. WritesLine args passphrase) Anyhow (derive_for c k a args passphrase pass w)
  unfolding derive_for
  derive_for-Ends aes256gcm args passphrase pass e o w = absurd (cc)
  derive_for-Ends rsa args passphrase pass e o w = absurd (cc)
  derive_for-Ends ed25519 args passphrase pass e o w =
      let Q : Unit {0} → World → Type 0 = λ _. WritesLine args passphrase in
      let derived = CryDna.derive c passphrase args.namespace args.key_version args.sub_id in
      let write = λ (id : Identity).
        write_identity c k args.output id args.openssh pass args.comment args.force in
      behind Q (ensure_pair args.output args.openssh args.force) (λ _. lift derived >>= write)
        (λ _ w1.
          lifted Q derived write
            (λ id h w2. with_openssh args passphrase pass id h args.openssh o w2) w1)
        w

  -- When `cry derive --openssh` succeeds for an Ed25519 key, whatever calls fail, the public
  -- OpenSSH file holds the line of the identity.
  pub derive-Ends :
      (args : DeriveArgs) (passphrase : List ℕ) (pass : Option (List ℕ))
      → args.algo ≡ ed25519
      → args.openssh ≡ true
      → (w : World)
      → Ends (λ _. WritesLine args passphrase) Anyhow (derive c k args passphrase pass w)
  unfolding derive
  derive-Ends args passphrase pass e o w = derive_for-Ends args.algo args passphrase pass e o w
