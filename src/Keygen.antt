-- ===== src/Keygen.antt =====
-- src/keygen.rs: the files that `cry keygen` and `cry derive` write, and the writing of an
-- identity's private key in src/crydna.rs.
pub mod Guard
pub mod Line
pub mod PrivateFile
pub mod Reproduced
pub mod Salt
use cry.Base.{
  ℕ, ◌*◌, List, [], ◌∷◌, ◌++◌, Option, none, some, Bool, true, false, inl, inr, ◌⊎◌, if◌then◌else◌,
  Text, codes,
}
use cry.Error.{invalid_format, kdf, Result, ok, err, panicked}
use cry.Fmt.{decimal}
use cry.Crypto.{Crypto, KeyCrates, Argon2Params}
use cry.Kdf.{hash_or_kdf}
use cry.Utf8.{is_utf8}
use cry.CryDna
use cry.CryDna.{Identity, verifying_key, private_key_hex}
use cry.CryDna.Export.{or_message, openssh_private_key, ssh_authorized_keys_line}
use cry.Fs.{
  Action, pure, raise, lift, ◌>>=◌, ◌>>◌, contents, ensure_writable, next_call, write_file,
  fill_bytes,
}

pub data KeyAlgorithm : Type 0 where
  ed25519 rsa aes256gcm : KeyAlgorithm

pub record KeygenArgs : Type 0 where
  pub algo : KeyAlgorithm
  pub bits : ℕ
  pub output : Text
  pub sub_id : Option Text
  pub force : Bool
  pub openssh : Bool
  pub comment : Text

pub record DeriveArgs : Type 0 where
  pub algo : KeyAlgorithm
  pub bits : ℕ
  pub passphrase : Option Text
  pub namespace : Text
  pub key_version : ℕ
  pub output : Text
  pub sub_id : Option Text
  pub force : Bool
  pub openssh : Bool
  pub comment : Text

-- `names`: the private file, and the public one where there is one.
abbrev pub private_name : Text → Text
private_name base = base ++ codes ".cry_id"

abbrev pub public_name : Text → Text
public_name base = base ++ codes ".cry_pub_id"

abbrev pub openssh_path : Text → Text
openssh_path path = path ++ codes ".openssh_id"

abbrev pub openssh_pub_path : Text → Text
openssh_pub_path path = path ++ codes ".openssh_pub"

-- `set_permissions(path, 0o600)`: it can fail; what it sets is not in the world.
unfoldable pub set_permissions : Text → Action (Unit {0})
unfolding next_call
set_permissions path = do next_call; bs ← contents path; pure tt

-- `ok_or_else(|| InvalidFormat("missing OpenSSH passphrase"))`.
abbrev pub or_missing : Option (List ℕ) → Result (List ℕ)
or_missing none = err (invalid_format (codes "missing OpenSSH passphrase"))
or_missing (some pass) = ok pass

-- `from_utf8` with its `map_err`.
abbrev pub as_utf8 : List ℕ → Result (List ℕ)
as_utf8 bs =
    if is_utf8 bs
    then ok bs
    else err (invalid_format (codes "OpenSSH passphrase must be valid UTF-8"))

-- `unwrap`.
abbrev pub unwrap {ℓ} : {A : Type ℓ} → Option A → Result A
unwrap none = panicked
unwrap (some a) = ok a

-- The same on `Params::new`, by its error.
abbrev pub unwrap_params : Option Text → Result (Unit {0})
unwrap_params none = ok tt
unwrap_params (some e) = panicked

-- What `derive` hashes for the salt of an AES key.
unfoldable pub aes_salt_input : Text → ℕ → Option Text → List ℕ
aes_salt_input namespace key_version sub_id =
    codes "cry:derive:aes256gcm|ns="
    ++ (namespace
        ++ (codes "|ver="
            ++ (decimal key_version ++ (codes "|sub=" ++ elim sub_id [ none ↦ [] | some s ↦ s ]))))

abbrev pub aes_params : Argon2Params
aes_params = record { m_cost = 65536; t_cost = 3; p_cost = 1; output_len = 32 }

unfoldable pub ensure_openssh : Text → Bool → Action (Unit {0})
ensure_openssh private_path force = do
  ensure_writable (openssh_path private_path) force
  ensure_writable (openssh_pub_path private_path) force

-- The guards before anything is written for an Ed25519 key.
unfoldable pub ensure_pair : Text → Bool → Bool → Action (Unit {0})
unfolding ensure_openssh
ensure_pair base openssh force = do
  ensure_writable (private_name base) force
  ensure_writable (public_name base) force
  if openssh then ensure_openssh (private_name base) force else pure tt

module _ (c : Crypto) (k : KeyCrates) where
  -- `Identity::write_private_key_hex_file`, on Unix.
  unfoldable pub write_private_key_hex_file : Identity → Text → Bool → Action (Unit {0})
  write_private_key_hex_file id path force = do
    ensure_writable path force
    write_file path (private_key_hex c id)
    set_permissions path

  -- `write_private_key` and `write_public_key` have the same body.
  unfoldable pub write_key : Text → List ℕ → Bool → Action (Unit {0})
  write_key path bytes force = do ensure_writable path force; write_file path (k.hex_encode bytes)

  unfoldable pub write_openssh_private_key :
      Text → Identity → List ℕ → Text → Bool → Action (Unit {0})
  unfolding openssh_private_key
  write_openssh_private_key path id passphrase comment force = do
    ensure_writable path force
    pass ← lift (as_utf8 passphrase)
    pem ← lift (openssh_private_key c k id pass comment)
    write_file path pem

  -- The `if args.openssh` block.
  unfoldable pub write_openssh : Text → Identity → Option (List ℕ) → Text → Bool → Action (Unit {0})
  unfolding write_openssh_private_key ssh_authorized_keys_line
  write_openssh private_path id openssh_passphrase comment force = do
    pass ← lift (or_missing openssh_passphrase)
    write_openssh_private_key (openssh_path private_path) id pass comment force
    write_file (openssh_pub_path private_path) (ssh_authorized_keys_line c id comment ++ (10 ∷ []))

  -- What both commands do with an Ed25519 identity.
  unfoldable pub write_identity :
      Text → Identity → Bool → Option (List ℕ) → Text → Bool → Action (Unit {0})
  unfolding write_private_key_hex_file write_key write_openssh
  write_identity base id openssh openssh_passphrase comment force = do
    write_private_key_hex_file id (private_name base) force
    write_key (public_name base) (verifying_key c id) force
    if openssh
        then write_openssh (private_name base) id openssh_passphrase comment force
        else pure tt

  -- The RSA branch of `keygen`.
  unfoldable pub keygen_rsa : ℕ → Text → Bool → Action (Unit {0})
  keygen_rsa bits base force = do
    ensure_writable (private_name base) force
    ensure_writable (public_name base) force
    private ← lift (or_message (codes "RSA generation failed: ") (k.rsa_private bits))
    private_pem ← lift (unwrap (k.pkcs8_pem private))
    write_file (private_name base) private_pem
    public_pem ← lift (unwrap (k.public_pem (k.rsa_public private)))
    write_file (public_name base) public_pem

  keygen_for : KeyAlgorithm → KeygenArgs → Option (List ℕ) → Action (Unit {0})
  unfolding ensure_pair write_identity write_key keygen_rsa fill_bytes
  keygen_for ed25519 args openssh_passphrase = do
    ensure_pair args.output args.openssh args.force
    seed ← fill_bytes 32
    write_identity args.output (record { signing_key = seed }) args.openssh openssh_passphrase
        args.comment args.force
  keygen_for aes256gcm args openssh_passphrase = do
    ensure_writable (private_name args.output) args.force
    key ← fill_bytes 32
    write_key (private_name args.output) key args.force
  keygen_for rsa args openssh_passphrase = keygen_rsa args.bits args.output args.force

  unfoldable pub keygen : KeygenArgs → Option (List ℕ) → Action (Unit {0})
  unfolding keygen_for
  keygen args openssh_passphrase = keygen_for args.algo args openssh_passphrase

  -- The AES branch of `derive`.
  unfoldable pub derive_aes : DeriveArgs → List ℕ → Action (Unit {0})
  unfolding aes_salt_input write_key
  derive_aes args passphrase = do
    ensure_writable (private_name args.output) args.force
    let salt = c.sha256 (aes_salt_input args.namespace args.key_version args.sub_id)
    lift (unwrap_params (c.params_error aes_params))
    okm ← lift (hash_or_kdf (c.argon2id aes_params passphrase salt))
    write_key (private_name args.output) okm args.force

  derive_for : KeyAlgorithm → DeriveArgs → List ℕ → Option (List ℕ) → Action (Unit {0})
  unfolding ensure_pair write_identity derive_aes
  derive_for ed25519 args passphrase openssh_passphrase = do
    ensure_pair args.output args.openssh args.force
    id ← lift (CryDna.derive c passphrase args.namespace args.key_version args.sub_id)
    write_identity args.output id args.openssh openssh_passphrase args.comment args.force
  derive_for aes256gcm args passphrase openssh_passphrase = derive_aes args passphrase
  derive_for rsa args passphrase openssh_passphrase =
      raise (invalid_format (codes "Deterministic RSA derivation is intentionally disabled"))

  unfoldable pub derive : DeriveArgs → List ℕ → Option (List ℕ) → Action (Unit {0})
  unfolding derive_for
  derive args passphrase openssh_passphrase =
      derive_for args.algo args passphrase openssh_passphrase
