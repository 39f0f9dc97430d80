-- ===== src/Commands.antt =====
-- src/main.rs: what the commands do, from the arguments that are parsed to the result that `main`
-- reports; and the arguments of `cry sign` and `cry verify` in src/crydna.rs. Output is left out.
pub mod Guard
pub mod SignVerify
use cry.Base.{
  ℕ, List, [], ◌∷◌, Option, none, some, Bool, true, false, ltb, ◌-◌, ◌||◌, if◌then◌else◌, length,
  drop, Text,
}
use cry.Error.{Result, ok, panicked}
use cry.Crypto.{Crypto, KeyCrates}
use cry.Header.{Algorithm}
use cry.CryDna
use cry.CryDna.{public_key_hex, sign_content, signature_hex, verify_content_signature}
use cry.Hex.{starts_inside}
use cry.Fs.{Action, pure, lift, ◌>>=◌, ◌>>◌, read_file}
use cry.File.{Os, encrypt_file, decrypt_file}
use cry.Keygen
use cry.Keygen.{KeygenArgs, DeriveArgs}
use cry.Passphrase.{Terminal, not_empty, read_passphrase, read_openssh_passphrase}

pub record EncryptArgs : Type 0 where
  pub plain : Text
  pub cipher : Text
  pub algorithm : Algorithm
  pub force : Bool
  pub pass_file : Option Text

pub record DecryptArgs : Type 0 where
  pub cipher : Text
  pub plain : Text
  pub force : Bool
  pub pass_file : Option Text

pub record IdentityParams : Type 0 where
  pub namespace : Text
  pub key_version : ℕ
  pub sub_id : Option Text
  pub pass_file : Option Text

pub record SignArgs : Type 0 where
  pub params : IdentityParams
  pub file : Text

pub record VerifyArgs : Type 0 where
  pub file : Text
  pub signature : Text
  pub public_key : Text

-- `if args.openssh { read_openssh_passphrase().map(Some) } else { Ok(None) }`.
unfoldable pub openssh_pass : Terminal → Bool → Action (Option (List ℕ))
unfolding read_openssh_passphrase
openssh_pass t openssh =
    if openssh then (read_openssh_passphrase t >>= λ p. pure (some p)) else pure none

-- The master passphrase of `cry derive`.
unfoldable pub derive_pass : Terminal → Option Text → Action (List ℕ)
unfolding read_passphrase
derive_pass t (some raw) = do lift (not_empty raw); pure raw
derive_pass t none = read_passphrase t none false

-- The two slices of the signature that `cry verify` prints, `[..8]` and `[len.saturating_sub(8)..]`:
-- a slice beyond the end, or into a character, panics.
unfoldable pub slice_ends : Text → Result (Unit {0})
slice_ends s =
    if ltb (length s) 8 || starts_inside (drop 8 s) || starts_inside (drop (length s - 8) s)
    then panicked
    else ok tt

module _ (c : Crypto) (k : KeyCrates) (os : Os) (t : Terminal) where
  unfoldable pub encrypt_command : EncryptArgs → Action (Unit {0})
  encrypt_command args = do
    p ← read_passphrase t args.pass_file true
    encrypt_file c os args.plain args.cipher p args.algorithm args.force

  unfoldable pub decrypt_command : DecryptArgs → Action (Unit {0})
  decrypt_command args = do
    p ← read_passphrase t args.pass_file false
    decrypt_file c os args.plain args.cipher p args.force

  unfoldable pub keygen_command : KeygenArgs → Action (Unit {0})
  unfolding openssh_pass
  keygen_command args = do p ← openssh_pass t args.openssh; Keygen.keygen c k args p

  unfoldable pub derive_command : DeriveArgs → Action (Unit {0})
  unfolding openssh_pass derive_pass
  derive_command args = do
    p ← openssh_pass t args.openssh
    pass ← derive_pass t args.passphrase
    Keygen.derive c k args pass p

  -- It gives the public key and the signature that it prints.
  unfoldable pub sign_command : SignArgs → Action (Text × Text)
  sign_command args = do
    bytes ← read_file args.file
    pass ← read_passphrase t args.params.pass_file false
    id ←
        lift (CryDna.derive c pass args.params.namespace args.params.key_version args.params.sub_id)
    pure (public_key_hex c id, signature_hex c (sign_content c id bytes))

  unfoldable pub verify_command : VerifyArgs → Action (Unit {0})
  verify_command args = do
    content ← read_file args.file
    lift (verify_content_signature c args.public_key content args.signature)
    lift (slice_ends args.signature)
