-- ===== src/CryDna.antt =====
-- src/crydna.rs: deterministic Ed25519 identities, signing and verifying. A text is its UTF-8
-- bytes.
pub mod Verify
pub mod Salt
pub mod Export
use cry.Base.{
  ℕ, List, [], ◌∷◌, ◌++◌, Option, none, some, Bool, ◌==◌, if◌then◌else◌, length, take, Text, codes,
}
use cry.Error.{invalid_format, verification_failed, Result, ok, err, panicked, ◌>>=◌, ◌>>◌}
use cry.Bytes.{to_be_bytes}
use cry.Crypto.{Crypto, Argon2Params}
use cry.Kdf.{params_or_kdf, hash_or_kdf}
use cry.Hex.{Decoded, bytes, refused, panics, bytes_to_hex, hex_to_bytes}

unfoldable pub domain : List ℕ
domain = codes "CryDNA-v1"

unfoldable pub sig_domain : List ℕ
sig_domain = codes "CryDNA-file-sig-v1:"

abbrev pub seed_len : ℕ
seed_len = 32

-- `Identity`: the signing key by its seed.
pub record Identity : Type 0 where
  pub signing_key : List ℕ

-- The optional end of the salt's input.
unfoldable pub sub_part : Option Text → List ℕ
sub_part none = []
sub_part (some sub) = codes ":sub:" ++ sub

-- All that `derive_salt` feeds to the hash.
unfoldable pub salt_input : Text → ℕ → Option Text → List ℕ
unfolding sub_part
salt_input namespace version sub_id =
    domain
    ++ (codes ":" ++ (namespace ++ (codes ":v" ++ (to_be_bytes 4 version ++ sub_part sub_id))))

abbrev pub identity_params : Argon2Params
identity_params = record { m_cost = 65536; t_cost = 3; p_cost = 1; output_len = seed_len }

-- `map_err` with the message in front of the error's text.
abbrev pub or_invalid : Text → Decoded → Result (List ℕ)
or_invalid msg (bytes bs) = ok bs
or_invalid msg (refused e) = err (invalid_format (msg ++ e))
or_invalid msg panics = panicked

-- `try_into` an array of `n` bytes.
abbrev pub try_into : ℕ → Text → List ℕ → Result (List ℕ)
try_into n msg bs = if length bs == n then ok bs else err (invalid_format msg)

abbrev pub or_refused : Text → Option Text → Result (Unit {0})
or_refused msg none = ok tt
or_refused msg (some e) = err (invalid_format (msg ++ e))

module _ (c : Crypto) where
  unfoldable pub derive_salt : Text → ℕ → Option Text → List ℕ
  derive_salt namespace version sub_id = take 16 (c.sha256 (salt_input namespace version sub_id))

  -- `Identity::derive`.
  unfoldable pub derive : List ℕ → Text → ℕ → Option Text → Result Identity
  derive passphrase namespace version sub_id = do
    let salt = derive_salt namespace version sub_id
    params_or_kdf (c.params_error identity_params)
    seed ← hash_or_kdf (c.argon2id identity_params passphrase salt)
    ok (record { signing_key = seed })

  unfoldable pub verifying_key : Identity → List ℕ
  verifying_key id = c.ed25519.public_key id.signing_key

  unfoldable pub public_key_hex : Identity → Text
  public_key_hex id = bytes_to_hex (verifying_key id)

  unfoldable pub public_key_base64 : Identity → Text
  public_key_base64 id = c.base64 (verifying_key id)

  unfoldable pub private_key_hex : Identity → Text
  private_key_hex id = bytes_to_hex id.signing_key

  -- The hash that is signed.
  unfoldable pub message_hash : List ℕ → List ℕ
  message_hash content = c.sha256 (sig_domain ++ c.sha256 content)

  unfoldable pub sign_content : Identity → List ℕ → List ℕ
  sign_content id content = c.ed25519.sign id.signing_key (message_hash content)

  unfoldable pub signature_hex : List ℕ → Text
  signature_hex sig = bytes_to_hex sig

  unfoldable pub verify_content_signature : Text → List ℕ → Text → Result (Unit {0})
  verify_content_signature public_key_hex content signature_hex = do
    pub_bytes ← or_invalid (codes "Invalid public key hex: ") (hex_to_bytes public_key_hex)
    pub_array ← try_into 32 (codes "Ed25519 public key must be exactly 32 bytes") pub_bytes
    or_refused (codes "Invalid Ed25519 public key: ") (c.ed25519.public_error pub_array)
    sig_bytes ← or_invalid (codes "Invalid signature hex: ") (hex_to_bytes signature_hex)
    sig_array ← try_into 64 (codes "Ed25519 signature must be exactly 64 bytes") sig_bytes
    if c.ed25519.verify pub_array (message_hash content) sig_array
        then ok tt
        else err (
            verification_failed (
              codes
                "Signature is invalid — file may have been tampered with, or the wrong public key was supplied."))

-- `ssh_wire_public_key`.
unfoldable pub ssh_wire_public_key : List ℕ → List ℕ
ssh_wire_public_key pub_bytes =
    to_be_bytes 4 (length (codes "ssh-ed25519"))
    ++ (codes "ssh-ed25519" ++ (to_be_bytes 4 (length pub_bytes) ++ pub_bytes))
