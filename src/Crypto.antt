-- ===== src/Crypto.antt =====
-- The crates that the program calls (aes-gcm, chacha20poly1305, hmac, sha2, argon2, ed25519-dalek,
-- base64ct):
-- their operations are a parameter of the model, and what their documentation promises is a record
-- of laws.
use cry.Base.{
  ℕ, ◌+◌, ◌≤◌, ◌^◌, ◌≡◌, ◌↔◌, ◌⊎◌, Bool, true, Option, none, some, List, length, IsArray, Text,
}

-- One AEAD cipher: `encrypt` and `decrypt` by key, nonce, associated data and message.
pub record Aead : Type 0 where
  pub encrypt : List ℕ → List ℕ → List ℕ → List ℕ → Option (List ℕ)
  pub decrypt : List ℕ → List ℕ → List ℕ → List ℕ → Option (List ℕ)

-- `argon2::Params`.
pub record Argon2Params : Type 0 where
  pub m_cost : ℕ
  pub t_cost : ℕ
  pub p_cost : ℕ
  pub output_len : ℕ

-- Ed25519 over a signing key that is given by its 32 seed bytes.
pub record Ed25519 : Type 0 where
  pub public_key : List ℕ → List ℕ
  pub sign : List ℕ → List ℕ → List ℕ
  -- `VerifyingKey::from_bytes`: the text of its error, if it refuses the 32 bytes.
  pub public_error : List ℕ → Option Text
  -- `verify` by public key, message and signature.
  pub verify : List ℕ → List ℕ → List ℕ → Bool

pub record Crypto : Type 0 where
  pub aes256gcm : Aead
  pub chacha20poly1305 : Aead
  pub ed25519 : Ed25519
  -- `Base64::encode_string` of base64ct.
  pub base64 : List ℕ → Text
  pub sha256 : List ℕ → List ℕ
  -- The tag of a message under a key, and the comparison with a stored tag.
  pub hmac_sha256 : List ℕ → List ℕ → List ℕ
  pub hmac_verify : List ℕ → List ℕ → List ℕ → Bool
  -- `Params::new`: the text of its error, if it refuses.
  pub params_error : Argon2Params → Option Text
  -- `hash_password_into` by passphrase and salt: the derived bytes, or the text of its error.
  pub argon2id : Argon2Params → List ℕ → List ℕ → List ℕ ⊎ Text

-- The crates for the files that hold keys: ssh-key, rsa and hex. What they draw from their own
-- generators is fixed with the instance.
pub record KeyCrates : Type 0 where
  -- `Ed25519Keypair::from_bytes`, `PrivateKey::new` with a comment, `encrypt` with a passphrase and
  -- `to_openssh`: what they give, or the text of their error.
  pub keypair : List ℕ → List ℕ ⊎ Text
  pub private_key : List ℕ → Text → List ℕ ⊎ Text
  pub encrypt_key : List ℕ → List ℕ → List ℕ ⊎ Text
  pub to_openssh : List ℕ → Text ⊎ Text
  -- `RsaPrivateKey::new` by the number of bits, `RsaPublicKey::from`, and the PEM forms, which the
  -- program unwraps.
  pub rsa_private : ℕ → List ℕ ⊎ Text
  pub rsa_public : List ℕ → List ℕ
  pub pkcs8_pem : List ℕ → Option Text
  pub public_pem : List ℕ → Option Text
  -- `hex::encode`.
  pub hex_encode : List ℕ → Text

-- The plaintext comes back, a ciphertext is 16 bytes longer, and 1 MiB is within the limit.
pub record AeadLaws (a : Aead) : Type 0 where
  pub decrypt_encrypt :
      (k n aad m : List ℕ) {ct : List ℕ}
      → a.encrypt k n aad m ≡ some ct
      → a.decrypt k n aad ct ≡ some m
  pub length_encrypt :
      (k n aad m : List ℕ) {ct : List ℕ} → a.encrypt k n aad m ≡ some ct → length ct ≡ length m + 16
  pub encrypts :
      (k n aad m : List ℕ) → length m ≤ 2 ^ 20 → (ct : List ℕ) × (a.encrypt k n aad m ≡ some ct)

-- Tags are 32 bytes, and a stored tag passes exactly when it is the tag.
pub record MacLaws (c : Crypto) : Type 0 where
  pub hmac_array : (k m : List ℕ) → IsArray 32 (c.hmac_sha256 k m)
  pub hmac_verify_iff : (k m t : List ℕ) → (c.hmac_verify k m t ≡ true) ↔ (t ≡ c.hmac_sha256 k m)

-- Keys are 32 bytes, signatures 64; a derived public key is accepted, and a signature verifies.
pub record SigningLaws (c : Crypto) : Type 0 where
  pub public_array : (sk : List ℕ) → IsArray 32 (c.ed25519.public_key sk)
  pub sign_array : (sk m : List ℕ) → IsArray 64 (c.ed25519.sign sk m)
  pub public_accepted : (sk : List ℕ) → c.ed25519.public_error (c.ed25519.public_key sk) ≡ none
  pub verify_sign :
      (sk m : List ℕ) → c.ed25519.verify (c.ed25519.public_key sk) m (c.ed25519.sign sk m) ≡ true
