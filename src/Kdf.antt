-- ===== src/Kdf.antt =====
-- src/kdf.rs: the file key from a passphrase and a salt.
use cry.Base.{ℕ, List, Option, none, some, ◌⊎◌, inl, inr, Text}
use cry.Error.{kdf, Result, ok, err, ◌>>◌}
use cry.Crypto.{Crypto, Argon2Params}

abbrev pub key_len : ℕ
key_len = 32

abbrev pub kdf_params : Argon2Params
kdf_params = record { m_cost = 65536; t_cost = 3; p_cost = 1; output_len = key_len }

-- `map_err(|e| CryError::Kdf(e.to_string()))` after `Params::new` and after `hash_password_into`.
abbrev pub params_or_kdf : Option Text → Result (Unit {0})
params_or_kdf none = ok tt
params_or_kdf (some e) = err (kdf e)

abbrev pub hash_or_kdf : List ℕ ⊎ Text → Result (List ℕ)
hash_or_kdf (inl key) = ok key
hash_or_kdf (inr e) = err (kdf e)

module _ (c : Crypto) where
  unfoldable pub derive_key : List ℕ → List ℕ → Result (List ℕ)
  derive_key passphrase salt = do
    params_or_kdf (c.params_error kdf_params)
    hash_or_kdf (c.argon2id kdf_params passphrase salt)
