-- ===== src/CryDna/Export.antt =====
-- src/crydna.rs: what an identity gives out: its fingerprint, its line for `authorized_keys`, and
-- its private key as an OpenSSH file.
use cry.Base.{ℕ, List, [], ◌∷◌, ◌++◌, inl, inr, ◌⊎◌, ◌==◌, if◌then◌else◌, Text, codes}
use cry.Error.{invalid_format, Result, ok, err, ◌>>=◌}
use cry.Crypto.{Crypto, KeyCrates}
use cry.CryDna.{Identity, verifying_key, ssh_wire_public_key}

-- `trim_end_matches(c)`.
unfoldable pub trim_end_matches : ℕ → Text → Text
trim_end_matches c [] = []
trim_end_matches c (x ∷ xs) = elim (trim_end_matches c xs) [
  | [] ↦ if x == c then [] else x ∷ []
  | y ∷ ys ↦ x ∷ y ∷ ys
]

-- `map_err(|e| InvalidFormat(format!("…: {e}")))`.
abbrev pub or_message {ℓ} : {A : Type ℓ} → Text → A ⊎ Text → Result A
or_message message (inl a) = ok a
or_message message (inr e) = err (invalid_format (message ++ e))

module _ (c : Crypto) where
  unfoldable pub fingerprint : Identity → Text
  unfolding trim_end_matches
  fingerprint id =
      codes "SHA256:" ++ trim_end_matches b'=' (c.base64 (c.sha256 (verifying_key c id)))

  unfoldable pub ssh_authorized_keys_line : Identity → Text → Text
  ssh_authorized_keys_line id comment =
      codes "ssh-ed25519 "
      ++ (c.base64 (ssh_wire_public_key (verifying_key c id)) ++ (codes " " ++ comment))

  -- `to_keypair_bytes` is the seed and the public key.
  unfoldable pub openssh_private_key : KeyCrates → Identity → List ℕ → Text → Result Text
  openssh_private_key k id passphrase comment = do
    keypair ←
        or_message (codes "OpenSSH key build failed: ")
          (k.keypair (id.signing_key ++ verifying_key c id))
    private ← or_message (codes "OpenSSH key build failed: ") (k.private_key keypair comment)
    locked ← or_message (codes "OpenSSH key encryption failed: ") (k.encrypt_key private passphrase)
    or_message (codes "OpenSSH key encode failed: ") (k.to_openssh locked)
