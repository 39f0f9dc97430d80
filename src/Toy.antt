-- ===== src/Toy.antt =====
-- A concrete instance of the crates' interface, which shows that their laws can be met. It is no
-- cryptography: a tag is what the inputs leave in the last bytes.
use cry.Base.{
  ℕ, ◌+◌, ◌-◌, ◌≡◌, refl, List, ◌++◌, Option, none, some, inl, arith, length, take, drop,
  take-append, drop-append, length-append, list_eq, list_eq_iff, list_eq_refl, if◌then◌else◌,
}
use mathlib.Core.Path.{subst}
use cry.Bytes.{to_be_bytes, from_be_bytes}
use cry.Bytes.RoundTrip.{to_be_bytes-IsArray, length-to_be_bytes}
use cry.Crypto.{Aead, AeadLaws, Ed25519, Crypto, MacLaws, SigningLaws}
use cry.Cipher.Frames.{CipherLaws}

-- `n` bytes that depend on the last `n` bytes of a text.
unfoldable pub digest : ℕ → List ℕ → List ℕ
unfolding to_be_bytes from_be_bytes
digest n m = to_be_bytes n (from_be_bytes m)

unfoldable pub tag : List ℕ → List ℕ → List ℕ → List ℕ
unfolding digest
tag key nonce aad = digest 16 (key ++ (nonce ++ aad))

unfoldable pub seal : List ℕ → List ℕ → List ℕ → List ℕ → Option (List ℕ)
unfolding tag
seal key nonce aad m = some (m ++ tag key nonce aad)

unfoldable pub unseal : List ℕ → List ℕ → List ℕ → List ℕ → Option (List ℕ)
unfolding tag list_eq
unseal key nonce aad ct =
    if list_eq (drop (length ct - 16) ct) (tag key nonce aad)
    then some (take (length ct - 16) ct)
    else none

abbrev pub toy_aead : Aead
toy_aead = record { encrypt = seal; decrypt = unseal }

unfoldable pub toy_public : List ℕ → List ℕ
unfolding digest
toy_public sk = digest 32 sk

unfoldable pub toy_sign : List ℕ → List ℕ → List ℕ
unfolding digest
toy_sign pk m = digest 64 (pk ++ m)

abbrev pub toy_ed25519 : Ed25519
toy_ed25519 = record {
  public_key = toy_public;
  sign = λ sk m. toy_sign (toy_public sk) m;
  public_error = λ pk. none;
  verify = λ pk m sig. list_eq sig (toy_sign pk m);
}

abbrev pub toy : Crypto
toy = record {
  aes256gcm = toy_aead;
  chacha20poly1305 = toy_aead;
  ed25519 = toy_ed25519;
  base64 = λ bs. bs;
  sha256 = digest 32;
  hmac_sha256 = λ k m. digest 32 (k ++ m);
  hmac_verify = λ k m t. list_eq t (digest 32 (k ++ m));
  params_error = λ p. none;
  argon2id = λ p pass salt. inl (digest 32 (pass ++ salt));
}

length-tag : (key nonce aad : List ℕ) → length (tag key nonce aad) ≡ 16
unfolding tag digest
length-tag key nonce aad = length-to_be_bytes 16 (from_be_bytes (key ++ (nonce ++ aad)))

unseal-seal :
    (key nonce aad m : List ℕ) {ct : List ℕ}
    → seal key nonce aad m ≡ some ct
    → unseal key nonce aad ct ≡ some m
unfolding unseal seal
unseal-seal key nonce aad m {ct} e =
    let t = tag key nonce aad in
    let is_ct : m ++ t ≡ ct = cc in
    let len : length (m ++ t) - 16 ≡ length m =
      omega (arith, length-append m t, length-tag key nonce aad) in
    subst (λ xs. unseal key nonce aad xs ≡ some m) is_ct
      (rw (len, drop-append (length m) m t refl, take-append (length m) m t refl, list_eq_refl t))

length-seal :
    (key nonce aad m : List ℕ) {ct : List ℕ}
    → seal key nonce aad m ≡ some ct
    → length ct ≡ length m + 16
length-seal key nonce aad m {ct} e =
    let is_ct : m ++ tag key nonce aad ≡ ct = unfold seal in cc in
    rw (← is_ct) (omega (arith, length-append m (tag key nonce aad), length-tag key nonce aad))

pub toy_aead_laws : AeadLaws toy_aead
toy_aead_laws = record {
  decrypt_encrypt = unseal-seal;
  length_encrypt = length-seal;
  encrypts = λ k n aad m h. (m ++ tag k n aad, unfold seal in refl);
}

pub toy-CipherLaws : CipherLaws toy
toy-CipherLaws = record { aes = toy_aead_laws; chacha = toy_aead_laws }

pub toy-MacLaws : MacLaws toy
unfolding digest
toy-MacLaws = record {
  hmac_array = λ k m. to_be_bytes-IsArray 32 (from_be_bytes (k ++ m));
  hmac_verify_iff = λ k m t. list_eq_iff t (digest 32 (k ++ m));
}

pub toy-SigningLaws : SigningLaws toy
unfolding toy_public toy_sign digest
toy-SigningLaws = record {
  public_array = λ sk. to_be_bytes-IsArray 32 (from_be_bytes sk);
  sign_array = λ sk m. to_be_bytes-IsArray 64 (from_be_bytes (toy_public sk ++ m));
  public_accepted = λ sk. refl;
  verify_sign = λ sk m. list_eq_refl (toy_sign (toy_public sk) m);
}
