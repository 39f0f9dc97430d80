-- ===== src/Cipher/Frames.antt =====
-- src/cipher.rs: the body of an encrypted file, as a sequence of frames.
use cry.Base.{
  ℕ, ◌+◌, ◌^◌, ◌≤◌, ◌<◌, ◌≡◌, Option, List, [], ◌∷◌, ◌++◌, some, arith, length, length-append, All,
  none,
}
use cry.Error.{CryError, ok, encryption_failed}
use cry.Bytes.{to_be_bytes}
use cry.Bytes.RoundTrip.{length-to_be_bytes}
use cry.Crypto.{Crypto, AeadLaws}
use cry.Header.{Algorithm, aes256gcm, chacha20poly1305}
use cry.Cipher.{chunk_nonce, chunk_aad, encrypt_chunk, decrypt_chunk, max_chunk_wire_len, or_fail}

-- What the documentation of the two AEAD crates promises.
pub record CipherLaws (c : Crypto) : Type 0 where
  pub aes : AeadLaws c.aes256gcm
  pub chacha : AeadLaws c.chacha20poly1305

-- The length bytes of a ciphertext and the ciphertext, in front of what follows.
abbrev pub frame_before : List ℕ → List ℕ → List ℕ
frame_before ct rest = to_be_bytes 4 (length ct) ++ (ct ++ rest)

pub length-frame_before :
    (ct rest : List ℕ) → length (frame_before ct rest) ≡ 4 + (length ct + length rest)
length-frame_before ct rest = omega (
  arith,
  length-append (to_be_bytes 4 (length ct)) (ct ++ rest),
  length-append ct rest,
  length-to_be_bytes 4 (length ct),
)

module _ (c : Crypto) (key base_nonce : List ℕ) (algo : Algorithm) (aad : List ℕ) where
  -- `body` is a run of frames: from index `i` on, each is the encryption of one plaintext under the
  -- nonce and the associated data of its index, and fits the length bytes.
  abbrev pub Sealed : ℕ → List (List ℕ) → List ℕ → Type 0
  Sealed i [] body = body ≡ []
  Sealed i (p ∷ ps) body =
      (ct : List ℕ) × (rest : List ℕ) × (encrypt_chunk c p key (chunk_nonce base_nonce i) algo
          (chunk_aad aad i)
        ≡ ok ct)
      × (length ct ≡ length p + 16)
      × (body ≡ frame_before ct rest)
      × Sealed (i + 1) ps rest

  -- `body` is a run of frames that decrypt, each at its index, to the given plaintexts, and at most
  -- three bytes behind them.
  abbrev pub Opened : ℕ → List (List ℕ) → List ℕ → List ℕ → Type 0
  Opened i [] body tail = (body ≡ tail) × (length tail < 4)
  Opened i (p ∷ ps) body tail =
      (ct : List ℕ) × (rest : List ℕ) × (decrypt_chunk c ct key (chunk_nonce base_nonce i) algo
          (chunk_aad aad i)
        ≡ ok p)
      × (length ct ≤ max_chunk_wire_len)
      × (body ≡ frame_before ct rest)
      × Opened (i + 1) ps rest tail

or_fail-eq-ok :
    (e : CryError) (o : Option (List ℕ)) {bs : List ℕ} → or_fail e o ≡ ok bs → o ≡ some bs
unfolding or_fail
or_fail-eq-ok e none h = cc
or_fail-eq-ok e (some x) h = cc

module _ (c : Crypto) (laws : CipherLaws c) where
  -- A chunk of at most 1 MiB is encrypted, to 16 bytes more.
  pub encrypt_chunk_total :
      (p key nonce : List ℕ) (algo : Algorithm) (aad : List ℕ)
      → length p ≤ 2 ^ 20
      → (ct : List ℕ) × (encrypt_chunk c p key nonce algo aad ≡ ok ct) × (length ct ≡ length p + 16)
  unfolding encrypt_chunk
  encrypt_chunk_total p key nonce aes256gcm aad h =
      let (ct, e) = laws.aes.encrypts key nonce aad p h in
      (ct, rw e, laws.aes.length_encrypt key nonce aad p e)
  encrypt_chunk_total p key nonce chacha20poly1305 aad h =
      let (ct, e) = laws.chacha.encrypts key nonce aad p h in
      (ct, rw e, laws.chacha.length_encrypt key nonce aad p e)

  -- What was encrypted under a key, a nonce and associated data decrypts under the same.
  pub decrypt_chunk-encrypt_chunk :
      (p key nonce : List ℕ) (algo : Algorithm) (aad : List ℕ) {ct : List ℕ}
      → encrypt_chunk c p key nonce algo aad ≡ ok ct
      → decrypt_chunk c ct key nonce algo aad ≡ ok p
  unfolding encrypt_chunk decrypt_chunk
  decrypt_chunk-encrypt_chunk p key nonce aes256gcm aad e =
      rw (laws.aes.decrypt_encrypt key nonce aad p (or_fail-eq-ok encryption_failed _ e))
  decrypt_chunk-encrypt_chunk p key nonce chacha20poly1305 aad e =
      rw (laws.chacha.decrypt_encrypt key nonce aad p (or_fail-eq-ok encryption_failed _ e))

  -- What `encrypt_chunks` writes, `decrypt_chunks` can open, if no chunk is longer than 1 MiB.
  pub Sealed-Opened :
      (key base_nonce : List ℕ) (algo : Algorithm) (aad : List ℕ) (i : ℕ) (ps : List (List ℕ))
      (body : List ℕ)
      → All (λ p. length p ≤ 2 ^ 20) ps
      → Sealed c key base_nonce algo aad i ps body
      → Opened c key base_nonce algo aad i ps body []
  Sealed-Opened key base_nonce algo aad i [] body le s = (s, omega arith)
  Sealed-Opened key base_nonce algo aad i (p ∷ ps) body le (ct, rest, e, l, b, s) = (
    ct,
    rest,
    decrypt_chunk-encrypt_chunk p key _ algo _ e,
    omega arith,
    b,
    Sealed-Opened key base_nonce algo aad (i + 1) ps rest le.1 s,
  )
