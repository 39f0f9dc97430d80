-- ===== src/Cipher/RoundTrip.antt =====
-- src/cipher.rs: `decrypt_chunks` gives back what `encrypt_chunks` was given.
use cry.Base.{ℕ, ◌+◌, ◌/◌, ◌-◌, ◌≡◌, refl, ap₂, ◌∙◌, sym, List, [], arith, length}
use cry.Error.{ok}
use cry.Crypto.{Crypto}
use cry.Header.{Algorithm}
use cry.Io.{Reader}
use cry.Io.Clean.{IsClean, bytes_of}
use mathlib.Core.Path.{subst}
use cry.Cipher.{chunk_size, encrypt_chunks, decrypt_chunks}
use cry.Cipher.Frames.{CipherLaws, Sealed, Opened, Sealed-Opened}
use cry.Cipher.Pieces.{pieces, pieces-le, length-pieces, flatten-pieces}
use cry.Cipher.Encrypt.{clean, encrypt_chunks-Sealed}
use cry.Cipher.Decrypt.{decrypt_chunks-Opened}

module _ (c : Crypto) (laws : CipherLaws c) (key base_nonce : List ℕ) (algo : Algorithm)
    (aad : List ℕ) where
  -- Frames over the chunks of a text decrypt to the text.
  pub decrypt_chunks-Sealed :
      (bs body : List ℕ) (s : Reader)
      → Sealed c key base_nonce algo aad 0 (pieces chunk_size bs) body
      → IsClean s
      → bytes_of s ≡ body
      → decrypt_chunks c key base_nonce algo aad s (clean [])
        ≡ ok ((length bs + (chunk_size - 1)) / chunk_size, clean bs)
  decrypt_chunks-Sealed bs body t s ct b =
      let o : Opened c key base_nonce algo aad 0 (pieces chunk_size bs) (bytes_of t) [] =
        subst (λ xs. Opened c key base_nonce algo aad 0 (pieces chunk_size bs) xs []) (sym b)
          (Sealed-Opened c laws key base_nonce algo aad 0 (pieces chunk_size bs) body (pieces-le bs)
            s) in
      decrypt_chunks-Opened c key base_nonce algo aad (pieces chunk_size bs) t [] [] ct o
      ∙ ap₂ (λ n xs. ok (n, clean xs)) (length-pieces bs)
          (flatten-pieces chunk_size bs (omega arith))

  -- Where the ciphers keep their laws, reads fail only by being interrupted and writes do not:
  -- `encrypt_chunks` succeeds on every plaintext, however it arrives, with one chunk for each MiB
  -- begun; and `decrypt_chunks`, with the same key, nonce, algorithm and associated data, turns
  -- what it wrote, however that arrives, into the plaintext and counts the same chunks.
  pub decrypt_chunks-encrypt_chunks :
      (r : Reader)
      → IsClean r
      → (n : ℕ) × (r' : Reader) × (body : List ℕ) × (encrypt_chunks c key base_nonce algo aad r
            (clean [])
          ≡ ok (n, r', clean body))
        × (n ≡ (length (bytes_of r) + (chunk_size - 1)) / chunk_size)
        × ((s : Reader)
            → IsClean s
            → bytes_of s ≡ body
            → decrypt_chunks c key base_nonce algo aad s (clean []) ≡ ok (n, clean (bytes_of r)))
  decrypt_chunks-encrypt_chunks r cl =
      let (body, r', e, s) = encrypt_chunks-Sealed c laws key base_nonce algo aad r [] cl in
      (
        (length (bytes_of r) + (chunk_size - 1)) / chunk_size,
        r',
        body,
        e,
        refl,
        λ t. decrypt_chunks-Sealed (bytes_of r) body t s,
      )
