-- ===== src/Cipher.antt =====
-- src/cipher.rs: nonces, associated data, and the streaming loops. Files are in `File`.
pub mod Nonce
pub mod Pieces
pub mod Frames
pub mod Encrypt
pub mod Decrypt
pub mod RoundTrip
pub mod Size
pub mod Total
use cry.Base.{
  ℕ, zero, suc, ◌+◌, ◌*◌, ◌/◌, ◌%◌, ◌^◌, List, [], ◌∷◌, ◌++◌, Option, none, some, Bool, true, false,
  ltb, leb, ◌==◌, if◌then◌else◌, length, take, drop,
}
use cry.Error.{
  IoError, unexpected_eof, CryError, io, encryption_failed, decryption_failed, suspicious_chunk_len,
  Result, ok, err, panicked, stuck, ◌>>=◌,
}
use cry.Bytes.{to_be_bytes, from_be_bytes}
use cry.Io.{Reader, Writer, read_chunk, read_exact, write_all}
use cry.Io.Total.{weight}
use cry.Crypto.{Crypto}
use cry.Header.{Header, Algorithm, aes256gcm, chacha20poly1305, algo_byte, magic}

-- 1 MiB.
abbrev pub chunk_size : ℕ
chunk_size = 1024 * 1024

abbrev pub max_chunk_wire_len : ℕ
max_chunk_wire_len = chunk_size + 64

-- `chunk_nonce`: `hi` and `lo` are the two parts of the base nonce; `lo.overflowing_add(index)` is
-- the sum below 2^64 and the carry, and `wrapping_add` wraps at 2^32.
unfoldable pub chunk_nonce : List ℕ → ℕ → List ℕ
chunk_nonce base index =
    let hi = from_be_bytes (take 4 base) in
    let lo = from_be_bytes (drop 4 base) in
    let new_lo = (lo + index) % 2 ^ 64 in
    let carry = if leb (2 ^ 64) (lo + index) then 1 else 0 in
    let new_hi = (hi + carry) % 2 ^ 32 in to_be_bytes 4 new_hi ++ to_be_bytes 8 new_lo

-- `chunk_aad`.
unfoldable pub chunk_aad : List ℕ → ℕ → List ℕ
chunk_aad header_aad chunk_index = header_aad ++ to_be_bytes 8 chunk_index

unfoldable pub or_fail : CryError → Option (List ℕ) → Result (List ℕ)
or_fail e none = err e
or_fail e (some bs) = ok bs

module _ (c : Crypto) where
  unfoldable pub header_aad : Header → List ℕ
  header_aad h =
      c.sha256
        (magic ++ ((algo_byte h.algo ∷ []) ++ (h.salt ++ (h.nonce ++ to_be_bytes 8 h.chunk_count))))

  unfoldable pub encrypt_chunk : List ℕ → List ℕ → List ℕ → Algorithm → List ℕ → Result (List ℕ)
  unfolding or_fail
  encrypt_chunk plain key nonce aes256gcm aad =
      or_fail encryption_failed (c.aes256gcm.encrypt key nonce aad plain)
  encrypt_chunk plain key nonce chacha20poly1305 aad =
      or_fail encryption_failed (c.chacha20poly1305.encrypt key nonce aad plain)

  unfoldable pub decrypt_chunk : List ℕ → List ℕ → List ℕ → Algorithm → List ℕ → Result (List ℕ)
  unfolding or_fail
  decrypt_chunk ct key nonce aes256gcm aad =
      or_fail decryption_failed (c.aes256gcm.decrypt key nonce aad ct)
  decrypt_chunk ct key nonce chacha20poly1305 aad =
      or_fail decryption_failed (c.chacha20poly1305.decrypt key nonce aad ct)

  -- The frame of one chunk: `ct.len() as u32` in four bytes, and the ciphertext.
  unfoldable pub write_frame : List ℕ → Writer → Result Writer
  write_frame ct w = do w1 ← write_all (to_be_bytes 4 (length ct % 2 ^ 32)) w; write_all ct w1

  -- The parameters that the two loops are called with.
  module _ (key base_nonce : List ℕ) (algo : Algorithm) (aad : List ℕ) where
    -- One round of the loop of `encrypt_chunks` on the bytes of a chunk.
    unfoldable pub encrypt_round : List ℕ → ℕ → Writer → Result Writer
    encrypt_round plain index w = do
      ct ← encrypt_chunk plain key (chunk_nonce base_nonce index) algo (chunk_aad aad index)
      write_frame ct w

    -- The loop of `encrypt_chunks` with a buffer of `size` bytes. It gives the number of chunks,
    -- the reader and the writer. Each round but the last takes a byte at least.
    unfoldable pub encrypt_loop : ℕ → ℕ → ℕ → Reader → Writer → Result (ℕ × Reader × Writer)
    encrypt_loop zero size index r w = stuck
    encrypt_loop (suc fuel) size index r w = read_chunk size r >>= λ (buf, r').
        let more = encrypt_round buf index w >>= λ w'.
        let again = encrypt_loop fuel size (index + 1) r' w' in
        if ltb (length buf) size then ok (index + 1, r', w') else again in
        if length buf == 0 then ok (index, r', w) else more

    -- One round of the loop of `decrypt_chunks` behind the length bytes.
    unfoldable pub decrypt_round : ℕ → ℕ → Reader → Writer → Result (Reader × Writer)
    decrypt_round ct_len index r w =
        if ltb max_chunk_wire_len ct_len
        then err (suspicious_chunk_len index ct_len)
        else (read_exact ct_len r >>= λ (ct, r').
            decrypt_chunk ct key (chunk_nonce base_nonce index) algo (chunk_aad aad index)
            >>= λ plain. write_all plain w >>= λ w'. ok (r', w'))

    -- What the loop of `decrypt_chunks` does with the four length bytes; an input that ends there
    -- ends the loop.
    abbrev pub on_length :
        (List ℕ × Reader → Result (ℕ × Writer))
        → ℕ
        → Writer
        → Result (List ℕ × Reader)
        → Result (ℕ × Writer)
    on_length next index w (ok x) = next x
    on_length next index w (err (io unexpected_eof)) = ok (index, w)
    on_length next index w (err e) = err e
    on_length next index w panicked = panicked
    on_length next index w stuck = stuck

    -- The loop of `decrypt_chunks`. Each round takes four bytes at least.
    unfoldable pub decrypt_loop : ℕ → ℕ → Reader → Writer → Result (ℕ × Writer)
    decrypt_loop zero index r w = stuck
    decrypt_loop (suc fuel) index r w =
        on_length
          (λ (len_buf, r'). decrypt_round (from_be_bytes len_buf) index r' w >>= λ (r'', w').
            decrypt_loop fuel (index + 1) r'' w')
          index w (read_exact 4 r)

    unfoldable pub encrypt_chunks : Reader → Writer → Result (ℕ × Reader × Writer)
    encrypt_chunks r w = encrypt_loop (suc (weight r)) chunk_size 0 r w

    unfoldable pub decrypt_chunks : Reader → Writer → Result (ℕ × Writer)
    decrypt_chunks r w = decrypt_loop (suc (weight r)) 0 r w
