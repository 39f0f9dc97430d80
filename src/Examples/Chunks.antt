-- ===== src/Examples/Chunks.antt =====
-- The nonces and the streaming loops of src/cipher.rs at concrete inputs.
use mathlib.Core.List.{flatten}
use cry.Base.{
  ℕ, ◌+◌, ◌-◌, ◌/◌, ◌%◌, ◌^◌, ◌≡◌, refl, append-nil, List, [], ◌∷◌, ◌++◌, arith, length, All,
  IsByte,
}
use cry.Error.{interrupted, ok, Returns, Any}
use cry.Bytes.{to_be_bytes, from_be_bytes}
use cry.Io.{Reader, arrive, fail, read_chunk}
use cry.Io.Clean.{IsClean, Takes, bytes_of, read_chunk-IsClean}
use cry.Io.Filled.{Filled, read_chunk-Filled}
use cry.Header.{aes256gcm, chacha20poly1305}
use cry.Cipher.{
  chunk_nonce, chunk_aad, chunk_size, encrypt_chunk, decrypt_chunk, encrypt_chunks, decrypt_chunks,
}
use cry.Cipher.Nonce.{chunk_nonce_lem, chunk_nonce-inj}
use cry.Cipher.Pieces.{pieces}
use cry.Cipher.Frames.{Sealed, Opened, frame_before, decrypt_chunk-encrypt_chunk}
use cry.Cipher.Encrypt.{clean, encrypt_chunks-Sealed}
use cry.Cipher.Decrypt.{decrypt_chunks-Opened, decrypt_chunks-eq-ok}
use cry.Cipher.RoundTrip.{decrypt_chunks-encrypt_chunks}
use cry.Cipher.Total.{chunks-Returns}
use cry.Toy.{toy, toy-CipherLaws, tag, seal, digest}
use cry.Examples.Data.{
  a_key, a_nonce, an_aad, a_reader, a_reader-IsClean, bad_reader, a_writer, all_bytes,
  all_bytes-IsByte,
}

read_chunk-IsClean_example : Takes 2 (bytes_of a_reader) [] (read_chunk 2 a_reader)
read_chunk-IsClean_example = read_chunk-IsClean 2 a_reader a_reader-IsClean

-- An interrupted call, fewer bytes than there is room for, and more than that.
read_chunk-Filled_example :
    Filled 3 []
      (fail interrupted ∷ arrive (1 ∷ 2 ∷ []) ∷ arrive (3 ∷ 4 ∷ []) ∷ bad_reader)
      (read_chunk 3 (fail interrupted ∷ arrive (1 ∷ 2 ∷ []) ∷ arrive (3 ∷ 4 ∷ []) ∷ bad_reader))
read_chunk-Filled_example =
    read_chunk-Filled 3 (fail interrupted ∷ arrive (1 ∷ 2 ∷ []) ∷ arrive (3 ∷ 4 ∷ []) ∷ bad_reader)

chunk_nonce_lem_example :
    from_be_bytes (chunk_nonce a_nonce 5) ≡ (from_be_bytes a_nonce + 5) % 2 ^ 96
chunk_nonce_lem_example =
    chunk_nonce_lem a_nonce 5 (omega arith, all_bytes-IsByte a_nonce (unfold all_bytes in refl))
      (omega arith)

chunk_nonce-inj_example : ◌≡◌ {A = ℕ} 5 5
chunk_nonce-inj_example =
    chunk_nonce-inj a_nonce 5 5 (omega arith, all_bytes-IsByte a_nonce (unfold all_bytes in refl))
      (omega arith) (omega arith) refl

encrypt_chunks-Sealed_example :
    (body : List ℕ) × (r' : Reader) × (encrypt_chunks toy a_key a_nonce aes256gcm an_aad a_reader
        (clean (1 ∷ []))
      ≡ ok (
        (length (bytes_of a_reader) + (chunk_size - 1)) / chunk_size,
        r',
        clean ((1 ∷ []) ++ body),
      ))
    × Sealed toy a_key a_nonce aes256gcm an_aad 0 (pieces chunk_size (bytes_of a_reader)) body
encrypt_chunks-Sealed_example =
    encrypt_chunks-Sealed toy toy-CipherLaws a_key a_nonce aes256gcm an_aad a_reader (1 ∷ [])
      a_reader-IsClean

decrypt_chunks-encrypt_chunks_example :
    (n : ℕ) × (r' : Reader) × (body : List ℕ) × (encrypt_chunks toy a_key a_nonce chacha20poly1305
        an_aad a_reader
        (clean [])
      ≡ ok (n, r', clean body))
    × (n ≡ (length (bytes_of a_reader) + (chunk_size - 1)) / chunk_size)
    × ((s : Reader)
        → IsClean s
        → bytes_of s ≡ body
        → decrypt_chunks toy a_key a_nonce chacha20poly1305 an_aad s (clean [])
          ≡ ok (n, clean (bytes_of a_reader)))
decrypt_chunks-encrypt_chunks_example =
    decrypt_chunks-encrypt_chunks toy toy-CipherLaws a_key a_nonce chacha20poly1305 an_aad a_reader
      a_reader-IsClean

chunks-Returns_example :
    Returns Any (encrypt_chunks toy a_key a_nonce aes256gcm an_aad bad_reader a_writer)
    × Returns Any (decrypt_chunks toy a_key a_nonce aes256gcm an_aad bad_reader a_writer)
chunks-Returns_example = chunks-Returns toy a_key a_nonce aes256gcm an_aad bad_reader a_writer

abbrev a_plain : List ℕ
a_plain = 104 ∷ 105 ∷ []

abbrev a_ct : List ℕ
a_ct = a_plain ++ tag a_key (chunk_nonce a_nonce 0) (chunk_aad an_aad 0)

-- One frame, and two bytes behind it.
abbrev frame_reader : Reader
frame_reader = arrive (frame_before a_ct (8 ∷ 9 ∷ [])) ∷ []

frame_reader-IsClean : IsClean frame_reader
unfolding to_be_bytes tag digest
frame_reader-IsClean = (omega arith, tt)

opens :
    decrypt_chunk toy a_ct a_key (chunk_nonce a_nonce 0) aes256gcm (chunk_aad an_aad 0) ≡ ok a_plain
opens =
    decrypt_chunk-encrypt_chunk toy toy-CipherLaws a_plain a_key (chunk_nonce a_nonce 0) aes256gcm
      (chunk_aad an_aad 0) {ct = a_ct} (unfold encrypt_chunk seal in refl)

frame_reader-Opened :
    Opened toy a_key a_nonce aes256gcm an_aad 0 (a_plain ∷ []) (bytes_of frame_reader) (8 ∷ 9 ∷ [])
unfolding to_be_bytes tag digest bytes_of
frame_reader-Opened = (
  a_ct,
  8 ∷ 9 ∷ [],
  opens,
  omega arith,
  append-nil (frame_before a_ct (8 ∷ 9 ∷ [])),
  (refl, omega arith),
)

decrypt_chunks-Opened_example :
    decrypt_chunks toy a_key a_nonce aes256gcm an_aad frame_reader (clean [])
    ≡ ok (1, clean a_plain)
unfolding flatten
decrypt_chunks-Opened_example =
    decrypt_chunks-Opened toy a_key a_nonce aes256gcm an_aad (a_plain ∷ []) frame_reader
      (8 ∷ 9 ∷ []) [] frame_reader-IsClean frame_reader-Opened

frame_bytes : All IsByte (bytes_of frame_reader)
unfolding bytes_of tag digest to_be_bytes from_be_bytes chunk_nonce chunk_aad
frame_bytes = all_bytes-IsByte (bytes_of frame_reader) (unfold all_bytes in refl)

decrypt_chunks-eq-ok_example :
    (ps : List (List ℕ)) × (rest : List ℕ) × Opened toy a_key a_nonce aes256gcm an_aad 0 ps
      (bytes_of frame_reader)
      rest
    × (1 ≡ length ps)
    × (clean a_plain ≡ clean ([] ++ flatten ps))
decrypt_chunks-eq-ok_example =
    decrypt_chunks-eq-ok toy a_key a_nonce aes256gcm an_aad frame_reader [] frame_reader-IsClean
      frame_bytes decrypt_chunks-Opened_example
