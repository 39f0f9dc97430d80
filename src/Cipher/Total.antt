-- ===== src/Cipher/Total.antt =====
-- src/cipher.rs: the streaming loops end, with any reader and any writer.
use cry.Base.{
  ℕ, zero, suc, ◌+◌, ◌≤◌, ◌<◌, ◌≡◌, refl, List, [], ◌∷◌, Option, none, some, inl, inr, arith, ltb,
  ◌==◌, length, Bool-cases,
}
use cry.Error.{
  IoError, unexpected_eof, CryError, Result, ok, err, panicked, stuck, io, Returns, >>=-Returns,
  Any,
}
use cry.Bytes.{from_be_bytes}
use cry.Crypto.{Crypto}
use cry.Header.{Algorithm, aes256gcm, chacha20poly1305}
use cry.Io.{Reader, Writer, read_chunk, read_exact, write_all}
use cry.Io.Total.{weight, Fills, read_chunk-Fills}
use cry.Cipher.{
  or_fail, encrypt_chunk, decrypt_chunk, write_frame, encrypt_round, encrypt_loop, decrypt_round,
  decrypt_loop, on_length, encrypt_chunks, decrypt_chunks, chunk_size, max_chunk_wire_len,
}

-- At most `n` bytes, and no more in store than the reader had before.
abbrev Shrinks : Reader → List ℕ × Reader → Type 0
Shrinks r (buf, r') = weight r' + length buf ≤ weight r

read_chunk-Returns : (n : ℕ) (r : Reader) → Returns (Shrinks r) (read_chunk n r)
read_chunk-Returns n r = go (read_chunk n r) (read_chunk-Fills n r)
  where
    go : (x : Result (List ℕ × Reader)) → Fills n 0 r x → Returns (Shrinks r) x
    go (ok (buf, r')) f = omega arith
    go (err e) f = tt
    go panicked f = f
    go stuck f = f

abbrev Exactly : ℕ → Reader → List ℕ × Reader → Type 0
Exactly n r (buf, r') = weight r' + n ≤ weight r

read_exact-Returns : (n : ℕ) (r : Reader) → Returns (Exactly n r) (read_exact n r)
unfolding read_exact
read_exact-Returns n r =
    >>=-Returns (Shrinks r) (Exactly n r) (read_chunk n r) _ (read_chunk-Returns n r)
      λ x h. elim (Bool-cases (length x.0 == n)) [ inl e ↦ rw e (ground arith) | inr e ↦ rw e tt ]

write_all-Returns : (bs : List ℕ) (w : Writer) → Returns Any (write_all bs w)
unfolding write_all
write_all-Returns bs w = go w.faults refl
  where
    go : (fs : List (Option IoError)) → w.faults ≡ fs → Returns Any (write_all bs w)
    go [] e = rw (e, write_all) tt
    go (none ∷ fs) e = rw (e, write_all) tt
    go (some x ∷ fs) e = rw (e, write_all) tt

or_fail-Returns : (e : CryError) (o : Option (List ℕ)) → Returns Any (or_fail e o)
unfolding or_fail
or_fail-Returns e none = tt
or_fail-Returns e (some bs) = tt

module _ (c : Crypto) where
  encrypt_chunk-Returns :
      (p key nonce : List ℕ) (algo : Algorithm) (aad : List ℕ)
      → Returns Any (encrypt_chunk c p key nonce algo aad)
  unfolding encrypt_chunk
  encrypt_chunk-Returns p key nonce aes256gcm aad = or_fail-Returns _ _
  encrypt_chunk-Returns p key nonce chacha20poly1305 aad = or_fail-Returns _ _

  decrypt_chunk-Returns :
      (ct key nonce : List ℕ) (algo : Algorithm) (aad : List ℕ)
      → Returns Any (decrypt_chunk c ct key nonce algo aad)
  unfolding decrypt_chunk
  decrypt_chunk-Returns ct key nonce aes256gcm aad = or_fail-Returns _ _
  decrypt_chunk-Returns ct key nonce chacha20poly1305 aad = or_fail-Returns _ _

  module _ (key base_nonce : List ℕ) (algo : Algorithm) (aad : List ℕ) where
    encrypt_round-Returns :
        (p : List ℕ) (i : ℕ) (w : Writer)
        → Returns Any (encrypt_round c key base_nonce algo aad p i w)
    unfolding encrypt_round write_frame
    encrypt_round-Returns p i w =
        >>=-Returns Any Any (encrypt_chunk c p key _ algo _) _
          (encrypt_chunk-Returns p key _ algo _)
          λ ct _.
            >>=-Returns Any Any (write_all _ w) _ (write_all-Returns _ w)
              λ w1 _. write_all-Returns ct w1

    encrypt_loop-Returns :
        (fuel size i : ℕ) (r : Reader) (w : Writer)
        → weight r < fuel
        → Returns Any (encrypt_loop c key base_nonce algo aad fuel size i r w)
    unfolding encrypt_loop
    encrypt_loop-Returns zero size i r w f = absurd (omega arith)
    encrypt_loop-Returns (suc fuel) size i r w f =
        >>=-Returns (Shrinks r) Any (read_chunk size r) _ (read_chunk-Returns size r) λ x h.
          elim (Bool-cases (length x.0 == 0)) [
            | inl e ↦ rw e tt
            | inr e ↦ rw e (
                >>=-Returns Any Any (encrypt_round c key base_nonce algo aad x.0 i w) _
                  (encrypt_round-Returns x.0 i w)
                  λ w' _. elim (Bool-cases (ltb (length x.0) size)) [
                    | inl t ↦ rw t tt
                    | inr t ↦ rw t (encrypt_loop-Returns fuel size (i + 1) x.1 w' (ground arith))
                  ])
          ]

    decrypt_round-Returns :
        (n i : ℕ) (r : Reader) (w : Writer)
        → Returns (λ x. weight x.0 ≤ weight r) (decrypt_round c key base_nonce algo aad n i r w)
    unfolding decrypt_round
    decrypt_round-Returns n i r w = elim (Bool-cases (ltb max_chunk_wire_len n)) [
      | inl e ↦ rw e tt
      | inr e ↦ rw e (
          >>=-Returns (Exactly n r) _ (read_exact n r) _ (read_exact-Returns n r) λ x h.
            >>=-Returns Any _ (decrypt_chunk c x.0 key _ algo _) _
              (decrypt_chunk-Returns x.0 key _ algo _)
              λ p _.
                >>=-Returns Any _ (write_all p w) _ (write_all-Returns p w) λ w' _. omega arith)
    ]

    on_length-Returns :
        (next : List ℕ × Reader → Result (ℕ × Writer)) (i : ℕ) (w : Writer) (r : Reader)
        (x : Result (List ℕ × Reader))
        → Returns (Exactly 4 r) x
        → ((y : List ℕ × Reader) → Exactly 4 r y → Returns Any (next y))
        → Returns Any (on_length c key base_nonce algo aad next i w x)
    on_length-Returns next i w r (ok y) h k = k y h
    on_length-Returns next i w r (err (io unexpected_eof)) h k = tt
    on_length-Returns next i w r (err e) h k = tt
    on_length-Returns next i w r panicked h k = h
    on_length-Returns next i w r stuck h k = h

    decrypt_loop-Returns :
        (fuel i : ℕ) (r : Reader) (w : Writer)
        → weight r < fuel
        → Returns Any (decrypt_loop c key base_nonce algo aad fuel i r w)
    unfolding decrypt_loop
    decrypt_loop-Returns zero i r w f = absurd (omega arith)
    decrypt_loop-Returns (suc fuel) i r w f =
        on_length-Returns _ i w r (read_exact 4 r) (read_exact-Returns 4 r) λ y h.
          >>=-Returns (λ x. weight x.0 ≤ weight y.1) Any
            (decrypt_round c key base_nonce algo aad (from_be_bytes y.0) i y.1 w) _
            (decrypt_round-Returns (from_be_bytes y.0) i y.1 w)
            λ x k. decrypt_loop-Returns fuel (i + 1) x.0 x.1 (omega arith)

    -- Whatever the reader delivers and however reader and writer fail, `encrypt_chunks` and
    -- `decrypt_chunks` end with a value or an error: their fuel is enough, and they do not panic.
    pub chunks-Returns :
        (r : Reader) (w : Writer)
        → Returns Any (encrypt_chunks c key base_nonce algo aad r w)
          × Returns Any (decrypt_chunks c key base_nonce algo aad r w)
    unfolding encrypt_chunks decrypt_chunks
    chunks-Returns r w = (
      encrypt_loop-Returns (suc (weight r)) chunk_size 0 r w (omega arith),
      decrypt_loop-Returns (suc (weight r)) 0 r w (omega arith),
    )
