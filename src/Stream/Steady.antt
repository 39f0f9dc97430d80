-- ===== src/Stream/Steady.antt =====
-- src/cipher.rs: a stream that succeeds has written what it writes where no write can fail.
use cry.Base.{
  ℕ, zero, suc, ◌+◌, ◌≡◌, ap, List, [], ◌∷◌, Option, none, some, inl, inr, ltb, ◌==◌, length,
  Bool-cases,
}
use cry.Error.{IoError, io, unexpected_eof, Result, ok, err, panicked, stuck, after_ok}
use cry.Bytes.{from_be_bytes}
use cry.Io.{Reader, Writer, read_chunk, read_exact, write_all, flush}
use cry.Crypto.{Crypto}
use cry.Header
use cry.Header.{Header, Algorithm, pre_hmac_bytes, compute_hmac}
use cry.Cipher.{
  max_chunk_wire_len, chunk_nonce, chunk_aad, encrypt_chunk, decrypt_chunk, write_frame,
  encrypt_round, encrypt_loop, decrypt_round, on_length, decrypt_loop, encrypt_chunks,
  decrypt_chunks, header_aad,
}
use cry.Cipher.Encrypt.{clean}
use cry.Stream.{encrypt_stream, decrypt_stream}

ok-inj {ℓ} : {A : Type ℓ} {a b : A} → ok a ≡ ok b → a ≡ b
ok-inj e = cc

write_all-steady :
    (bs : List ℕ) (w : Writer) {w' : Writer}
    → write_all bs w ≡ ok w'
    → write_all bs (clean w.written) ≡ ok (clean w'.written)
unfolding write_all
write_all-steady bs w {w'} e = go w.written w.faults e
  where
    go :
        (x : List ℕ) (fs : List (Option IoError))
        → write_all bs (record { written = x; faults = fs }) ≡ ok w'
        → write_all bs (clean x) ≡ ok (clean w'.written)
    go x [] h = ap (λ (u : Writer). ok (clean u.written)) (ok-inj h)
    go x (none ∷ fs) h = ap (λ (u : Writer). ok (clean u.written)) (ok-inj h)
    go x (some i ∷ fs) h = absurd (cc)

flush-steady :
    (w : Writer) {w' : Writer} → flush w ≡ ok w' → flush (clean w.written) ≡ ok (clean w'.written)
unfolding flush
flush-steady w {w'} e = go w.written w.faults e
  where
    go :
        (x : List ℕ) (fs : List (Option IoError))
        → flush (record { written = x; faults = fs }) ≡ ok w'
        → flush (clean x) ≡ ok (clean w'.written)
    go x [] h = ap (λ (u : Writer). ok (clean u.written)) (ok-inj h)
    go x (none ∷ fs) h = ap (λ (u : Writer). ok (clean u.written)) (ok-inj h)
    go x (some i ∷ fs) h = absurd (cc)

module _ (c : Crypto) where
  write-steady :
      (h : Header) (key : List ℕ) (w : Writer) {w' : Writer}
      → Header.write c h key w ≡ ok w'
      → Header.write c h key (clean w.written) ≡ ok (clean w'.written)
  unfolding Header.write
  write-steady h key w e =
      after_ok (write_all (pre_hmac_bytes h) w) (write_all (compute_hmac c (pre_hmac_bytes h) key))
        e
        λ w1 e1 k1.
          rw (write_all-steady (pre_hmac_bytes h) w e1)
            (write_all-steady (compute_hmac c (pre_hmac_bytes h) key) w1 k1)

  write_frame-steady :
      (ct : List ℕ) (w : Writer) {w' : Writer}
      → write_frame c ct w ≡ ok w'
      → write_frame c ct (clean w.written) ≡ ok (clean w'.written)
  unfolding write_frame
  write_frame-steady ct w e =
      after_ok (write_all _ w) (write_all ct) e
        λ w1 e1 k1. rw (write_all-steady _ w e1) (write_all-steady ct w1 k1)

  module _ (key nonce : List ℕ) (algo : Algorithm) (aad : List ℕ) where
    encrypt_round-steady :
        (plain : List ℕ) (index : ℕ) (w : Writer) {w' : Writer}
        → encrypt_round c key nonce algo aad plain index w ≡ ok w'
        → encrypt_round c key nonce algo aad plain index (clean w.written) ≡ ok (clean w'.written)
    unfolding encrypt_round
    encrypt_round-steady plain index w e =
        after_ok (encrypt_chunk c plain key (chunk_nonce nonce index) algo (chunk_aad aad index))
          (λ ct. write_frame c ct w) e λ ct e1 k1. rw e1 (write_frame-steady ct w k1)

    decrypt_round-steady :
        (ct_len index : ℕ) (r : Reader) (w : Writer) {r' : Reader} {w' : Writer}
        → decrypt_round c key nonce algo aad ct_len index r w ≡ ok (r', w')
        → decrypt_round c key nonce algo aad ct_len index r (clean w.written)
          ≡ ok (r', clean w'.written)
    unfolding decrypt_round
    decrypt_round-steady ct_len index r w {r'} {w'} e =
        elim (Bool-cases (ltb max_chunk_wire_len ct_len)) [
          | inl t ↦ let bad = rw t at e in absurd (cc)
          | inr f ↦ rw f (
              after_ok (read_exact ct_len r) _ (rw f at e) λ (ct, r1) e1 k1. rw e1 (
                after_ok
                  (decrypt_chunk c ct key (chunk_nonce nonce index) algo (chunk_aad aad index)) _ k1
                  λ plain e2 k2. rw e2 (
                    after_ok (write_all plain w) (λ w1. ok (r1, w1)) k2
                      λ w1 e3 k3.
                        rw (write_all-steady plain w e3)
                          (ap (λ (u : Reader × Writer). ok (u.0, clean u.1.written)) (ok-inj k3)))))
        ]

    encrypt_loop-steady :
        (fuel size index : ℕ) (r : Reader) (w : Writer) {n : ℕ} {r' : Reader} {w' : Writer}
        → encrypt_loop c key nonce algo aad fuel size index r w ≡ ok (n, r', w')
        → encrypt_loop c key nonce algo aad fuel size index r (clean w.written)
          ≡ ok (n, r', clean w'.written)
    unfolding encrypt_loop
    encrypt_loop-steady zero size index r w e = absurd (cc)
    encrypt_loop-steady (suc fuel) size index r w {n} {r'} {w'} e =
        after_ok (read_chunk size r) _ e λ (buf, r1) e1 k1.
          rw e1 (elim (Bool-cases (length buf == 0)) [
            | inl t ↦ rw t (cleaned (rw t at k1))
            | inr f ↦ rw f (
                after_ok (encrypt_round c key nonce algo aad buf index w) _ (rw f at k1) λ w1 e2 k2.
                  rw (encrypt_round-steady buf index w e2)
                    (elim (Bool-cases (ltb (length buf) size)) [
                      | inl t ↦ rw t (cleaned (rw t at k2))
                      | inr f' ↦
                          rw f' (encrypt_loop-steady fuel size (index + 1) r1 w1 (rw f' at k2))
                    ]))
          ])
      where
        cleaned :
            {m : ℕ} {a : Reader} {u : Writer}
            → ◌≡◌ {A = Result (ℕ × Reader × Writer)} (ok (m, a, u)) (ok (n, r', w'))
            → ◌≡◌ {A = Result (ℕ × Reader × Writer)}
                (ok (m, a, clean u.written))
                (ok (n, r', clean w'.written))
        cleaned h = ap (λ (x : ℕ × Reader × Writer). ok (x.0, x.1, clean x.2.written)) (ok-inj h)

    on_length-steady :
        (next next' : List ℕ × Reader → Result (ℕ × Writer)) (index : ℕ) (w : Writer)
        (m : Result (List ℕ × Reader)) {n : ℕ} {w' : Writer}
        → ((x : List ℕ × Reader) → next x ≡ ok (n, w') → next' x ≡ ok (n, clean w'.written))
        → on_length c key nonce algo aad next index w m ≡ ok (n, w')
        → on_length c key nonce algo aad next' index (clean w.written) m ≡ ok (n, clean w'.written)
    on_length-steady next next' index w (ok x) each e = each x e
    on_length-steady next next' index w (err (io unexpected_eof)) each e =
        ap (λ (u : ℕ × Writer). ok (u.0, clean u.1.written)) (ok-inj e)
    on_length-steady next next' index w (err x) each e = absurd (cc)
    on_length-steady next next' index w panicked each e = absurd (cc)
    on_length-steady next next' index w stuck each e = absurd (cc)

    decrypt_loop-steady :
        (fuel index : ℕ) (r : Reader) (w : Writer) {n : ℕ} {w' : Writer}
        → decrypt_loop c key nonce algo aad fuel index r w ≡ ok (n, w')
        → decrypt_loop c key nonce algo aad fuel index r (clean w.written)
          ≡ ok (n, clean w'.written)
    unfolding decrypt_loop
    decrypt_loop-steady zero index r w e = absurd (cc)
    decrypt_loop-steady (suc fuel) index r w e =
        on_length-steady _ _ index w (read_exact 4 r)
          (λ (len_buf, r1) h.
            after_ok (decrypt_round c key nonce algo aad (from_be_bytes len_buf) index r1 w)
              (λ (r2, u). decrypt_loop c key nonce algo aad fuel (index + 1) r2 u) h
              λ (r2, u) e2 k2.
                rw (decrypt_round-steady (from_be_bytes len_buf) index r1 w e2)
                  (decrypt_loop-steady fuel (index + 1) r2 u k2))
          e

  -- A successful `encrypt_stream` has counted and written what it does where no write can fail.
  pub encrypt_stream-steady :
      (h : Header) (key : List ℕ) (r : Reader) (w : Writer) {n : ℕ} {w' : Writer}
      → encrypt_stream c h key r w ≡ ok (n, w')
      → encrypt_stream c h key r (clean w.written) ≡ ok (n, clean w'.written)
  unfolding encrypt_stream encrypt_chunks
  encrypt_stream-steady h key r w e = after_ok (Header.write c h key w) _ e λ w1 e1 k1.
      rw (write-steady h key w e1) (
        after_ok (encrypt_chunks c key h.nonce h.algo (header_aad c h) r w1) _ k1
          λ (n, r', w2) e2 k2.
            rw (encrypt_loop-steady key h.nonce h.algo (header_aad c h) _ _ 0 r w1 e2) (
              after_ok (flush w2) (λ w3. ok (n, w3)) k2
                λ w3 e3 k3.
                  rw (flush-steady w2 e3)
                    (ap (λ (u : ℕ × Writer). ok (u.0, clean u.1.written)) (ok-inj k3))))

  -- The same for `decrypt_stream`.
  pub decrypt_stream-steady :
      (h : Header) (key : List ℕ) (r : Reader) (w : Writer) {n : ℕ} {w' : Writer}
      → decrypt_stream c h key r w ≡ ok (n, w')
      → decrypt_stream c h key r (clean w.written) ≡ ok (n, clean w'.written)
  unfolding decrypt_stream decrypt_chunks
  decrypt_stream-steady h key r w e =
      after_ok (decrypt_chunks c key h.nonce h.algo (header_aad c h) r w) _ e λ (n, w1) e1 k1.
        rw (decrypt_loop-steady key h.nonce h.algo (header_aad c h) _ 0 r w e1) (
          after_ok (flush w1) (λ w2. ok (n, w2)) k1
            λ w2 e2 k2.
              rw (flush-steady w1 e2)
                (ap (λ (u : ℕ × Writer). ok (u.0, clean u.1.written)) (ok-inj k2)))
