-- ===== src/Cipher/Decrypt.antt =====
-- src/cipher.rs: what `decrypt_chunks` accepts, and what it gives.
use mathlib.Core.List.{flatten}
use mathlib.Core.Path.{subst}
use cry.Base.{
  ℕ, zero, suc, ◌+◌, ◌≤◌, ◌<◌, ◌≡◌, refl, ap, ap₂, ◌∙◌, sym, List, [], ◌∷◌, ◌++◌, append-nil,
  append_assoc, false, inl, inr, arith, ltb, length, take, All, All-append_split, IsByte,
  Bool-cases,
}
use cry.Error.{Result, ok, err, suspicious_chunk_len, after_ok}
use cry.Bytes.{to_be_bytes, from_be_bytes}
use cry.Bytes.RoundTrip.{length-to_be_bytes, from_be_bytes-to_be_bytes, to_be_bytes-from_be_bytes}
use cry.Crypto.{Crypto}
use cry.Header.{Algorithm}
use cry.Io.{Reader, Writer, read_exact, write_all}
use cry.Io.Clean.{IsClean, bytes_of, length-bytes_of-le, read_exact-IsClean, read_exact_short}
use cry.Io.Exact.{read_exact-append, read_exact-eq-ok}
use cry.Io.Total.{weight}
use cry.Cipher.{
  chunk_nonce, chunk_aad, decrypt_chunk, decrypt_round, decrypt_loop, decrypt_chunks,
  max_chunk_wire_len,
}
use cry.Cipher.Frames.{Opened, frame_before, length-frame_before}
use cry.Cipher.Encrypt.{clean}

module _ (c : Crypto) (key base_nonce : List ℕ) (algo : Algorithm) (aad : List ℕ) where
  decrypt_round_lem :
      (ct rest p out : List ℕ) (i : ℕ) (r : Reader)
      → IsClean r
      → bytes_of r ≡ ct ++ rest
      → length ct ≤ max_chunk_wire_len
      → decrypt_chunk c ct key (chunk_nonce base_nonce i) algo (chunk_aad aad i) ≡ ok p
      → (r' : Reader) × (decrypt_round c key base_nonce algo aad (length ct) i r (clean out)
          ≡ ok (r', clean (out ++ p)))
        × IsClean r'
        × (bytes_of r' ≡ rest)
  unfolding decrypt_round write_all
  decrypt_round_lem ct rest p out i r cl b le d =
      let (r', e, c', b') = read_exact-append (length ct) r ct rest cl refl b in
      let within : ltb max_chunk_wire_len (length ct) ≡ false = ground arith in
      (r', rw (within, e, d), c', b')

  decrypt_loop-Opened :
      (fuel i : ℕ) (ps : List (List ℕ)) (r : Reader) (body tail out : List ℕ)
      → IsClean r
      → bytes_of r ≡ body
      → length body < fuel
      → Opened c key base_nonce algo aad i ps body tail
      → decrypt_loop c key base_nonce algo aad fuel i r (clean out)
        ≡ ok (i + length ps, clean (out ++ flatten ps))
  unfolding decrypt_loop flatten
  decrypt_loop-Opened zero i ps r body tail out cl b f o = absurd (omega arith)
  decrypt_loop-Opened (suc fuel) i [] r body tail out cl b f (same, short) =
      rw (read_exact_short 4 r cl (rw (b, same) short))
        (ap₂ (λ n o. ok (n, clean o)) (omega arith) (sym (append-nil out)))
  decrypt_loop-Opened (suc fuel) i (p ∷ ps) r body tail out cl b f (ct, rest, d, le, fr, o) =
      let len = to_be_bytes 4 (length ct) in
      let (r1, e1, c1, b1) =
        read_exact-append 4 r len (ct ++ rest) cl (length-to_be_bytes 4 (length ct)) (b ∙ fr) in
      let (r2, e2, c2, b2) = decrypt_round_lem ct rest p out i r1 c1 b1 le d in
      let l : length body ≡ 4 + (length ct + length rest) =
        ap (λ xs. length xs) fr ∙ length-frame_before ct rest in
      let again =
        decrypt_loop-Opened fuel (i + 1) ps r2 rest tail (out ++ p) c2 b2 (omega arith) o in
      rw (e1, from_be_bytes-to_be_bytes 4 (length ct) (omega arith), e2)
        (again ∙ ap₂ (λ n o. ok (n, clean o)) (omega arith) (append_assoc out p (flatten ps)))

  -- Over a run of frames that decrypt, with at most three bytes behind them, where reads fail only
  -- by being interrupted and writes do not: `decrypt_chunks` succeeds, appends the plaintexts in
  -- order and counts the frames; the bytes behind the last frame are passed over.
  pub decrypt_chunks-Opened :
      (ps : List (List ℕ)) (r : Reader) (tail out : List ℕ)
      → IsClean r
      → Opened c key base_nonce algo aad 0 ps (bytes_of r) tail
      → decrypt_chunks c key base_nonce algo aad r (clean out)
        ≡ ok (length ps, clean (out ++ flatten ps))
  unfolding decrypt_chunks
  decrypt_chunks-Opened ps r tail out cl o =
      decrypt_loop-Opened (suc (weight r)) 0 ps r (bytes_of r) tail out cl refl
        (omega (arith, length-bytes_of-le r)) o
      ∙ ap (λ n. ok (n, clean (out ++ flatten ps))) (omega arith)

  -- A round that succeeds has read a ciphertext of the announced length, which decrypts.
  decrypt_round-eq-ok :
      (n i : ℕ) (r : Reader) (out : List ℕ) {r' : Reader} {w' : Writer}
      → IsClean r
      → decrypt_round c key base_nonce algo aad n i r (clean out) ≡ ok (r', w')
      → (ct : List ℕ) × (p : List ℕ) × (length ct ≡ n)
        × (n ≤ max_chunk_wire_len)
        × (decrypt_chunk c ct key (chunk_nonce base_nonce i) algo (chunk_aad aad i) ≡ ok p)
        × (bytes_of r ≡ ct ++ bytes_of r')
        × IsClean r'
        × (w' ≡ clean (out ++ p))
  unfolding decrypt_round write_all
  decrypt_round-eq-ok n i r out {r'} {w'} cl e = elim (Bool-cases (ltb max_chunk_wire_len n)) [
    | inl t ↦
        let bad : ◌≡◌ {A = Result (Reader × Writer)} (err (suspicious_chunk_len i n))
            (ok (r', w')) =
          rw t at e in
        absurd (cc)
    | inr f ↦ after_ok (read_exact n r) _ (rw f at e) λ x e1 k1.
        after_ok (decrypt_chunk c x.0 key (chunk_nonce base_nonce i) algo (chunk_aad aad i)) _ k1
          λ p e2 k2.
            let (split, l, c') = read_exact-eq-ok n r cl e1 in
            let same : x.1 ≡ r' = cc in
            let wrote : clean (out ++ p) ≡ w' = cc in
            (x.0, p, l, ground arith, e2, rw (← same) split, subst IsClean same c', sym wrote)
  ]

  -- What a loop that ends with success has taken from its input.
  abbrev Accepts : ℕ → List ℕ → List ℕ → ℕ × Writer → Type 0
  Accepts i body out (n, w') =
      (ps : List (List ℕ)) × (tail : List ℕ) × Opened c key base_nonce algo aad i ps body tail
      × (n ≡ i + length ps)
      × (w' ≡ clean (out ++ flatten ps))

  Accepts-end : (i : ℕ) (body out : List ℕ) → length body < 4 → Accepts i body out (i, clean out)
  unfolding flatten
  Accepts-end i body out h =
      ([], body, (refl, h), omega arith, ap (λ o. clean o) (sym (append-nil out)))

  Accepts-more :
      (i : ℕ) (ct p rest body out : List ℕ) (res : ℕ × Writer)
      → decrypt_chunk c ct key (chunk_nonce base_nonce i) algo (chunk_aad aad i) ≡ ok p
      → length ct ≤ max_chunk_wire_len
      → body ≡ frame_before ct rest
      → Accepts (i + 1) rest (out ++ p) res
      → Accepts i body out res
  unfolding flatten
  Accepts-more i ct p rest body out res d le fr (ps, tail, o, n, w) = (
    p ∷ ps,
    tail,
    (ct, rest, d, le, fr, o),
    omega arith,
    w ∙ ap (λ xs. clean xs) (append_assoc out p (flatten ps)),
  )

  decrypt_loop-eq-ok :
      (fuel i : ℕ) (r : Reader) (out : List ℕ) {res : ℕ × Writer}
      → IsClean r
      → All IsByte (bytes_of r)
      → decrypt_loop c key base_nonce algo aad fuel i r (clean out) ≡ ok res
      → Accepts i (bytes_of r) out res
  unfolding decrypt_loop
  decrypt_loop-eq-ok zero i r out cl y e = absurd (cc)
  decrypt_loop-eq-ok (suc fuel) i r out {res} cl y e =
      elim (Bool-cases (ltb (length (bytes_of r)) 4)) [
        | inl short ↦
            let stop : ◌≡◌ {A = Result (ℕ × Writer)} (ok (i, clean out)) (ok res) =
              rw (read_exact_short 4 r cl (ground arith)) at e in
            subst (Accepts i (bytes_of r) out) (cc) (Accepts-end i (bytes_of r) out (ground arith))
        | inr long ↦
            let (r1, e1, c1, b1) = read_exact-IsClean 4 r cl (ground arith) in
            let (split, l, _) = read_exact-eq-ok 4 r cl e1 in
            let len = take 4 (bytes_of r) in
            let (yl, y1) = All-append_split IsByte len (bytes_of r1) (subst (All IsByte) split y) in
            after_ok (decrypt_round c key base_nonce algo aad (from_be_bytes len) i r1 (clean out))
              _ (rw e1 at e)
              λ x e2 k2.
                let (ct, p, lc, le, d, split2, c2, w) =
                  decrypt_round-eq-ok (from_be_bytes len) i r1 out c1 e2 in
                let (_, y2) =
                  All-append_split IsByte ct (bytes_of x.0) (subst (All IsByte) split2 y1) in
                let len_ok : to_be_bytes 4 (length ct) ≡ len =
                  rw lc (to_be_bytes-from_be_bytes 4 len (l, yl)) in
                Accepts-more i ct p (bytes_of x.0) (bytes_of r) out res d (rw lc le)
                  (split ∙ ap₂ (λ xs ys. xs ++ ys) (sym len_ok) split2)
                  (decrypt_loop-eq-ok fuel (i + 1) x.0 (out ++ p) c2 y2 (rw w at k2))
      ]

  -- Over bytes whose reading fails only by being interrupted, and a writer with no fault: when
  -- `decrypt_chunks` ends with success, its input is a run of frames that decrypt, each under the
  -- nonce and the associated data of its index, and at most three bytes more; it has counted the
  -- frames and written their plaintexts in order.
  pub decrypt_chunks-eq-ok :
      (r : Reader) (out : List ℕ) {n : ℕ} {w' : Writer}
      → IsClean r
      → All IsByte (bytes_of r)
      → decrypt_chunks c key base_nonce algo aad r (clean out) ≡ ok (n, w')
      → (ps : List (List ℕ)) × (tail : List ℕ) × Opened c key base_nonce algo aad 0 ps
          (bytes_of r)
          tail
        × (n ≡ length ps)
        × (w' ≡ clean (out ++ flatten ps))
  unfolding decrypt_chunks
  decrypt_chunks-eq-ok r out cl y e =
      let (ps, tail, o, n, w) = decrypt_loop-eq-ok (suc (weight r)) 0 r out cl y e in
      (ps, tail, o, omega arith, w)
