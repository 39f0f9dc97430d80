-- ===== src/Cipher/Encrypt.antt =====
-- src/cipher.rs: what `encrypt_chunks` writes.
use cry.Base.{
  ℕ, zero, suc, ◌+◌, ◌-◌, ◌%◌, ◌/◌, ◌^◌, ◌≤◌, ◌<◌, ◌≡◌, refl, ap, ap₂, ◌∙◌, sym, List, [], ◌∷◌,
  ◌++◌, append-nil, append_assoc, true, false, inl, inr, arith, ltb, ◌==◌, length, length-take,
  length-drop, take, drop, take_all, drop_all, Bool-cases,
}
use cry.Error.{Result, ok}
use cry.Bytes.{to_be_bytes}
use cry.Crypto.{Crypto}
use cry.Header.{Algorithm}
use cry.Io.{Reader, Writer, read_chunk, write_all}
use cry.Io.Clean.{IsClean, bytes_of, length-bytes_of-le, read_chunk-IsClean}
use cry.Io.Total.{weight}
use mathlib.Core.Path.{subst}
use cry.Cipher.{
  chunk_nonce, chunk_aad, encrypt_chunk, write_frame, encrypt_round, encrypt_loop, encrypt_chunks,
  chunk_size,
}
use cry.Cipher.Frames.{CipherLaws, Sealed, frame_before, encrypt_chunk_total}
use cry.Cipher.Pieces.{
  pieces_within, pieces_within-nil, pieces_within_fuel, length-pieces_within, pieces,
}

-- A writer with no fault.
abbrev pub clean : List ℕ → Writer
clean out = record { written = out; faults = [] }

pub write_frame-clean :
    (c : Crypto) (ct out : List ℕ)
    → length ct < 2 ^ 32
    → write_frame c ct (clean out) ≡ ok (clean ((out ++ to_be_bytes 4 (length ct)) ++ ct))
unfolding write_frame write_all
write_frame-clean c ct out h = let e : length ct % 2 ^ 32 ≡ length ct = omega arith in rw e

module _ (c : Crypto) (laws : CipherLaws c) (key base_nonce : List ℕ) (algo : Algorithm)
    (aad : List ℕ) where
  -- A chunk of at most 1 MiB becomes one frame.
  encrypt_round_lem :
      (p : List ℕ) (i : ℕ) (out : List ℕ)
      → length p ≤ 2 ^ 20
      → (ct : List ℕ) × (encrypt_chunk c p key (chunk_nonce base_nonce i) algo (chunk_aad aad i)
          ≡ ok ct)
        × (length ct ≡ length p + 16)
        × (encrypt_round c key base_nonce algo aad p i (clean out)
            ≡ ok (clean ((out ++ to_be_bytes 4 (length ct)) ++ ct)))
  unfolding encrypt_round
  encrypt_round_lem p i out h =
      let (ct, e, l) =
        encrypt_chunk_total c laws p key (chunk_nonce base_nonce i) algo (chunk_aad aad i) h in
      (ct, e, l, rw e (write_frame-clean c ct out (omega arith)))

  -- The outcome of a loop that starts at index `i`.
  abbrev Writes : ℕ → List (List ℕ) → List ℕ → Result (ℕ × Reader × Writer) → Type 0
  Writes i ps out x =
      (body : List ℕ) × (r' : Reader) × (x ≡ ok (i + length ps, r', clean (out ++ body)))
      × Sealed c key base_nonce algo aad i ps body

  Writes-end : (i : ℕ) (out : List ℕ) (r' : Reader) → Writes i [] out (ok (i, r', clean out))
  Writes-end i out r' =
      ([], r', ap₂ (λ n o. ok (n, r', clean o)) (omega arith) (sym (append-nil out)), refl)

  Writes-more :
      (i : ℕ) (p : List ℕ) (ps : List (List ℕ)) (out ct : List ℕ)
      {x y : Result (ℕ × Reader × Writer)}
      → encrypt_chunk c p key (chunk_nonce base_nonce i) algo (chunk_aad aad i) ≡ ok ct
      → length ct ≡ length p + 16
      → x ≡ y
      → Writes (i + 1) ps ((out ++ to_be_bytes 4 (length ct)) ++ ct) y
      → Writes i (p ∷ ps) out x
  Writes-more i p ps out ct enc l e (body, r', d, s) =
      let len = to_be_bytes 4 (length ct) in
      let join : ((out ++ len) ++ ct) ++ body ≡ out ++ (len ++ (ct ++ body)) =
        append_assoc (out ++ len) ct body ∙ append_assoc out len (ct ++ body) in
      (
        frame_before ct body,
        r',
        e ∙ d ∙ ap₂ (λ n o. ok (n, r', clean o)) (omega arith) join,
        (ct, body, enc, l, refl, s),
      )

  -- One round behind a chunk that is not empty: the last one if it is short.
  round_last :
      (fuel size i : ℕ) (p : List ℕ) (r r' : Reader) (out ct : List ℕ)
      → read_chunk size r ≡ ok (p, r')
      → 0 < length p
      → length p < size
      → encrypt_round c key base_nonce algo aad p i (clean out) ≡ ok (clean ct)
      → encrypt_loop c key base_nonce algo aad (suc fuel) size i r (clean out)
        ≡ ok (i + 1, r', clean ct)
  unfolding encrypt_loop
  round_last fuel size i p r r' out ct e pos short w =
      let some_bytes : (length p == 0) ≡ false = ground arith in
      let t : ltb (length p) size ≡ true = ground arith in rw (e, some_bytes, w, t)

  round_more :
      (fuel size i : ℕ) (p : List ℕ) (r r' : Reader) (out ct : List ℕ)
      → read_chunk size r ≡ ok (p, r')
      → 0 < length p
      → size ≤ length p
      → encrypt_round c key base_nonce algo aad p i (clean out) ≡ ok (clean ct)
      → encrypt_loop c key base_nonce algo aad (suc fuel) size i r (clean out)
        ≡ encrypt_loop c key base_nonce algo aad fuel size (i + 1) r' (clean ct)
  unfolding encrypt_loop
  round_more fuel size i p r r' out ct e pos full w =
      let some_bytes : (length p == 0) ≡ false = ground arith in
      let t : ltb (length p) size ≡ false = ground arith in rw (e, some_bytes, w, t)

  round_none :
      (fuel size i : ℕ) (r r' : Reader) (out : List ℕ)
      → read_chunk size r ≡ ok ([], r')
      → encrypt_loop c key base_nonce algo aad (suc fuel) size i r (clean out)
        ≡ ok (i, r', clean out)
  unfolding encrypt_loop
  round_none fuel size i r r' out e = rw e

  encrypt_loop-Writes :
      (fuel size i : ℕ) (r : Reader) (all out : List ℕ)
      → 0 < size
      → size ≤ 2 ^ 20
      → bytes_of r ≡ all
      → length all < fuel
      → IsClean r
      → Writes i
          (pieces_within fuel size all)
          out
          (encrypt_loop c key base_nonce algo aad fuel size i r (clean out))
  unfolding pieces_within
  encrypt_loop-Writes zero size i r all out s0 s1 b f cl = absurd (omega arith)
  encrypt_loop-Writes (suc fuel) size i r [] out s0 s1 b f cl =
      let (r', e, c', b') = read_chunk-IsClean size r cl in
      let none_left : take size (bytes_of r) ≡ [] = rw b (take_all {A = ℕ} size [] (omega arith)) in
      let stop : read_chunk size r ≡ ok ([], r') = rw (e, none_left) in
      rw (round_none fuel size i r r' out stop) (Writes-end i out r')
  encrypt_loop-Writes (suc fuel) size i r (x ∷ xs) out s0 s1 b f cl =
      let (r', e, c', b') = read_chunk-IsClean size r cl in
      let p = take size (x ∷ xs) in
      let front : read_chunk size r ≡ ok (p, r') = rw (e, b) in
      let (ct, enc, l, w) = encrypt_round_lem p i out (rw length-take (omega arith)) in
      let out' = (out ++ to_be_bytes 4 (length ct)) ++ ct in
      let pos : 0 < length p = rw length-take (omega arith) in
      let rest = drop size (x ∷ xs) in
      elim (Bool-cases (ltb (length p) size)) [
        | inl short ↦
            let lt : length (take size (x ∷ xs)) < size = ground arith in
            let less : length (x ∷ xs) < size = omega (arith, length-take size (x ∷ xs)) in
            let done : pieces_within fuel size rest ≡ [] =
              rw (drop_all size (x ∷ xs) (omega arith)) (pieces_within-nil fuel size) in
            rw done (
              Writes-more i p [] out ct enc l
                (round_last fuel size i p r r' out out' front pos (ground arith) w)
                (Writes-end (i + 1) out' r'))
        | inr full ↦
            Writes-more i p (pieces_within fuel size rest) out ct enc l
              (round_more fuel size i p r r' out out' front pos (ground arith) w)
              (encrypt_loop-Writes fuel size (i + 1) r' rest out' s0 s1 (b' ∙ ap (drop size) b)
                (rw length-drop (omega arith)) c')
      ]

  -- Where the ciphers keep their laws, reads fail only by being interrupted and writes do not:
  -- however the plaintext arrives, `encrypt_chunks` cuts it into chunks of 1 MiB, appends one
  -- frame for each, encrypted under the nonce and the associated data of its index, and counts
  -- them.
  pub encrypt_chunks-Sealed :
      (r : Reader) (out : List ℕ)
      → IsClean r
      → (body : List ℕ) × (r' : Reader) × (encrypt_chunks c key base_nonce algo aad r (clean out)
          ≡ ok ((length (bytes_of r) + (chunk_size - 1)) / chunk_size, r', clean (out ++ body)))
        × Sealed c key base_nonce algo aad 0 (pieces chunk_size (bytes_of r)) body
  unfolding encrypt_chunks pieces
  encrypt_chunks-Sealed r out cl =
      let bs = bytes_of r in
      let (body, r', e, s) =
        encrypt_loop-Writes (suc (weight r)) chunk_size 0 r bs out (omega arith) (omega arith) refl
          (omega (arith, length-bytes_of-le r)) cl in
      let same : pieces_within (suc (weight r)) chunk_size bs
          ≡ pieces_within (length bs) chunk_size bs =
        pieces_within_fuel (suc (weight r)) (length bs) chunk_size bs (omega arith)
          (omega (arith, length-bytes_of-le r)) (omega arith) in
      let count : 0 + length (pieces_within (suc (weight r)) chunk_size bs)
          ≡ (length bs + (chunk_size - 1)) / chunk_size =
        omega
          (arith, length-pieces_within (suc (weight r)) bs (omega (arith, length-bytes_of-le r))) in
      (
        body,
        r',
        e ∙ ap (λ n. ok (n, r', clean (out ++ body))) count,
        subst (λ ps. Sealed c key base_nonce algo aad 0 ps body) same s,
      )
