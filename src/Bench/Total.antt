-- ===== src/Bench/Total.antt =====
-- src/bench.rs: the benchmark returns, unless the count of its rounds wraps.
use cry.Base.{
  ℕ, zero, suc, ◌+◌, ◌%◌, ◌^◌, ◌≤◌, ◌<◌, ◌≡◌, refl, ap, List, [], ◌∷◌, Option, none, some, ◌⊎◌, inl,
  inr, length, All, Text, arith,
}
use cry.Error.{Result, ok, err, panicked, stuck, Returns, Any, kdf}
use cry.Error
use cry.Crypto.{Crypto}
use cry.Header.{Algorithm, aes256gcm, chacha20poly1305}
use cry.Kdf.{kdf_params, params_or_kdf, hash_or_kdf, derive_key}
use cry.Fs.{World, pure, lift, carry_on, ◌>>=◌, draw, fill_bytes}
use cry.Bench.{
  Floats, BenchArgs, max_1, size_bytes, bench_passphrase, bench_aad, allocate, stats_from, Rates,
  rounds, Figures, Report, percentile, sort_onto, at, benchmark_with, kdf_rounds, benchmark_kdf,
}
use cry.Bench.Run.{benchmark_algorithm, run_bench}
use cry.Bench.Rounds.{FloatLaws, BenchLaws, IsRate, rounds-ok}
use cry.Bench.Figures.{stats_from-ok}

length-draw : (n : ℕ) (entropy : ℕ → ℕ) (at : ℕ) → length (draw n entropy at) ≡ n
unfolding draw
length-draw zero entropy at = refl
length-draw (suc n) entropy at = ap suc (length-draw n entropy (at + 1))

derive_key-Returns : (c : Crypto) (p s : List ℕ) → Returns Any (derive_key c p s)
unfolding derive_key
derive_key-Returns c p s = go (c.params_error kdf_params) (c.argon2id kdf_params p s)
  where
    go :
        (e : Option Text) (h : List ℕ ⊎ Text)
        → Returns Any (Error.◌>>◌ (params_or_kdf e) (hash_or_kdf h))
    go (some x) h = tt
    go none (inl key) = tt
    go none (inr x) = tt

kdf_rounds-Returns :
    (fl : Floats) (c : Crypto) (p s : List ℕ) (runs : ℕ) → Returns Any (kdf_rounds fl c p s runs)
unfolding kdf_rounds
kdf_rounds-Returns fl c p s zero = tt
kdf_rounds-Returns fl c p s (suc runs) =
    Error.>>=-Returns Any Any (derive_key c p s) (λ _. kdf_rounds fl c p s runs)
      (derive_key-Returns c p s) (λ _ _. kdf_rounds-Returns fl c p s runs)

benchmark_kdf-Returns :
    (fl : Floats) (c : Crypto) (p s : List ℕ) (runs : ℕ) → Returns Any (benchmark_kdf fl c p s runs)
unfolding benchmark_kdf
benchmark_kdf-Returns fl c p s runs =
    Error.>>=-Returns Any Any (kdf_rounds fl c p s runs) _ (kdf_rounds-Returns fl c p s runs)
      (λ _ _. tt)

module _ (fl : Floats) (c : Crypto) (n : ℕ) (ciphers : BenchLaws c n) where
  -- The loop of `benchmark_algorithm` collects a rate of each kind for every sample, if the number
  -- of its rounds does not wrap.
  pub rounds_counted :
      (algo : Algorithm) (plain key nonce aad : List ℕ) (warmup samples : ℕ)
      → length plain ≡ n
      → warmup + samples < 2 ^ 32
      → (rates : Rates fl) × (rounds fl c algo plain key nonce aad warmup
            ((warmup + samples) % 2 ^ 32)
            0
            ([], [])
          ≡ ok rates)
        × (length rates.0 ≡ samples)
        × (length rates.1 ≡ samples)
        × All (IsRate fl n) rates.0
        × All (IsRate fl n) rates.1
  rounds_counted algo plain key nonce aad warmup samples len small =
      let total : (warmup + samples) % 2 ^ 32 ≡ warmup + samples = omega arith in
      let (rates, e, m) =
        rounds-ok fl c n ciphers algo plain key nonce aad len warmup ((warmup + samples) % 2 ^ 32) 0
          ([], []) tt tt in
      (rates, e, ground (arith, total, m.0), ground (arith, total, m.1), m.2, m.3)

  module _ (laws : FloatLaws fl) where
    benchmark_with-ok :
        (algo : Algorithm) (plain key nonce : List ℕ) (warmup samples : ℕ)
        → length plain ≡ n
        → 0 < samples
        → warmup + samples < 2 ^ 32
        → (f : Figures fl) × (benchmark_with fl c algo plain key warmup samples nonce ≡ ok f)
    unfolding benchmark_with
    benchmark_with-ok algo plain key nonce warmup samples len positive small =
        let (rates, e, l0, l1, r0, r1) =
          rounds_counted algo plain key nonce (c.sha256 bench_aad) warmup samples len small in
        let (enc, f) = stats_from-ok fl laws n rates.0 r0 (omega arith) (omega arith) in
        let (dec, g) = stats_from-ok fl laws n rates.1 r1 (omega arith) (omega arith) in
        (
          record { enc = enc; dec = dec },
          rw (e, Error.◌>>=◌) (rw (f, Error.◌>>=◌) (rw (g, Error.◌>>=◌) refl)),
        )

    benchmark_algorithm-ok :
        (algo : Algorithm) (plain key : List ℕ) (warmup samples : ℕ)
        → length plain ≡ n
        → 0 < samples
        → warmup + samples < 2 ^ 32
        → (w : World)
        → (f : Figures fl) × (benchmark_algorithm fl c algo plain key warmup samples w
            ≡ (ok f, (fill_bytes 12 w).1))
    unfolding benchmark_algorithm fill_bytes
    benchmark_algorithm-ok algo plain key warmup samples len positive small w =
        let (f, e) =
          benchmark_with-ok algo plain key (draw 12 w.entropy w.drawn) warmup samples len positive
            small in
        (f, rw e refl)

    -- The two ciphers, behind the key derivations.
    ciphers-Returns :
        (plain key : List ℕ) (kdf_ms : fl.Float) (warmup samples : ℕ)
        → length plain ≡ n
        → 0 < samples
        → warmup + samples < 2 ^ 32
        → (w : World)
        → Returns Any
            ((benchmark_algorithm fl c aes256gcm plain key warmup samples >>= λ aes.
                benchmark_algorithm fl c chacha20poly1305 plain key warmup samples >>= λ chacha.
                pure {A = Report fl} (record { kdf_ms = kdf_ms; aes = aes; chacha = chacha }))
              w).0
    ciphers-Returns plain key kdf_ms warmup samples len positive small w =
        let (f, e) =
          benchmark_algorithm-ok aes256gcm plain key warmup samples len positive small w in
        let (g, h) =
          benchmark_algorithm-ok chacha20poly1305 plain key warmup samples len positive small
            (fill_bytes 12 w).1 in
        rw (e, carry_on) (rw (h, carry_on) tt)

max_1-positive : (s : ℕ) → 0 < max_1 s
max_1-positive zero = omega arith
max_1-positive (suc s) = omega arith

module _ (fl : Floats) (laws : FloatLaws fl) (c : Crypto) (args : BenchArgs) where
  -- `cry bench` ends with figures or an error, and does not panic, where both ciphers take a
  -- message of the size asked for, which is less than 2^63 bytes, rates compare, percentiles round
  -- to no more than the last index, and warmup and samples are fewer than 2^32 together.
  pub run_bench-Returns :
      BenchLaws c (size_bytes (max_1 args.size_mib))
      → size_bytes (max_1 args.size_mib) < 2 ^ 63
      → args.warmup + max_1 args.samples < 2 ^ 32
      → (w : World) → Returns Any (run_bench fl c args w).0
  unfolding run_bench fill_bytes
  run_bench-Returns ciphers fits small w =
      let bytes = size_bytes (max_1 args.size_mib) in
      let allocated : allocate bytes ≡ ok tt = ground arith in
      let plain = draw bytes w.entropy w.drawn in
      let w1 = (fill_bytes bytes w).1 in
      let salt = draw 16 w1.entropy w1.drawn in
      let w2 = (fill_bytes 16 w1).1 in
      rw (allocated, carry_on)
        (timed plain salt w2 (benchmark_kdf fl c bench_passphrase salt (max_1 args.kdf_runs))
          (benchmark_kdf-Returns fl c bench_passphrase salt (max_1 args.kdf_runs))
          (derive_key c bench_passphrase salt) (derive_key-Returns c bench_passphrase salt)
          (length-draw bytes w.entropy w.drawn))
    where
      timed :
          (plain salt : List ℕ) (w : World) (r : Result fl.Float)
          → Returns Any r
          → (k : Result (List ℕ)) → Returns Any k
          → length plain ≡ size_bytes (max_1 args.size_mib)
          → Returns Any
              ((lift r >>= λ kdf_ms. lift k >>= λ key.
                  benchmark_algorithm fl c aes256gcm plain key args.warmup (max_1 args.samples)
                  >>= λ aes.
                      benchmark_algorithm fl c chacha20poly1305 plain key args.warmup
                        (max_1 args.samples)
                      >>= λ chacha.
                          pure {A = Report fl}
                            (record { kdf_ms = kdf_ms; aes = aes; chacha = chacha }))
                w).0
      timed plain salt w (ok ms) h (ok key) h' len =
          ciphers-Returns fl c (size_bytes (max_1 args.size_mib)) ciphers laws plain key ms
            args.warmup (max_1 args.samples) len (max_1-positive args.samples) small w
      timed plain salt w (ok ms) h (err x) h' len = tt
      timed plain salt w (ok ms) h panicked h' len = h'
      timed plain salt w (ok ms) h stuck h' len = h'
      timed plain salt w (err x) h k h' len = tt
      timed plain salt w panicked h k h' len = h
      timed plain salt w stuck h k h' len = h

stats_from-nil :
    (fl : Floats) (values : List fl.Float) → length values ≡ 0 → stats_from fl values ≡ panicked
unfolding stats_from sort_onto percentile at
stats_from-nil fl [] h = refl
stats_from-nil fl (x ∷ values) h = absurd (omega arith)

module _ (fl : Floats) (c : Crypto) (n : ℕ) (ciphers : BenchLaws c n) where
  -- When the warmup rounds and the samples, 32-bit numbers, are 2^32 or more together, the
  -- benchmark of either cipher panics, where it takes a message of the size asked for.
  pub benchmark_algorithm_wraps :
      (algo : Algorithm) (plain key : List ℕ) (warmup samples : ℕ)
      → length plain ≡ n
      → warmup < 2 ^ 32
      → samples < 2 ^ 32
      → 2 ^ 32 ≤ warmup + samples
      → (w : World) → (benchmark_algorithm fl c algo plain key warmup samples w).0 ≡ panicked
  unfolding benchmark_algorithm benchmark_with fill_bytes
  benchmark_algorithm_wraps algo plain key warmup samples len small small' large w =
      let left = (warmup + samples) % 2 ^ 32 in
      let less : left < warmup = omega arith in
      let (rates, e, m) =
        rounds-ok fl c n ciphers algo plain key (draw 12 w.entropy w.drawn) (c.sha256 bench_aad) len
          warmup left 0 ([], []) tt tt in
      let none_left : length rates.0 ≡ 0 = ground (arith, m.0, less) in
      rw (e, Error.◌>>=◌) (rw (stats_from-nil fl rates.0 none_left, Error.◌>>=◌) refl)
