-- ===== src/Bench/Run.antt =====
-- src/bench.rs: `benchmark_algorithm` and `run_bench`, which draw random bytes.
use cry.Base.{ℕ, List}
use cry.Crypto.{Crypto}
use cry.Header.{Algorithm, aes256gcm, chacha20poly1305}
use cry.Kdf.{derive_key}
use cry.Fs.{Action, pure, lift, ◌>>=◌, ◌>>◌, fill_bytes}
use cry.Bench.{
  Floats, BenchArgs, max_1, size_bytes, bench_passphrase, Figures, Report, benchmark_with,
  benchmark_kdf, allocate,
}

module _ (fl : Floats) (c : Crypto) where
  unfoldable pub benchmark_algorithm : Algorithm → List ℕ → List ℕ → ℕ → ℕ → Action (Figures fl)
  unfolding benchmark_with
  benchmark_algorithm algo plain key warmup samples = do
    base_nonce ← fill_bytes 12
    lift (benchmark_with fl c algo plain key warmup samples base_nonce)

  unfoldable pub run_bench : BenchArgs → Action (Report fl)
  unfolding benchmark_algorithm benchmark_kdf derive_key
  run_bench args = do
    let bytes = size_bytes (max_1 args.size_mib)
    lift (allocate bytes)
    plain ← fill_bytes bytes
    salt ← fill_bytes 16
    kdf_ms ← lift (benchmark_kdf fl c bench_passphrase salt (max_1 args.kdf_runs))
    key ← lift (derive_key c bench_passphrase salt)
    aes ← benchmark_algorithm aes256gcm plain key args.warmup (max_1 args.samples)
    chacha ← benchmark_algorithm chacha20poly1305 plain key args.warmup (max_1 args.samples)
    pure (record { kdf_ms = kdf_ms; aes = aes; chacha = chacha })
