-- ===== src/Bench.antt =====
-- src/bench.rs: the benchmark. It gives the figures that it prints. `f64` and the clock are
-- parameters; integer arithmetic wraps, as in a release build.
pub mod Run
pub mod Rounds
pub mod Figures
pub mod Total
use cry.Base.{
  ℕ, zero, suc, ◌+◌, ◌-◌, ◌*◌, ◌%◌, ◌^◌, List, [], ◌∷◌, ◌++◌, Option, none, some, Bool, true, false,
  ltb, leb, if◌then◌else◌, length, codes,
}
use Prim.Native.Nat.{Ordering}
use cry.Error.{Result, ok, err, panicked, stuck, ◌>>=◌}
use cry.Crypto.{Crypto, Aead}
use cry.Header.{Algorithm, aes256gcm, chacha20poly1305}
use cry.Kdf.{derive_key}

-- `f64`, and the times that are measured: of the key derivations, and of the two calls of a round.
pub record Floats : Type 1 where
  pub Float : Type 0
  pub of_int : ℕ → Float
  pub mul : Float → Float → Float
  pub div : Float → Float → Float
  pub max : Float → Float → Float
  -- `round() as usize`.
  pub round : Float → ℕ
  pub partial_cmp : Float → Float → Option Ordering
  -- The literals 1e-9, 0.50 and 0.95.
  pub tiny : Float
  pub half : Float
  pub p95 : Float
  pub kdf_secs : Float
  pub enc_secs : Algorithm → ℕ → Float
  pub dec_secs : Algorithm → ℕ → Float

pub record BenchArgs : Type 0 where
  pub size_mib : ℕ
  pub samples : ℕ
  pub warmup : ℕ
  pub kdf_runs : ℕ

-- `n.max(1)`.
abbrev pub max_1 : ℕ → ℕ
max_1 zero = 1
max_1 (suc n) = suc n

abbrev pub size_bytes : ℕ → ℕ
size_bytes size_mib = (size_mib * 1024 * 1024) % 2 ^ 64

unfoldable pub bench_passphrase : List ℕ
bench_passphrase = codes "benchmark-passphrase"

-- `vec![0u8; n]`: a request beyond `isize::MAX` panics.
abbrev pub allocate : ℕ → Result (Unit {0})
allocate n = if ltb n (2 ^ 63) then ok tt else panicked

-- The additional data, before it is hashed.
unfoldable pub bench_aad : List ℕ
bench_aad = codes "cry-bench-aad"

-- `expect`.
abbrev pub or_panic {ℓ} : {A : Type ℓ} → Option A → Result A
or_panic none = panicked
or_panic (some a) = ok a

unfoldable pub bench_cipher : Crypto → Algorithm → Aead
bench_cipher c aes256gcm = c.aes256gcm
bench_cipher c chacha20poly1305 = c.chacha20poly1305

module _ (fl : Floats) where
  open fl use {Float, of_int, mul, div, max, round, partial_cmp, tiny, half, p95}

  -- Mebibytes in a second.
  abbrev pub rate : ℕ → Float → Float
  rate len secs = div (div (of_int len) (of_int (1024 * 1024))) (max secs tiny)

  unfoldable pub single_run :
      Crypto → Algorithm → ℕ → List ℕ → List ℕ → List ℕ → List ℕ → Result (Float × Float)
  unfolding bench_cipher
  single_run c algo round plain key nonce aad = do
    ciphertext ← or_panic ((bench_cipher c algo).encrypt key nonce aad plain)
    _ ← or_panic ((bench_cipher c algo).decrypt key nonce aad ciphertext)
    ok (rate (length plain) (fl.enc_secs algo round), rate (length plain) (fl.dec_secs algo round))

  -- One comparison of the sort; `partial_cmp` of a number that is none gives nothing, and `unwrap`
  -- panics. The sort is stable: an element goes behind those that are equal to it.
  abbrev pub goes_first : Option Ordering → Result Bool
  goes_first none = panicked
  goes_first (some Ordering.lt) = ok true
  goes_first (some Ordering.eq) = ok false
  goes_first (some Ordering.gt) = ok false

  unfoldable pub insert_last : Float → List Float → Result (List Float)
  insert_last a [] = ok (a ∷ [])
  insert_last a (b ∷ bs) = do
    first ← goes_first (partial_cmp a b)
    if first then ok (a ∷ b ∷ bs) else (insert_last a bs >>= λ rest. ok (b ∷ rest))

  unfoldable pub sort_onto : List Float → List Float → Result (List Float)
  unfolding insert_last
  sort_onto sorted [] = ok sorted
  sort_onto sorted (a ∷ values) = insert_last a sorted >>= λ more. sort_onto more values

  -- `sorted[idx]`.
  unfoldable pub at : List Float → ℕ → Result Float
  at [] i = panicked
  at (x ∷ xs) zero = ok x
  at (x ∷ xs) (suc i) = at xs i

  unfoldable pub percentile : List Float → Float → Result Float
  unfolding at
  percentile sorted q = at sorted (round (mul (of_int ((length sorted + 2 ^ 64 - 1) % 2 ^ 64)) q))

  abbrev pub Stats : Type 0
  Stats = record { median : Float; p95 : Float }

  -- `Stats::from`.
  unfoldable pub stats_from : List Float → Result Stats
  unfolding sort_onto percentile
  stats_from values = do
    sorted ← sort_onto [] values
    m ← percentile sorted half
    p ← percentile sorted p95
    ok (record { median = m; p95 = p })

  abbrev pub Rates : Type 0
  Rates = List Float × List Float

  -- `if i >= warmup { … push … }`.
  abbrev pub push_rates : Bool → Float × Float → Rates → Rates
  push_rates true (enc, dec) (encs, decs) = (encs ++ enc ∷ [], decs ++ dec ∷ [])
  push_rates false run rates = rates

  -- The loop of `benchmark_algorithm`, from round `i` on.
  unfoldable pub rounds :
      Crypto
      → Algorithm
      → List ℕ
      → List ℕ
      → List ℕ
      → List ℕ
      → ℕ
      → (left i : ℕ) → Rates
      → Result Rates
  unfolding single_run
  rounds c algo plain key nonce aad warmup zero i rates = ok rates
  rounds c algo plain key nonce aad warmup (suc left) i rates =
      single_run c algo i plain key nonce aad >>= λ run.
      rounds c algo plain key nonce aad warmup left (i + 1) (push_rates (leb warmup i) run rates)

  abbrev pub Figures : Type 0
  Figures = record { enc : Stats; dec : Stats }

  unfoldable pub benchmark_with :
      Crypto → Algorithm → List ℕ → List ℕ → ℕ → ℕ → List ℕ → Result Figures
  unfolding rounds stats_from
  benchmark_with c algo plain key warmup samples base_nonce = do
    let aad = c.sha256 bench_aad
    let total = (warmup + samples) % 2 ^ 32
    rates ← rounds c algo plain key base_nonce aad warmup total 0 ([], [])
    enc ← stats_from rates.0
    dec ← stats_from rates.1
    ok (record { enc = enc; dec = dec })

  unfoldable pub kdf_rounds : Crypto → List ℕ → List ℕ → ℕ → Result (Unit {0})
  unfolding derive_key
  kdf_rounds c passphrase salt zero = ok tt
  kdf_rounds c passphrase salt (suc runs) =
      derive_key c passphrase salt >>= λ _. kdf_rounds c passphrase salt runs

  -- Milliseconds for a key.
  unfoldable pub benchmark_kdf : Crypto → List ℕ → List ℕ → ℕ → Result Float
  unfolding kdf_rounds
  benchmark_kdf c passphrase salt runs = do
    _ ← kdf_rounds c passphrase salt runs
    ok (div (mul fl.kdf_secs (of_int 1000)) (of_int runs))

  abbrev pub Report : Type 0
  Report = record { kdf_ms : Float; aes : Figures; chacha : Figures }
