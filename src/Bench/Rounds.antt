-- ===== src/Bench/Rounds.antt =====
-- src/bench.rs: the rounds, the sort and the percentiles do not panic, and how many rates there are.
use cry.Base.{
  ℕ, zero, suc, ◌+◌, ◌-◌, ◌^◌, ◌≤◌, ◌<◌, ◌≡◌, refl, List, [], ◌∷◌, ◌++◌, some, Bool, true, false,
  leb, if◌then◌else◌, length, length-append, All, All-append, arith, Bool-cases, inl, inr,
}
use Prim.Native.Nat.{Ordering}
use cry.Error.{ok, ◌>>=◌}
use cry.Crypto.{Crypto, AeadLaws}
use cry.Header.{Algorithm}
use cry.Bench.{Floats, bench_cipher, or_panic, rate, single_run, Rates, push_rates, rounds}

-- What IEEE 754 promises: a quotient by at least 1e-9 is a number, so that rates compare; and half
-- of a 32-bit integer, or 95 hundredths, rounds to no more than the integer.
pub record FloatLaws (fl : Floats) : Type 0 where
  pub rates_compare :
      (n : ℕ) (a b : fl.Float)
      → (o : Ordering) × (fl.partial_cmp (rate fl n a) (rate fl n b) ≡ some o)
  pub half_index : (n : ℕ) → n < 2 ^ 32 → fl.round (fl.mul (fl.of_int n) fl.half) ≤ n
  pub p95_index : (n : ℕ) → n < 2 ^ 32 → fl.round (fl.mul (fl.of_int n) fl.p95) ≤ n

-- Both ciphers take a message of `n` bytes, and decrypt what they encrypt.
pub record BenchLaws (c : Crypto) (n : ℕ) : Type 0 where
  pub lawful : (algo : Algorithm) → AeadLaws (bench_cipher c algo)
  pub takes :
      (algo : Algorithm) (k nonce aad m : List ℕ)
      → length m ≡ n
      → (ct : List ℕ) × ((bench_cipher c algo).encrypt k nonce aad m ≡ some ct)

module _ (fl : Floats) where
  -- A rate for `n` bytes.
  abbrev pub IsRate : ℕ → fl.Float → Type 0
  IsRate n x = (s : fl.Float) × (x ≡ rate fl n s)

  pub single_run-ok :
      (c : Crypto) (n : ℕ)
      → BenchLaws c n
      → (algo : Algorithm) (i : ℕ) (plain key nonce aad : List ℕ) → length plain ≡ n
      → single_run fl c algo i plain key nonce aad
        ≡ ok (rate fl n (fl.enc_secs algo i), rate fl n (fl.dec_secs algo i))
  unfolding single_run
  single_run-ok c n laws algo i plain key nonce aad len =
      let (ct, e) = laws.takes algo key nonce aad plain len in
      let d = (laws.lawful algo).decrypt_encrypt key nonce aad plain e in
      rw (e, or_panic) (rw (d, or_panic) (rw len refl))

  -- How many of `left` rounds from round `i` on are no warmup.
  abbrev pub kept : ℕ → ℕ → ℕ → ℕ
  kept warmup left i = if leb warmup i then left else i + left - warmup

  -- The rates so far, with as many more.
  abbrev Holds : ℕ → Rates fl → ℕ → Rates fl → Type 0
  Holds n rates more rates' =
      (length rates'.0 ≡ length rates.0 + more)
      × (length rates'.1 ≡ length rates.1 + more)
      × All (IsRate n) rates'.0
      × All (IsRate n) rates'.1

  push_kept :
      (n warmup left i : ℕ) (e d : fl.Float) (rates rates' : Rates fl)
      → Holds n (push_rates fl (leb warmup i) (e, d) rates) (kept warmup left (i + 1)) rates'
      → Holds n rates (kept warmup (suc left) i) rates'
  push_kept n warmup left i e d (encs, decs) rates' h = elim (Bool-cases (leb warmup i)) [
    | inl counted ↦
        let h' : Holds n (encs ++ e ∷ [], decs ++ d ∷ []) (kept warmup left (i + 1)) rates' =
          rw counted at h in
        let x = length-append encs (e ∷ []) in
        let y = length-append decs (d ∷ []) in
        (ground (arith, counted, h'.0, x), ground (arith, counted, h'.1, y), h'.2, h'.3)
    | inr warm ↦
        let h' : Holds n (encs, decs) (kept warmup left (i + 1)) rates' = rw warm at h in
        (ground (arith, warm, h'.0), ground (arith, warm, h'.1), h'.2, h'.3)
  ]

  push_rates-IsRate :
      (n : ℕ) (b : Bool) (s t : fl.Float) (rates : Rates fl)
      → All (IsRate n) rates.0
      → All (IsRate n) rates.1
      → All (IsRate n) (push_rates fl b (rate fl n s, rate fl n t) rates).0
        × All (IsRate n) (push_rates fl b (rate fl n s, rate fl n t) rates).1
  push_rates-IsRate n true s t (encs, decs) h k = (
    All-append (IsRate n) encs (rate fl n s ∷ []) h ((s, refl), tt),
    All-append (IsRate n) decs (rate fl n t ∷ []) k ((t, refl), tt),
  )
  push_rates-IsRate n false s t rates h k = (h, k)

  pub rounds-ok :
      (c : Crypto) (n : ℕ)
      → BenchLaws c n
      → (algo : Algorithm) (plain key nonce aad : List ℕ) → length plain ≡ n
      → (warmup left i : ℕ) (rates : Rates fl) → All (IsRate n) rates.0
      → All (IsRate n) rates.1
      → (rates' : Rates fl) × (rounds fl c algo plain key nonce aad warmup left i rates ≡ ok rates')
        × Holds n rates (kept warmup left i) rates'
  unfolding rounds
  rounds-ok c n laws algo plain key nonce aad len warmup zero i rates h k =
      (rates, refl, (ground arith, ground arith, h, k))
  rounds-ok c n laws algo plain key nonce aad len warmup (suc left) i rates h k =
      let s = fl.enc_secs algo i in
      let t = fl.dec_secs algo i in
      let run : fl.Float × fl.Float = (rate fl n s, rate fl n t) in
      let (h', k') = push_rates-IsRate n (leb warmup i) s t rates h k in
      let (rates', e, m) =
        rounds-ok c n laws algo plain key nonce aad len warmup left (i + 1)
          (push_rates fl (leb warmup i) run rates) h' k' in
      (
        rates',
        rw (single_run-ok c n laws algo i plain key nonce aad len, ◌>>=◌) e,
        push_kept n warmup left i (rate fl n s) (rate fl n t) rates rates' m,
      )
