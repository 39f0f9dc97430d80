-- ===== src/Examples/Runs.antt =====
-- Whole runs of src/main.rs and the benchmark of src/bench.rs at concrete inputs.
use Prim.Native.Nat.{compare}
use cry.Base.{
  Text, codes, none, true, false, ℕ, ◌+◌, ◌*◌, ◌/◌, ◌%◌, ◌^◌, ◌≡◌, refl, List, [], ◌∷◌, ◌++◌, some,
  length, All, arith,
}
use cry.Error.{ok, Returns, Any}
use cry.Crypto.{AeadLaws}
use cry.Header.{Algorithm, aes256gcm, chacha20poly1305}
use cry.Bench.{Floats, BenchArgs, bench_cipher, size_bytes, Rates, rounds}
use cry.Bench.Run.{run_bench}
use cry.Bench.Rounds.{FloatLaws, BenchLaws, IsRate}
use cry.Bench.Total.{rounds_counted, run_bench-Returns}
use cry.Ssh.{unix}
use cry.Ssh.Agent.Running.{unkilled}
use cry.Main.{State, main, ssh}
use cry.Main.Agents.{here, next, Reach-unkilled}
use cry.CryDna.{derive_salt, verifying_key}
use cry.Fs.Ends.{Ends}
use cry.Keygen
use cry.Keygen.{DeriveArgs, ed25519}
use cry.Keygen.Line.{Anyhow}
use cry.Main.SameKey.{SameIdentity, derive-session_key}
use cry.Ssh.{session_key}
use cry.Toy.{digest, toy_public, toy, toy_aead_laws, tag, seal}
use cry.Examples.Files.{an_os, a_pass, calm_world}
use cry.Examples.Keys.{toy_keys, a_terminal}
use cry.Examples.Sessions.{a_good_system, a_good_system-Announces, an_args}

-- Numbers in place of `f64`: 0.50 and 0.95 by hundredths, and a clock that stands.
abbrev pub toy_floats : Floats
toy_floats = record {
  Float = ℕ;
  of_int = λ n. n;
  mul = λ a q. a * q / 100;
  div = λ a b. a / b;
  max = λ a b. a + b;
  round = λ a. a;
  partial_cmp = λ a b. some (compare a b);
  tiny = 1;
  half = 50;
  p95 = 95;
  kdf_secs = 1;
  enc_secs = λ algo i. i;
  dec_secs = λ algo i. i;
}

toy_floats-Laws : FloatLaws toy_floats
toy_floats-Laws = record {
  rates_compare = λ n a b. (compare _ _, refl);
  half_index = λ n h. omega arith;
  p95_index = λ n h. omega arith;
}

toy-BenchLaws : (n : ℕ) → BenchLaws toy n
unfolding bench_cipher seal
toy-BenchLaws n = record { lawful = lawful; takes = takes }
  where
    lawful : (algo : Algorithm) → AeadLaws (bench_cipher toy algo)
    lawful aes256gcm = toy_aead_laws
    lawful chacha20poly1305 = toy_aead_laws

    takes :
        (algo : Algorithm) (k nonce aad m : List ℕ)
        → length m ≡ n
        → (ct : List ℕ) × ((bench_cipher toy algo).encrypt k nonce aad m ≡ some ct)
    takes aes256gcm k nonce aad m h = (m ++ tag k nonce aad, refl)
    takes chacha20poly1305 k nonce aad m h = (m ++ tag k nonce aad, refl)

rounds_counted_example :
    (rates : Rates toy_floats) × (rounds toy_floats toy aes256gcm
        (1 ∷ 2 ∷ [])
        []
        []
        []
        2
        ((2 + 7) % 2 ^ 32)
        0
        ([], [])
      ≡ ok rates)
    × (length rates.0 ≡ 7)
    × (length rates.1 ≡ 7)
    × All (IsRate toy_floats 2) rates.0
    × All (IsRate toy_floats 2) rates.1
rounds_counted_example =
    rounds_counted toy_floats toy 2 (toy-BenchLaws 2) aes256gcm (1 ∷ 2 ∷ []) [] [] [] 2 7 refl
      (omega arith)

abbrev bench_args : BenchArgs
bench_args = record { size_mib = 1; samples = 7; warmup = 2; kdf_runs = 5 }

run_bench-Returns_example : Returns Any (run_bench toy_floats toy bench_args calm_world).0
run_bench-Returns_example =
    run_bench-Returns toy_floats toy_floats-Laws toy bench_args (toy-BenchLaws (size_bytes 1))
      (omega arith) (omega arith) calm_world

abbrev pub first_state : State
first_state = record { world = calm_world; log = [] }

abbrev run : State → State
run s = (main toy_floats toy toy_keys an_os a_terminal a_good_system unix (some (ssh an_args)) s).1

Reach-unkilled_example : unkilled (run (run first_state)).log ≡ unkilled []
Reach-unkilled_example =
    Reach-unkilled toy_floats toy toy_keys an_os a_terminal a_good_system a_good_system-Announces
      (next (next here (some (ssh an_args))) (some (ssh an_args)))

abbrev pub derive_args : DeriveArgs
derive_args = record {
  algo = ed25519;
  output = codes "id";
  bits = 0;
  namespace = codes "default";
  key_version = 0;
  sub_id = none;
  passphrase = none;
  openssh = true;
  comment = codes "me";
  force = false;
}

-- The key of the session: seed, public key and comment, as the toy crates join them.
abbrev session_pem : Text
session_pem =
    let seed = digest 32 (a_pass ++ derive_salt toy (codes "default") 0 none) in
    (seed ++ toy_public seed) ++ (codes "CryDNA:" ++ codes "default")

derive-session_key_example :
    Ends
      (λ _. SameIdentity toy toy_keys derive_args an_args session_pem)
      Anyhow
      (Keygen.derive toy toy_keys derive_args a_pass (some a_pass) calm_world)
unfolding toy_public verifying_key
derive-session_key_example =
    derive-session_key toy toy_keys derive_args an_args a_pass (some a_pass) session_pem refl refl
      refl refl refl (unfold session_key in refl) calm_world
