-- ===== src/Main/Reproduced.antt =====
-- src/main.rs: two runs of `cry derive`, in any two places.
use mathlib.Core.Path.{subst}
use cry.Base.{ℕ, ◌≡◌, List, Option, none, some, inl, inr, ◌⊎◌, Text}
use cry.Crypto.{Crypto, KeyCrates}
use cry.Fs.{World, ◌>>=◌}
use cry.Fs.Ends.{Ends, Ends-mono, >>=-Ends}
use cry.File.{Os}
use cry.Keygen
use cry.Keygen.{DeriveArgs, private_name}
use cry.Keygen.Line.{Anyhow, behind}
use cry.Keygen.Reproduced.{HasPrivate, SameKey, HasPrivate-SameKey, derive-Private}
use cry.Passphrase.{Terminal}
use cry.Commands.{openssh_pass, derive_pass, derive_command}
use cry.Process.{System}
use cry.Bench.{Floats}
use cry.Ssh.{Platform}
use cry.Main.{State, derive, main}
use cry.Main.Outcome.{exit_status-Ends, ends_by_value}
use cry.Main.Passphrases.{Answered, derive_pass-eq-ok}
use cry.Main.Recovered.{Exits-succeeded}

-- `p` is the passphrase of --passphrase, or without one what was answered to the prompt.
abbrev pub Master : Terminal → Option Text → List ℕ → Type 0
Master t given p = (given ≡ some p) ⊎ ((given ≡ none) × Answered t p)

Master-unique :
    (t : Terminal) (given : Option Text) (p p' : List ℕ)
    → Master t given p
    → Master t given p'
    → p' ≡ p
Master-unique t given p p' (inl e) (inl e') = cc
Master-unique t given p p' (inl e) (inr (e', a')) = absurd (cc)
Master-unique t given p p' (inr (e, a)) (inl e') = absurd (cc)
Master-unique t given p p' (inr (e, a)) (inr (e', a')) = cc

module _ (fl : Floats) (c : Crypto) (k : KeyCrates) (os : Os) (t : Terminal) (sys : System)
    (platform : Platform) where
  -- The private key's file holds the key of a master passphrase.
  abbrev pub Derived : DeriveArgs → World → Type 0
  Derived args w = (p : List ℕ) × Master t args.passphrase p × HasPrivate c k args.algo args p w

  derive_command-Ends :
      (args : DeriveArgs) (w : World)
      → Ends (λ _. Derived args) Anyhow (derive_command c k os t args w)
  unfolding derive_command
  derive_command-Ends args w =
      let Q : Unit {0} → World → Type 0 = λ _. Derived args in
      behind Q (openssh_pass t args.openssh)
        (λ ssh. derive_pass t args.passphrase >>= λ pass. Keygen.derive c k args pass ssh)
        (λ ssh w1.
          >>=-Ends (λ p w2. Master t args.passphrase p × Anyhow w2) Q Anyhow
            (derive_pass t args.passphrase) (λ pass. Keygen.derive c k args pass ssh) w1
            (ends_by_value (λ p. Master t args.passphrase p) Anyhow
              (derive_pass t args.passphrase w1)
              (λ p e. (derive_pass-eq-ok t args.passphrase w1 e).1) tt)
            λ p w2 (master, u).
              Ends-mono (Keygen.derive c k args p ssh w2) (λ _ w' h. (p, master, h)) (λ w' h. h)
                (derive-Private c k args p ssh w2))
        w

  derived :
      (args : DeriveArgs) (s : State)
      → (main fl c k os t sys platform (some (derive args)) s).0 ≡ some 0
      → Derived args (main fl c k os t sys platform (some (derive args)) s).1.world
  unfolding main
  derived args s e =
      Exits-succeeded (Derived args) Anyhow (main fl c k os t sys platform (some (derive args)) s) e
        (exit_status-Ends (Derived args) Anyhow s (derive_command c k os t args s.world).0
          (derive_command c k os t args s.world).1 (derive_command-Ends args s.world))

  -- Whatever is there and whatever calls fail: when `cry derive` exits with 0 in two places, and
  -- algorithm, namespace, key version, sub-identity and passphrase are the same, the files of the
  -- private keys have the same contents, whatever they are called and whatever else is written.
  pub derive_reproduced :
      (args args' : DeriveArgs) (s s' : State)
      → SameKey args args'
      → args'.passphrase ≡ args.passphrase
      → (main fl c k os t sys platform (some (derive args)) s).0 ≡ some 0
      → (main fl c k os t sys platform (some (derive args')) s').0 ≡ some 0
      → (text : Text) × ((main fl c k os t sys platform (some (derive args)) s).1.world.files
            (private_name args.output)
          ≡ some text)
        × ((main fl c k os t sys platform (some (derive args')) s').1.world.files
              (private_name args'.output)
            ≡ some text)
  derive_reproduced args args' s s' same given e e' =
      let (p, master, held) = derived args s e in
      let (p', master', held') = derived args' s' e' in
      let one : p' ≡ p =
        Master-unique t args.passphrase p p' master (subst (λ g. Master t g p') given master') in
      HasPrivate-SameKey c k args args' p
        (main fl c k os t sys platform (some (derive args)) s).1.world
        (main fl c k os t sys platform (some (derive args')) s').1.world same held
        (subst
          (λ x.
            HasPrivate c k args'.algo args' x
              (main fl c k os t sys platform (some (derive args')) s').1.world)
          one held')
