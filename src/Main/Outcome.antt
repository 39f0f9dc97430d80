-- ===== src/Main/Outcome.antt =====
-- src/main.rs: what the exit status of `cry encrypt` and `cry decrypt` says of the output.
use cry.Base.{
  ℕ, ◌≡◌, ◌≢◌, refl, ◌∙◌, List, [], Option, some, Bool, true, false, inl, inr, ◌⊎◌, Text,
}
use mathlib.Core.Path.{subst}
use cry.Error.{Result, ok, err, panicked, stuck}
use cry.Crypto.{Crypto, KeyCrates}
use cry.Fs.{World, Action, ◌>>=◌}
use cry.Fs.Ends.{Ends, >>=-Ends, Ends-mono}
use cry.File.{Os, encrypt_tmp, decrypt_tmp, encrypt_file, decrypt_file}
use cry.File.Commit.{Whole, Settled}
use cry.File.Atomic.{Encrypted, encrypt_file_atomic}
use cry.File.AtomicDecrypt.{Decrypted, decrypt_file_atomic}
use cry.Passphrase.{Terminal, read_passphrase}
use cry.Passphrase.Accepted.{Source, read_passphrase-eq-ok}
use cry.Passphrase.Keeps.{read_passphrase-Keeps}
use cry.Fs.Keeps.{Keeps-Stands}
use cry.Commands.{EncryptArgs, DecryptArgs, encrypt_command, decrypt_command}
use cry.Process.{System}
use cry.Bench.{Floats}
use cry.Ssh.{Platform}
use cry.Main.{State, forget, exit_status, encrypt, decrypt, main}

-- With the status of success `Q` holds of the files, and with any other `F` does.
abbrev pub Exits : (World → Type 0) → (World → Type 0) → Option ℕ × State → Type 0
Exits Q F (status, s) = ((status ≡ some 0) × Q s.world) ⊎ ((status ≢ some 0) × F s.world)

pub exit_status-Ends {ℓ} :
    {A : Type ℓ} (Q F : World → Type 0) (s : State) (r : Result A) (w : World)
    → Ends (λ _. Q) F (r, w)
    → Exits Q F (exit_status (forget r), record s { world = w })
unfolding exit_status
exit_status-Ends Q F s (ok a) w h = inl (refl, h)
exit_status-Ends Q F s (err e) w h = inr (λ bad. cc, h)
exit_status-Ends Q F s panicked w h = inr (λ bad. cc, h)
exit_status-Ends Q F s stuck w h = inr (λ bad. cc, h)

-- What a success says of the value, and what holds of the files however the action ends.
pub ends_by_value {ℓ} :
    {A : Type ℓ} (S : A → Type 0) (U : World → Type 0) (x : Result A × World)
    → ((a : A) → x.0 ≡ ok a → S a)
    → U x.1
    → Ends (λ a w. S a × U w) U x
ends_by_value S U (ok a, w) s u = (s a refl, u)
ends_by_value S U (err e, w) s u = u
ends_by_value S U (panicked, w) s u = u
ends_by_value S U (stuck, w) s u = u

-- `p` is a passphrase that `read_passphrase` gives for these files.
abbrev pub Given : Terminal → Option Text → Bool → World → List ℕ → Type 0
Given t pass_file confirm start p = (p ≢ []) × Source t pass_file confirm start p

-- The output is a whole encryption of `plain` under the passphrase.
abbrev pub EncryptedUnder : Crypto → Os → EncryptArgs → List ℕ → World → List ℕ → World → Type 0
EncryptedUnder c os args plain start p =
    Whole (encrypt_tmp args.cipher) args.cipher (start.files args.cipher)
      (Encrypted c os args.plain args.cipher p args.algorithm plain)

-- The output is what `cipher`, authentic under the passphrase, decrypts to.
abbrev pub DecryptedUnder : Crypto → Os → DecryptArgs → List ℕ → World → List ℕ → World → Type 0
DecryptedUnder c os args cipher start p =
    Whole (decrypt_tmp args.plain) args.plain (start.files args.plain)
      (Decrypted c os args.plain args.cipher p cipher)

-- For some given passphrase.
abbrev pub Entered :
    Terminal → Option Text → Bool → World → (List ℕ → World → Type 0) → World → Type 0
Entered t pass_file confirm start G w = (p : List ℕ) × Given t pass_file confirm start p × G p w

-- The file is as it was, or for some given passphrase `G` holds.
abbrev pub KeptOr :
    Terminal → Option Text → Bool → World → Text → (List ℕ → World → Type 0) → World → Type 0
KeptOr t pass_file confirm start target G w =
    (w.files target ≡ start.files target) ⊎ Entered t pass_file confirm start G w

module _ (t : Terminal) (pass_file : Option Text) (confirm : Bool) (input target : Text) where
  -- What follows the passphrase starts from the files that the command started from.
  read_passphrase-Ends :
      (m : List ℕ → Action (Unit {0})) (G : List ℕ → World → Type 0) (start : World)
      → ((p : List ℕ) (w : World)
          → w.files input ≡ start.files input
          → w.files target ≡ start.files target
          → Ends (λ _. G p) (λ w'. (w'.files target ≡ start.files target) ⊎ G p w') (m p w))
      → Ends
          (λ _. Entered t pass_file confirm start G)
          (KeptOr t pass_file confirm start target G)
          ((read_passphrase t pass_file confirm >>= m) start)
  read_passphrase-Ends m G start next =
      >>=-Ends (λ p w. Given t pass_file confirm start p × SameFiles w) _
        (KeptOr t pass_file confirm start target G) (read_passphrase t pass_file confirm) m start
        (Ends-mono (read_passphrase t pass_file confirm start) (λ p w h. h) (λ w h. inl h.1)
          (ends_by_value _ SameFiles (read_passphrase t pass_file confirm start)
            (λ p e. read_passphrase-eq-ok t pass_file confirm start e)
            (stands input, stands target)))
        λ p w (given, (i, o)).
          Ends-mono (m p w) (λ _ w' g. (p, given, g))
            (λ w' h. elim h [ inl e ↦ inl e | inr g ↦ inr (p, given, g) ]) (next p w i o)
    where
      SameFiles : World → Type 0
      SameFiles w = (w.files input ≡ start.files input) × (w.files target ≡ start.files target)

      stands : (q : Text) → (read_passphrase t pass_file confirm start).1.files q ≡ start.files q
      stands q =
          Keeps-Stands (read_passphrase t pass_file confirm)
            (read_passphrase-Keeps t pass_file confirm) start refl

module _ (fl : Floats) (c : Crypto) (k : KeyCrates) (os : Os) (t : Terminal) (sys : System)
    (platform : Platform) where
  -- Whatever calls fail, and with or without `force`: when `cry encrypt` exits with 0, its
  -- passphrase was the first line of --pass-file or the answer to both prompts, and not empty, and
  -- the output is a whole encryption of the input under it; and with any other status, or none,
  -- the output is such an encryption or as it was. The input is there, and neither it nor the
  -- output is the temporary file.
  pub encrypt-Exits :
      (args : EncryptArgs) (plain : List ℕ) (s : State)
      → args.cipher ≢ encrypt_tmp args.cipher
      → args.plain ≢ encrypt_tmp args.cipher
      → s.world.files args.plain ≡ some plain
      → Exits
          (Entered t args.pass_file true s.world (EncryptedUnder c os args plain s.world))
          (KeptOr t args.pass_file true s.world args.cipher
            (EncryptedUnder c os args plain s.world))
          (main fl c k os t sys platform (some (encrypt args)) s)
  unfolding main encrypt_command
  encrypt-Exits args plain s target_ne input_ne e =
      exit_status-Ends _ _ s (encrypt_command c k os t args s.world).0
        (encrypt_command c k os t args s.world).1
        (read_passphrase-Ends t args.pass_file true args.plain args.cipher
          (λ p. encrypt_file c os args.plain args.cipher p args.algorithm args.force)
          (EncryptedUnder c os args plain s.world) s.world
          λ p w i o.
            subst
              (λ old.
                Ends
                  (λ _.
                    Whole (encrypt_tmp args.cipher) args.cipher old
                      (Encrypted c os args.plain args.cipher p args.algorithm plain))
                  (Settled (encrypt_tmp args.cipher) args.cipher old
                    (Encrypted c os args.plain args.cipher p args.algorithm plain))
                  (encrypt_file c os args.plain args.cipher p args.algorithm args.force w))
              o
              (encrypt_file_atomic c os args.plain args.cipher p args.algorithm plain args.force w
                target_ne input_ne (i ∙ e)))

  -- Whatever calls fail, and with or without `force`: when `cry decrypt` exits with 0, its
  -- passphrase was the first line of --pass-file or the answer to the prompt, and not empty, the
  -- input's header was authentic under it, and the output is what the stream behind it decrypts
  -- to, with as many chunks as the header says; and with any other status, or none, the output is
  -- that or as it was. The input is there, and neither it nor the output is the temporary file.
  pub decrypt-Exits :
      (args : DecryptArgs) (cipher : List ℕ) (s : State)
      → args.plain ≢ decrypt_tmp args.plain
      → args.cipher ≢ decrypt_tmp args.plain
      → s.world.files args.cipher ≡ some cipher
      → Exits
          (Entered t args.pass_file false s.world (DecryptedUnder c os args cipher s.world))
          (KeptOr t args.pass_file false s.world args.plain
            (DecryptedUnder c os args cipher s.world))
          (main fl c k os t sys platform (some (decrypt args)) s)
  unfolding main decrypt_command
  decrypt-Exits args cipher s target_ne input_ne e =
      exit_status-Ends _ _ s (decrypt_command c k os t args s.world).0
        (decrypt_command c k os t args s.world).1
        (read_passphrase-Ends t args.pass_file false args.cipher args.plain
          (λ p. decrypt_file c os args.plain args.cipher p args.force)
          (DecryptedUnder c os args cipher s.world) s.world
          λ p w i o.
            subst
              (λ old.
                Ends
                  (λ _.
                    Whole (decrypt_tmp args.plain) args.plain old
                      (Decrypted c os args.plain args.cipher p cipher))
                  (Settled (decrypt_tmp args.plain) args.plain old
                    (Decrypted c os args.plain args.cipher p cipher))
                  (decrypt_file c os args.plain args.cipher p args.force w))
              o
              (decrypt_file_atomic c os args.plain args.cipher p cipher args.force w target_ne
                input_ne (i ∙ e)))
