-- ===== src/Main/Calm.antt =====
-- src/main.rs: `cry encrypt` and `cry decrypt` where no call fails.
use cry.Base.{
  ℕ, ◌<◌, ◌^◌, ◌≡◌, ◌≢◌, refl, ap, ◌∙◌, List, [], none, some, true, false, ◌⊎◌, length, IsArray,
  Text,
}
use cry.Error.{Result, ok, err, panicked, stuck}
use cry.Crypto.{Crypto, KeyCrates, MacLaws}
use cry.Header.{salt_len}
use cry.Kdf.{derive_key}
use cry.Cipher.Frames.{CipherLaws}
use cry.Fs.{World, Action, carry_on, ◌>>=◌}
use cry.Fs.Ends.{Ends}
use cry.Fs.Calm.{Never}
use cry.File.{Os, encrypt_tmp, decrypt_tmp, encrypt_file, decrypt_file}
use cry.File.Encrypts.{Delivers}
use cry.File.RoundTrip.{decrypt_file-encrypt_file}
use cry.Passphrase.{Terminal, read_passphrase}
use cry.Commands.{EncryptArgs, DecryptArgs, encrypt_command, decrypt_command}
use cry.Process.{System}
use cry.Bench.{Floats}
use cry.Ssh.{Platform}
use cry.Main.{State, encrypt, decrypt, exit_status, forget, main}

-- A chain of two actions that does not fail: the first succeeds, and so does the second behind it.
both_succeed :
    {A B : Type 0} (Q : B → World → Type 0) (m : Action A) (f : A → Action B) (w : World)
    → Ends Q Never ((m >>= f) w)
    → (a : A) × ((m w).0 ≡ ok a) × (b : B) × ((f a (m w).1).0 ≡ ok b) × Q b (f a (m w).1).1
both_succeed {A} {B} Q m f w h = first (m w).0 refl h
  where
    second :
        (a : A) (r : Result B)
        → (f a (m w).1).0 ≡ r
        → Ends Q Never (r, (f a (m w).1).1)
        → (b : B) × ((f a (m w).1).0 ≡ ok b) × Q b (f a (m w).1).1
    second a (ok b) e g = (b, e, g)
    second a (err x) e g = absurd g
    second a panicked e g = absurd g
    second a stuck e g = absurd g

    first :
        (r : Result A)
        → (m w).0 ≡ r
        → Ends Q Never (carry_on f r (m w).1)
        → (a : A) × ((m w).0 ≡ ok a) × (b : B) × ((f a (m w).1).0 ≡ ok b) × Q b (f a (m w).1).1
    first (ok a) e g = let (b, e', q) = second a (f a (m w).1).0 refl g in (a, e, b, e', q)
    first (err x) e g = absurd g
    first panicked e g = absurd g
    first stuck e g = absurd g

module _ (fl : Floats) (c : Crypto) (laws : CipherLaws c) (mac : MacLaws c) (k : KeyCrates)
    (os : Os) (delivers : Delivers os) (t : Terminal) (sys : System) (platform : Platform) where
  -- Where no call fails, opened files are read from start to end, and the crates keep their laws:
  -- `cry encrypt` on a file and then `cry decrypt` on its output both exit with 0; the last output
  -- has the contents of the first input, and files other than the two outputs and the two
  -- temporary files are as they were. Both read the same passphrase, the plaintext is shorter than
  -- 2^64 bytes, no input is the temporary file, each output is new or forced, and the key
  -- derivation succeeds.
  pub decrypt-encrypt_succeed :
      (args : EncryptArgs) (args' : DecryptArgs) (s : State) (p bs : List ℕ)
      → ((salt : List ℕ) → IsArray salt_len salt → (key : List ℕ) × (derive_key c p salt ≡ ok key))
      → s.world.faults ≡ []
      → s.world.stream_faults ≡ []
      → s.world.files args.plain ≡ some bs
      → length bs < 2 ^ 64
      → args.plain ≢ encrypt_tmp args.cipher
      → args.cipher ≢ decrypt_tmp args'.plain
      → args'.cipher ≡ args.cipher
      → (s.world.files args.cipher ≡ none) ⊎ (args.force ≡ true)
      → ((s.world.files args'.plain ≡ none)
          × (args'.plain ≢ args.cipher)
          × (args'.plain ≢ encrypt_tmp args.cipher))
        ⊎ (args'.force ≡ true)
      → read_passphrase t args.pass_file true s.world ≡ (ok p, s.world)
      → (let s' = (main fl c k os t sys platform (some (encrypt args)) s).1 in
          read_passphrase t args'.pass_file false s'.world ≡ (ok p, s'.world))
      → let (status, s') = main fl c k os t sys platform (some (encrypt args)) s in
        let (status', s'') = main fl c k os t sys platform (some (decrypt args')) s' in
        (status ≡ some 0)
        × (status' ≡ some 0)
        × (s''.world.files args'.plain ≡ some bs)
        × ((q : Text)
            → q ≢ encrypt_tmp args.cipher
            → q ≢ args.cipher
            → q ≢ decrypt_tmp args'.plain
            → q ≢ args'.plain
            → s''.world.files q ≡ s.world.files q)
  unfolding main encrypt_command decrypt_command exit_status
  decrypt-encrypt_succeed args args' s p bs derives no_fault no_stream_fault f small ne input_ne
        path free free' reads reads' =
      let enc = encrypt_file c os args.plain args.cipher p args.algorithm args.force in
      let dec = λ (x : Text). decrypt_file c os args'.plain x p args'.force in
      let w1 = (encrypt_command c k os t args s.world).1 in
      let (a, ok1, b, ok2, (out, others)) =
        both_succeed _ enc (λ _. dec args.cipher) s.world
          (decrypt_file-encrypt_file c laws mac os delivers p s.world args.plain args.cipher
            args'.plain args.algorithm args.force args'.force bs derives no_fault no_stream_fault f
            small ne input_ne free free') in
      let first : encrypt_command c k os t args s.world ≡ enc s.world =
        ap
          (λ x.
            carry_on (λ p'. encrypt_file c os args.plain args.cipher p' args.algorithm args.force)
              x.0 x.1)
          reads in
      let second : decrypt_command c k os t args' w1 ≡ dec args.cipher (enc s.world).1 =
        ap (λ x. carry_on (λ p'. decrypt_file c os args'.plain args'.cipher p' args'.force) x.0 x.1)
          reads'
        ∙ ap (λ x. dec x w1) path
        ∙ ap (λ x. dec args.cipher x.1) first in
      (
        ap (λ x. exit_status (forget x.0)) first ∙ ap (λ r. exit_status (forget r)) ok1,
        ap (λ x. exit_status (forget x.0)) second ∙ ap (λ r. exit_status (forget r)) ok2,
        ap (λ x. x.1.files args'.plain) second ∙ out,
        λ q q1 q2 q3 q4. ap (λ x. x.1.files q) second ∙ others q q1 q2 q3 q4,
      )
