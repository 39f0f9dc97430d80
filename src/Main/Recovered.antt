-- ===== src/Main/Recovered.antt =====
-- src/main.rs: `cry encrypt`, other runs of the program, and `cry decrypt`.
use mathlib.Core.Path.{subst}
use cry.Base.{
  ℕ, ◌<◌, ◌^◌, ◌≡◌, ◌≢◌, ap, ◌∙◌, List, [], Option, some, true, false, inl, inr, ◌⊎◌, length,
}
use cry.Crypto.{Crypto, KeyCrates, MacLaws}
use cry.Cipher.Frames.{CipherLaws}
use cry.Fs.{World}
use cry.File.{Os, encrypt_tmp, decrypt_tmp}
use cry.File.Encrypts.{Delivers}
use cry.File.Atomic.{Encrypted}
use cry.File.AtomicDecrypt.{Decrypted}
use cry.File.Recovered.{Decrypted-Encrypted}
use cry.Passphrase.{Terminal}
use cry.Passphrase.Accepted.{Source}
use cry.Passphrase.Same.{SameSource, Source-unique}
use cry.Commands.{EncryptArgs, DecryptArgs}
use cry.Process.{System}
use cry.Bench.{Floats}
use cry.Ssh.{Platform}
use cry.Main.{State, encrypt, decrypt, main}
use cry.Main.Kept.{Runs, Runs-kept}
use cry.Main.Outcome.{
  Exits, Entered, KeptOr, EncryptedUnder, DecryptedUnder, encrypt-Exits, decrypt-Exits,
}

-- With the status of success the first, and with another the second.
Exits-mono :
    (Q Q' F F' : World → Type 0) (x : Option ℕ × State)
    → ((w : World) → Q w → Q' w)
    → ((w : World) → F w → F' w)
    → Exits Q F x
    → Exits Q' F' x
Exits-mono Q Q' F F' (status, s) f g (inl (e, h)) = inl (e, f s.world h)
Exits-mono Q Q' F F' (status, s) f g (inr (e, h)) = inr (e, g s.world h)

pub Exits-succeeded :
    (Q F : World → Type 0) (x : Option ℕ × State) → x.0 ≡ some 0 → Exits Q F x → Q x.1.world
Exits-succeeded Q F (status, s) e (inl (e', h)) = h
Exits-succeeded Q F (status, s) e (inr (bad, h)) = absurd (bad e)

module _ (fl : Floats) (c : Crypto) (laws : CipherLaws c) (mac : MacLaws c) (k : KeyCrates)
    (os : Os) (delivers : Delivers os) (t : Terminal) (sys : System) (platform : Platform) where
  -- What is decrypted with the passphrase of the encryption is the plaintext.
  same_plain :
      (args : EncryptArgs) (args' : DecryptArgs) (plain file p : List ℕ) (n : ℕ)
      (before between w : World)
      → length plain < 2 ^ 64
      → args'.pass_file ≡ args.pass_file
      → SameSource args.pass_file before between
      → Source t args.pass_file true before p
      → Encrypted c os args.plain args.cipher p args.algorithm plain n file
      → Entered t args'.pass_file false between (DecryptedUnder c os args' file between) w
      → w.files args'.plain ≡ some plain
  same_plain args args' plain file p n before between w small pass same source made
        (p', (ne, source'), (m, bs, out, opened)) =
      let again : Source t args.pass_file false between p' =
        subst (λ f. Source t f false between p') pass source' in
      let e : p' ≡ p =
        Source-unique t args.pass_file true false before between p p' same source again in
      out
      ∙ ap some (
          Decrypted-Encrypted c laws mac os delivers p plain args.plain args.cipher args'.plain
            args'.cipher args.algorithm n m file bs small made
            (subst (λ x. Decrypted c os args'.plain args'.cipher x file m bs) e opened))

  -- Where no `Path::exists` behind the encryption fails, whatever other calls do: when `cry
  -- encrypt` has exited with 0, and then any commands have been run that are not forced and do not
  -- have the ciphertext's path for their temporary file, `cry decrypt` of the ciphertext has the
  -- plaintext in its output if it exits with 0, and otherwise its output is as it was or the
  -- plaintext. Both take the passphrase from one source, opened files are read from start to end,
  -- the crates keep their laws, the plaintext is shorter than 2^64 bytes, and neither inputs nor
  -- outputs are the temporary files.
  pub decrypt-encrypt_recovered :
      (args : EncryptArgs) (args' : DecryptArgs) (plain : List ℕ) (before between : State)
      → before.world.files args.plain ≡ some plain
      → length plain < 2 ^ 64
      → args.cipher ≢ encrypt_tmp args.cipher
      → args.plain ≢ encrypt_tmp args.cipher
      → args'.cipher ≡ args.cipher
      → args'.plain ≢ decrypt_tmp args'.plain
      → args'.cipher ≢ decrypt_tmp args'.plain
      → args'.pass_file ≡ args.pass_file
      → SameSource args.pass_file before.world between.world
      → (main fl c k os t sys platform (some (encrypt args)) before).0 ≡ some 0
      → (main fl c k os t sys platform (some (encrypt args)) before).1.world.stat_faults ≡ []
      → Runs fl c k os t sys platform args.cipher
          (main fl c k os t sys platform (some (encrypt args)) before).1
          between
      → Exits
          (λ w. w.files args'.plain ≡ some plain)
          (λ w.
            (w.files args'.plain ≡ between.world.files args'.plain)
            ⊎ (w.files args'.plain ≡ some plain))
          (main fl c k os t sys platform (some (decrypt args')) between)
  decrypt-encrypt_recovered args args' plain before between f small target_ne input_ne path
        target_ne' input_ne' pass same succeeded sound runs =
      let (p, (ne, source), (n, file, there, made)) =
        Exits-succeeded
          (Entered t args.pass_file true before.world (EncryptedUnder c os args plain before.world))
          (KeptOr t args.pass_file true before.world args.cipher
            (EncryptedUnder c os args plain before.world))
          (main fl c k os t sys platform (some (encrypt args)) before) succeeded
          (encrypt-Exits fl c k os t sys platform args plain before target_ne input_ne f) in
      let kept : between.world.files args'.cipher ≡ some file =
        ap between.world.files path ∙ Runs-kept fl c k os t sys platform file runs sound there in
      let plain_again = λ (w : World).
        same_plain args args' plain file p n before.world between.world w small pass same source
          made in
      Exits-mono
        (Entered t args'.pass_file false between.world
          (DecryptedUnder c os args' file between.world))
        (λ w. w.files args'.plain ≡ some plain)
        (KeptOr t args'.pass_file false between.world args'.plain
          (DecryptedUnder c os args' file between.world))
        (λ w.
          (w.files args'.plain ≡ between.world.files args'.plain)
          ⊎ (w.files args'.plain ≡ some plain))
        (main fl c k os t sys platform (some (decrypt args')) between) plain_again
        (λ w h. elim h [ inl old ↦ inl old | inr entered ↦ inr (plain_again w entered) ])
        (decrypt-Exits fl c k os t sys platform args' file between target_ne' input_ne' kept)
