-- ===== src/Main/Size.antt =====
-- src/main.rs: how long the output of `cry encrypt` is.
use cry.Base.{
  ℕ, ◌+◌, ◌*◌, ◌-◌, ◌/◌, ◌<◌, ◌^◌, ◌≡◌, ◌≢◌, ap, List, some, true, arith, length, length-append,
}
use cry.Crypto.{Crypto, KeyCrates, MacLaws}
use cry.Cipher.{chunk_size, header_aad}
use cry.Cipher.Frames.{CipherLaws}
use cry.Cipher.Size.{length-Sealed-pieces}
use cry.Header.{header_len}
use cry.Header.RoundTrip.{header_bytes, length-header_bytes}
use cry.File.{Os, encrypt_tmp}
use cry.File.Encrypts.{Delivers, FileOf}
use cry.File.Recovered.{Encrypted-FileOf}
use cry.Passphrase.{Terminal}
use cry.Commands.{EncryptArgs}
use cry.Process.{System}
use cry.Bench.{Floats}
use cry.Ssh.{Platform}
use cry.Main.{State, encrypt, main}
use cry.Main.Outcome.{Entered, KeptOr, EncryptedUnder, encrypt-Exits}
use cry.Main.Recovered.{Exits-succeeded}

module _ (fl : Floats) (c : Crypto) (laws : CipherLaws c) (mac : MacLaws c) (k : KeyCrates)
    (os : Os) (delivers : Delivers os) (t : Terminal) (sys : System) (platform : Platform) where
  length-FileOf :
      (passphrase bs file : List ℕ)
      → FileOf c laws mac os delivers passphrase bs file
      → length file ≡ header_len + (length bs + 20 * ((length bs + (chunk_size - 1)) / chunk_size))
  length-FileOf passphrase bs file (h, key, body, v, d, n, e, sealed) = omega (
    arith,
    ap length e,
    length-append (header_bytes c h key) body,
    length-header_bytes c mac h key v,
    length-Sealed-pieces c key h.nonce h.algo (header_aad c h) bs body sealed,
  )

  -- Whatever calls fail, where opened files are read from start to end and the crates keep their
  -- laws: when `cry encrypt` exits with 0, its output is 73 bytes longer than the input, and 20
  -- bytes more for each MiB begun. The plaintext is shorter than 2^64 bytes, and neither it nor
  -- the output is the temporary file.
  pub encrypt_size :
      (args : EncryptArgs) (plain : List ℕ) (s : State)
      → args.cipher ≢ encrypt_tmp args.cipher
      → args.plain ≢ encrypt_tmp args.cipher
      → s.world.files args.plain ≡ some plain
      → length plain < 2 ^ 64
      → (main fl c k os t sys platform (some (encrypt args)) s).0 ≡ some 0
      → (file : List ℕ) × ((main fl c k os t sys platform (some (encrypt args)) s).1.world.files
            args.cipher
          ≡ some file)
        × (length file ≡ 73 + (length plain + 20 * ((length plain + (2 ^ 20 - 1)) / 2 ^ 20)))
  encrypt_size args plain s target_ne input_ne f small succeeded =
      let (p, given, (n, file, there, made)) =
        Exits-succeeded
          (Entered t args.pass_file true s.world (EncryptedUnder c os args plain s.world))
          (KeptOr t args.pass_file true s.world args.cipher
            (EncryptedUnder c os args plain s.world))
          (main fl c k os t sys platform (some (encrypt args)) s) succeeded
          (encrypt-Exits fl c k os t sys platform args plain s target_ne input_ne f) in
      let whole =
        Encrypted-FileOf c laws mac os delivers p plain args.plain args.cipher args.algorithm n file
          small made in
      (file, there, length-FileOf p plain file whole)
