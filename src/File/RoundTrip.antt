-- ===== src/File/RoundTrip.antt =====
-- src/cipher.rs: `decrypt_file` gives back what `encrypt_file` was given, where no call fails.
use cry.Base.{
  ℕ, ◌<◌, ◌^◌, ◌≡◌, ◌≢◌, refl, ap, ◌∙◌, List, [], Option, none, some, Bool, inl, inr, ◌⊎◌, true,
  length, IsArray, Text,
}
use cry.Error.{ok}
use cry.Crypto.{Crypto, MacLaws}
use cry.Header.{Algorithm, salt_len}
use cry.Kdf.{derive_key}
use cry.Cipher.Frames.{CipherLaws}
use cry.Fs.{World, ◌>>=◌, update}
use cry.Fs.Stands.{update_ne, update_same}
use cry.Fs.Ends.{Ends, Ends-mono, >>=-Ends}
use cry.Fs.Calm.{Now, Never}
use cry.File.{Os, encrypt_tmp, decrypt_tmp, encrypt_file, decrypt_file}
use cry.File.Encrypts.{Delivers, FileOf, files_after, encrypt_file-Now}
use cry.File.Decrypts.{decrypt_file-Now}

module _ (c : Crypto) (laws : CipherLaws c) (mac : MacLaws c) (os : Os) (delivers : Delivers os)
    (passphrase : List ℕ) where
  others :
      (files : Text → Option (List ℕ)) (tmp target q : Text) (bs : List ℕ)
      → q ≢ tmp
      → q ≢ target
      → files_after c laws mac os delivers passphrase files tmp target bs q ≡ files q
  others files tmp target q bs n m =
      update_ne (update (update (update files tmp (some [])) tmp (some bs)) tmp none) target q
        (some bs) m
      ∙ update_ne (update (update files tmp (some [])) tmp (some bs)) tmp q none n
      ∙ update_ne (update files tmp (some [])) tmp q (some bs) n
      ∙ update_ne files tmp q (some []) n

  -- Where no call fails, opened files are read from start to end, and the crates keep their laws:
  -- `encrypt_file` on a file and then `decrypt_file` on its output with the same passphrase both
  -- succeed; the last output has the contents of the first input, and files other than the two
  -- outputs and the two temporary files are as they were. The plaintext is shorter than 2^64
  -- bytes, no input is the temporary file, each output is new or forced, and the key derivation
  -- succeeds.
  pub decrypt_file-encrypt_file :
      (w : World) (plain_path cipher_path out : Text) (algorithm : Algorithm) (force force' : Bool)
      (bs : List ℕ)
      → ((salt : List ℕ)
          → IsArray salt_len salt
          → (key : List ℕ) × (derive_key c passphrase salt ≡ ok key))
      → w.faults ≡ []
      → w.stream_faults ≡ []
      → w.files plain_path ≡ some bs
      → length bs < 2 ^ 64
      → plain_path ≢ encrypt_tmp cipher_path
      → cipher_path ≢ decrypt_tmp out
      → (w.files cipher_path ≡ none) ⊎ (force ≡ true)
      → ((w.files out ≡ none) × (out ≢ cipher_path) × (out ≢ encrypt_tmp cipher_path))
        ⊎ (force' ≡ true)
      → Ends
          (λ _ w'.
            (w'.files out ≡ some bs)
            × ((q : Text)
                → q ≢ encrypt_tmp cipher_path
                → q ≢ cipher_path
                → q ≢ decrypt_tmp out
                → q ≢ out
                → w'.files q ≡ w.files q))
          Never
          ((encrypt_file c os plain_path cipher_path passphrase algorithm force >>= λ _.
              decrypt_file c os out cipher_path passphrase force')
            w)
  decrypt_file-encrypt_file w plain_path cipher_path out algorithm force force' bs derives no_fault
        no_stream_fault f small ne input_ne free free' =
      let tmp = encrypt_tmp cipher_path in
      >>=-Ends
        (λ _ w1.
          (file : List ℕ) × FileOf c laws mac os delivers passphrase bs file
          × Now (files_after c laws mac os delivers passphrase w.files tmp cipher_path file) w1)
        _ Never (encrypt_file c os plain_path cipher_path passphrase algorithm force)
        (λ _. decrypt_file c os out cipher_path passphrase force') w
        (encrypt_file-Now c laws mac os delivers passphrase w.files w plain_path cipher_path
          algorithm force bs derives (no_fault, no_stream_fault, refl) f small ne free)
        λ _ w1 (file, made, n1).
          let files1 = files_after c laws mac os delivers passphrase w.files tmp cipher_path file in
          let free1 : (files1 out ≡ none) ⊎ (force' ≡ true) = elim free' [
            | inl (is_new, nc, nt) ↦ inl (others w.files tmp cipher_path out file nt nc ∙ is_new)
            | inr e ↦ inr e
          ] in
          Ends-mono (decrypt_file c os out cipher_path passphrase force' w1)
            (λ _ w2 n2. (
              ap (λ g. g out) n2.2
                  ∙ update_same
                      (update
                        (update (update files1 (decrypt_tmp out) (some [])) (decrypt_tmp out)
                          (some bs))
                        (decrypt_tmp out) none)
                      out (some bs),
              λ q q1 q2 q3 q4.
                  ap (λ g. g q) n2.2
                  ∙ others files1 (decrypt_tmp out) out q bs q3 q4
                  ∙ others w.files tmp cipher_path q file q1 q2,
            ))
            (λ w2 x. x)
            (decrypt_file-Now c laws mac os delivers passphrase files1 w1 out cipher_path force' bs
              file n1
              (update_same (update (update (update w.files tmp (some [])) tmp (some file)) tmp none)
                cipher_path (some file))
              made free1)
