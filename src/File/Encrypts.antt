-- ===== src/File/Encrypts.antt =====
-- src/cipher.rs: `encrypt_file` where no call fails: the output is a whole encryption.
use mathlib.Core.Path.{subst}
use cry.Base.{
  ℕ, ◌<◌, ◌^◌, ◌≡◌, ◌≢◌, refl, ap, ◌∙◌, sym, List, [], ◌++◌, Option, none, some, Bool, true, ◌⊎◌,
  arith, length, IsArray, Text,
}
use cry.Error.{ok}
use cry.Io.Clean.{IsClean, bytes_of}
use cry.Crypto.{Crypto, MacLaws}
use cry.Header.{Header, IsHeader, Algorithm, salt_len, nonce_len}
use cry.Header.RoundTrip.{header_bytes}
use cry.Kdf.{derive_key}
use cry.Cipher.Frames.{CipherLaws}
use cry.Cipher.Encrypt.{clean}
use cry.Stream.{encrypt_stream}
use cry.Stream.RoundTrip.{SealedBy, encrypt_stream-SealedBy}
use cry.Fs.{
  World, lift, ◌>>=◌, update, contents, metadata_len, open_file, create_file, fill_bytes,
  ensure_writable,
}
use cry.Fs.Stands.{update_ne, update_same}
use cry.Fs.Ends.{Ends, Ends-mono, >>=-Ends}
use cry.Fs.Calm.{
  Now, Never, ensure_writable-Now, metadata_len-Now, open_file-Now, create_file-Now, contents-Now,
}
use cry.File.{
  Os, encrypt_tmp, chunks_for, run_stream, check_count, settle, encrypt_body, encrypt_file,
}
use cry.File.Calm.{settled, run_stream-Now, settle-Now, draw-IsArray}

-- Opened files are read without failing calls, from their start to their end.
abbrev pub Delivers : Os → Type 0
Delivers os = (bs : List ℕ) → IsClean (os.deliver bs) × (bytes_of (os.deliver bs) ≡ bs)

module _ (c : Crypto) (laws : CipherLaws c) (mac : MacLaws c) (os : Os) (delivers : Delivers os)
    (passphrase : List ℕ) where
  -- A whole encryption of `bs`: a header, written with the key of the passphrase and its salt, and
  -- the frames of the chunks.
  abbrev pub FileOf : List ℕ → List ℕ → Type 0
  FileOf bs file =
      (h : Header) × (key : List ℕ) × (body : List ℕ) × IsHeader h
      × (derive_key c passphrase h.salt ≡ ok key)
      × (h.chunk_count ≡ chunks_for (length bs))
      × (file ≡ header_bytes c h key ++ body)
      × SealedBy c laws mac h key bs body

  -- The temporary file under its last contents, and the output.
  abbrev pub files_after : (Text → Option (List ℕ)) → Text → Text → List ℕ → Text → Option (List ℕ)
  files_after files tmp target bs =
      settled (update (update files tmp (some [])) tmp (some bs)) tmp target bs

  encrypt_body-Now :
      (files : Text → Option (List ℕ)) (w : World) (plain_path tmp : Text) (h : Header)
      (key bs file : List ℕ)
      → Now files w
      → files plain_path ≡ some bs
      → plain_path ≢ tmp
      → h.chunk_count ≡ chunks_for (length bs)
      → encrypt_stream c h key (os.deliver bs) (clean []) ≡ ok (h.chunk_count, clean file)
      → Ends
          (λ _. Now (update (update files tmp (some [])) tmp (some file)))
          Never
          (encrypt_body c os plain_path tmp h key w)
  unfolding encrypt_body
  encrypt_body-Now files w plain_path tmp h key bs file now f ne n e =
      let Q : ℕ → World → Type 0 = λ _. Now (update (update files tmp (some [])) tmp (some file)) in
      >>=-Ends (λ _. Now files) Q Never (open_file plain_path) _ w
        (open_file-Now files w now plain_path f)
        λ _ w1 n1.
          >>=-Ends (λ _. Now (update files tmp (some []))) Q Never (create_file tmp) _ w1
            (create_file-Now files w1 n1 tmp)
            λ _ w2 n2.
              >>=-Ends (λ xs w'. Now (update files tmp (some [])) w' × (xs ≡ bs)) Q Never
                (contents plain_path)
                (λ xs.
                  run_stream tmp (encrypt_stream c h key (os.deliver xs))
                  >>= check_count h.chunk_count)
                w2
                (contents-Now (update files tmp (some [])) w2 n2 plain_path
                  (update_ne files tmp plain_path (some []) ne ∙ f))
                λ xs w3 (n3, same).
                  Ends-mono
                    ((run_stream tmp (encrypt_stream c h key (os.deliver xs))
                        >>= check_count h.chunk_count)
                      w3)
                    (λ _ w' k. k.0) (λ w' k. k)
                    (run_stream-Now (update files tmp (some [])) w3 tmp
                      (encrypt_stream c h key (os.deliver xs)) h.chunk_count file n3
                      (ap (λ ys. encrypt_stream c h key (os.deliver ys) (clean [])) same ∙ e))

  -- The stream under a header of the program is a whole encryption.
  sealed_file :
      (h : Header) (key bs : List ℕ)
      → IsHeader h
      → derive_key c passphrase h.salt ≡ ok key
      → h.chunk_count ≡ chunks_for (length bs)
      → (file : List ℕ) × FileOf bs file
        × (encrypt_stream c h key (os.deliver bs) (clean []) ≡ ok (h.chunk_count, clean file))
  sealed_file h key bs v k n =
      let (cl, all) = delivers bs in
      let (body, e, sealed) = encrypt_stream-SealedBy c laws mac h key (os.deliver bs) cl in
      let file = header_bytes c h key ++ body in
      let count : chunks_for (length (bytes_of (os.deliver bs))) ≡ h.chunk_count =
        ap (λ xs. chunks_for (length xs)) all ∙ sym n in
      (
        file,
        (h, key, body, v, k, n, refl, subst (λ xs. SealedBy c laws mac h key xs body) all sealed),
        e ∙ ap (λ m. ok (m, clean file)) count,
      )

  -- What follows the drawing of salt and nonce.
  behind_nonce-Now :
      (files : Text → Option (List ℕ)) (w : World) (plain_path cipher_path : Text) (h : Header)
      (key bs : List ℕ)
      → IsHeader h
      → derive_key c passphrase h.salt ≡ ok key
      → h.chunk_count ≡ chunks_for (length bs)
      → Now files w
      → files plain_path ≡ some bs
      → plain_path ≢ encrypt_tmp cipher_path
      → Ends
          (λ _ w'.
            (file : List ℕ) × FileOf bs file
            × Now (files_after files (encrypt_tmp cipher_path) cipher_path file) w')
          Never
          ((lift (derive_key c passphrase h.salt) >>= λ a.
              settle
                (encrypt_tmp cipher_path)
                cipher_path
                (encrypt_body c os plain_path (encrypt_tmp cipher_path) h a))
            w)
  behind_nonce-Now files w plain_path cipher_path h key bs v k n now f ne =
      let tmp = encrypt_tmp cipher_path in
      let (file, made, e) = sealed_file h key bs v k n in
      rw k (
        Ends-mono (settle tmp cipher_path (encrypt_body c os plain_path tmp h key) w)
          (λ _ w' m. (file, made, m)) (λ w' x. x)
          (settle-Now (update (update files tmp (some [])) tmp (some file)) w tmp cipher_path
            (encrypt_body c os plain_path tmp h key) file
            (encrypt_body-Now files w plain_path tmp h key bs file now f ne n e)
            (update_same (update files tmp (some [])) tmp (some file))))

  pub encrypt_file-Now :
      (files : Text → Option (List ℕ)) (w : World) (plain_path cipher_path : Text)
      (algorithm : Algorithm) (force : Bool) (bs : List ℕ)
      → ((salt : List ℕ)
          → IsArray salt_len salt
          → (key : List ℕ) × (derive_key c passphrase salt ≡ ok key))
      → Now files w
      → files plain_path ≡ some bs
      → length bs < 2 ^ 64
      → plain_path ≢ encrypt_tmp cipher_path
      → (files cipher_path ≡ none) ⊎ (force ≡ true)
      → Ends
          (λ _ w'.
            (file : List ℕ) × FileOf bs file
            × Now (files_after files (encrypt_tmp cipher_path) cipher_path file) w')
          Never
          (encrypt_file c os plain_path cipher_path passphrase algorithm force w)
  unfolding encrypt_file fill_bytes
  encrypt_file-Now files w plain_path cipher_path algorithm force bs derives now f small ne free =
      let Q : Unit {0} → World → Type 0 = λ _ w'.
        (file : List ℕ) × FileOf bs file
        × Now (files_after files (encrypt_tmp cipher_path) cipher_path file) w' in
      >>=-Ends (λ _. Now files) Q Never (ensure_writable cipher_path force) _ w
        (ensure_writable-Now files w now cipher_path force free)
        λ _ w1 n1.
          >>=-Ends (λ k w'. Now files w' × (k ≡ length bs)) Q Never (metadata_len plain_path) _ w1
            (metadata_len-Now files w1 n1 plain_path f)
            λ plain_len w2 (n2, len).
              >>=-Ends (λ xs w'. Now files w' × IsArray salt_len xs) Q Never (fill_bytes salt_len) _
                w2 (n2, draw-IsArray salt_len w2.entropy w2.drawn)
                λ salt w3 (n3, s3).
                  >>=-Ends (λ xs w'. Now files w' × IsArray nonce_len xs) Q Never
                    (fill_bytes nonce_len) _ w3 (n3, draw-IsArray nonce_len w3.entropy w3.drawn)
                    λ nonce w4 (n4, s4).
                      let (key, k) = derives salt s3 in
                      let h : Header = record {
                        algo = algorithm;
                        salt = salt;
                        nonce = nonce;
                        chunk_count = chunks_for plain_len;
                      } in
                      let v : IsHeader h = record {
                        salt_array = s3;
                        nonce_array = s4;
                        count_u64 = omega arith;
                      } in
                      behind_nonce-Now files w4 plain_path cipher_path h key bs v k
                        (ap chunks_for len) n4 f ne
