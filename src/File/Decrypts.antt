-- ===== src/File/Decrypts.antt =====
-- src/cipher.rs: `decrypt_file` over a whole encryption, where no call fails.
use cry.Base.{
  ℕ, ◌≡◌, refl, ap, ◌∙◌, sym, List, [], ◌∷◌, ◌++◌, append-nil, Option, none, some, Bool, ◌⊎◌, true,
  arith, take, drop, take-append, Text,
}
use cry.Error.{ok}
use cry.Io.{Reader, arrive}
use cry.Io.Clean.{bytes_of}
use cry.Crypto.{Crypto, MacLaws}
use cry.Header
use cry.Header.{
  Header, IsHeader, Algorithm, salt_len, magic, algo_byte, pre_hmac_bytes, compute_hmac,
}
use cry.Header.RoundTrip.{header_bytes, header_bytes-append, length-header_bytes, read-header_bytes}
use cry.Bytes.{to_be_bytes}
use cry.Kdf.{derive_key}
use cry.Cipher.Frames.{CipherLaws}
use cry.Cipher.Encrypt.{clean}
use cry.Stream.{decrypt_stream, read_raw_header}
use cry.Stream.RoundTrip.{read_raw_header-append, decrypt_stream-SealedBy}
use cry.Fs.{
  World, lift, ◌>>=◌, update, contents, metadata_len, open_file, create_file, ensure_writable,
}
use cry.Fs.Stands.{update_same}
use cry.Fs.Ends.{Ends, Ends-mono, >>=-Ends}
use cry.Fs.Calm.{
  Now, Never, ensure_writable-Now, metadata_len-Now, open_file-Now, create_file-Now, contents-Now,
}
use cry.File.{Os, decrypt_tmp, run_stream, check_count, settle, decrypt_body, decrypt_file}
use cry.File.Calm.{run_stream-Now, settle-Now}
use cry.File.Encrypts.{Delivers, FileOf, files_after}
use mathlib.Core.Path.{subst}

module _ (c : Crypto) (laws : CipherLaws c) (mac : MacLaws c) (os : Os) (delivers : Delivers os)
    (passphrase : List ℕ) where
  salt_of :
      (h : Header) (key : List ℕ)
      → IsHeader h
      → take salt_len (drop 5 (header_bytes c h key)) ≡ h.salt
  salt_of h key v =
      let rest =
        h.nonce ++ (to_be_bytes 8 h.chunk_count ++ (compute_hmac c (pre_hmac_bytes h) key ++ [])) in
      let e : header_bytes c h key ≡ magic ++ ((algo_byte h.algo ∷ []) ++ (h.salt ++ rest)) =
        sym (append-nil (header_bytes c h key)) ∙ header_bytes-append c h key [] in
      ap (λ xs. take salt_len (drop 5 xs)) e ∙ take-append salt_len h.salt rest v.salt_array.0

  decrypt_body-Now :
      (files : Text → Option (List ℕ)) (w : World) (tmp : Text) (h : Header) (key bs : List ℕ)
      (r : Reader)
      → Now files w
      → decrypt_stream c h key r (clean []) ≡ ok (h.chunk_count, clean bs)
      → Ends
          (λ _. Now (update (update files tmp (some [])) tmp (some bs)))
          Never
          (decrypt_body c os tmp h key r w)
  unfolding decrypt_body
  decrypt_body-Now files w tmp h key bs r now e =
      let Q : ℕ → World → Type 0 = λ _. Now (update (update files tmp (some [])) tmp (some bs)) in
      >>=-Ends (λ _. Now (update files tmp (some []))) Q Never (create_file tmp)
        (λ _. run_stream tmp (decrypt_stream c h key r) >>= check_count h.chunk_count) w
        (create_file-Now files w now tmp)
        λ _ w1 n1.
          Ends-mono ((run_stream tmp (decrypt_stream c h key r) >>= check_count h.chunk_count) w1)
            (λ _ w' k. k.0) (λ w' k. k)
            (run_stream-Now (update files tmp (some [])) w1 tmp (decrypt_stream c h key r)
              h.chunk_count bs n1 e)

  -- What `decrypt_file` finds in a whole encryption.
  unfoldable pub Opening : List ℕ → List ℕ → Type 0
  Opening bs file =
      (raw : List ℕ) × (r : Reader) × (key : List ℕ) × (h : Header) × (rest : Reader)
      × (read_raw_header (os.deliver file) ≡ ok (raw, r))
      × (derive_key c passphrase (take salt_len (drop 5 raw)) ≡ ok key)
      × (Header.read c key (arrive raw ∷ []) ≡ ok (h, rest))
      × (decrypt_stream c h key r (clean []) ≡ ok (h.chunk_count, clean bs))

  pub FileOf-Opening :
      (bs file : List ℕ) → FileOf c laws mac os delivers passphrase bs file → Opening bs file
  unfolding Opening
  FileOf-Opening bs file (h, key, body, v, k, count, is_file, sealed) =
      let hb = header_bytes c h key in
      let (cl, all) = delivers file in
      let (r, raw_ok, cr, behind) =
        read_raw_header-append c laws mac h key body (os.deliver file) v cl (all ∙ is_file) in
      let (rest, read_ok, cs, empty) =
        read-header_bytes c mac h key [] (arrive hb ∷ []) v
          (omega (arith, length-header_bytes c mac h key v), tt) (unfold bytes_of in refl) in
      (
        hb,
        r,
        key,
        h,
        rest,
        raw_ok,
        ap (derive_key c passphrase) (salt_of h key v) ∙ k,
        read_ok,
        decrypt_stream-SealedBy c laws mac h key bs body r sealed cr behind
            ∙ ap (λ n. ok (n, clean bs)) (sym count),
      )

  -- What follows the reading of the input.
  behind_contents-Now :
      (files : Text → Option (List ℕ)) (w : World) (tmp target : Text) (bs file : List ℕ)
      → Now files w
      → Opening bs file
      → Ends
          (λ _. Now (files_after c laws mac os delivers passphrase files tmp target bs))
          Never
          ((lift (read_raw_header (os.deliver file)) >>= λ (raw, r).
              lift (derive_key c passphrase (take salt_len (drop 5 raw))) >>= λ key.
              lift (Header.read c key (arrive raw ∷ [])) >>= λ (h, rest).
              settle tmp target (decrypt_body c os tmp h key r))
            w)
  unfolding Opening
  behind_contents-Now files w tmp target bs file now
        (raw, r, key, h, rest, raw_ok, salted, read_ok, opens) =
      rw (raw_ok, salted, read_ok)
        (settle-Now (update (update files tmp (some [])) tmp (some bs)) w tmp target
          (decrypt_body c os tmp h key r) bs (decrypt_body-Now files w tmp h key bs r now opens)
          (update_same (update files tmp (some [])) tmp (some bs)))

  pub decrypt_file-Now :
      (files : Text → Option (List ℕ)) (w : World) (plain_path cipher_path : Text) (force : Bool)
      (bs file : List ℕ)
      → Now files w
      → files cipher_path ≡ some file
      → FileOf c laws mac os delivers passphrase bs file
      → (files plain_path ≡ none) ⊎ (force ≡ true)
      → Ends
          (λ _. Now (
            files_after c laws mac os delivers passphrase files
              (decrypt_tmp plain_path)
              plain_path
              bs))
          Never
          (decrypt_file c os plain_path cipher_path passphrase force w)
  unfolding decrypt_file
  decrypt_file-Now files w plain_path cipher_path force bs file now f made free =
      let Q : Unit {0} → World → Type 0 = λ _. Now (
        files_after c laws mac os delivers passphrase files (decrypt_tmp plain_path) plain_path
          bs) in
      >>=-Ends (λ _. Now files) Q Never (ensure_writable plain_path force) _ w
        (ensure_writable-Now files w now plain_path force free)
        λ _ w1 n1.
          >>=-Ends (λ _. Now files) Q Never (open_file cipher_path) _ w1
            (open_file-Now files w1 n1 cipher_path f)
            λ _ w2 n2.
              >>=-Ends (λ _. Now files) Q Never (metadata_len cipher_path) _ w2
                (Ends-mono (metadata_len cipher_path w2) (λ _ w' x. x.0) (λ w' x. x)
                  (metadata_len-Now files w2 n2 cipher_path f))
                λ _ w3 n3.
                  >>=-Ends (λ xs w'. Now files w' × (xs ≡ file)) Q Never (contents cipher_path) _ w3
                    (contents-Now files w3 n3 cipher_path f)
                    λ xs w4 (n4, same).
                      behind_contents-Now files w4 (decrypt_tmp plain_path) plain_path bs xs n4
                        (subst (Opening bs) (sym same) (FileOf-Opening bs file made))
