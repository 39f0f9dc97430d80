-- ===== src/File/InPlace.antt =====
-- src/cipher.rs: `encrypt_file` where the input is at the path of the temporary file.
use mathlib.Core.Path.{subst}
use cry.Base.{
  ℕ, ◌+◌, ◌-◌, ◌/◌, ◌<◌, ◌≡◌, ◌≢◌, refl, ap, ◌∙◌, List, [], ◌++◌, Option, none, some, Bool, true,
  false, ◌⊎◌, ◌==◌, arith, length, IsArray, Text,
}
use cry.Error.{CryError, Result, ok, err, panicked, stuck, truncated}
use cry.Io.Clean.{bytes_of}
use cry.Crypto.{Crypto, MacLaws}
use cry.Header.{Header, Algorithm, salt_len, nonce_len}
use cry.Header.RoundTrip.{header_bytes}
use cry.Kdf.{derive_key}
use cry.Cipher.{chunk_size}
use cry.Cipher.Frames.{CipherLaws}
use cry.Cipher.Encrypt.{clean}
use cry.Stream.{encrypt_stream}
use cry.Stream.RoundTrip.{encrypt_stream-SealedBy}
use cry.Fs.{
  World, Action, pure, lift, ◌>>=◌, update, contents, metadata_len, open_file, create_file,
  remove_file, fill_bytes, ensure_writable,
}
use cry.Fs.Stands.{update_ne, update_same}
use cry.Fs.Calm.{
  Now, Ends-Never, ensure_writable-Now, metadata_len-Now, open_file-Now, create_file-Now,
  contents-Now, remove_file-Now,
}
use cry.File.{
  Os, encrypt_tmp, chunks_for, finish_stream, run_stream, new_writer, check_count, commit, settle,
  encrypt_body, encrypt_file,
}
use cry.File.Calm.{draw-IsArray}
use cry.File.Encrypts.{Delivers}
use cry.Fs.Fails.{Fails, >>=-Fails, carry_on-failed}

module _ (c : Crypto) (laws : CipherLaws c) (mac : MacLaws c) (os : Os) (delivers : Delivers os)
    (passphrase : List ℕ) (files : Text → Option (List ℕ)) (cipher_path : Text) where
  -- The input, which is at the temporary file's path, is gone, and the output is as it was.
  abbrev pub Lost : ℕ → CryError → World → Type 0
  Lost n e w =
      (e ≡ truncated n 0)
      × (w.files (encrypt_tmp cipher_path) ≡ none)
      × (w.files cipher_path ≡ files cipher_path)

  -- The emptied input gives no chunk.
  no_chunks :
      (h : Header) (key : List ℕ)
      → (file : List ℕ) × (encrypt_stream c h key (os.deliver []) (clean []) ≡ ok (0, clean file))
  no_chunks h key =
      let (cl, all) = delivers [] in
      let (body, e, sealed) = encrypt_stream-SealedBy c laws mac h key (os.deliver []) cl in
      let none_counted : (length (bytes_of (os.deliver [])) + (chunk_size - 1)) / chunk_size ≡ 0 =
        rw all refl in
      (
        header_bytes c h key ++ body,
        e ∙ ap (λ n. ok (n, clean (header_bytes c h key ++ body))) none_counted,
      )

  -- The closure fails, and leaves something in the temporary file.
  abbrev Left : ℕ → CryError → World → Type 0
  Left n x w =
      (x ≡ truncated n 0)
      × ((file : List ℕ) × Now
            (update (update files (encrypt_tmp cipher_path) (some [])) (encrypt_tmp cipher_path)
              (some file))
            w)

  encrypt_body-Left :
      (h : Header) (key bs : List ℕ) (w : World)
      → 0 < h.chunk_count
      → Now files w
      → files (encrypt_tmp cipher_path) ≡ some bs
      → Fails
          (Left h.chunk_count)
          (encrypt_body c os (encrypt_tmp cipher_path) (encrypt_tmp cipher_path) h key w)
  unfolding encrypt_body run_stream finish_stream
  encrypt_body-Left h key bs w pos now f =
      let tmp = encrypt_tmp cipher_path in
      let (file, e) = no_chunks h key in
      let differs : (0 == h.chunk_count) ≡ false = ground arith in
      >>=-Fails (λ _. Now files) (Left h.chunk_count) (open_file tmp) _ w
        (open_file-Now files w now tmp f)
        λ _ w1 n1.
          >>=-Fails (λ _. Now (update files tmp (some []))) (Left h.chunk_count) (create_file tmp) _
            w1 (create_file-Now files w1 n1 tmp)
            λ _ w2 n2.
              >>=-Fails (λ xs w'. Now (update files tmp (some [])) w' × (xs ≡ []))
                (Left h.chunk_count) (contents tmp)
                (λ xs.
                  run_stream tmp (encrypt_stream c h key (os.deliver xs))
                  >>= check_count h.chunk_count)
                w2
                (contents-Now (update files tmp (some [])) w2 n2 tmp
                  (update_same files tmp (some [])))
                λ xs w3 (n3, same).
                  let start : encrypt_stream c h key (os.deliver xs) (new_writer w3)
                      ≡ ok (0, clean file) =
                    ap (λ ys. encrypt_stream c h key (os.deliver ys) (new_writer w3)) same
                    ∙ ap
                        (λ fs.
                          encrypt_stream c h key (os.deliver [])
                            (record { written = []; faults = fs }))
                        n3.1
                    ∙ e in
                  rw (start, differs)
                    (refl, (file, (n3.0, refl, ap (λ g. update g tmp (some file)) n3.2)))

  commit-Lost :
      (n : ℕ) (r : Result ℕ) (w : World)
      → cipher_path ≢ encrypt_tmp cipher_path
      → Fails (Left n) (r, w)
      → Fails (Lost n) (commit (encrypt_tmp cipher_path) cipher_path r w)
  unfolding commit
  commit-Lost n (ok m) w ne h = absurd h
  commit-Lost n panicked w ne h = absurd h
  commit-Lost n stuck w ne h = absurd h
  commit-Lost n (err x) w ne (same, (file, now)) =
      let tmp = encrypt_tmp cipher_path in
      let last = update (update files tmp (some [])) tmp (some file) in
      let gone : Now (update last tmp none) (remove_file tmp w).1 =
        Ends-Never (Now (update last tmp none)) (remove_file tmp w) (
          remove_file-Now last w now tmp
            (update_same (update files tmp (some [])) tmp (some file))) in
      (
        same,
        ap (λ g. g tmp) gone.2 ∙ update_same last tmp none,
        ap (λ g. g cipher_path) gone.2
            ∙ update_ne last tmp cipher_path none ne
            ∙ update_ne (update files tmp (some [])) tmp cipher_path (some file) ne
            ∙ update_ne files tmp cipher_path (some []) ne,
      )

  settle-Lost :
      (n : ℕ) (closure : Action ℕ) (w : World)
      → cipher_path ≢ encrypt_tmp cipher_path
      → Fails (Left n) (closure w)
      → Fails (Lost n) (settle (encrypt_tmp cipher_path) cipher_path closure w)
  unfolding settle
  settle-Lost n closure w ne e =
      let x = commit (encrypt_tmp cipher_path) cipher_path (closure w).0 (closure w).1 in
      carry_on-failed (Lost n) (λ _. metadata_len cipher_path >>= λ _. pure tt) x.0 x.1
        (commit-Lost n (closure w).0 (closure w).1 ne e)

  -- What follows the drawing of salt and nonce.
  behind_nonce-Lost :
      (h : Header) (key bs : List ℕ) (w : World)
      → derive_key c passphrase h.salt ≡ ok key
      → h.chunk_count ≡ chunks_for (length bs)
      → 0 < length bs
      → Now files w
      → files (encrypt_tmp cipher_path) ≡ some bs
      → cipher_path ≢ encrypt_tmp cipher_path
      → Fails (Lost (chunks_for (length bs))) (
          (lift (derive_key c passphrase h.salt) >>= λ a.
          settle
            (encrypt_tmp cipher_path)
            cipher_path
            (encrypt_body c os (encrypt_tmp cipher_path) (encrypt_tmp cipher_path) h a))
            w)
  behind_nonce-Lost h key bs w k count some_bytes now f ne =
      let tmp = encrypt_tmp cipher_path in
      rw k (
        subst (λ n. Fails (Lost n) (settle tmp cipher_path (encrypt_body c os tmp tmp h key) w))
          count
          (settle-Lost h.chunk_count (encrypt_body c os tmp tmp h key) w ne
            (encrypt_body-Left h key bs w (omega arith) now f)))

  -- Where the input is at the path of the temporary file and not empty, no call fails, opened
  -- files are read from start to end, the output is new or forced and not the temporary file, the
  -- key derivation succeeds and the crates keep their laws: `encrypt_file` ends with `Truncated`,
  -- none of the expected chunks read, and the input is gone; the output is as it was.
  pub encrypt_file_in_place :
      (w : World) (algorithm : Algorithm) (force : Bool) (bs : List ℕ)
      → ((salt : List ℕ)
          → IsArray salt_len salt
          → (key : List ℕ) × (derive_key c passphrase salt ≡ ok key))
      → Now files w
      → files (encrypt_tmp cipher_path) ≡ some bs
      → 0 < length bs
      → cipher_path ≢ encrypt_tmp cipher_path
      → (files cipher_path ≡ none) ⊎ (force ≡ true)
      → Fails
          (Lost (chunks_for (length bs)))
          (encrypt_file c os (encrypt_tmp cipher_path) cipher_path passphrase algorithm force w)
  unfolding encrypt_file fill_bytes
  encrypt_file_in_place w algorithm force bs derives now f some_bytes ne free =
      let tmp = encrypt_tmp cipher_path in
      let F = Lost (chunks_for (length bs)) in
      >>=-Fails (λ _. Now files) F (ensure_writable cipher_path force) _ w
        (ensure_writable-Now files w now cipher_path force free)
        λ _ w1 n1.
          >>=-Fails (λ k w'. Now files w' × (k ≡ length bs)) F (metadata_len tmp) _ w1
            (metadata_len-Now files w1 n1 tmp f)
            λ plain_len w2 (n2, len).
              >>=-Fails (λ xs w'. Now files w' × IsArray salt_len xs) F (fill_bytes salt_len) _ w2
                (n2, draw-IsArray salt_len w2.entropy w2.drawn)
                λ salt w3 (n3, s3).
                  >>=-Fails (λ _. Now files) F (fill_bytes nonce_len) _ w3 n3
                    λ nonce w4 n4.
                      let (key, k) = derives salt s3 in
                      let h : Header = record {
                        algo = algorithm;
                        salt = salt;
                        nonce = nonce;
                        chunk_count = chunks_for plain_len;
                      } in
                      behind_nonce-Lost h key bs w4 k (ap chunks_for len) some_bytes n4 f ne
