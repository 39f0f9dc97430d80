-- ===== src/File/Atomic.antt =====
-- src/cipher.rs: whatever fails, the output of `encrypt_file` is as it was or a whole encryption.
use cry.Base.{ℕ, ◌≡◌, ◌≢◌, refl, sym, List, [], Option, some, Bool, inl, IsArray, Text}
use cry.Error.{IoError, ok}
use cry.Io.{Writer}
use cry.Crypto.{Crypto}
use cry.Header.{Header, Algorithm, salt_len, nonce_len}
use cry.Kdf.{derive_key}
use cry.Stream.{encrypt_stream}
use cry.Fs.{
  World, Action, lift, contents, metadata_len, open_file, create_file, fill_bytes, ensure_writable,
}
use cry.Fs.Stands.{
  Stands, create_file-Stands, ensure_writable-Stands, metadata_len-Stands, open_file-Stands,
}
use cry.Fs.Ends.{Ends, Ends-mono, >>=-Ends, contents-some}
use mathlib.Core.Path.{subst}
use cry.File.{Os, encrypt_tmp, chunks_for, settle, encrypt_body, encrypt_file}
use cry.File.Calm.{draw-IsArray}
use cry.File.Commit.{
  Whole, Settled, Ready, Untouched, kept-Ends, lift-Ends, run_stream-Ends, settle-Ends,
}

module _ (c : Crypto) (os : Os) (plain_path cipher_path : Text) (passphrase : List ℕ)
    (algorithm : Algorithm) (plain : List ℕ) where
  -- `bs` is what a successful stream over the plaintext has written, under a header with the chosen
  -- algorithm, the number of chunks, a salt and a nonce, and the key of the passphrase and that salt.
  abbrev pub Encrypted : ℕ → List ℕ → Type 0
  Encrypted n bs =
      (h : Header) × (key : List ℕ) × (faults : List (Option IoError)) × (out : Writer) × IsArray
        salt_len h.salt
      × IsArray nonce_len h.nonce
      × (derive_key c passphrase h.salt ≡ ok key)
      × (h.algo ≡ algorithm)
      × (h.chunk_count ≡ n)
      × (encrypt_stream c h key (os.deliver plain) (record { written = []; faults = faults })
          ≡ ok (n, out))
      × (out.written ≡ bs)

  module _ (old : Option (List ℕ)) (target_ne : cipher_path ≢ encrypt_tmp cipher_path)
      (input_ne : plain_path ≢ encrypt_tmp cipher_path) where
    abbrev Before : World → Type 0
    Before = Untouched (encrypt_tmp cipher_path) cipher_path old Encrypted plain_path (some plain)

    abbrev Finally : World → Type 0
    Finally = Settled (encrypt_tmp cipher_path) cipher_path old Encrypted

    kept :
        {A : Type 0} (m : Action A) (w : World)
        → ((q : Text) (v : Option (List ℕ)) → q ≢ encrypt_tmp cipher_path → Stands q v m)
        → Before w
        → Ends (λ _. Before) (λ w'. w'.files cipher_path ≡ old) (m w)
    kept m w s b =
        kept-Ends (encrypt_tmp cipher_path) cipher_path old Encrypted plain_path (some plain) m w
          (s cipher_path old target_ne) (s plain_path (some plain) input_ne) b

    -- The same before the match on the closure's result.
    early :
        {A : Type 0} (m : Action A) (w : World)
        → ((q : Text) (v : Option (List ℕ)) → q ≢ encrypt_tmp cipher_path → Stands q v m)
        → Before w
        → Ends (λ _. Before) Finally (m w)
    early m w s b = Ends-mono (m w) (λ a w' h. h) (λ w' h. inl h) (kept m w s b)

    drawn :
        (n : ℕ) (w : World)
        → Before w
        → Ends (λ xs w'. Before w' × IsArray n xs) Finally (fill_bytes n w)
    unfolding fill_bytes
    drawn n w b = (b, draw-IsArray n w.entropy w.drawn)

    contents-Ends :
        (w : World)
        → Before w
        → Ends
            (λ bs w'. Before w' × (bs ≡ plain))
            (λ w'. w'.files cipher_path ≡ old)
            (contents plain_path w)
    contents-Ends w b =
        subst (Ends (λ bs w'. Before w' × (bs ≡ plain)) (λ w'. w'.files cipher_path ≡ old))
          (sym (contents-some plain_path w b.1)) (b, refl)

    encrypt_body-Ends :
        (h : Header) (key : List ℕ) (w : World)
        → IsArray salt_len h.salt
        → IsArray nonce_len h.nonce
        → derive_key c passphrase h.salt ≡ ok key
        → h.algo ≡ algorithm
        → Before w
        → Ends
            (Ready (encrypt_tmp cipher_path) cipher_path old Encrypted)
            (λ w'. w'.files cipher_path ≡ old)
            (encrypt_body c os plain_path (encrypt_tmp cipher_path) h key w)
    unfolding encrypt_body
    encrypt_body-Ends h key w sa na k a b =
        let old_output : World → Type 0 = λ w'. w'.files cipher_path ≡ old in
        >>=-Ends (λ _. Before) _ old_output (open_file plain_path) _ w
          (kept (open_file plain_path) w (λ q v ne. open_file-Stands q v plain_path) b)
          λ _ w1 b1.
            >>=-Ends (λ _. Before) _ old_output (create_file (encrypt_tmp cipher_path)) _ w1
              (kept (create_file (encrypt_tmp cipher_path)) w1
                (λ q v ne. create_file-Stands q v (encrypt_tmp cipher_path) ne) b1)
              λ _ w2 b2.
                >>=-Ends (λ bs w'. Before w' × (bs ≡ plain)) _ old_output (contents plain_path) _ w2
                  (contents-Ends w2 b2)
                  λ bs w3 (b3, same).
                    run_stream-Ends (encrypt_tmp cipher_path) cipher_path old Encrypted
                      (encrypt_stream c h key (os.deliver bs)) h.chunk_count w3 target_ne b3.0
                      λ faults out e. (
                        h,
                        key,
                        faults,
                        out,
                        sa,
                        na,
                        k,
                        a,
                        refl,
                        subst
                            (λ xs.
                              encrypt_stream c h key (os.deliver xs)
                                (record { written = []; faults = faults })
                              ≡ ok (h.chunk_count, out))
                            same e,
                        refl,
                      )

    abbrev header : List ℕ → List ℕ → ℕ → Header
    header salt nonce plain_len = record {
      algo = algorithm;
      salt = salt;
      nonce = nonce;
      chunk_count = chunks_for plain_len;
    }

    encrypt_file-Ends :
        (force : Bool) (w : World)
        → Before w
        → Ends
            (λ _. Whole (encrypt_tmp cipher_path) cipher_path old Encrypted)
            Finally
            (encrypt_file c os plain_path cipher_path passphrase algorithm force w)
    unfolding encrypt_file
    encrypt_file-Ends force w b =
        >>=-Ends (λ _. Before) _ Finally (ensure_writable cipher_path force) _ w
          (early (ensure_writable cipher_path force) w
            (λ q v ne. ensure_writable-Stands q v cipher_path force) b)
          λ _ w1 b1.
            >>=-Ends (λ _. Before) _ Finally (metadata_len plain_path) _ w1
              (early (metadata_len plain_path) w1 (λ q v ne. metadata_len-Stands q v plain_path) b1)
              λ plain_len w2 b2.
                >>=-Ends (λ xs w'. Before w' × IsArray salt_len xs) _ Finally (fill_bytes salt_len)
                  _ w2 (drawn salt_len w2 b2)
                  λ salt w3 (b3, sa).
                    >>=-Ends (λ xs w'. Before w' × IsArray nonce_len xs) _ Finally
                      (fill_bytes nonce_len) _ w3 (drawn nonce_len w3 b3)
                      λ nonce w4 (b4, na).
                        >>=-Ends (λ key w'. Before w' × (derive_key c passphrase salt ≡ ok key)) _
                          Finally (lift (derive_key c passphrase salt))
                          (λ key. settle (encrypt_tmp cipher_path) cipher_path (
                            encrypt_body c os plain_path (encrypt_tmp cipher_path)
                              (header salt nonce plain_len) key))
                          w4
                          (lift-Ends (encrypt_tmp cipher_path) cipher_path old Encrypted plain_path
                            (some plain) (derive_key c passphrase salt) w4 b4)
                          λ key w5 (b5, k).
                            settle-Ends (encrypt_tmp cipher_path) cipher_path old Encrypted
                              (encrypt_body c os plain_path (encrypt_tmp cipher_path)
                                (header salt nonce plain_len) key)
                              w5 target_ne
                              (encrypt_body-Ends (header salt nonce plain_len) key w5 sa na k refl
                                b5)

  -- Whatever calls fail, and with or without `force`: when `encrypt_file` succeeds, the output is
  -- a whole stream over the input, under the key of the passphrase and the salt of its header,
  -- with the number of its chunks in the header; and when it does not, the output is such a stream
  -- or as it was. The input is there, and neither it nor the output is the temporary file.
  pub encrypt_file_atomic :
      (force : Bool) (w : World)
      → cipher_path ≢ encrypt_tmp cipher_path
      → plain_path ≢ encrypt_tmp cipher_path
      → w.files plain_path ≡ some plain
      → Ends
          (λ _. Whole (encrypt_tmp cipher_path) cipher_path (w.files cipher_path) Encrypted)
          (Settled (encrypt_tmp cipher_path) cipher_path (w.files cipher_path) Encrypted)
          (encrypt_file c os plain_path cipher_path passphrase algorithm force w)
  encrypt_file_atomic force w target_ne input_ne e =
      encrypt_file-Ends (w.files cipher_path) target_ne input_ne force w (refl, e)
