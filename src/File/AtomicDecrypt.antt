-- ===== src/File/AtomicDecrypt.antt =====
-- src/cipher.rs: whatever fails, the output of `decrypt_file` is as it was or a whole decryption.
use mathlib.Core.Path.{subst}
use cry.Base.{ℕ, ◌≡◌, ◌≢◌, refl, sym, List, [], ◌∷◌, Option, some, inl, Bool, take, drop, Text}
use cry.Error.{IoError, Result, ok}
use cry.Io.{Reader, Writer, arrive}
use cry.Crypto.{Crypto}
use cry.Header
use cry.Header.{Header, salt_len}
use cry.Kdf.{derive_key}
use cry.Stream.{decrypt_stream, read_raw_header}
use cry.Fs.{World, Action, lift, contents, metadata_len, open_file, create_file, ensure_writable}
use cry.Fs.Stands.{
  Stands, create_file-Stands, ensure_writable-Stands, metadata_len-Stands, open_file-Stands,
}
use cry.Fs.Ends.{Ends, Ends-mono, always, >>=-Ends, contents-some}
use cry.File.{Os, decrypt_tmp, settle, decrypt_body, decrypt_file}
use cry.File.Commit.{
  Whole, Settled, Ready, Untouched, kept-Ends, lift-Ends, run_stream-Ends, settle-Ends,
}

module _ (c : Crypto) (os : Os) (plain_path cipher_path : Text) (passphrase : List ℕ)
    (cipher : List ℕ) where
  -- `bs` is what a successful stream has written over the input behind its header, which was
  -- authenticated under the key of the passphrase and the header's salt, and announces the number
  -- of chunks.
  abbrev pub Decrypted : ℕ → List ℕ → Type 0
  Decrypted n bs =
      (raw : List ℕ) × (r : Reader) × (key : List ℕ) × (h : Header) × (rest : Reader)
      × (faults : List (Option IoError)) × (out : Writer) × (read_raw_header (os.deliver cipher)
          ≡ ok (raw, r))
      × (derive_key c passphrase (take salt_len (drop 5 raw)) ≡ ok key)
      × (Header.read c key (arrive raw ∷ []) ≡ ok (h, rest))
      × (h.chunk_count ≡ n)
      × (decrypt_stream c h key r (record { written = []; faults = faults }) ≡ ok (n, out))
      × (out.written ≡ bs)

  module _ (old : Option (List ℕ)) (target_ne : plain_path ≢ decrypt_tmp plain_path) where
    abbrev Before : World → Type 0
    Before = Untouched (decrypt_tmp plain_path) plain_path old Decrypted cipher_path (some cipher)

    abbrev Finally : World → Type 0
    Finally = Settled (decrypt_tmp plain_path) plain_path old Decrypted

    early :
        {A : Type 0} (m : Action A) (w : World)
        → ((q : Text) (v : Option (List ℕ)) → Stands q v m)
        → Before w
        → Ends (λ _. Before) Finally (m w)
    early m w s b =
        Ends-mono (m w) (λ a w' h. h) (λ w' h. inl h)
          (kept-Ends (decrypt_tmp plain_path) plain_path old Decrypted cipher_path (some cipher) m w
            (s plain_path old) (s cipher_path (some cipher)) b)

    contents-Ends :
        (w : World)
        → Before w
        → Ends (λ bs w'. Before w' × (bs ≡ cipher)) Finally (contents cipher_path w)
    contents-Ends w b =
        subst (Ends (λ bs w'. Before w' × (bs ≡ cipher)) Finally)
          (sym (contents-some cipher_path w b.1)) (b, refl)

    lifted :
        {A : Type 0} (x : Result A) (w : World)
        → Before w
        → Ends {A = A} (λ a w'. Before w' × (◌≡◌ {A = Result A} x (ok a))) Finally (lift x w)
    lifted x w b =
        lift-Ends (decrypt_tmp plain_path) plain_path old Decrypted cipher_path (some cipher) x w b

    decrypt_body-Ends :
        (h : Header) (key : List ℕ) (r : Reader) (w : World)
        → w.files plain_path ≡ old
        → ((faults : List (Option IoError)) (out : Writer)
            → decrypt_stream c h key r (record { written = []; faults = faults })
              ≡ ok (h.chunk_count, out)
            → Decrypted h.chunk_count out.written)
        → Ends
            (Ready (decrypt_tmp plain_path) plain_path old Decrypted)
            (λ w'. w'.files plain_path ≡ old)
            (decrypt_body c os (decrypt_tmp plain_path) h key r w)
    unfolding decrypt_body
    decrypt_body-Ends h key r w e good =
        >>=-Ends (λ _ w'. w'.files plain_path ≡ old) _ (λ w'. w'.files plain_path ≡ old)
          (create_file (decrypt_tmp plain_path)) _ w
          (always (λ w'. w'.files plain_path ≡ old) (create_file (decrypt_tmp plain_path) w)
            (create_file-Stands plain_path old (decrypt_tmp plain_path) target_ne w e))
          λ _ w1 e1.
            run_stream-Ends (decrypt_tmp plain_path) plain_path old Decrypted
              (decrypt_stream c h key r) h.chunk_count w1 target_ne e1 good

    decrypt_file-Ends :
        (force : Bool) (w : World)
        → Before w
        → Ends
            (λ _. Whole (decrypt_tmp plain_path) plain_path old Decrypted)
            Finally
            (decrypt_file c os plain_path cipher_path passphrase force w)
    unfolding decrypt_file
    decrypt_file-Ends force w b =
        >>=-Ends (λ _. Before) _ Finally (ensure_writable plain_path force) _ w
          (early (ensure_writable plain_path force) w
            (λ q v. ensure_writable-Stands q v plain_path force) b)
          λ _ w1 b1.
            >>=-Ends (λ _. Before) _ Finally (open_file cipher_path) _ w1
              (early (open_file cipher_path) w1 (λ q v. open_file-Stands q v cipher_path) b1)
              λ _ w2 b2.
                >>=-Ends (λ _. Before) _ Finally (metadata_len cipher_path) _ w2
                  (early (metadata_len cipher_path) w2 (λ q v. metadata_len-Stands q v cipher_path)
                    b2)
                  λ _ w3 b3.
                    >>=-Ends (λ bs w'. Before w' × (bs ≡ cipher)) _ Finally (contents cipher_path) _
                      w3 (contents-Ends w3 b3)
                      λ bs w4 (b4, same).
                        >>=-Ends (λ x w'. Before w' × (read_raw_header (os.deliver bs) ≡ ok x)) _
                          Finally (lift (read_raw_header (os.deliver bs))) _ w4
                          (lifted (read_raw_header (os.deliver bs)) w4 b4)
                          λ (raw, r) w5 (b5, e5).
                            >>=-Ends
                              (λ key w'.
                                Before w'
                                × (derive_key c passphrase (take salt_len (drop 5 raw)) ≡ ok key))
                              _ Finally
                              (lift (derive_key c passphrase (take salt_len (drop 5 raw)))) _ w5
                              (lifted (derive_key c passphrase (take salt_len (drop 5 raw))) w5 b5)
                              λ key w6 (b6, e6).
                                >>=-Ends
                                  (λ x w'. Before w' × (Header.read c key (arrive raw ∷ []) ≡ ok x))
                                  _ Finally (lift (Header.read c key (arrive raw ∷ [])))
                                  (λ (h, rest).
                                    settle (decrypt_tmp plain_path) plain_path
                                      (decrypt_body c os (decrypt_tmp plain_path) h key r))
                                  w6 (lifted (Header.read c key (arrive raw ∷ [])) w6 b6)
                                  λ (h, rest) w7 (b7, e7).
                                    settle-Ends (decrypt_tmp plain_path) plain_path old Decrypted
                                      (decrypt_body c os (decrypt_tmp plain_path) h key r) w7
                                      target_ne
                                      (decrypt_body-Ends h key r w7 b7.0 λ faults out e. (
                                        raw,
                                        r,
                                        key,
                                        h,
                                        rest,
                                        faults,
                                        out,
                                        subst (λ xs. read_raw_header (os.deliver xs) ≡ ok (raw, r))
                                            same e5,
                                        e6,
                                        e7,
                                        refl,
                                        e,
                                        refl,
                                      ))

  -- Whatever calls fail, and with or without `force`: when `decrypt_file` succeeds, the input's
  -- header was read under the key of the passphrase and the salt in it, and the output is what the
  -- stream behind it decrypts to, with as many chunks as the header says; and when it does not,
  -- the output is that or as it was. The input is there, and neither it nor the output is the
  -- temporary file.
  pub decrypt_file_atomic :
      (force : Bool) (w : World)
      → plain_path ≢ decrypt_tmp plain_path
      → cipher_path ≢ decrypt_tmp plain_path
      → w.files cipher_path ≡ some cipher
      → Ends
          (λ _. Whole (decrypt_tmp plain_path) plain_path (w.files plain_path) Decrypted)
          (Settled (decrypt_tmp plain_path) plain_path (w.files plain_path) Decrypted)
          (decrypt_file c os plain_path cipher_path passphrase force w)
  decrypt_file_atomic force w target_ne input_ne e =
      decrypt_file-Ends (w.files plain_path) target_ne force w (refl, e)
