-- ===== src/File/Recovered.antt =====
-- src/cipher.rs: what `decrypt_file` makes of the output of `encrypt_file`, whatever calls fail.
use mathlib.Core.Path.{subst}
use cry.Base.{ℕ, ◌<◌, ◌^◌, ◌≡◌, ap, ◌∙◌, sym, List, ◌++◌, arith, length, Text}
use cry.Io.{Writer}
use cry.Io.Clean.{bytes_of}
use cry.Crypto.{Crypto, MacLaws}
use cry.Header.{IsHeader, Algorithm}
use cry.Header.RoundTrip.{header_bytes}
use cry.Cipher.Frames.{CipherLaws}
use cry.Cipher.Encrypt.{clean}
use cry.Stream.RoundTrip.{SealedBy, encrypt_stream-SealedBy}
use cry.Stream.Steady.{encrypt_stream-steady, decrypt_stream-steady}
use cry.File.{Os, chunks_for}
use cry.File.Atomic.{Encrypted}
use cry.File.AtomicDecrypt.{Decrypted}
use cry.File.Encrypts.{Delivers, FileOf}
use cry.File.Decrypts.{Opening, FileOf-Opening}

module _ (c : Crypto) (laws : CipherLaws c) (mac : MacLaws c) (os : Os) (delivers : Delivers os)
    (passphrase plain : List ℕ) where
  -- What a successful `encrypt_file` leaves is a whole encryption.
  pub Encrypted-FileOf :
      (plain_path cipher_path : Text) (algorithm : Algorithm) (n : ℕ) (file : List ℕ)
      → length plain < 2 ^ 64
      → Encrypted c os plain_path cipher_path passphrase algorithm plain n file
      → FileOf c laws mac os delivers passphrase plain file
  Encrypted-FileOf plain_path cipher_path algorithm n file small
        (h, key, faults, out, sa, na, k, algo, count, e, written) =
      let (cl, all) = delivers plain in
      let (body, e', sealed) = encrypt_stream-SealedBy c laws mac h key (os.deliver plain) cl in
      let steady = encrypt_stream-steady c h key (os.deliver plain) _ e in
      let same : ◌≡◌ {A = ℕ × Writer}
          (chunks_for (length (bytes_of (os.deliver plain))), clean (header_bytes c h key ++ body))
          (n, clean out.written) =
        cc in
      let chunks : n ≡ chunks_for (length plain) =
        sym (ap (λ (x : ℕ × Writer). x.0) same) ∙ ap (λ xs. chunks_for (length xs)) all in
      let v : IsHeader h = record { salt_array = sa; nonce_array = na; count_u64 = omega arith } in
      (
        h,
        key,
        body,
        v,
        k,
        count ∙ chunks,
        sym written ∙ sym (ap (λ (x : ℕ × Writer). x.1.written) same),
        subst (λ xs. SealedBy c laws mac h key xs body) all sealed,
      )

  -- What a successful `decrypt_file` makes of it is the plaintext.
  Opening-Decrypted :
      (plain_path cipher_path : Text) (m : ℕ) (file bs : List ℕ)
      → Opening c laws mac os delivers passphrase plain file
      → Decrypted c os plain_path cipher_path passphrase file m bs
      → bs ≡ plain
  unfolding Opening
  Opening-Decrypted plain_path cipher_path m file bs
        (raw, r, key, h, rest, raw_ok, salted, read_ok, opens)
        (
          raw', r', key', h', rest', faults, out, raw_ok', salted', read_ok', count, opens',
          written,
        ) =
      let steady = decrypt_stream-steady c h' key' r' _ opens' in
      let same : ◌≡◌ {A = Writer} (clean plain) (clean out.written) = cc in
      sym written ∙ sym (ap (λ (w : Writer). w.written) same)

  pub Decrypted-Encrypted :
      (plain_path cipher_path out cipher_path' : Text) (algorithm : Algorithm) (n m : ℕ)
      (file bs : List ℕ)
      → length plain < 2 ^ 64
      → Encrypted c os plain_path cipher_path passphrase algorithm plain n file
      → Decrypted c os out cipher_path' passphrase file m bs
      → bs ≡ plain
  Decrypted-Encrypted plain_path cipher_path out cipher_path' algorithm n m file bs small made
        opened =
      Opening-Decrypted out cipher_path' m file bs
        (FileOf-Opening c laws mac os delivers passphrase plain file
          (Encrypted-FileOf plain_path cipher_path algorithm n file small made))
        opened
