-- ===== src/File.antt =====
-- src/cipher.rs: `encrypt_file` and `decrypt_file`, over the world of files.
pub mod Commit
pub mod Atomic
pub mod Calm
pub mod Encrypts
pub mod Decrypts
pub mod RoundTrip
pub mod Recovered
pub mod Vault
pub mod Guard
pub mod InPlace
pub mod AtomicDecrypt
use cry.Base.{
  ℕ, ◌+◌, ◌-◌, ◌/◌, List, [], ◌∷◌, some, Bool, ◌==◌, if◌then◌else◌, take, drop, Text, codes,
}
use cry.Error.{truncated, Result, ok, err, panicked, stuck}
use cry.Io.{arrive, Reader, Writer}
use cry.Crypto.{Crypto}
use cry.Header
use cry.Header.{Header, Algorithm, salt_len, nonce_len}
use cry.Kdf.{derive_key}
use cry.Cipher.{chunk_size}
use cry.Stream.{encrypt_stream, decrypt_stream, read_raw_header}
use cry.Fs.{
  World, Action, pure, raise, lift, attempt, ignore, ◌>>=◌, ◌>>◌, update, contents, metadata_len,
  open_file, create_file, rename_file, remove_file, fill_bytes, ensure_writable,
}
use cry.Fs.Path.{with_extension}

-- What the environment decides: how the bytes of an opened file arrive.
pub record Os : Type 0 where
  pub deliver : List ℕ → Reader

abbrev pub encrypt_tmp : Text → Text
encrypt_tmp cipher_path = with_extension cipher_path (codes "cry.tmp")

abbrev pub decrypt_tmp : Text → Text
decrypt_tmp plain_path = with_extension plain_path (codes "plain.tmp")

-- `plain_len.div_ceil(CHUNK_SIZE as u64)`.
abbrev pub chunks_for : ℕ → ℕ
chunks_for plain_len = (plain_len + (chunk_size - 1)) / chunk_size

-- The end of a stream into the file `p`: its bytes are in the file, or a failing stream has left
-- something there.
unfoldable pub finish_stream : Text → Result (ℕ × Writer) → Action ℕ
finish_stream p (ok (n, out)) w =
    (ok n, record w { files = update w.files p (some out.written); stream_faults = out.faults })
finish_stream p (err e) w = (err e, record w { files = update w.files p (some w.residue) })
finish_stream p panicked w = (panicked, w)
finish_stream p stuck w = (stuck, w)

-- The writer that a stream starts with.
abbrev pub new_writer : World → Writer
new_writer w = record { written = []; faults = w.stream_faults }

-- How a stream over the writer of the world ends in the file `p`.
unfoldable pub run_stream : Text → (Writer → Result (ℕ × Writer)) → Action ℕ
unfolding finish_stream
run_stream p stream w = finish_stream p (stream (new_writer w)) w

-- `if actual_chunks != chunk_count { return Err(Truncated) }`.
abbrev pub check_count : ℕ → ℕ → Action ℕ
check_count expected n = if n == expected then pure n else raise (truncated expected n)

-- The match on the result of the closure: on success the temporary file takes the place of the
-- output, on an error it is removed, whether or not that works, and the error is returned.
unfoldable pub commit : Text → Text → Result ℕ → Action ℕ
commit tmp target (ok n) = do rename_file tmp target; pure n
commit tmp target (err e) = do ignore (remove_file tmp); raise e
commit tmp target panicked = lift panicked
commit tmp target stuck = lift stuck

-- The closure's run, the match on its result, and the length of the output behind it.
unfoldable pub settle : Text → Text → Action ℕ → Action (Unit {0})
unfolding commit
settle tmp target closure = do
  result ← attempt closure
  n ← commit tmp target result
  len ← metadata_len target
  pure tt

module _ (c : Crypto) (os : Os) where
  -- The closure of `encrypt_file`. The input is read behind `File::create`, which empties the
  -- temporary file, also where the two are one file.
  unfoldable pub encrypt_body : Text → Text → Header → List ℕ → Action ℕ
  unfolding run_stream
  encrypt_body plain_path tmp h key = do
    open_file plain_path
    create_file tmp
    plain ← contents plain_path
    n ← run_stream tmp (encrypt_stream c h key (os.deliver plain))
    check_count h.chunk_count n

  unfoldable pub encrypt_file : Text → Text → List ℕ → Algorithm → Bool → Action (Unit {0})
  encrypt_file plain_path cipher_path passphrase algorithm force = do
    ensure_writable cipher_path force
    plain_len ← metadata_len plain_path
    salt ← fill_bytes salt_len
    nonce ← fill_bytes nonce_len
    key ← lift (derive_key c passphrase salt)
    let h : Header = record {
      algo = algorithm;
      salt = salt;
      nonce = nonce;
      chunk_count = chunks_for plain_len;
    }
    let tmp = encrypt_tmp cipher_path
    settle tmp cipher_path (encrypt_body plain_path tmp h key)

  -- The closure of `decrypt_file`, whose reader is behind the header.
  unfoldable pub decrypt_body : Text → Header → List ℕ → Reader → Action ℕ
  unfolding run_stream
  decrypt_body tmp h key r = do
    create_file tmp
    n ← run_stream tmp (decrypt_stream c h key r)
    check_count h.chunk_count n

  unfoldable pub decrypt_file : Text → Text → List ℕ → Bool → Action (Unit {0})
  decrypt_file plain_path cipher_path passphrase force = do
    ensure_writable plain_path force
    open_file cipher_path
    cipher_len ← metadata_len cipher_path
    cipher ← contents cipher_path
    (raw_header, r) ← lift (read_raw_header (os.deliver cipher))
    key ← lift (derive_key c passphrase (take salt_len (drop 5 raw_header)))
    (h, rest) ← lift (Header.read c key (arrive raw_header ∷ []))
    let tmp = decrypt_tmp plain_path
    settle tmp plain_path (decrypt_body tmp h key r)
