-- ===== src/Header.antt =====
-- src/header.rs: the authenticated header of an encrypted file.
pub mod Hkdf
pub mod Fields
pub mod RoundTrip
pub mod Canonical
use cry.Base.{
  ℕ, ◌+◌, ◌^◌, ◌≡◌, List, [], ◌∷◌, ◌++◌, ◌==◌, if◌then◌else◌, list_eq, get_or, Text, codes, IsArray,
  IsU64,
}
use cry.Error.{CryError, header_tampered, invalid_format, Result, ok, err, ◌>>=◌, map_err}
use cry.Bytes.{to_be_bytes, from_be_bytes}
use cry.Io.{Reader, Writer, read_exact, write_all}
use cry.Fmt.{format_02x, debug_bytes}
use cry.Crypto.{Crypto}

-- b"CRY\x02"
abbrev pub magic : List ℕ
magic = b'C' ∷ b'R' ∷ b'Y' ∷ 2 ∷ []

abbrev pub salt_len : ℕ
salt_len = 16

abbrev pub nonce_len : ℕ
nonce_len = 12

abbrev pub hmac_len : ℕ
hmac_len = 32

abbrev pub header_len : ℕ
header_len = 4 + 1 + salt_len + nonce_len + 8 + hmac_len

unfoldable pub hmac_info : List ℕ
hmac_info = codes "cry-header-hmac-v2"

pub data Algorithm : Type 0 where
  aes256gcm chacha20poly1305 : Algorithm

-- `algo as u8`.
unfoldable pub algo_byte : Algorithm → ℕ
algo_byte aes256gcm = 0x01
algo_byte chacha20poly1305 = 0x02

unfoldable pub unknown_algorithm : ℕ → CryError
unknown_algorithm b = invalid_format (
    codes "Unknown algorithm identifier 0x"
    ++ format_02x b
    ++ codes " — was this file created with a newer version of cry?")

-- `Algorithm::from_byte`.
unfoldable pub from_byte : ℕ → Result Algorithm
from_byte b =
    if b == 0x01
    then ok aes256gcm
    else if b == 0x02
    then ok chacha20poly1305
    else err (unknown_algorithm b)

-- `impl Display for Algorithm`.
pub display_algorithm : Algorithm → Text
display_algorithm aes256gcm = codes "AES-256-GCM"
display_algorithm chacha20poly1305 = codes "ChaCha20-Poly1305"

pub record Header : Type 0 where
  pub algo : Algorithm
  pub salt : List ℕ
  pub nonce : List ℕ
  pub chunk_count : ℕ

-- The Rust types of the fields: `[u8; 16]`, `[u8; 12]` and `u64`.
pub record IsHeader (h : Header) : Type 0 where
  pub salt_array : IsArray salt_len h.salt
  pub nonce_array : IsArray nonce_len h.nonce
  pub count_u64 : IsU64 h.chunk_count

unfoldable pub pre_hmac_bytes : Header → List ℕ
pre_hmac_bytes h =
    magic ++ ((algo_byte h.algo ∷ []) ++ (h.salt ++ (h.nonce ++ to_be_bytes 8 h.chunk_count)))

unfoldable pub bad_magic : List ℕ → CryError
bad_magic m = invalid_format (
    codes "Not a cry v2 encrypted file (bad magic "
    ++ debug_bytes m
    ++ codes "). Files from cry v0.1 are not compatible — re-encrypt with the new version.")

-- `read_exact` into an array, with the message that `map_err` puts in place of its error.
unfoldable pub read_field : ℕ → Text → Reader → Result (List ℕ × Reader)
read_field n msg r = map_err (invalid_format msg) (read_exact n r)

module _ (c : Crypto) where
  unfoldable pub derive_hmac_subkey : List ℕ → List ℕ
  derive_hmac_subkey master_key = c.hmac_sha256 master_key (hmac_info ++ (0x01 ∷ []))

  unfoldable pub compute_hmac : List ℕ → List ℕ → List ℕ
  compute_hmac pre_hmac master_key = c.hmac_sha256 (derive_hmac_subkey master_key) pre_hmac

  -- `Header::write`.
  unfoldable pub write : Header → List ℕ → Writer → Result Writer
  write h key w = do
    let pre_hmac = pre_hmac_bytes h
    let hmac = compute_hmac pre_hmac key
    w' ← write_all pre_hmac w
    write_all hmac w'

  -- The end of `Header::read`: the tag is checked over the bytes that were read.
  unfoldable pub verify_header : Header → List ℕ → List ℕ → Result Header
  verify_header h key stored_hmac =
      if c.hmac_verify (derive_hmac_subkey key) (pre_hmac_bytes h) stored_hmac
      then ok h
      else err header_tampered

  -- `Header::read` after the magic bytes.
  unfoldable pub read_fields : List ℕ → Reader → Result (Header × Reader)
  read_fields key r1 = do
    (algo_buf, r2) ← read_field 1 (codes "Failed to read algorithm byte") r1
    algo ← from_byte (get_or algo_buf 0 0)
    (salt, r3) ← read_field salt_len (codes "Failed to read salt") r2
    (nonce, r4) ← read_field nonce_len (codes "Failed to read nonce") r3
    (count_buf, r5) ← read_field 8 (codes "Failed to read chunk count") r4
    (stored_hmac, r6) ← read_field hmac_len (codes "Failed to read header HMAC") r5
    let count = from_be_bytes count_buf
    let h : Header = record { algo = algo; salt = salt; nonce = nonce; chunk_count = count }
    h' ← verify_header h key stored_hmac
    ok (h', r6)

  -- `Header::read`, with what the reader has left.
  unfoldable pub read : List ℕ → Reader → Result (Header × Reader)
  read key r = do
    (m, r1) ← read_field 4 (codes "Failed to read magic bytes") r
    if list_eq m magic then read_fields key r1 else err (bad_magic m)
