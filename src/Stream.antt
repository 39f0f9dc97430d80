-- ===== src/Stream.antt =====
-- src/cipher.rs: the streams inside `encrypt_file` and `decrypt_file`: the header, the chunks and
-- the last flush.
pub mod RoundTrip
pub mod Steady
use cry.Base.{ℕ, List, Text, codes}
use cry.Error.{Result, ok, ◌>>=◌, invalid_format, map_err}
use cry.Io.{Reader, Writer, flush, read_exact}
use cry.Crypto.{Crypto}
use cry.Header
use cry.Header.{Header, header_len}
use cry.Cipher.{encrypt_chunks, decrypt_chunks, header_aad}

module _ (c : Crypto) where
  -- An encryption under the header `h`: the number of chunks and the writer.
  unfoldable pub encrypt_stream : Header → List ℕ → Reader → Writer → Result (ℕ × Writer)
  encrypt_stream h key r w = do
    w1 ← Header.write c h key w
    (n, r', w2) ← encrypt_chunks c key h.nonce h.algo (header_aad c h) r w1
    w3 ← flush w2
    ok (n, w3)

  -- A decryption behind the header `h`.
  unfoldable pub decrypt_stream : Header → List ℕ → Reader → Writer → Result (ℕ × Writer)
  decrypt_stream h key r w = do
    (n, w1) ← decrypt_chunks c key h.nonce h.algo (header_aad c h) r w
    w2 ← flush w1
    ok (n, w2)

-- The whole header in a buffer, before its salt is known.
unfoldable pub read_raw_header : Reader → Result (List ℕ × Reader)
read_raw_header r =
    map_err (invalid_format (codes "File too short to contain a valid header"))
      (read_exact header_len r)
