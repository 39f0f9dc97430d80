-- ===== src/Stream/RoundTrip.antt =====
-- src/cipher.rs: the stream that `encrypt_file` writes, and its reading by `decrypt_file`.
use cry.Base.{
  ℕ, ◌+◌, ◌-◌, ◌/◌, ◌≡◌, ◌∙◌, List, [], ◌++◌, arith, length, length-append, take-append,
  drop-append,
}
use cry.Error.{ok}
use cry.Io.{Reader, flush}
use cry.Io.Clean.{IsClean, bytes_of, read_exact-IsClean}
use cry.Crypto.{Crypto, MacLaws}
use cry.Header.{Header, IsHeader, header_len}
use cry.Header.RoundTrip.{header_bytes, write-header_bytes, length-header_bytes}
use cry.Cipher.{chunk_size, header_aad}
use cry.Cipher.Pieces.{pieces}
use cry.Cipher.Frames.{CipherLaws, Sealed}
use cry.Cipher.Encrypt.{clean, encrypt_chunks-Sealed}
use cry.Cipher.RoundTrip.{decrypt_chunks-Sealed}
use cry.Stream.{encrypt_stream, decrypt_stream, read_raw_header}

module _ (c : Crypto) (laws : CipherLaws c) (mac : MacLaws c) (h : Header) (key : List ℕ) where
  -- `body` is the chunks of `bs` under the header.
  abbrev pub SealedBy : List ℕ → List ℕ → Type 0
  SealedBy bs body = Sealed c key h.nonce h.algo (header_aad c h) 0 (pieces chunk_size bs) body

  -- The stream of `encrypt_file` is the header, and a frame for each chunk; and its chunks are
  -- counted.
  pub encrypt_stream-SealedBy :
      (r : Reader)
      → IsClean r
      → (body : List ℕ) × (encrypt_stream c h key r (clean [])
          ≡ ok (
            (length (bytes_of r) + (chunk_size - 1)) / chunk_size,
            clean (header_bytes c h key ++ body),
          ))
        × SealedBy (bytes_of r) body
  unfolding encrypt_stream flush
  encrypt_stream-SealedBy r cl =
      let (body, r', e, s) =
        encrypt_chunks-Sealed c laws key h.nonce h.algo (header_aad c h) r (header_bytes c h key)
          cl in
      (body, rw (write-header_bytes c h key [], e), s)

  -- Over a whole file `read_raw_header` gives the header's bytes, whose salt is that of the header.
  pub read_raw_header-append :
      (body : List ℕ) (r : Reader)
      → IsHeader h
      → IsClean r
      → bytes_of r ≡ header_bytes c h key ++ body
      → (r' : Reader) × (read_raw_header r ≡ ok (header_bytes c h key, r'))
        × IsClean r'
        × (bytes_of r' ≡ body)
  unfolding read_raw_header
  read_raw_header-append body r v cl e =
      let hb = header_bytes c h key in
      let l : length hb ≡ header_len = length-header_bytes c mac h key v in
      let (r', e1, c', b') =
        read_exact-IsClean header_len r cl (rw (e, length-append) (omega arith)) in
      (
        r',
        rw (e1, e, take-append header_len hb body l),
        c',
        b' ∙ rw (e, drop-append header_len hb body l),
      )

  -- The stream of `decrypt_file` behind the header of such a file is the text.
  pub decrypt_stream-SealedBy :
      (bs body : List ℕ) (r : Reader)
      → SealedBy bs body
      → IsClean r
      → bytes_of r ≡ body
      → decrypt_stream c h key r (clean [])
        ≡ ok ((length bs + (chunk_size - 1)) / chunk_size, clean bs)
  unfolding decrypt_stream flush
  decrypt_stream-SealedBy bs body r s cl e =
      rw (decrypt_chunks-Sealed c laws key h.nonce h.algo (header_aad c h) bs body r s cl e)
