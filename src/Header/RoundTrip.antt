-- ===== src/Header/RoundTrip.antt =====
-- src/header.rs: what `Header::write` writes, `Header::read` reads back.
use cry.Base.{
  ℕ, ◌≡◌, ◌≢◌, refl, ap, inl, inr, Bool-cases, ◌∙◌, List, [], ◌∷◌, ◌++◌, append_assoc, arith,
  length, length-append, list_eq_refl, IsArray, codes,
}
use cry.Error.{ok, err, header_tampered, ◌>>=◌}
use cry.Bytes.{to_be_bytes}
use cry.Bytes.RoundTrip.{length-to_be_bytes, from_be_bytes-to_be_bytes}
use cry.Crypto.{Crypto, MacLaws}
use cry.Io.{Reader, write_all}
use cry.Io.Clean.{IsClean, bytes_of}
use cry.Header
use cry.Header.{
  Header, IsHeader, Algorithm, aes256gcm, chacha20poly1305, algo_byte, from_byte, pre_hmac_bytes,
  magic, compute_hmac, derive_hmac_subkey, verify_header, read_fields, salt_len, nonce_len,
  hmac_len, header_len,
}
use cry.Header.Fields.{read_field-append}

pub from_byte-algo_byte : (a : Algorithm) → from_byte (algo_byte a) ≡ ok a
unfolding from_byte algo_byte
from_byte-algo_byte aes256gcm = refl
from_byte-algo_byte chacha20poly1305 = refl

module _ (c : Crypto) where
  -- The bytes of a header as they stand in a file.
  unfoldable pub header_bytes : Header → List ℕ → List ℕ
  header_bytes h key = pre_hmac_bytes h ++ compute_hmac c (pre_hmac_bytes h) key

  -- On a writer with no fault `write` appends them.
  pub write-header_bytes :
      (h : Header) (key out : List ℕ)
      → Header.write c h key (record { written = out; faults = [] })
        ≡ ok (record { written = out ++ header_bytes h key; faults = [] })
  unfolding header_bytes write_all Header.write
  write-header_bytes h key out =
      ap (λ xs. ok (record { written = xs; faults = [] }))
        (append_assoc out (pre_hmac_bytes h) (compute_hmac c (pre_hmac_bytes h) key))

pre_hmac_bytes-append :
    (h : Header) (xs : List ℕ)
    → pre_hmac_bytes h ++ xs
      ≡ magic
        ++ ((algo_byte h.algo ∷ []) ++ (h.salt ++ (h.nonce ++ (to_be_bytes 8 h.chunk_count ++ xs))))
unfolding pre_hmac_bytes
pre_hmac_bytes-append h xs = simp append_assoc

pub header_bytes-append :
    (c : Crypto) (h : Header) (key rest : List ℕ)
    → header_bytes c h key ++ rest
      ≡ magic
        ++ ((algo_byte h.algo ∷ [])
            ++ (h.salt
                ++ (h.nonce
                    ++ (to_be_bytes 8 h.chunk_count
                        ++ (compute_hmac c (pre_hmac_bytes h) key ++ rest)))))
unfolding header_bytes
header_bytes-append c h key rest =
    append_assoc (pre_hmac_bytes h) (compute_hmac c (pre_hmac_bytes h) key) rest
    ∙ pre_hmac_bytes-append h (compute_hmac c (pre_hmac_bytes h) key ++ rest)

module _ (c : Crypto) (mac : MacLaws c) where
  pub compute_hmac-IsArray : (m key : List ℕ) → IsArray 32 (compute_hmac c m key)
  unfolding compute_hmac
  compute_hmac-IsArray m key = mac.hmac_array (derive_hmac_subkey c key) m

  -- Where the MAC keeps its laws, and the fields have their Rust types, a written header is
  -- `HEADER_LEN` bytes long.
  pub length-header_bytes :
      (h : Header) (key : List ℕ) → IsHeader h → length (header_bytes c h key) ≡ header_len
  unfolding header_bytes pre_hmac_bytes
  length-header_bytes h key v =
      let count = to_be_bytes 8 h.chunk_count in
      omega (
        arith,
        v.salt_array.0,
        v.nonce_array.0,
        length-to_be_bytes 8 h.chunk_count,
        length-append (pre_hmac_bytes h) (compute_hmac c (pre_hmac_bytes h) key),
        length-append h.salt (h.nonce ++ count),
        length-append h.nonce count,
        (compute_hmac-IsArray (pre_hmac_bytes h) key).0,
      )

  verify_header_lem :
      (h : Header) (key : List ℕ)
      → verify_header c h key (compute_hmac c (pre_hmac_bytes h) key) ≡ ok h
  unfolding verify_header compute_hmac
  verify_header_lem h key = rw ((mac.hmac_verify_iff _ _ _).1 refl)

  verify_header_ne :
      (h : Header) (key tag : List ℕ)
      → tag ≢ compute_hmac c (pre_hmac_bytes h) key
      → verify_header c h key tag ≡ err header_tampered
  unfolding verify_header compute_hmac
  verify_header_ne h key tag ne =
      elim (Bool-cases (c.hmac_verify (derive_hmac_subkey c key) (pre_hmac_bytes h) tag)) [
        | inl e ↦ absurd (ne ((mac.hmac_verify_iff _ _ _).0 e))
        | inr e ↦ rw e
      ]

  read_fields-append :
      (h : Header) (key tag rest : List ℕ) (r : Reader)
      → IsHeader h
      → length tag ≡ hmac_len
      → IsClean r
      → bytes_of r
        ≡ (algo_byte h.algo ∷ [])
          ++ (h.salt ++ (h.nonce ++ (to_be_bytes 8 h.chunk_count ++ (tag ++ rest))))
      → (r' : Reader) × (read_fields c key r ≡ (verify_header c h key tag >>= λ h'. ok (h', r')))
        × IsClean r'
        × (bytes_of r' ≡ rest)
  unfolding read_fields
  read_fields-append h key tag rest r v l cl e =
      let count = to_be_bytes 8 h.chunk_count in
      let (r2, e2, c2, b2) =
        read_field-append 1 (codes "Failed to read algorithm byte") r (algo_byte h.algo ∷ [])
          (h.salt ++ (h.nonce ++ (count ++ (tag ++ rest)))) cl refl e in
      let (r3, e3, c3, b3) =
        read_field-append salt_len (codes "Failed to read salt") r2 h.salt
          (h.nonce ++ (count ++ (tag ++ rest))) c2 v.salt_array.0 b2 in
      let (r4, e4, c4, b4) =
        read_field-append nonce_len (codes "Failed to read nonce") r3 h.nonce
          (count ++ (tag ++ rest)) c3 v.nonce_array.0 b3 in
      let (r5, e5, c5, b5) =
        read_field-append 8 (codes "Failed to read chunk count") r4 count (tag ++ rest) c4
          (length-to_be_bytes 8 h.chunk_count) b4 in
      let (r6, e6, c6, b6) =
        read_field-append hmac_len (codes "Failed to read header HMAC") r5 tag rest c5 l b5 in
      (
        r6,
        rw (
          e2,
          from_byte-algo_byte h.algo,
          e3,
          e4,
          e5,
          e6,
          from_be_bytes-to_be_bytes 8 h.chunk_count v.count_u64,
        ),
        c6,
        b6,
      )

  read-append :
      (h : Header) (key tag rest : List ℕ) (r : Reader)
      → IsHeader h
      → length tag ≡ hmac_len
      → IsClean r
      → bytes_of r ≡ pre_hmac_bytes h ++ (tag ++ rest)
      → (r' : Reader) × (Header.read c key r ≡ (verify_header c h key tag >>= λ h'. ok (h', r')))
        × IsClean r'
        × (bytes_of r' ≡ rest)
  unfolding Header.read
  read-append h key tag rest r v l cl e =
      let (r1, e1, c1, b1) =
        read_field-append 4 (codes "Failed to read magic bytes") r magic _ cl refl
          (e ∙ pre_hmac_bytes-append h (tag ++ rest)) in
      let (r', e', c', b') = read_fields-append h key tag rest r1 v l c1 b1 in
      (r', rw (e1, list_eq_refl magic, e'), c', b')

  pub read-header_bytes :
      (h : Header) (key rest : List ℕ) (r : Reader)
      → IsHeader h
      → IsClean r
      → bytes_of r ≡ header_bytes c h key ++ rest
      → (r' : Reader) × (Header.read c key r ≡ ok (h, r')) × IsClean r' × (bytes_of r' ≡ rest)
  unfolding header_bytes
  read-header_bytes h key rest r v cl e =
      let tag = compute_hmac c (pre_hmac_bytes h) key in
      let (r', e', c', b') =
        read-append h key tag rest r v (compute_hmac-IsArray (pre_hmac_bytes h) key).0 cl
          (e ∙ append_assoc (pre_hmac_bytes h) tag rest) in
      (r', rw (e', verify_header_lem h key), c', b')

  -- Where the MAC keeps its laws, for a header whose fields have their Rust types: `Header::write`
  -- succeeds on a writer with no fault, and however the bytes that it has appended arrive, with
  -- reads that fail only by being interrupted, `Header::read` gives the header back under the same
  -- key and leaves what follows it.
  pub read-write :
      (h : Header) (key out rest : List ℕ)
      → IsHeader h
      → (file : List ℕ) × (Header.write c h key (record { written = out; faults = [] })
          ≡ ok (record { written = out ++ file; faults = [] }))
        × ((r : Reader)
            → IsClean r
            → bytes_of r ≡ file ++ rest
            → (r' : Reader) × (Header.read c key r ≡ ok (h, r'))
              × IsClean r'
              × (bytes_of r' ≡ rest))
  read-write h key out rest v = (
    header_bytes c h key,
    write-header_bytes c h key out,
    λ r cl e. read-header_bytes h key rest r v cl e,
  )

  -- Where the MAC keeps its laws, and reads fail only by being interrupted: over a whole header,
  -- with fields of their Rust types, whose tag is not the tag of its bytes under the key,
  -- `Header::read` reports tampering and gives no header.
  pub read_tampered :
      (h : Header) (key tag rest : List ℕ) (r : Reader)
      → IsHeader h
      → length tag ≡ hmac_len
      → IsClean r
      → bytes_of r ≡ pre_hmac_bytes h ++ (tag ++ rest)
      → tag ≢ compute_hmac c (pre_hmac_bytes h) key
      → Header.read c key r ≡ err header_tampered
  read_tampered h key tag rest r v l cl e ne =
      let (r', e', c', b') = read-append h key tag rest r v l cl e in
      rw (e', verify_header_ne h key tag ne)
