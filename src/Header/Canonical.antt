-- ===== src/Header/Canonical.antt =====
-- src/header.rs: `Header::read` accepts nothing but what `Header::write` writes.
use cry.Base.{
  ℕ, ◌≡◌, ap, ap₂, ◌∙◌, sym, inl, inr, List, [], ◌∷◌, ◌++◌, arith, list_eq, list_eq_iff, All,
  All-append_split, IsByte, IsArray, codes, Text, get_or, Bool-cases,
}
use mathlib.Core.Path.{subst, subst₂}
use cry.Error.{Result, ok, err, ◌>>=◌, >>=-eq-ok}
use cry.Bytes.{to_be_bytes, from_be_bytes}
use cry.Bytes.RoundTrip.{to_be_bytes-from_be_bytes, from_be_bytes-lt}
use cry.Crypto.{Crypto, MacLaws}
use cry.Io.{Reader}
use cry.Io.Clean.{IsClean, bytes_of}
use cry.Header
use cry.Header.{
  Header, IsHeader, Algorithm, algo_byte, from_byte, bad_magic, pre_hmac_bytes, magic, compute_hmac,
  derive_hmac_subkey, verify_header, read_field, read_fields, salt_len, nonce_len, hmac_len,
}
use cry.Header.Fields.{read_field-eq-ok}
use cry.Header.RoundTrip.{header_bytes, header_bytes-append}

-- Only the two identifiers are accepted, each for its algorithm.
pub from_byte-eq-ok : (b : ℕ) {a : Algorithm} → from_byte b ≡ ok a → b ≡ algo_byte a
unfolding from_byte algo_byte
from_byte-eq-ok b {a} h = ground arith

-- A successful chain that begins with a field goes on behind that field.
after_field {ℓ κ} :
    {B : Type ℓ} {P : Type κ} (n : ℕ) (msg : Text) (r : Reader) (f : List ℕ × Reader → Result B)
    {b : B}
    → IsClean r
    → All IsByte (bytes_of r)
    → (read_field n msg r >>= f) ≡ ok b
    → ((xs : List ℕ) (r' : Reader)
        → bytes_of r ≡ xs ++ bytes_of r'
        → IsArray n xs
        → IsClean r'
        → All IsByte (bytes_of r')
        → f (xs, r') ≡ ok b
        → P)
    → P
after_field n msg r f cl bytes e next =
    let ((xs, r'), d, k) = >>=-eq-ok (read_field n msg r) f e in
    let (split, l, c') = read_field-eq-ok n msg r cl d in
    let (bx, br) = All-append_split IsByte xs (bytes_of r') (subst (All IsByte) split bytes) in
    next xs r' split (l, bx) c' br k

after_byte {ℓ κ} :
    {B : Type ℓ} {P : Type κ} (buf : List ℕ)
    → IsArray 1 buf
    → (f : Algorithm → Result B) {b : B} → (from_byte (get_or buf 0 0) >>= f) ≡ ok b
    → ((a : Algorithm) → buf ≡ algo_byte a ∷ [] → f a ≡ ok b → P)
    → P
after_byte [] l f e next = absurd (omega arith)
after_byte (x ∷ []) l f e next =
    let (a, d, k) = >>=-eq-ok (from_byte x) f e in next a (ap (λ t. t ∷ []) (from_byte-eq-ok x d)) k
after_byte (x ∷ y ∷ ys) l f e next = absurd (omega arith)

module _ (c : Crypto) (mac : MacLaws c) where
  verify_header-eq-ok :
      (h : Header) (key tag : List ℕ) {h' : Header}
      → verify_header c h key tag ≡ ok h'
      → (h' ≡ h) × (tag ≡ compute_hmac c (pre_hmac_bytes h) key)
  unfolding verify_header compute_hmac
  verify_header-eq-ok h key tag {h'} e =
      elim (Bool-cases (c.hmac_verify (derive_hmac_subkey c key) (pre_hmac_bytes h) tag)) [
        | inl t ↦ (ground arith, (mac.hmac_verify_iff _ _ _).0 t)
        | inr f ↦ ground arith
      ]

  after_verify :
      (g : Header) (key tag : List ℕ) (s : Reader) {h : Header} {r' : Reader}
      → ◌>>=◌ {B = Header × Reader} (verify_header c g key tag) (λ h'. ok (h', s)) ≡ ok (h, r')
      → (g ≡ h) × (s ≡ r') × (tag ≡ compute_hmac c (pre_hmac_bytes g) key)
  after_verify g key tag s {h} {r'} e =
      let (h', d, k) = >>=-eq-ok (verify_header c g key tag) _ e in
      let (p, q) = verify_header-eq-ok g key tag d in (cc, cc, q)

  -- The bytes behind the magic bytes of a written header.
  abbrev field_bytes : Header → List ℕ → List ℕ → List ℕ
  field_bytes h key rest =
      (algo_byte h.algo ∷ [])
      ++ (h.salt
          ++ (h.nonce
              ++ (to_be_bytes 8 h.chunk_count ++ (compute_hmac c (pre_hmac_bytes h) key ++ rest))))

  -- The six fields that stand in the input when the rest of a header is read.
  read_fields-eq-ok :
      (key : List ℕ) (r : Reader) {h : Header} {r' : Reader}
      → IsClean r
      → All IsByte (bytes_of r)
      → read_fields c key r ≡ ok (h, r')
      → IsHeader h × (bytes_of r ≡ field_bytes h key (bytes_of r')) × IsClean r'
  unfolding read_fields
  read_fields-eq-ok key r {h} {r'} cl bytes e =
      after_field 1 (codes "Failed to read algorithm byte") r _ cl bytes e
        λ algo_buf r2 b1 l1 c2 y2 e2. after_byte algo_buf l1 _ e2 λ algo d2 e3.
          after_field salt_len (codes "Failed to read salt") r2 _ c2 y2 e3 λ salt r3 b3 l3 c3 y3 e4.
            after_field nonce_len (codes "Failed to read nonce") r3 _ c3 y3 e4
              λ nonce r4 b4 l4 c4 y4 e5.
                after_field 8 (codes "Failed to read chunk count") r4 _ c4 y4 e5
                  λ count r5 b5 l5 c5 y5 e6.
                    after_field hmac_len (codes "Failed to read header HMAC") r5 _ c5 y5 e6
                      λ tag r6 b6 l6 c6 y6 e7.
                        let g : Header = record {
                          algo = algo;
                          salt = salt;
                          nonce = nonce;
                          chunk_count = from_be_bytes count;
                        } in
                        let (same, left, mac_ok) = after_verify g key tag r6 e7 in
                        subst₂
                          (λ g' s.
                            IsHeader g'
                            × (bytes_of r ≡ field_bytes g' key (bytes_of s))
                            × IsClean s)
                          same left
                          (
                            record {
                              salt_array = l3;
                              nonce_array = l4;
                              count_u64 = from_be_bytes-lt 8 count l5;
                            },
                            b1
                                ∙ ap₂ (λ xs ys. xs ++ ys) d2
                                    (b3
                                      ∙ ap (λ xs. salt ++ xs)
                                          (b4
                                            ∙ ap (λ xs. nonce ++ xs)
                                                (b5
                                                  ∙ ap₂ (λ xs ys. xs ++ ys)
                                                      (sym (to_be_bytes-from_be_bytes 8 count l5))
                                                      (b6 ∙ ap (λ xs. xs ++ bytes_of r6) mac_ok)))),
                            c6,
                          )

  -- Where the MAC keeps its laws, and over bytes whose reading fails only by being interrupted:
  -- when `Header::read` gives a header, its fields have their Rust types, and the input begins
  -- with exactly the bytes that `Header::write` writes for it under the same key.
  pub read-eq-ok :
      (key : List ℕ) (r : Reader) {h : Header} {r' : Reader}
      → IsClean r
      → All IsByte (bytes_of r)
      → Header.read c key r ≡ ok (h, r')
      → IsHeader h × (bytes_of r ≡ header_bytes c h key ++ bytes_of r') × IsClean r'
  unfolding Header.read
  read-eq-ok key r {h} {r'} cl bytes e =
      after_field 4 (codes "Failed to read magic bytes") r _ cl bytes e λ m r1 b l c1 y e1.
        elim (Bool-cases (list_eq m magic)) [
          | inl t ↦
              let (v, b', c') = read_fields-eq-ok key r1 c1 y (rw t at e1) in
              (
                v,
                b
                    ∙ ap₂ (λ xs ys. xs ++ ys) ((list_eq_iff m magic).0 t) b'
                    ∙ sym (header_bytes-append c h key (bytes_of r')),
                c',
              )
          | inr f ↦ let bad : err (bad_magic m) ≡ ok (h, r') = rw f at e1 in cc
        ]
