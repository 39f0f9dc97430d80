-- ===== src/CryDna/Verify.antt =====
-- src/crydna.rs: signing and verifying.
use cry.Base.{
  ℕ, ◌≡◌, ◌∙◌, true, inl, inr, List, Bool-cases, arith, ◌==◌, length, Text, All, IsByte,
  if◌then◌else◌, codes, none, some, Option, refl, ◌↔◌,
}
use cry.Error.{CryError, verification_failed, ok, err, after_ok}
use cry.Crypto.{Crypto, SigningLaws}
use cry.Hex.{Decoded, bytes, refused, panics, bytes_to_hex, hex_to_bytes}
use cry.Hex.RoundTrip.{hex_to_bytes-bytes_to_hex}
use cry.Hex.Accepts.{Spells, hex_to_bytes_iff}
use cry.CryDna.{
  Identity, verifying_key, public_key_hex, message_hash, sign_content, signature_hex,
  verify_content_signature, or_invalid, try_into, or_refused,
}

module _ (c : Crypto) where
  -- `verify_content_signature` on the hex forms of a key that the crate accepts and a signature,
  -- whole: it is the crate's verdict on the hash of the content.
  pub verify_content_signature-hex :
      (pk sig content : List ℕ)
      → (length pk ≡ 32) × All IsByte pk
      → (length sig ≡ 64) × All IsByte sig
      → c.ed25519.public_error pk ≡ none
      → verify_content_signature c (bytes_to_hex pk) content (bytes_to_hex sig) ≡ (
          if c.ed25519.verify pk (message_hash c content) sig
          then ok tt
          else err (
              verification_failed (
                codes
                  "Signature is invalid — file may have been tampered with, or the wrong public key was supplied.")))
  unfolding verify_content_signature
  verify_content_signature-hex pk sig content p s a =
      let np : (length pk == 32) ≡ true = ground arith in
      let ns : (length sig == 64) ≡ true = ground arith in
      rw (hex_to_bytes-bytes_to_hex pk p.1, np, a, hex_to_bytes-bytes_to_hex sig s.1, ns)

  -- Where the Ed25519 crate keeps its laws: what an identity has signed,
  -- `verify_content_signature` accepts under its public key, both in their hex forms.
  pub verify-sign :
      (laws : SigningLaws c) (id : Identity) (content : List ℕ)
      → verify_content_signature c
          (public_key_hex c id)
          content
          (signature_hex c (sign_content c id content))
        ≡ ok tt
  unfolding public_key_hex signature_hex sign_content verifying_key
  verify-sign laws id content =
      let pk = c.ed25519.public_key id.signing_key in
      let sig = c.ed25519.sign id.signing_key (message_hash c content) in
      let valid : c.ed25519.verify pk (message_hash c content) sig ≡ true =
        laws.verify_sign id.signing_key (message_hash c content) in
      verify_content_signature-hex pk sig content (laws.public_array id.signing_key)
        (laws.sign_array id.signing_key (message_hash c content))
        (laws.public_accepted id.signing_key)
      ∙ rw valid

  or_invalid-eq-ok :
      (msg : Text) (d : Decoded) {bs : List ℕ} → or_invalid msg d ≡ ok bs → d ≡ bytes bs
  or_invalid-eq-ok msg (bytes bs) e = cc
  or_invalid-eq-ok msg (refused x) e = absurd (cc)
  or_invalid-eq-ok msg panics e = absurd (cc)

  try_into-eq-ok :
      (n : ℕ) (msg : Text) (bs : List ℕ) {xs : List ℕ}
      → try_into n msg bs ≡ ok xs
      → (bs ≡ xs) × (length bs ≡ n)
  try_into-eq-ok n msg bs e = ground arith

  verdict :
      (pk sig content : List ℕ) (e : CryError) {u : Unit {0}}
      → (if c.ed25519.verify pk (message_hash c content) sig then ok tt else err e) ≡ ok u
      → c.ed25519.verify pk (message_hash c content) sig ≡ true
  verdict pk sig content e h =
      elim (Bool-cases (c.ed25519.verify pk (message_hash c content) sig)) [
        | inl t ↦ t
        | inr f ↦ let bad = rw f at h in absurd (cc)
      ]

  or_refused-eq-ok :
      (msg : Text) (o : Option Text) {u : Unit {0}} → or_refused msg o ≡ ok u → o ≡ none
  or_refused-eq-ok msg none e = refl
  or_refused-eq-ok msg (some x) e = absurd (cc)

  -- Both texts spell bytes, 32 and 64 of them, the crate takes the first for a key, and accepts the
  -- second under it as a signature of the content's hash.
  abbrev pub Accepts : Text → List ℕ → Text → Type 0
  Accepts pk_hex content sig_hex =
      (pk : List ℕ) × (sig : List ℕ) × Spells pk_hex pk
      × Spells sig_hex sig
      × (length pk ≡ 32)
      × (length sig ≡ 64)
      × (c.ed25519.public_error pk ≡ none)
      × (c.ed25519.verify pk (message_hash c content) sig ≡ true)

  pub verify_content_signature-eq-ok :
      (pk_hex sig_hex : Text) (content : List ℕ) {u : Unit {0}}
      → verify_content_signature c pk_hex content sig_hex ≡ ok u
      → Accepts pk_hex content sig_hex
  unfolding verify_content_signature
  verify_content_signature-eq-ok pk_hex sig_hex content e =
      after_ok (or_invalid _ (hex_to_bytes pk_hex)) _ e λ pk e1 k1.
        after_ok (try_into 32 _ pk) _ k1 λ pk' e2 k2.
          after_ok (or_refused _ (c.ed25519.public_error pk')) _ k2 λ _ e3 k3.
            after_ok (or_invalid _ (hex_to_bytes sig_hex)) _ k3 λ sig e4 k4.
              after_ok (try_into 64 _ sig) _ k4 λ sig' e5 k5.
                let (p, lp) = try_into-eq-ok 32 _ pk e2 in
                let (q, lq) = try_into-eq-ok 64 _ sig e5 in
                (
                  pk,
                  sig,
                  (hex_to_bytes_iff pk_hex pk).0 (or_invalid-eq-ok _ (hex_to_bytes pk_hex) e1),
                  (hex_to_bytes_iff sig_hex sig).0 (or_invalid-eq-ok _ (hex_to_bytes sig_hex) e4),
                  lp,
                  lq,
                  rw p (or_refused-eq-ok _ (c.ed25519.public_error pk') e3),
                  rw (p, q) (verdict pk' sig' content _ k5),
                )

  verify_content_signature-Accepts :
      (pk_hex sig_hex : Text) (content : List ℕ)
      → Accepts pk_hex content sig_hex
      → verify_content_signature c pk_hex content sig_hex ≡ ok tt
  unfolding verify_content_signature
  verify_content_signature-Accepts pk_hex sig_hex content (pk, sig, hp, hs, lp, ls, a, v) =
      let np : (length pk == 32) ≡ true = ground arith in
      let ns : (length sig == 64) ≡ true = ground arith in
      rw ((hex_to_bytes_iff pk_hex pk).1 hp, np, a, (hex_to_bytes_iff sig_hex sig).1 hs, ns, v) refl

  -- `verify_content_signature` succeeds exactly when both texts spell bytes, 32 and 64 of them, and
  -- the Ed25519 crate takes the first for a key, and accepts the second under it as a signature of
  -- the content's hash.
  pub verify_content_signature_iff :
      (pk_hex sig_hex : Text) (content : List ℕ)
      → (verify_content_signature c pk_hex content sig_hex ≡ ok tt) ↔ Accepts pk_hex content sig_hex
  verify_content_signature_iff pk_hex sig_hex content = (
    verify_content_signature-eq-ok pk_hex sig_hex content,
    verify_content_signature-Accepts pk_hex sig_hex content,
  )
