-- ===== src/Commands/SignVerify.antt =====
-- src/main.rs: what `cry sign` prints, `cry verify` accepts.
use mathlib.Core.Path.{subst₂}
use cry.Base.{ℕ, ◌*◌, ◌-◌, ◌≡◌, refl, ap, ◌∙◌, List, [], Option, false, ltb, arith, length, Text}
use cry.Error.{ok}
use cry.Crypto.{Crypto, KeyCrates, SigningLaws}
use cry.CryDna
use cry.CryDna.{Identity, public_key_hex, sign_content, signature_hex, verify_content_signature}
use cry.CryDna.Verify.{verify-sign, verify_content_signature-eq-ok}
use cry.Hex.Accepts.{Spells, starts_inside-drop, length-Spells}
use cry.Fs.{World, pure, lift, ◌>>=◌, read_file}
use cry.Fs.Ends.{Ends, >>=-Ends}
use cry.Fs.Calm.{Now, Never, read_file-Now}
use cry.File.{Os}
use cry.Passphrase.{Terminal, read_passphrase}
use cry.Passphrase.Accepted.{after_ok, read_file-eq-ok}
use cry.Commands.{SignArgs, slice_ends, sign_command, verify_command}

pub slice_ends-Spells :
    (s : Text) (bs : List ℕ) → Spells s bs → length bs ≡ 64 → slice_ends s ≡ ok tt
unfolding slice_ends
slice_ends-Spells s bs h l =
    let long : ltb (length s) 8 ≡ false =
      let twice : length s ≡ 2 * length bs = (length-Spells s bs h).0 in ground arith in
    rw (long, starts_inside-drop 8 s bs h, starts_inside-drop (length s - 8) s bs h) refl

module _ (c : Crypto) (k : KeyCrates) (os : Os) (t : Terminal) where
  -- A content that is signed and verified, with the slices of the signature behind it.
  verified :
      (laws : SigningLaws c) (id : Identity) (content : List ℕ) (files : Text → Option (List ℕ))
      (w : World)
      → Now files w
      → Ends
          (λ _. Now files)
          Never
          ((lift (
                verify_content_signature c
                  (public_key_hex c id)
                  content
                  (signature_hex c (sign_content c id content)))
              >>= λ _. lift (slice_ends (signature_hex c (sign_content c id content))))
            w)
  verified laws id content files w n =
      let accepted = verify-sign c laws id content in
      let (pk, sig, hp, hs, lp, ls, a, v) =
        verify_content_signature-eq-ok c (public_key_hex c id)
          (signature_hex c (sign_content c id content)) content accepted in
      rw (accepted, slice_ends-Spells (signature_hex c (sign_content c id content)) sig hs ls) n

  -- Where the Ed25519 crate keeps its laws: the public key and the signature that `cry sign`
  -- prints for a file, in whatever world it succeeds, `cry verify` accepts in every world where
  -- the file has the same contents and no call fails; it cuts the signature for display without a
  -- panic and changes no file.
  pub verify_command-sign_command :
      (laws : SigningLaws c) (args : SignArgs) (w w' : World) {pk sig : Text}
      → (sign_command c k os t args w).0 ≡ ok (pk, sig)
      → w'.faults ≡ []
      → w'.stream_faults ≡ []
      → w'.files args.file ≡ w.files args.file
      → Ends
          (λ _. Now w'.files)
          Never
          (verify_command c k os t
            (record { file = args.file; signature = sig; public_key = pk })
            w')
  unfolding sign_command verify_command
  verify_command-sign_command laws args w w' {pk} {sig} e f sf same =
      after_ok (read_file args.file) _ w e λ bytes e1 k1.
        after_ok (read_passphrase t args.params.pass_file false) _ (read_file args.file w).1 k1
          λ pass e2 k2.
            after_ok
              (lift (
                CryDna.derive c pass args.params.namespace args.params.key_version
                  args.params.sub_id))
              (λ id. pure (public_key_hex c id, signature_hex c (sign_content c id bytes)))
              (read_passphrase t args.params.pass_file false (read_file args.file w).1).1 k2
              λ id e3 k3.
                let p : public_key_hex c id ≡ pk = cc in
                let q : signature_hex c (sign_content c id bytes) ≡ sig = cc in
                >>=-Ends (λ xs w2. Now w'.files w2 × (xs ≡ bytes)) (λ _. Now w'.files) Never
                  (read_file args.file)
                  (λ content.
                    lift (verify_content_signature c pk content sig) >>= λ _. lift (slice_ends sig))
                  w'
                  (read_file-Now w'.files w' (f, sf, refl) args.file
                    (same ∙ read_file-eq-ok args.file w e1))
                  λ content w2 (n2, is).
                    subst₂
                      (λ x y.
                        Ends (λ _. Now w'.files) Never
                          ((lift (verify_content_signature c x content y) >>= λ _.
                              lift (slice_ends y))
                            w2))
                      p (ap (λ xs. signature_hex c (sign_content c id xs)) is ∙ q)
                      (verified laws id content w'.files w2 n2)
