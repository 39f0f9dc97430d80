-- ===== src/Keygen/Reproduced.antt =====
-- src/keygen.rs: `cry derive` writes the same key wherever it is run.
use mathlib.Core.Path.{subst}
use cry.Base.{ℕ, ◌≡◌, refl, ap, ◌∙◌, sym, List, Option, some, Text}
use cry.Error.{ok}
use cry.Crypto.{Crypto, KeyCrates}
use cry.CryDna
use cry.CryDna.{Identity, private_key_hex, verifying_key}
use cry.Kdf.{hash_or_kdf}
use cry.Fs.{World, lift, ◌>>=◌, write_file, ensure_writable}
use cry.Fs.Ends.{Ends, Ends-mono}
use cry.Keygen.{
  KeyAlgorithm, DeriveArgs, ed25519, aes256gcm, rsa, private_name, unwrap_params, aes_params,
  aes_salt_input, ensure_pair, write_key, write_identity, derive_aes, derive_for, derive,
}
use cry.Keygen.Line.{Anyhow, behind, lifted, write_file-Ends}
use cry.Keygen.PrivateFile.{write_identity-Private}

-- Two arguments that choose one key.
pub record SameKey (args args' : DeriveArgs) : Type 0 where
  pub same_algo : args'.algo ≡ args.algo
  pub same_namespace : args'.namespace ≡ args.namespace
  pub same_version : args'.key_version ≡ args.key_version
  pub same_sub_id : args'.sub_id ≡ args.sub_id

module _ (c : Crypto) (k : KeyCrates) where
  -- The text of the private key, by the algorithm: what namespace, key version, sub-identity and
  -- passphrase determine. There is none for RSA.
  abbrev pub KeyText : KeyAlgorithm → Text → ℕ → Option Text → List ℕ → Text → Type 0
  KeyText ed25519 namespace version sub_id pass text =
      (id : Identity) × (CryDna.derive c pass namespace version sub_id ≡ ok id)
      × (private_key_hex c id ≡ text)
  KeyText aes256gcm namespace version sub_id pass text =
      (okm : List ℕ) × (hash_or_kdf
          (c.argon2id aes_params pass (c.sha256 (aes_salt_input namespace version sub_id)))
        ≡ ok okm)
      × (k.hex_encode okm ≡ text)
  KeyText rsa namespace version sub_id pass text = ⊥

  KeyText-unique :
      (algo : KeyAlgorithm) (namespace : Text) (version : ℕ) (sub_id : Option Text) (pass : List ℕ)
      (text text' : Text)
      → KeyText algo namespace version sub_id pass text
      → KeyText algo namespace version sub_id pass text'
      → text ≡ text'
  KeyText-unique ed25519 namespace version sub_id pass text text' (id, e, h) (id', e', h') = cc
  KeyText-unique aes256gcm namespace version sub_id pass text text' (id, e, h) (id', e', h') = cc
  KeyText-unique rsa namespace version sub_id pass text text' h h' = absurd h

  -- The file of the private key holds it.
  abbrev pub HasPrivate : KeyAlgorithm → DeriveArgs → List ℕ → World → Type 0
  HasPrivate algo args pass w =
      (text : Text) × (w.files (private_name args.output) ≡ some text)
      × KeyText algo args.namespace args.key_version args.sub_id pass text

  derive_aes-Private :
      (args : DeriveArgs) (pass : List ℕ) (w : World)
      → Ends (λ _. HasPrivate aes256gcm args pass) Anyhow (derive_aes c k args pass w)
  unfolding derive_aes write_key
  derive_aes-Private args pass w =
      let Q : Unit {0} → World → Type 0 = λ _. HasPrivate aes256gcm args pass in
      let q = private_name args.output in
      let hashed = hash_or_kdf (
        c.argon2id aes_params pass
          (c.sha256 (aes_salt_input args.namespace args.key_version args.sub_id))) in
      let write = λ (okm : List ℕ). write_key c k q okm args.force in
      behind Q (ensure_writable q args.force)
        (λ _. lift (unwrap_params (c.params_error aes_params)) >>= λ _. lift hashed >>= write)
        (λ _ w1.
          behind Q (lift (unwrap_params (c.params_error aes_params))) (λ _. lift hashed >>= write)
            (λ _ w2.
              lifted Q hashed write
                (λ okm e w3.
                  behind Q (ensure_writable q args.force) (λ _. write_file q (k.hex_encode okm))
                    (λ _ w4.
                      Ends-mono (write_file q (k.hex_encode okm) w4)
                        (λ _ w' f. (k.hex_encode okm, f, (okm, e, refl))) (λ w' h. h)
                        (write_file-Ends q (k.hex_encode okm) w4))
                    w3)
                w2)
            w1)
        w

  derive_for-Private :
      (algo : KeyAlgorithm) (args : DeriveArgs) (pass : List ℕ) (ssh : Option (List ℕ)) (w : World)
      → Ends (λ _. HasPrivate algo args pass) Anyhow (derive_for c k algo args pass ssh w)
  unfolding derive_for
  derive_for-Private ed25519 args pass ssh w =
      let Q : Unit {0} → World → Type 0 = λ _. HasPrivate ed25519 args pass in
      let derived = CryDna.derive c pass args.namespace args.key_version args.sub_id in
      let write = λ (id : Identity).
        write_identity c k args.output id args.openssh ssh args.comment args.force in
      behind Q (ensure_pair args.output args.openssh args.force) (λ _. lift derived >>= write)
        (λ _ w1.
          lifted Q derived write
            (λ id e w2.
              Ends-mono (write id w2) (λ _ w' f. (private_key_hex c id, f, (id, e, refl)))
                (λ w' h. h)
                (write_identity-Private c k args.output id args.openssh ssh args.comment args.force
                  w2))
            w1)
        w
  derive_for-Private aes256gcm args pass ssh w = derive_aes-Private args pass w
  derive_for-Private rsa args pass ssh w = tt

  -- When `derive` succeeds, whatever calls fail, the private key's file holds the key that the
  -- arguments and the passphrase determine.
  pub derive-Private :
      (args : DeriveArgs) (pass : List ℕ) (ssh : Option (List ℕ)) (w : World)
      → Ends (λ _. HasPrivate args.algo args pass) Anyhow (derive c k args pass ssh w)
  unfolding derive
  derive-Private args pass ssh w = derive_for-Private args.algo args pass ssh w

  pub HasPrivate-SameKey :
      (args args' : DeriveArgs) (pass : List ℕ) (w w' : World)
      → SameKey args args'
      → HasPrivate args.algo args pass w
      → HasPrivate args'.algo args' pass w'
      → (text : Text) × (w.files (private_name args.output) ≡ some text)
        × (w'.files (private_name args'.output) ≡ some text)
  HasPrivate-SameKey args args' pass w w' same (text, f, key) (text', f', key') =
      let by_algo =
        subst (λ a. KeyText a args'.namespace args'.key_version args'.sub_id pass text')
          same.same_algo key' in
      let by_namespace =
        subst (λ n. KeyText args.algo n args'.key_version args'.sub_id pass text')
          same.same_namespace by_algo in
      let by_version =
        subst (λ v. KeyText args.algo args.namespace v args'.sub_id pass text') same.same_version
          by_namespace in
      let by_sub_id =
        subst (λ s. KeyText args.algo args.namespace args.key_version s pass text') same.same_sub_id
          by_version in
      (
        text,
        f,
        f'
            ∙ ap some (
                sym (
                  KeyText-unique args.algo args.namespace args.key_version args.sub_id pass text
                    text' key by_sub_id)),
      )
