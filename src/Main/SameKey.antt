-- ===== src/Main/SameKey.antt =====
-- src/keygen.rs and src/ssh.rs: `cry derive` and `cry ssh` use the same key.
use cry.Base.{ℕ, ◌≡◌, ap, ◌∙◌, sym, List, ◌++◌, Option, true, Text, codes}
use mathlib.Core.Path.{subst}
use cry.Error.{ok, after_ok}
use cry.Crypto.{Crypto, KeyCrates}
use cry.CryDna
use cry.CryDna.{Identity}
use cry.Fs.{World}
use cry.Fs.Ends.{Ends, Ends-mono}
use cry.Keygen.{DeriveArgs, ed25519, private_name, derive}
use cry.Keygen.Line.{Anyhow, HasLine, derive-Ends}
use cry.Ssh.{session_key, encode_openssh_private_key}
use cry.Ssh.Args.{SshArgs}

module _ (c : Crypto) (k : KeyCrates) where
  -- The key of a session is the private key of the identity.
  session_key-eq-ok :
      (args : SshArgs) (passphrase : List ℕ) {pem : Text}
      → session_key c k args passphrase ≡ ok pem
      → (id : Identity) × (CryDna.derive c passphrase args.namespace args.key_version args.sub_id
          ≡ ok id)
        × (encode_openssh_private_key c k id (codes "CryDNA:" ++ args.namespace) ≡ ok pem)
  unfolding session_key
  session_key-eq-ok args passphrase e =
      after_ok (CryDna.derive c passphrase args.namespace args.key_version args.sub_id)
        (λ id. encode_openssh_private_key c k id (codes "CryDNA:" ++ args.namespace)) e
        λ id p q. (id, p, q)

  -- One identity has its line in the public OpenSSH file, and its private key in the session.
  abbrev pub SameIdentity : DeriveArgs → SshArgs → Text → World → Type 0
  SameIdentity args ssh pem w =
      (id : Identity) × HasLine c k (private_name args.output) id args.comment w
      × (encode_openssh_private_key c k id (codes "CryDNA:" ++ ssh.namespace) ≡ ok pem)

  -- Whatever calls fail: when `cry derive --openssh` succeeds for an Ed25519 key, the public
  -- OpenSSH file holds the `authorized_keys` line of the identity whose private key a session of
  -- `cry ssh` uses, if the session has a key, and namespace, key version, sub-identity and
  -- passphrase are the same.
  pub derive-session_key :
      (args : DeriveArgs) (ssh : SshArgs) (passphrase : List ℕ) (pass : Option (List ℕ))
      (pem : Text)
      → args.algo ≡ ed25519
      → args.openssh ≡ true
      → ssh.namespace ≡ args.namespace
      → ssh.key_version ≡ args.key_version
      → ssh.sub_id ≡ args.sub_id
      → session_key c k ssh passphrase ≡ ok pem
      → (w : World)
      → Ends (λ _. SameIdentity args ssh pem) Anyhow (derive c k args passphrase pass w)
  derive-session_key args ssh passphrase pass pem algo openssh n v s e w =
      let (id, derived, encoded) = session_key-eq-ok ssh passphrase e in
      Ends-mono (derive c k args passphrase pass w)
        (λ _ w' (id', derived', line).
          let same : ok id' ≡ ok id =
            sym derived'
            ∙ sym (ap (λ x. CryDna.derive c passphrase x args.key_version args.sub_id) n)
            ∙ sym (ap (λ x. CryDna.derive c passphrase ssh.namespace x args.sub_id) v)
            ∙ sym (ap (λ x. CryDna.derive c passphrase ssh.namespace ssh.key_version x) s)
            ∙ derived in
          let equal : id' ≡ id = cc in
          (
            id,
            subst (λ i. HasLine c k (private_name args.output) i args.comment w') equal line,
            encoded,
          ))
        (λ w' x. x) (derive-Ends c k args passphrase pass algo openssh w)
