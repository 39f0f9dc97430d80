-- ===== src/File/Vault.antt =====
-- src/cipher.rs: what any number of encryptions and decryptions do, as steps of an abstract store
-- that knows of a file only its plaintext, and the passphrase that it is sealed with.
use cry.Base.{
  ℕ, ◌<◌, ◌^◌, ◌≡◌, ◌≢◌, refl, sym, ap, List, [], ◌∷◌, Option, none, some, Bool, inl, inr, ◌⊎◌,
  true, Bool-cases, list_eq, if◌then◌else◌, length, IsArray, Text,
}
use mathlib.Core.Path.{subst}
use cry.Error.{ok}
use cry.Crypto.{Crypto, MacLaws}
use cry.Header.{Algorithm, salt_len}
use cry.Kdf.{derive_key}
use cry.Cipher.Frames.{CipherLaws}
use cry.Fs.{World, Action, pure, ◌>>=◌}
use cry.Fs.Ends.{Ends, Ends-mono, >>=-Ends}
use cry.Fs.Calm.{Never}
use cry.File.{Os, encrypt_tmp, decrypt_tmp, encrypt_file, decrypt_file}
use cry.File.Encrypts.{Delivers, FileOf, files_after, encrypt_file-Now}
use cry.File.Decrypts.{decrypt_file-Now}

-- A file of the abstract store.
pub data Entry : Type 0 where
  plain : List ℕ → Entry
  sealed : List ℕ → List ℕ → Entry

abbrev pub Vault : Type 0
Vault = Text → Option Entry

-- One call of the program.
pub data Request : Type 0 where
  seal : (from to passphrase : List ℕ) → Algorithm → Bool → Request
  unseal : (from to passphrase : List ℕ) → Bool → Request

abbrev pub put : Vault → Text → Option Entry → Vault
put v p e q = if list_eq p q then e else v q

-- The store with an entry in place of the output, and without the temporary file.
abbrev pub stored : Vault → Text → Text → Entry → Vault
stored v tmp to e = put (put v tmp none) to (some e)

-- The output is new, or --force is given.
abbrev pub IsFree : Vault → Text → Bool → Type 0
IsFree v to force = (v to ≡ none) ⊎ (force ≡ true)

-- What a request does to the store: sealing a plain file, and unsealing with the passphrase that a
-- file is sealed with.
pub data Does (v : Vault) : Request → Vault → Type 0 where
  seals :
      (from to passphrase bs : List ℕ) (algorithm : Algorithm) (force : Bool)
      → v from ≡ some (plain bs)
      → length bs < 2 ^ 64
      → from ≢ encrypt_tmp to
      → IsFree v to force
      → Does v
          (seal from to passphrase algorithm force)
          (stored v (encrypt_tmp to) to (sealed passphrase bs))
  unseals :
      (from to passphrase bs : List ℕ) (force : Bool)
      → v from ≡ some (sealed passphrase bs)
      → from ≢ decrypt_tmp to
      → IsFree v to force
      → Does v (unseal from to passphrase force) (stored v (decrypt_tmp to) to (plain bs))

pub data AllDo : Vault → List Request → Vault → Type 0 where
  done : {v : Vault} → AllDo v [] v
  and_then :
      {v v' v'' : Vault} {r : Request} {rs : List Request}
      → Does v r v'
      → AllDo v' rs v''
      → AllDo v (r ∷ rs) v''

module _ (c : Crypto) (os : Os) where
  perform : Request → Action (Unit {0})
  perform (seal from to passphrase algorithm force) =
      encrypt_file c os from to passphrase algorithm force
  perform (unseal from to passphrase force) = decrypt_file c os to from passphrase force

  unfoldable pub perform_all : List Request → Action (Unit {0})
  unfolding perform
  perform_all [] = pure tt
  perform_all (r ∷ rs) = perform r >>= λ _. perform_all rs

module _ (c : Crypto) (laws : CipherLaws c) (mac : MacLaws c) (os : Os)
    (delivers : Delivers os) where
  -- What the abstract store knows of a file.
  abbrev pub Shows : Option Entry → Option (List ℕ) → Type 0
  Shows none none = Unit
  Shows none (some file) = ⊥
  Shows (some e) none = ⊥
  Shows (some (plain bs)) (some file) = file ≡ bs
  Shows (some (sealed passphrase bs)) (some file) = FileOf c laws mac os delivers passphrase bs file

  abbrev pub Represents : Vault → (Text → Option (List ℕ)) → Type 0
  Represents v files = (q : Text) → Shows (v q) (files q)

  Shows-none : (e : Option Entry) (f : Option (List ℕ)) → Shows e f → e ≡ none → f ≡ none
  Shows-none none none h k = refl
  Shows-none none (some f) h k = absurd h
  Shows-none (some e) f h k = absurd (cc)

  Shows-plain : (f : Option (List ℕ)) (bs : List ℕ) → Shows (some (plain bs)) f → f ≡ some bs
  Shows-plain none bs h = absurd h
  Shows-plain (some f) bs h = ap some h

  Shows-sealed :
      (f : Option (List ℕ)) (passphrase bs : List ℕ)
      → Shows (some (sealed passphrase bs)) f
      → (file : List ℕ) × (f ≡ some file) × FileOf c laws mac os delivers passphrase bs file
  Shows-sealed none passphrase bs h = absurd h
  Shows-sealed (some f) passphrase bs h = (f, refl, h)

  stored-Represents :
      (v : Vault) (files : Text → Option (List ℕ)) (tmp to file p : List ℕ) (e : Entry)
      → Represents v files
      → Shows (some e) (some file)
      → Represents (stored v tmp to e) (files_after c laws mac os delivers p files tmp to file)
  stored-Represents v files tmp to file p e r s q = elim (Bool-cases (list_eq to q)) [
    | inl t ↦ rw t s
    | inr f ↦ elim (Bool-cases (list_eq tmp q)) [ inl t ↦ rw (f, t) tt | inr g ↦ rw (f, g) (r q) ]
  ]

  -- No coming call fails, and the files show the store.
  abbrev pub Stores : Vault → World → Type 0
  Stores v w = (w.faults ≡ []) × (w.stream_faults ≡ []) × Represents v w.files

  module _
      (derives : (passphrase salt : List ℕ)
        → IsArray salt_len salt
        → (key : List ℕ) × (derive_key c passphrase salt ≡ ok key)) where
    free_of :
        (v : Vault) (files : Text → Option (List ℕ)) (to : Text) (force : Bool)
        → Represents v files
        → IsFree v to force
        → (files to ≡ none) ⊎ (force ≡ true)
    free_of v files to force r (inl e) = inl (Shows-none (v to) (files to) (r to) e)
    free_of v files to force r (inr e) = inr e

    perform-Stores :
        (v v' : Vault) (r : Request) (w : World)
        → Does v r v'
        → Stores v w
        → Ends (λ _. Stores v') Never (perform c os r w)
    unfolding perform
    perform-Stores v v' r w (seals from to passphrase bs algorithm force e small ne free)
          (nf, ns, s) =
        let tmp = encrypt_tmp to in
        let f = Shows-plain (w.files from) bs (subst (λ x. Shows x (w.files from)) e (s from)) in
        Ends-mono (encrypt_file c os from to passphrase algorithm force w)
          (λ _ w' (file, made, (nf', ns', same)). (
            nf',
            ns',
            subst (Represents _) (sym same)
                (stored-Represents v w.files tmp to file passphrase (sealed passphrase bs) s made),
          ))
          (λ w' x. x)
          (encrypt_file-Now c laws mac os delivers passphrase w.files w from to algorithm force bs
            (derives passphrase) (nf, ns, refl) f small ne (free_of v w.files to force s free))
    perform-Stores v v' r w (unseals from to passphrase bs force e ne free) (nf, ns, s) =
        let tmp = decrypt_tmp to in
        let (file, f, made) =
          Shows-sealed (w.files from) passphrase bs
            (subst (λ x. Shows x (w.files from)) e (s from)) in
        Ends-mono (decrypt_file c os to from passphrase force w)
          (λ _ w' (nf', ns', same). (
            nf',
            ns',
            subst (Represents _) (sym same)
                (stored-Represents v w.files tmp to bs passphrase (plain bs) s refl),
          ))
          (λ w' x. x)
          (decrypt_file-Now c laws mac os delivers passphrase w.files w to from force bs file
            (nf, ns, refl) f made (free_of v w.files to force s free))

    -- Where no call fails, opened files are read from start to end, the crates keep their laws and
    -- every key derivation succeeds: any run of `encrypt_file` and `decrypt_file`, one after the
    -- other, that an abstract store of plain and sealed files can do succeeds, and leaves the
    -- files that the store then has: an encrypted file is sealed under its passphrase with the
    -- plaintext of its input, a decrypted one has the plaintext that its input is sealed with, the
    -- temporary file is gone, and all other files are as they were. A step of the store needs a
    -- plain input shorter than 2^64 bytes, or an input sealed under the passphrase given, which is
    -- not the temporary file, and an output that is new or forced.
    pub perform_all-Stores :
        (v v' : Vault) (rs : List Request) (w : World)
        → AllDo v rs v'
        → Stores v w
        → Ends (λ _. Stores v') Never (perform_all c os rs w)
    unfolding perform_all
    perform_all-Stores v v' rs w done s = s
    perform_all-Stores v v' rs w (and_then {v' = v1} {r = r} {rs = more} d ds) s =
        >>=-Ends (λ _. Stores v1) (λ _. Stores v') Never (perform c os r)
          (λ _. perform_all c os more) w (perform-Stores v v1 r w d s)
          (λ _ w1 s1. perform_all-Stores v1 v' more w1 ds s1)
