-- ===== src/Examples/Vaults.antt =====
-- The abstract store of src/cipher.rs at a concrete run: a file is sealed and unsealed elsewhere.
use cry.Base.{
  refl, List, [], ◌∷◌, none, some, true, false, inl, inr, list_eq, if◌then◌else◌, Bool-cases, arith,
  codes, ◌++◌,
}
use cry.Kdf.{derive_key}
use cry.Header.{aes256gcm}
use cry.Fs.Ends.{Ends}
use cry.Fs.Calm.{Never}
use cry.Fs.Path.{with_extension, split_name, split_last, file_stem}
use cry.File.{encrypt_tmp, decrypt_tmp}
use cry.File.Vault.{
  Vault, plain, sealed, Request, seal, unseal, stored, seals, unseals, AllDo, done, and_then,
  perform_all, Stores, perform_all-Stores,
}
use cry.Toy.{toy, toy-CipherLaws, toy-MacLaws, digest}
use cry.Examples.Files.{
  an_os, an_os-Delivers, plain_path, cipher_path, out_path, a_pass, a_text, calm_world, plain_ne,
  input_ne,
}

abbrev first_vault : Vault
first_vault p = if list_eq p plain_path then some (plain a_text) else none

abbrev requests : List Request
requests =
    seal plain_path cipher_path a_pass aes256gcm false
    ∷ unseal cipher_path out_path a_pass true
    ∷ []

abbrev second_vault : Vault
second_vault = stored first_vault (encrypt_tmp cipher_path) cipher_path (sealed a_pass a_text)

abbrev last_vault : Vault
last_vault = stored second_vault (decrypt_tmp out_path) out_path (plain a_text)

requests-AllDo : AllDo first_vault requests last_vault
unfolding list_eq codes with_extension split_name split_last file_stem
requests-AllDo =
    and_then
      (seals plain_path cipher_path a_pass a_text aes256gcm false refl (omega arith) plain_ne
        (inl refl))
      (and_then (unseals cipher_path out_path a_pass a_text true refl input_ne (inr refl)) done)

first_vault-Stores :
    Stores toy toy-CipherLaws toy-MacLaws an_os an_os-Delivers first_vault calm_world
first_vault-Stores = (
  refl,
  refl,
  λ q. elim (Bool-cases (list_eq q plain_path)) [ inl t ↦ rw t refl | inr f ↦ rw f tt ],
)

perform_all-Stores_example :
    Ends
      (λ _. Stores toy toy-CipherLaws toy-MacLaws an_os an_os-Delivers last_vault)
      Never
      (perform_all toy an_os requests calm_world)
perform_all-Stores_example =
    perform_all-Stores toy toy-CipherLaws toy-MacLaws an_os an_os-Delivers
      (λ pass salt _. (digest 32 (pass ++ salt), unfold derive_key in refl)) first_vault last_vault
      requests calm_world requests-AllDo first_vault-Stores
