-- ===== src/Examples/Keys.antt =====
-- The key files, passphrases and signatures of src/keygen.rs and src/main.rs at concrete inputs.
use cry.Base.{
  ◌≡◌, ◌≢◌, ◌⊎◌, inl, inr, refl, [], ◌∷◌, ◌++◌, Option, none, some, true, list_eq, Text, codes,
}
use cry.Error.{ok}
use cry.Crypto.{KeyCrates}
use cry.Fmt.{decimal}
use cry.Fs.{World, next_call, read_file}
use cry.Fs.Ends.{Ends}
use cry.Fs.Calm.{Now, Never}
use cry.Keygen.{aes_salt_input}
use cry.Keygen.Salt.{aes_salt_collision}
use cry.Passphrase.{
  Terminal, prompt, confirmed, from_terminal, read_passphrase, from_file, first_line,
}
use cry.Passphrase.Accepted.{Source, read_passphrase-eq-ok}
use cry.CryDna
use cry.CryDna.{Identity, derive_salt, public_key_hex, sign_content, signature_hex}
use cry.Main.Passphrases.{Answered, derive_pass-eq-ok, openssh_pass-eq-ok}
use cry.Commands.{openssh_pass, derive_pass, SignArgs, sign_command, verify_command}
use cry.Commands.SignVerify.{verify_command-sign_command}
use cry.Toy.{toy-SigningLaws, toy, digest}
use cry.Examples.Files.{an_os, plain_path, a_pass, a_text, a_world, calm_world}

abbrev pub toy_keys : KeyCrates
toy_keys = record {
  keypair = λ bs. inl bs;
  private_key = λ bs comment. inl (bs ++ comment);
  encrypt_key = λ bs pass. inl (bs ++ pass);
  to_openssh = λ bs. inl bs;
  rsa_private = λ bits. inr (codes "no");
  rsa_public = λ bs. bs;
  pkcs8_pem = λ bs. some bs;
  public_pem = λ bs. some bs;
  hex_encode = λ bs. bs;
}

abbrev pub key_world : World
key_world = a_world (codes "k.cry_pub_id") a_text []

aes_salt_collision_example :
    (aes_salt_input (codes "a") 1 none ≡ aes_salt_input (codes "a") 1 (some []))
    × (aes_salt_input
          (codes "a")
          1
          (some (codes "x" ++ (codes "|ver=" ++ (decimal 2 ++ (codes "|sub=" ++ codes "y")))))
        ≡ aes_salt_input
            (codes "a" ++ (codes "|ver=" ++ (decimal 1 ++ (codes "|sub=" ++ codes "x"))))
            2
            (some (codes "y")))
aes_salt_collision_example = aes_salt_collision (codes "a") (codes "x") (codes "y") 1 2

abbrev pub a_terminal : Terminal
a_terminal = record { answer = λ m. inl a_pass }

-- Two lines.
abbrev pub pass_world : World
pass_world = a_world (codes "pass") (112 ∷ 119 ∷ 10 ∷ 120 ∷ []) []

reads : (read_passphrase a_terminal (some (codes "pass")) true pass_world).0 ≡ ok a_pass
unfolding codes list_eq read_passphrase from_file first_line read_file next_call
reads = refl

read_passphrase-eq-ok_example :
    (a_pass ≢ []) × Source a_terminal (some (codes "pass")) true pass_world a_pass
read_passphrase-eq-ok_example =
    read_passphrase-eq-ok a_terminal (some (codes "pass")) true pass_world reads

abbrev pub sign_args : SignArgs
sign_args = record {
  file = plain_path;
  params = record { namespace = codes "default"; key_version = 0; sub_id = none; pass_file = none };
}

abbrev pub signer : Identity
signer = record { signing_key = digest 32 (a_pass ++ derive_salt toy (codes "default") 0 none) }

abbrev pub signature : Text
signature = signature_hex toy (sign_content toy signer a_text)

signs :
    (sign_command toy toy_keys an_os a_terminal sign_args calm_world).0
    ≡ ok (public_key_hex toy signer, signature)
unfolding sign_command read_file next_call read_passphrase from_terminal prompt confirmed
    CryDna.derive codes list_eq
signs = refl

verify_command-sign_command_example :
    Ends
      (λ _. Now calm_world.files)
      Never
      (verify_command toy toy_keys an_os a_terminal
        (record {
          file = plain_path;
          signature = signature;
          public_key = public_key_hex toy signer;
        })
        calm_world)
verify_command-sign_command_example =
    verify_command-sign_command toy toy_keys an_os a_terminal toy-SigningLaws sign_args calm_world
      calm_world signs refl refl refl

abbrev no_text : Option Text
no_text = none

abbrev empty_text : Option Text
empty_text = some []

derive_pass_test :
    (a_pass ≢ []) × ((no_text ≡ some a_pass) ⊎ ((no_text ≡ none) × Answered a_terminal a_pass))
unfolding derive_pass read_passphrase from_terminal prompt confirmed codes
derive_pass_test = derive_pass-eq-ok a_terminal none key_world refl

openssh_pass_test :
    (true ≡ true)
    × (a_pass ≢ [])
    × (a_terminal.answer (codes "  OpenSSH key passphrase : ") ≡ inl a_pass)
    × (a_terminal.answer (codes "  Confirm OpenSSH passphrase : ") ≡ inl a_pass)
unfolding openssh_pass from_terminal prompt confirmed list_eq codes
openssh_pass_test = openssh_pass-eq-ok a_terminal true key_world refl
