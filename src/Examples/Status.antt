-- ===== src/Examples/Status.antt =====
-- `cry encrypt` and `cry decrypt` of src/main.rs at concrete inputs, with calls that fail.
use cry.Base.{refl, none, some, true, false, [], codes, list_eq}
use cry.Header.{aes256gcm}
use cry.Commands.{EncryptArgs, DecryptArgs}
use cry.Ssh.{unix}
use cry.Main.{State, main, encrypt, decrypt}
use cry.Main.Outcome.{
  Exits, Entered, KeptOr, EncryptedUnder, DecryptedUnder, encrypt-Exits, decrypt-Exits,
}
use cry.Toy.{toy}
use cry.Examples.Files.{
  an_os, plain_path, cipher_path, out_path, a_text, failing_world, cipher_world, cipher_ne,
  plain_ne, out_ne, input_ne,
}
use cry.Examples.Keys.{toy_keys, a_terminal}
use cry.Examples.Sessions.{a_good_system}
use cry.Examples.Runs.{toy_floats}

abbrev pub encrypt_args : EncryptArgs
encrypt_args = record {
  plain = plain_path;
  cipher = cipher_path;
  algorithm = aes256gcm;
  force = false;
  pass_file = none;
}

abbrev pub failing_state : State
failing_state = record { world = failing_world; log = [] }

encrypt-Exits_example :
    Exits
      (Entered a_terminal none true failing_world
        (EncryptedUnder toy an_os encrypt_args a_text failing_world))
      (KeptOr a_terminal none true failing_world cipher_path
        (EncryptedUnder toy an_os encrypt_args a_text failing_world))
      (main toy_floats toy toy_keys an_os a_terminal a_good_system unix
        (some (encrypt encrypt_args))
        failing_state)
encrypt-Exits_example =
    encrypt-Exits toy_floats toy toy_keys an_os a_terminal a_good_system unix encrypt_args a_text
      failing_state cipher_ne plain_ne (unfold list_eq codes in refl)

abbrev pub decrypt_args : DecryptArgs
decrypt_args = record { cipher = cipher_path; plain = out_path; force = false; pass_file = none }

abbrev cipher_state : State
cipher_state = record { world = cipher_world; log = [] }

decrypt-Exits_example :
    Exits
      (Entered a_terminal none false cipher_world
        (DecryptedUnder toy an_os decrypt_args a_text cipher_world))
      (KeptOr a_terminal none false cipher_world out_path
        (DecryptedUnder toy an_os decrypt_args a_text cipher_world))
      (main toy_floats toy toy_keys an_os a_terminal a_good_system unix
        (some (decrypt decrypt_args))
        cipher_state)
decrypt-Exits_example =
    decrypt-Exits toy_floats toy toy_keys an_os a_terminal a_good_system unix decrypt_args a_text
      cipher_state out_ne input_ne (unfold list_eq codes in refl)
