-- ===== src/Examples/Journeys.antt =====
-- Several runs of src/main.rs, one after the other, at concrete inputs.
use cry.Base.{
  List, ◌≡◌, ◌≢◌, ◌↔◌, ◌+◌, ◌*◌, ◌-◌, ◌/◌, ◌^◌, length, ◌⊎◌, refl, inl, inr, ◌++◌, Option, none,
  some, true, false, [], codes, list_eq, arith, ℕ, Text,
}
use cry.Error.{ok}
use cry.Fs.{World}
use cry.Kdf.{derive_key}
use cry.Passphrase.{read_passphrase, from_terminal, prompt, confirmed}
use cry.File.{encrypt_tmp, decrypt_tmp}
use cry.CryDna.{public_key_hex}
use cry.CryDna.Verify.{Accepts}
use cry.Main.Verdict.{verify_exit_iff}
use cry.Main.Size.{encrypt_size}
use cry.Commands.{DecryptArgs, VerifyArgs}
use cry.Ssh.{unix}
use cry.Main.{State, CliCommand, main, encrypt, decrypt, sign, verify}
use cry.Main.Calm.{decrypt-encrypt_succeed}
use cry.Main.Kept.{start, run, Runs-Holds, Runs-kept}
use cry.Main.Outcome.{Exits}
use cry.Main.Recovered.{decrypt-encrypt_recovered}
use cry.Toy.{toy, toy-CipherLaws, toy-MacLaws, digest}
use cry.Examples.Files.{
  an_os, an_os-Delivers, a_pass, a_text, plain_path, cipher_path, out_path, calm_world, cipher_ne,
  plain_ne, out_ne, input_ne,
}
use cry.Examples.Keys.{toy_keys, a_terminal, sign_args, signer, signature}
use cry.Examples.Sessions.{a_good_system}
use cry.Examples.Runs.{toy_floats}
use cry.Examples.Status.{encrypt_args, decrypt_args, failing_state}

abbrev after : State → Option CliCommand → Option ℕ × State
after s command = main toy_floats toy toy_keys an_os a_terminal a_good_system unix command s

abbrev calm_state : State
calm_state = record { world = calm_world; log = [] }

abbrev forced : DecryptArgs
forced = record decrypt_args { force = true }

asked : (w : World) → read_passphrase a_terminal none true w ≡ (ok a_pass, w)
unfolding read_passphrase from_terminal prompt confirmed list_eq
asked w = refl

asked_once : (w : World) → read_passphrase a_terminal none false w ≡ (ok a_pass, w)
unfolding read_passphrase from_terminal prompt confirmed
asked_once w = refl

decrypt-encrypt_succeed_example :
    let (status, s') = after calm_state (some (encrypt encrypt_args)) in
    let (status', s'') = after s' (some (decrypt forced)) in
    (status ≡ some 0)
    × (status' ≡ some 0)
    × (s''.world.files out_path ≡ some a_text)
    × ((q : Text)
        → q ≢ encrypt_tmp cipher_path
        → q ≢ cipher_path
        → q ≢ decrypt_tmp out_path
        → q ≢ out_path
        → s''.world.files q ≡ calm_world.files q)
decrypt-encrypt_succeed_example =
    decrypt-encrypt_succeed toy_floats toy toy-CipherLaws toy-MacLaws toy_keys an_os an_os-Delivers
      a_terminal a_good_system unix encrypt_args forced calm_state a_pass a_text
      (λ salt _. (digest 32 (a_pass ++ salt), unfold derive_key in refl)) refl refl
      (unfold list_eq codes in refl) (omega arith) plain_ne input_ne refl
      (inl (unfold list_eq codes in refl)) (inr refl) (asked calm_world)
      (asked_once (after calm_state (some (encrypt encrypt_args))).1.world)

encrypted_first : (after calm_state (some (encrypt encrypt_args))).0 ≡ some 0
encrypted_first =
    let calm =
      decrypt-encrypt_succeed toy_floats toy toy-CipherLaws toy-MacLaws toy_keys an_os
        an_os-Delivers a_terminal a_good_system unix encrypt_args forced calm_state a_pass a_text
        (λ salt _. (digest 32 (a_pass ++ salt), unfold derive_key in refl)) refl refl
        (unfold list_eq codes in refl) (omega arith) plain_ne input_ne refl
        (inl (unfold list_eq codes in refl)) (inr refl) (asked calm_world)
        (asked_once (after calm_state (some (encrypt encrypt_args))).1.world) in
    calm.0

abbrev between : State
between = (after (after calm_state (some (encrypt encrypt_args))).1 (some (sign sign_args))).1

encrypted_sound : (after calm_state (some (encrypt encrypt_args))).1.world.stat_faults ≡ []
encrypted_sound =
    (Runs-Holds toy_floats toy toy_keys an_os a_terminal a_good_system unix {from = calm_state}
      a_text (run start (some (encrypt encrypt_args)) (refl, plain_ne))
      (refl, unfold list_eq codes in refl)).0

decrypt-encrypt_recovered_example :
    Exits
      (λ w. w.files out_path ≡ some a_text)
      (λ w. (w.files out_path ≡ between.world.files out_path) ⊎ (w.files out_path ≡ some a_text))
      (after between (some (decrypt decrypt_args)))
decrypt-encrypt_recovered_example =
    decrypt-encrypt_recovered toy_floats toy toy-CipherLaws toy-MacLaws toy_keys an_os
      an_os-Delivers a_terminal a_good_system unix encrypt_args decrypt_args a_text calm_state
      between (unfold list_eq codes in refl) (omega arith) cipher_ne plain_ne refl out_ne input_ne
      refl tt encrypted_first encrypted_sound (run start (some (sign sign_args)) tt)

Runs-kept_example :
    (after
        (after failing_state (some (encrypt encrypt_args))).1
        (some (sign sign_args))).1.world.files
      plain_path
    ≡ some a_text
Runs-kept_example =
    Runs-kept toy_floats toy toy_keys an_os a_terminal a_good_system unix a_text
      (run (run start (some (encrypt encrypt_args)) (refl, plain_ne)) (some (sign sign_args)) tt)
      refl (unfold list_eq codes in refl)

abbrev verify_args : VerifyArgs
verify_args = record {
  file = plain_path;
  signature = signature;
  public_key = public_key_hex toy signer;
}

verify_exit_iff_example :
    (((after calm_state (some (verify verify_args))).0 ≡ some 0)
      ↔ Accepts toy verify_args.public_key a_text verify_args.signature)
    × ((after calm_state (some (verify verify_args))).1 ≡ calm_state)
verify_exit_iff_example =
    verify_exit_iff toy_floats toy toy_keys an_os a_terminal a_good_system unix verify_args a_text
      calm_state refl (unfold list_eq codes in refl)

encrypt_size_example :
    (file : List ℕ) × ((after calm_state (some (encrypt encrypt_args))).1.world.files cipher_path
      ≡ some file)
    × (length file ≡ 73 + (length a_text + 20 * ((length a_text + (2 ^ 20 - 1)) / 2 ^ 20)))
encrypt_size_example =
    encrypt_size toy_floats toy toy-CipherLaws toy-MacLaws toy_keys an_os an_os-Delivers a_terminal
      a_good_system unix encrypt_args a_text calm_state cipher_ne plain_ne
      (unfold list_eq codes in refl) (omega arith) encrypted_first
