-- ===== src/Examples/Derived.antt =====
-- Two runs of `cry derive` of src/main.rs at concrete inputs.
use cry.Base.{ℕ, ◌≡◌, refl, [], ◌∷◌, Option, none, some, true, false, list_eq, codes, Text}
use cry.Fs.{ensure_writable, write_file}
use cry.Keygen
use cry.Keygen.{DeriveArgs, aes256gcm, private_name, derive_aes, write_key}
use cry.Commands.{derive_command, openssh_pass, derive_pass}
use cry.Ssh.{unix}
use cry.Main.{State, main, derive}
use cry.Main.Reproduced.{derive_reproduced}
use cry.Toy.{toy}
use cry.Examples.Files.{an_os, a_pass, a_world}
use cry.Examples.Keys.{toy_keys, a_terminal}
use cry.Examples.Sessions.{a_good_system}
use cry.Examples.Runs.{toy_floats, derive_args, first_state}

-- The same key under two names, in two worlds.
abbrev home_args : DeriveArgs
home_args = record derive_args { algo = aes256gcm; openssh = false; passphrase = some a_pass }

abbrev away_args : DeriveArgs
away_args = record home_args { output = codes "away"; force = true }

abbrev away_state : State
away_state = record { world = a_world (codes "away.cry_id") (1 ∷ []) (none ∷ none ∷ []); log = [] }

abbrev derives : DeriveArgs → State → Option ℕ × State
derives args s =
    main toy_floats toy toy_keys an_os a_terminal a_good_system unix (some (derive args)) s

derives_home : (derives home_args first_state).0 ≡ some 0
unfolding main derive_command Keygen.derive derive_aes openssh_pass derive_pass write_key
    ensure_writable write_file codes list_eq
derives_home = refl

derives_away : (derives away_args away_state).0 ≡ some 0
unfolding main derive_command Keygen.derive derive_aes openssh_pass derive_pass write_key
    ensure_writable write_file codes list_eq
derives_away = refl

derive_reproduced_example :
    (text : Text) × ((derives home_args first_state).1.world.files (private_name (codes "id"))
      ≡ some text)
    × ((derives away_args away_state).1.world.files (private_name (codes "away")) ≡ some text)
derive_reproduced_example =
    derive_reproduced toy_floats toy toy_keys an_os a_terminal a_good_system unix home_args
      away_args first_state away_state
      (record { same_algo = refl; same_namespace = refl; same_version = refl; same_sub_id = refl })
      refl derives_home derives_away
