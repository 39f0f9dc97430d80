-- ===== src/Examples/Identities.antt =====
-- The identities of src/crydna.rs at concrete inputs.
use cry.Base.{ℕ, ◌≡◌, refl, List, [], ◌∷◌, ◌++◌, none, some, arith, Text, codes}
use cry.Bytes.{to_be_bytes}
use cry.CryDna.{Identity, derive_salt, sign_content, signature_hex}
use cry.CryDna.Salt.{salt_input-inj, derive_salt_collision}
use cry.Toy.{toy}
use cry.Examples.Data.{a_key}

abbrev an_identity : Identity
an_identity = record { signing_key = a_key }

abbrev a_content : List ℕ
a_content = 104 ∷ 105 ∷ []

abbrev a_signature : Text
a_signature = signature_hex toy (sign_content toy an_identity a_content)

salt_input-inj_example :
    (codes "alice" ≡ codes "alice") × (◌≡◌ {A = ℕ} 3 3) × (some (codes "x") ≡ some (codes "x"))
salt_input-inj_example =
    salt_input-inj (codes "alice") (codes "alice") 3 3 (some (codes "x")) (some (codes "x"))
      (unfold codes in
        (
          λ e. omega arith,
          (λ e. omega arith, (λ e. omega arith, (λ e. omega arith, (λ e. omega arith, tt)))),
        ))
      (unfold codes in
        (
          λ e. omega arith,
          (λ e. omega arith, (λ e. omega arith, (λ e. omega arith, (λ e. omega arith, tt)))),
        ))
      (omega arith) (omega arith) refl

-- The versions are four letters, so that the namespace is a text that can be typed.
derive_salt_collision_example :
    derive_salt toy
      (codes "a")
      0x61626364
      (some (codes "x" ++ (codes ":v" ++ to_be_bytes 4 0x65666768)))
    ≡ derive_salt toy
        (codes "a" ++ (codes ":v" ++ (to_be_bytes 4 0x61626364 ++ (codes ":sub:" ++ codes "x"))))
        0x65666768
        none
derive_salt_collision_example =
    derive_salt_collision toy (codes "a") 0x61626364 0x65666768 (codes "x")
