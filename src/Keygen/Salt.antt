-- ===== src/Keygen/Salt.antt =====
-- src/keygen.rs: what the salt of a derived AES key does not tell apart.
use cry.Base.{ℕ, ◌≡◌, refl, ◌++◌, append_assoc, none, some, [], Text, codes}
use cry.Fmt.{decimal}
use cry.Keygen.{aes_salt_input}

-- What an AES key's salt is the hash of does not tell a missing sub-identity from an empty one;
-- nor a sub-identity that goes on with `|ver=`, a number, `|sub=` and a label from a namespace
-- that goes on so, for any namespace, labels and versions.
pub aes_salt_collision :
    (ns x y : Text) (v v' : ℕ)
    → (aes_salt_input ns v none ≡ aes_salt_input ns v (some []))
      × (aes_salt_input ns v (some (x ++ (codes "|ver=" ++ (decimal v' ++ (codes "|sub=" ++ y)))))
          ≡ aes_salt_input
              (ns ++ (codes "|ver=" ++ (decimal v ++ (codes "|sub=" ++ x))))
              v'
              (some y))
unfolding aes_salt_input
aes_salt_collision ns x y v v' = (refl, simp append_assoc)
