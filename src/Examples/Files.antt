-- ===== src/Examples/Files.antt =====
-- The files of src/cipher.rs, src/keygen.rs and src/main.rs at concrete inputs.
use cry.Base.{
  ℕ, ◌≡◌, ◌≢◌, inl, refl, List, [], ◌∷◌, ◌++◌, append-nil, Option, none, some, false, arith, length,
  list_eq, list_eq_iff, list_eq_refl, if◌then◌else◌, Text, codes,
}
use cry.Error.{IoError, other}
use cry.Io.{Reader, arrive}
use cry.Io.Clean.{bytes_of}
use cry.Header.{aes256gcm}
use cry.Kdf.{derive_key}
use cry.Fs.{World}
use cry.Fs.Path.{with_extension, split_name, split_last, file_stem}
use cry.File.{Os, encrypt_tmp, decrypt_tmp, chunks_for, encrypt_file}
use cry.File.Encrypts.{Delivers}
use cry.Fs.Fails.{Fails}
use cry.File.InPlace.{Lost, encrypt_file_in_place}
use cry.Toy.{toy, toy-CipherLaws, toy-MacLaws, digest}

ne_by_test : (p q : Text) → list_eq p q ≡ false → p ≢ q
ne_by_test p q f e = let t = (list_eq_iff p q).1 e in cc

unfoldable pub whole_file : List ℕ → Reader
whole_file [] = []
whole_file (b ∷ bs) = arrive (b ∷ bs) ∷ []

abbrev pub an_os : Os
an_os = record { deliver = whole_file }

pub an_os-Delivers : Delivers an_os
unfolding whole_file bytes_of
an_os-Delivers [] = (tt, refl)
an_os-Delivers (b ∷ bs) = ((omega arith, tt), append-nil (b ∷ bs))

abbrev pub plain_path : Text
plain_path = codes "notes.txt"

abbrev pub cipher_path : Text
cipher_path = codes "notes.cry"

abbrev pub out_path : Text
out_path = codes "copy.txt"

abbrev pub a_pass : List ℕ
a_pass = 112 ∷ 119 ∷ []

abbrev pub a_text : List ℕ
a_text = 104 ∷ 105 ∷ 33 ∷ []

-- A world with one file.
abbrev pub a_world : Text → List ℕ → List (Option IoError) → World
a_world path bs faults = record {
  files = λ p. if list_eq p path then some bs else none;
  faults = faults;
  stream_faults = [];
  stat_faults = [];
  residue = [];
  entropy = λ n. n;
  drawn = 0;
}

pub plain_ne : plain_path ≢ encrypt_tmp cipher_path
unfolding codes with_extension split_name split_last file_stem list_eq
plain_ne = ne_by_test plain_path (encrypt_tmp cipher_path) refl

pub cipher_ne : cipher_path ≢ encrypt_tmp cipher_path
unfolding codes with_extension split_name split_last file_stem list_eq
cipher_ne = ne_by_test cipher_path (encrypt_tmp cipher_path) refl

pub input_ne : cipher_path ≢ decrypt_tmp out_path
unfolding codes with_extension split_name split_last file_stem list_eq
input_ne = ne_by_test cipher_path (decrypt_tmp out_path) refl

pub out_ne : out_path ≢ decrypt_tmp out_path
unfolding codes with_extension split_name split_last file_stem list_eq
out_ne = ne_by_test out_path (decrypt_tmp out_path) refl

-- The third call on a path fails.
abbrev pub failing_world : World
failing_world = a_world plain_path a_text (none ∷ none ∷ some (other 5) ∷ [])

abbrev pub cipher_world : World
cipher_world = a_world cipher_path a_text (none ∷ none ∷ some (other 5) ∷ [])

abbrev pub calm_world : World
calm_world = a_world plain_path a_text []

-- The input is at the path of the temporary file.
abbrev aliased_world : World
aliased_world = a_world (encrypt_tmp cipher_path) a_text []

cipher_free : aliased_world.files cipher_path ≡ none
unfolding codes with_extension split_name split_last file_stem list_eq
cipher_free = refl

encrypt_file_in_place_example :
    Fails
      (Lost toy toy-CipherLaws toy-MacLaws an_os an_os-Delivers a_pass aliased_world.files
        cipher_path
        (chunks_for (length a_text)))
      (encrypt_file toy an_os
        (encrypt_tmp cipher_path)
        cipher_path
        a_pass
        aes256gcm
        false
        aliased_world)
encrypt_file_in_place_example =
    encrypt_file_in_place toy toy-CipherLaws toy-MacLaws an_os an_os-Delivers a_pass
      aliased_world.files cipher_path aliased_world aes256gcm false a_text
      (λ salt _. (digest 32 (a_pass ++ salt), unfold derive_key in refl)) (refl, refl, refl)
      (rw (list_eq_refl (encrypt_tmp cipher_path)) refl) (omega arith) cipher_ne (inl cipher_free)
