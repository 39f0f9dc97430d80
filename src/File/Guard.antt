-- ===== src/File/Guard.antt =====
-- src/cipher.rs: without `--force`, `encrypt_file` and `decrypt_file` change no file that is there,
-- the temporary file excepted, where no `Path::exists` fails.
use cry.Base.{ℕ, ◌≢◌, ◌∙◌, List, Option, some, true, false, Text}
use cry.Error.{Result, ok, err, panicked, stuck}
use cry.Io.{Reader, Writer}
use cry.Crypto.{Crypto}
use cry.Header.{Header, Algorithm}
use cry.Fs.{Action}
use cry.Fs.Stands.{update_ne}
use cry.Fs.Keeps.{Keeps, keeps_rules, guarded-Keeps}
use cry.File.{
  Os, encrypt_tmp, decrypt_tmp, finish_stream, new_writer, run_stream, check_count, commit, settle,
  encrypt_body, encrypt_file, decrypt_body, decrypt_file,
}

module _ {q : Text} {v : Option (List ℕ)} where
  finish_stream-Keeps :
      (p : Text) (r : Result (ℕ × Writer)) → q ≢ p → Keeps true q v (finish_stream p r)
  unfolding finish_stream
  finish_stream-Keeps p (ok (n, out)) ne = record {
    at = λ w (s, e). (s, update_ne w.files p q (some out.written) ne ∙ e);
  }
  finish_stream-Keeps p (err x) ne = record {
    at = λ w (s, e). (s, update_ne w.files p q (some w.residue) ne ∙ e);
  }
  finish_stream-Keeps p panicked ne = record { at = λ w e. e }
  finish_stream-Keeps p stuck ne = record { at = λ w e. e }

  run_stream-Keeps :
      (p : Text) (stream : Writer → Result (ℕ × Writer))
      → q ≢ p
      → Keeps true q v (run_stream p stream)
  unfolding run_stream
  run_stream-Keeps p stream ne = record {
    at = λ w e. (finish_stream-Keeps p (stream (new_writer w)) ne).at w e;
  }

  check_count-Keeps : (expected n : ℕ) → Keeps true q v (check_count expected n)
  check_count-Keeps expected n = search keeps_rules

  commit-Keeps :
      (tmp target : Text) (r : Result ℕ)
      → q ≢ tmp
      → q ≢ target
      → Keeps true q v (commit tmp target r)
  unfolding commit
  commit-Keeps tmp target (ok n) n1 n2 = search keeps_rules
  commit-Keeps tmp target (err x) n1 n2 = search keeps_rules
  commit-Keeps tmp target panicked n1 n2 = search keeps_rules
  commit-Keeps tmp target stuck n1 n2 = search keeps_rules

  settle-Keeps :
      (tmp target : Text) (closure : Action ℕ)
      → q ≢ tmp
      → q ≢ target
      → Keeps true q v closure
      → Keeps true q v (settle tmp target closure)
  unfolding settle
  settle-Keeps tmp target closure n1 n2 kept = search (keeps_rules, commit-Keeps)

  module _ (c : Crypto) (os : Os) (tmp : Text) (h : Header) (key : List ℕ) (ne : q ≢ tmp) where
    encrypt_body-Keeps :
        (plain_path : Text) → Keeps true q v (encrypt_body c os plain_path tmp h key)
    unfolding encrypt_body
    encrypt_body-Keeps plain_path = search (keeps_rules, run_stream-Keeps, check_count-Keeps)

    decrypt_body-Keeps : (r : Reader) → Keeps true q v (decrypt_body c os tmp h key r)
    unfolding decrypt_body
    decrypt_body-Keeps r = search (keeps_rules, run_stream-Keeps, check_count-Keeps)

ruleset file_rules = (keeps_rules, settle-Keeps, encrypt_body-Keeps, decrypt_body-Keeps)

module _ (c : Crypto) (os : Os) (q : Text) (bs : List ℕ) where
  -- Without `force`, `encrypt_file` leaves a file that is there as it is, if it is not the
  -- temporary file and no `Path::exists` fails; also the output.
  pub encrypt_file-Keeps :
      (plain_path cipher_path : Text) (passphrase : List ℕ) (algorithm : Algorithm)
      → q ≢ encrypt_tmp cipher_path
      → Keeps true q (some bs) (encrypt_file c os plain_path cipher_path passphrase algorithm false)
  unfolding encrypt_file
  encrypt_file-Keeps plain_path cipher_path passphrase algorithm n1 =
      guarded-Keeps cipher_path _ λ n2. search file_rules depth 12

  -- The same for `decrypt_file`.
  pub decrypt_file-Keeps :
      (plain_path cipher_path : Text) (passphrase : List ℕ)
      → q ≢ decrypt_tmp plain_path
      → Keeps true q (some bs) (decrypt_file c os plain_path cipher_path passphrase false)
  unfolding decrypt_file
  decrypt_file-Keeps plain_path cipher_path passphrase n1 =
      guarded-Keeps plain_path _ λ n2. search file_rules depth 12
