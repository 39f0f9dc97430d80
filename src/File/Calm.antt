-- ===== src/File/Calm.antt =====
-- src/cipher.rs: the stream into the temporary file and the match that follows it, where no call
-- fails.
use cry.Base.{
  ℕ, zero, suc, ◌+◌, ◌≡◌, refl, ap, ◌∙◌, List, [], Option, none, some, true, ◌==◌, arith, IsArray,
  Text,
}
use cry.Error.{Result, ok, err, panicked, stuck}
use cry.Io.{Writer}
use cry.Cipher.Encrypt.{clean}
use cry.Fs.{World, Action, pure, ◌>>=◌, update, draw, metadata_len, rename_file}
use cry.Fs.Stands.{update_same}
use cry.Fs.Ends.{Ends, Ends-mono, >>=-Ends}
use cry.Fs.Calm.{Now, Never, metadata_len-Now, rename_file-Now}
use cry.File.{finish_stream, run_stream, new_writer, check_count, commit, settle}

-- The temporary file is gone, and the output there.
abbrev pub settled : (Text → Option (List ℕ)) → Text → Text → List ℕ → Text → Option (List ℕ)
settled files tmp target bs = update (update files tmp none) target (some bs)

-- A stream that succeeds with the right count.
pub run_stream-Now :
    (files : Text → Option (List ℕ)) (w : World) (tmp : Text)
    (stream : Writer → Result (ℕ × Writer)) (n : ℕ) (bs : List ℕ)
    → Now files w
    → stream (clean []) ≡ ok (n, clean bs)
    → Ends
        (λ m w'. Now (update files tmp (some bs)) w' × (m ≡ n))
        Never
        ((run_stream tmp stream >>= check_count n) w)
unfolding run_stream finish_stream
run_stream-Now files w tmp stream n bs now e =
    let start : stream (new_writer w) ≡ ok (n, clean bs) =
      ap (λ fs. stream (record { written = []; faults = fs })) now.1 ∙ e in
    let same : (n == n) ≡ true = ground arith in
    rw (start, same) ((now.0, refl, ap (λ f. update f tmp (some bs)) now.2), refl)

commit-Now :
    (files : Text → Option (List ℕ)) (tmp target : Text) (bs : List ℕ) (r : Result ℕ) (w : World)
    → Ends (λ _. Now files) Never (r, w)
    → files tmp ≡ some bs
    → Ends (λ _. Now (settled files tmp target bs)) Never (commit tmp target r w)
unfolding commit
commit-Now files tmp target bs (ok n) w now f =
    >>=-Ends (λ _. Now (settled files tmp target bs)) (λ _. Now (settled files tmp target bs)) Never
      (rename_file tmp target) (λ _. pure n) w (rename_file-Now files w now tmp target f)
      λ _ w1 n1. n1
commit-Now files tmp target bs (err x) w now f = absurd now
commit-Now files tmp target bs panicked w now f = absurd now
commit-Now files tmp target bs stuck w now f = absurd now

-- A closure that succeeds, with its result in the temporary file.
pub settle-Now :
    (files : Text → Option (List ℕ)) (w : World) (tmp target : Text) (closure : Action ℕ)
    (bs : List ℕ)
    → Ends (λ _. Now files) Never (closure w)
    → files tmp ≡ some bs
    → Ends (λ _. Now (settled files tmp target bs)) Never (settle tmp target closure w)
unfolding settle
settle-Now files w tmp target closure bs e f =
    >>=-Ends (λ _. Now (settled files tmp target bs)) (λ _. Now (settled files tmp target bs)) Never
      (commit tmp target (closure w).0) (λ _. metadata_len target >>= λ _. pure tt) (closure w).1
      (commit-Now files tmp target bs (closure w).0 (closure w).1 e f)
      λ _ w1 n1.
        >>=-Ends (λ _. Now (settled files tmp target bs)) (λ _. Now (settled files tmp target bs))
          Never (metadata_len target) (λ _. pure tt) w1
          (Ends-mono (metadata_len target w1) (λ _ w' h. h.0) (λ w' h. h)
            (metadata_len-Now (settled files tmp target bs) w1 n1 target
              (update_same (update files tmp none) target (some bs))))
          λ _ w2 n2. n2

pub draw-IsArray : (n : ℕ) (entropy : ℕ → ℕ) (at : ℕ) → IsArray n (draw n entropy at)
unfolding draw
draw-IsArray zero entropy at = (refl, tt)
draw-IsArray (suc n) entropy at =
    let (l, b) = draw-IsArray n entropy (at + 1) in (ap suc l, (omega arith, b))
