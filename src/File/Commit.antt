-- ===== src/File/Commit.antt =====
-- src/cipher.rs: the stream into the temporary file and the match that follows it.
use cry.Base.{
  ℕ, ◌≡◌, ◌≢◌, refl, ap, ◌∙◌, sym, List, [], Option, some, inl, inr, ◌⊎◌, ◌==◌, arith, Bool-cases,
  Text,
}
use cry.Error.{IoError, Result, ok, err, panicked, stuck}
use cry.Io.{Writer}
use cry.Fs.{World, Action, pure, lift, ◌>>=◌, metadata_len, rename_file}
use cry.Fs.Stands.{Stands, update_ne, update_same, metadata_len-Stands, remove_file-Stands}
use mathlib.Core.Path.{subst}
use cry.Fs.Ends.{Ends, Ends-mono, >>=-Ends, always, rename_file-Ends}
use cry.File.{finish_stream, run_stream, new_writer, check_count, commit, settle}

-- `target` is the output, with contents `old`; `Good n bs` says that `bs` is a whole result of `n`
-- chunks.
module _ (tmp target : Text) (old : Option (List ℕ)) (Good : ℕ → List ℕ → Type 0) where
  -- The output is a whole result.
  abbrev pub Whole : World → Type 0
  Whole w = (n : ℕ) × (bs : List ℕ) × (w.files target ≡ some bs) × Good n bs

  -- It is that, or as it was.
  abbrev pub Settled : World → Type 0
  Settled w = (w.files target ≡ old) ⊎ Whole w

  -- The temporary file is a whole result, and the output as it was.
  abbrev pub Ready : ℕ → World → Type 0
  Ready n w = (w.files target ≡ old) × ((bs : List ℕ) × (w.files tmp ≡ some bs) × Good n bs)

  -- The output and the input are as they were.
  abbrev pub Untouched : Text → Option (List ℕ) → World → Type 0
  Untouched q v w = (w.files target ≡ old) × (w.files q ≡ v)

  -- An action that leaves both alone.
  pub kept-Ends {ℓ} :
      {A : Type ℓ} (q : Text) (v : Option (List ℕ)) (m : Action A) (w : World)
      → Stands target old m
      → Stands q v m
      → Untouched q v w
      → Ends (λ _. Untouched q v) (λ w'. w'.files target ≡ old) (m w)
  kept-Ends {A = A} q v m w s t (e, f) = go (m w) (s w e) (t w f)
    where
      go :
          (x : Result A × World)
          → x.1.files target ≡ old
          → x.1.files q ≡ v
          → Ends (λ _. Untouched q v) (λ w'. w'.files target ≡ old) x
      go (ok a, w') h k = (h, k)
      go (err x, w') h k = h
      go (panicked, w') h k = h
      go (stuck, w') h k = h

  pub lift-Ends :
      {A : Type 0} (q : Text) (v : Option (List ℕ)) (r : Result A) (w : World)
      → Untouched q v w
      → Ends {A = A} (λ a w'. Untouched q v w' × (◌≡◌ {A = Result A} r (ok a))) Settled (lift r w)
  lift-Ends q v (ok a) w e = (e, refl)
  lift-Ends q v (err x) w e = inl e.0
  lift-Ends q v panicked w e = inl e.0
  lift-Ends q v stuck w e = inl e.0

  -- A stream from an empty writer whose successful results are `Good`, with the check of the count.
  pub run_stream-Ends :
      (stream : Writer → Result (ℕ × Writer)) (expected : ℕ) (w : World)
      → target ≢ tmp
      → w.files target ≡ old
      → ((faults : List (Option IoError)) (out : Writer)
          → stream (record { written = []; faults = faults }) ≡ ok (expected, out)
          → Good expected out.written)
      → Ends Ready
          (λ w'. w'.files target ≡ old)
          ((run_stream tmp stream >>= check_count expected) w)
  unfolding run_stream finish_stream
  run_stream-Ends stream expected w ne e good = go (stream (new_writer w)) refl
    where
      go :
          (x : Result (ℕ × Writer))
          → stream (new_writer w) ≡ x
          → Ends Ready
              (λ w'. w'.files target ≡ old)
              (((λ w'. finish_stream tmp x w') >>= check_count expected) w)
      go (ok (n, out)) h = elim (Bool-cases (n == expected)) [
        | inl t ↦
            let same : n ≡ expected = ground arith in
            rw t (
              update_ne w.files tmp target (some out.written) ne ∙ e,
              (
                out.written,
                update_same w.files tmp (some out.written),
                subst (λ m. Good m out.written) (sym same)
                    (good w.stream_faults out (h ∙ ap (λ m. ok (m, out)) same)),
              ),
            )
        | inr f ↦ rw f (update_ne w.files tmp target (some out.written) ne ∙ e)
      ]
      go (err x) h = update_ne w.files tmp target _ ne ∙ e
      go panicked h = e
      go stuck h = e

  -- The match on the closure's result.
  commit-Ends :
      (r : Result ℕ) (w : World)
      → target ≢ tmp
      → Ends Ready (λ w'. w'.files target ≡ old) (r, w)
      → Ends (λ _. Whole) Settled (commit tmp target r w)
  unfolding commit
  commit-Ends (ok n) w ne (e, (bs, f, g)) =
      >>=-Ends (λ _ w'. w'.files target ≡ w.files tmp) (λ _. Whole) Settled (rename_file tmp target)
        (λ _. pure n) w
        (Ends-mono (rename_file tmp target w) (λ a w' h. h) (λ w' h. inl h)
          (rename_file-Ends tmp target w old ne e))
        λ _ w' h. (n, bs, h ∙ f, g)
  commit-Ends (err x) w ne e = inl (remove_file-Stands target old tmp ne w e)
  commit-Ends panicked w ne e = inl e
  commit-Ends stuck w ne e = inl e

  finish-Ends :
      (w : World)
      → Whole w
      → Ends {A = Unit {0}} (λ _. Whole) Settled ((metadata_len target >>= λ _. pure tt) w)
  finish-Ends w (n, bs, f, g) =
      >>=-Ends (λ _. Whole) (λ _. Whole) Settled (metadata_len target) (λ _. pure tt) w
        (Ends-mono (metadata_len target w) (λ _ w' h. (n, bs, h, g)) (λ w' h. inr (n, bs, h, g))
          (always (λ w'. w'.files target ≡ some bs) (metadata_len target w)
            (metadata_len-Stands target (some bs) target w f)))
        λ _ w' h. h

  -- A closure that ends with a whole result in the temporary file, or fails, and leaves the output
  -- alone: behind `settle` the output is whole on success, and settled on failure.
  pub settle-Ends :
      (closure : Action ℕ) (w : World)
      → target ≢ tmp
      → Ends Ready (λ w'. w'.files target ≡ old) (closure w)
      → Ends (λ _. Whole) Settled (settle tmp target closure w)
  unfolding settle
  settle-Ends closure w ne e =
      >>=-Ends (λ _. Whole) (λ _. Whole) Settled (commit tmp target (closure w).0)
        (λ _. metadata_len target >>= λ _. pure tt) (closure w).1
        (commit-Ends (closure w).0 (closure w).1 ne e) λ n w' whole. finish-Ends w' whole
