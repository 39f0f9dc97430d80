-- ===== src/Fs/Calm.antt =====
-- Actions in a world where no call will fail: they succeed.
use mathlib.Core.Path.{subst}
use cry.Base.{
  ℕ, ◌≡◌, refl, ap, ◌∙◌, sym, List, [], ◌∷◌, Option, none, some, Bool, true, false, inl, inr, ◌⊎◌,
  arith, length, Text,
}
use cry.Error.{IoError, io, Result, ok, err, panicked, stuck}
use cry.Fs.{
  World, pure, update, draw, next_call, contents, put_file, metadata_len, open_file, read_file,
  create_file, rename_file, remove_file, fill_bytes, exists, ensure_writable,
}
use cry.Fs.Ends.{Ends, >>=-Ends, contents-some}

abbrev pub Never : World → Type 0
Never w = ⊥

-- What an action that cannot fail leaves.
pub Ends-Never {ℓ} :
    {A : Type ℓ} (G : World → Type 0) (x : Result A × World) → Ends (λ _. G) Never x → G x.1
Ends-Never G (ok a, w) h = h
Ends-Never G (err e, w) h = absurd h
Ends-Never G (panicked, w) h = absurd h
Ends-Never G (stuck, w) h = absurd h

-- No coming call fails, and the files are `files`. What `exists` gives does not matter here.
abbrev pub Now : (Text → Option (List ℕ)) → World → Type 0
Now files w = (w.faults ≡ []) × (w.stream_faults ≡ []) × (w.files ≡ files)

module _ (files : Text → Option (List ℕ)) (w : World) (n : Now files w) where
  pub ensure_writable-Now :
      (p : Text) (force : Bool)
      → (files p ≡ none) ⊎ (force ≡ true)
      → Ends (λ _. Now files) Never (ensure_writable p force w)
  unfolding ensure_writable
  ensure_writable-Now p true free = unfold exists in ground arith
  ensure_writable-Now p false (inl e) =
      unfold exists in let here : w.files p ≡ none = ap (λ f. f p) n.2 ∙ e in ground arith
  ensure_writable-Now p false (inr e) = absurd (cc)

  pub next_call-Now : Ends (λ _. Now files) Never (next_call w)
  unfolding next_call
  next_call-Now = go w.faults n.0
    where
      go :
          (fs : List (Option IoError))
          → fs ≡ []
          → Ends {A = Unit {0}}
              (λ _. Now files)
              Never
              (elim fs [
                | [] ↦ (ok tt, w)
                | none ∷ faults ↦ (ok tt, record w { faults = faults })
                | some e ∷ faults ↦ (err (io e), record w { faults = faults })
              ])
      go [] e = n
      go (x ∷ fs) e = absurd (cc)

  pub contents-Now :
      (p : Text) {bs : List ℕ}
      → files p ≡ some bs
      → Ends (λ xs w'. Now files w' × (xs ≡ bs)) Never (contents p w)
  contents-Now p {bs} e =
      subst (Ends (λ xs w'. Now files w' × (xs ≡ bs)) Never)
        (sym (contents-some p w (ap (λ f. f p) n.2 ∙ e))) (n, refl)

  pub put_file-Now :
      (p : Text) (v : Option (List ℕ)) → Ends (λ _. Now (update files p v)) Never (put_file p v w)
  put_file-Now p v = (n.0, n.1, ap (λ f. update f p v) n.2)

  pub fill_bytes-Now :
      (k : ℕ)
      → Ends (λ xs w'. Now files w' × (xs ≡ draw k w.entropy w.drawn)) Never (fill_bytes k w)
  unfolding fill_bytes
  fill_bytes-Now k = (n, refl)

module _ (files : Text → Option (List ℕ)) (w : World) (n : Now files w) where
  pub metadata_len-Now :
      (p : Text) {bs : List ℕ}
      → files p ≡ some bs
      → Ends (λ k w'. Now files w' × (k ≡ length bs)) Never (metadata_len p w)
  unfolding metadata_len
  metadata_len-Now p {bs} e =
      >>=-Ends (λ _. Now files) _ Never next_call _ w (next_call-Now files w n)
        λ _ w1 n1.
          >>=-Ends (λ xs w'. Now files w' × (xs ≡ bs)) _ Never (contents p) (λ xs. pure (length xs))
            w1 (contents-Now files w1 n1 p e) λ xs w2 (n2, same). (n2, ap length same)

  pub open_file-Now :
      (p : Text) {bs : List ℕ} → files p ≡ some bs → Ends (λ _. Now files) Never (open_file p w)
  unfolding open_file
  open_file-Now p {bs} e =
      >>=-Ends (λ _. Now files) _ Never next_call _ w (next_call-Now files w n)
        λ _ w1 n1.
          >>=-Ends (λ xs w'. Now files w' × (xs ≡ bs)) _ Never (contents p) (λ _. pure tt) w1
            (contents-Now files w1 n1 p e) λ xs w2 (n2, same). n2

  pub create_file-Now :
      (p : Text) → Ends (λ _. Now (update files p (some []))) Never (create_file p w)
  unfolding create_file
  create_file-Now p =
      >>=-Ends (λ _. Now files) _ Never next_call (λ _. put_file p (some [])) w
        (next_call-Now files w n) λ _ w1 n1. put_file-Now files w1 n1 p (some [])

  pub remove_file-Now :
      (p : Text) {bs : List ℕ}
      → files p ≡ some bs
      → Ends (λ _. Now (update files p none)) Never (remove_file p w)
  unfolding remove_file
  remove_file-Now p {bs} e =
      >>=-Ends (λ _. Now files) _ Never next_call _ w (next_call-Now files w n)
        λ _ w1 n1.
          >>=-Ends (λ xs w'. Now files w' × (xs ≡ bs)) _ Never (contents p) (λ _. put_file p none)
            w1 (contents-Now files w1 n1 p e) λ xs w2 (n2, same). put_file-Now files w2 n2 p none

  pub rename_file-Now :
      (p q : Text) {bs : List ℕ}
      → files p ≡ some bs
      → Ends (λ _. Now (update (update files p none) q (some bs))) Never (rename_file p q w)
  unfolding rename_file
  rename_file-Now p q {bs} e =
      >>=-Ends (λ _. Now files) _ Never next_call _ w (next_call-Now files w n)
        λ _ w1 n1.
          >>=-Ends (λ xs w'. Now files w' × (xs ≡ bs)) _ Never (contents p) _ w1
            (contents-Now files w1 n1 p e)
            λ xs w2 (n2, same).
              >>=-Ends (λ _. Now (update files p none))
                (λ _. Now (update (update files p none) q (some bs))) Never (put_file p none)
                (λ _. put_file q (some xs)) w2 (put_file-Now files w2 n2 p none)
                λ _ w3 n3.
                  subst
                    (λ ys.
                      Ends (λ _. Now (update (update files p none) q (some ys))) Never
                        (put_file q (some xs) w3))
                    same (put_file-Now (update files p none) w3 n3 q (some xs))

  pub read_file-Now :
      (p : Text) {bs : List ℕ}
      → files p ≡ some bs
      → Ends (λ xs w'. Now files w' × (xs ≡ bs)) Never (read_file p w)
  unfolding read_file
  read_file-Now p {bs} e =
      >>=-Ends (λ _. Now files) (λ xs w'. Now files w' × (xs ≡ bs)) Never next_call
        (λ _. contents p) w (next_call-Now files w n) λ _ w1 n1. contents-Now files w1 n1 p e
