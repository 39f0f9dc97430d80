-- ===== src/Fs/Ends.antt =====
-- How an action ends: a postcondition on success, and one on failure.
use cry.Base.{ℕ, ◌≡◌, ◌≢◌, refl, ◌∙◌, sym, List, Option, none, some, Text}
use cry.Error.{Result, ok, err, panicked, stuck}
use cry.Fs.{
  World, Action, carry_on, ◌>>=◌, ◌>>◌, update, next_call, contents, rename_file, put_file,
}
use cry.Fs.Stands.{next_call-Stands, update_same}

-- On success `Q` holds of the value and the world, and otherwise `F` of the world.
abbrev pub Ends {ℓ} :
    {A : Type ℓ} → (A → World → Type 0) → (World → Type 0) → Result A × World → Type 0
Ends Q F (ok a, w) = Q a w
Ends Q F (err e, w) = F w
Ends Q F (panicked, w) = F w
Ends Q F (stuck, w) = F w

carry_on-Ends {ℓ κ} :
    {A : Type ℓ} {B : Type κ} (R : A → World → Type 0) (Q : B → World → Type 0) (F : World → Type 0)
    (f : A → Action B) (r : Result A) (w : World)
    → Ends R F (r, w)
    → ((a : A) (w' : World) → R a w' → Ends Q F (f a w'))
    → Ends Q F (carry_on f r w)
carry_on-Ends R Q F f (ok a) w h next = next a w h
carry_on-Ends R Q F f (err e) w h next = h
carry_on-Ends R Q F f panicked w h next = h
carry_on-Ends R Q F f stuck w h next = h

pub >>=-Ends {ℓ κ} :
    {A : Type ℓ} {B : Type κ} (R : A → World → Type 0) (Q : B → World → Type 0) (F : World → Type 0)
    (m : Action A) (f : A → Action B) (w : World)
    → Ends R F (m w)
    → ((a : A) (w' : World) → R a w' → Ends Q F (f a w'))
    → Ends Q F ((m >>= f) w)
>>=-Ends R Q F m f w h next = carry_on-Ends R Q F f (m w).0 (m w).1 h next

-- What holds of every world that an action may leave holds however it ends.
pub always {ℓ} :
    {A : Type ℓ} (F : World → Type 0) (x : Result A × World) → F x.1 → Ends (λ _. F) F x
always F (ok a, w) h = h
always F (err e, w) h = h
always F (panicked, w) h = h
always F (stuck, w) h = h

pub Ends-mono {ℓ} :
    {A : Type ℓ} {Q Q' : A → World → Type 0} {F F' : World → Type 0} (x : Result A × World)
    → ((a : A) (w : World) → Q a w → Q' a w)
    → ((w : World) → F w → F' w)
    → Ends Q F x
    → Ends Q' F' x
Ends-mono (ok a, w) f g h = f a w h
Ends-mono (err e, w) f g h = g w h
Ends-mono (panicked, w) f g h = g w h
Ends-mono (stuck, w) f g h = g w h

-- Renaming either leaves the target as it is, or puts there what was under the old name.
pub rename_file-Ends :
    (p r : Text) (w : World) (old : Option (List ℕ))
    → r ≢ p
    → w.files r ≡ old
    → Ends (λ _ w'. w'.files r ≡ w.files p) (λ w'. w'.files r ≡ old) (rename_file p r w)
unfolding rename_file
rename_file-Ends p r w old ne e =
    >>=-Ends (λ _ w'. (w'.files r ≡ old) × (w'.files p ≡ w.files p)) _ (λ w'. w'.files r ≡ old)
      next_call _ w
      (go_call (next_call w) (next_call-Stands r old w e) (next_call-Stands p (w.files p) w refl))
      λ _ w1 (e1, e2). go (w1.files p) w1 refl e1 e2
  where
    go_call :
        (x : Result (Unit {0}) × World)
        → x.1.files r ≡ old
        → x.1.files p ≡ w.files p
        → Ends (λ _ w'. (w'.files r ≡ old) × (w'.files p ≡ w.files p)) (λ w'. w'.files r ≡ old) x
    go_call (ok a, w') h k = (h, k)
    go_call (err x, w') h k = h
    go_call (panicked, w') h k = h
    go_call (stuck, w') h k = h

    go :
        (o : Option (List ℕ)) (w1 : World)
        → w1.files p ≡ o
        → w1.files r ≡ old
        → w1.files p ≡ w.files p
        → Ends
            (λ _ w'. w'.files r ≡ w.files p)
            (λ w'. w'.files r ≡ old)
            ((contents p >>= λ bs. put_file p none >> put_file r (some bs)) w1)
    go none w1 h e1 e2 = rw (h, Ends, contents) e1
    go (some bs) w1 h e1 e2 =
        rw (h, Ends, contents) (update_same (update w1.files p none) r (some bs) ∙ sym h ∙ e2)

pub contents-some :
    (p : Text) (w : World) {bs : List ℕ}
    → w.files p ≡ some bs
    → ◌≡◌ {A = Result (List ℕ) × World} (contents p w) (ok bs, w)
contents-some p w e = rw (e, contents) refl
