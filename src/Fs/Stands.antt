-- ===== src/Fs/Stands.antt =====
-- Which calls leave a file as it is.
use cry.Base.{
  ℕ, ◌≡◌, ◌≢◌, refl, ◌∙◌, sym, List, [], ◌∷◌, Option, none, some, Bool, true, false, inl, inr,
  Bool-cases, list_eq, list_eq_iff, list_eq_refl, if◌then◌else◌, Text,
}
use cry.Error.{file_exists, IoError, Result, ok, err, panicked, stuck}
use cry.Fs.{
  World, Action, pure, raise, carry_on, ◌>>=◌, update, next_call, contents, put_file, exists,
  metadata_len, open_file, create_file, rename_file, remove_file, write_file, fill_bytes,
  ensure_writable,
}

pub update_ne :
    (files : Text → Option (List ℕ)) (p q : Text) (v : Option (List ℕ))
    → q ≢ p
    → update files p v q ≡ files q
update_ne files p q v ne = elim (Bool-cases (list_eq p q)) [
  | inl t ↦ absurd (ne (sym ((list_eq_iff p q).0 t)))
  | inr f ↦ rw f refl
]

pub update_same :
    (files : Text → Option (List ℕ)) (p : Text) (v : Option (List ℕ)) → update files p v p ≡ v
update_same files p v = rw (list_eq_refl p) refl

-- A file with contents `v`, or that is missing, is so after the action too, however it ends.
abbrev pub Stands {ℓ} : {A : Type ℓ} → Text → Option (List ℕ) → Action A → Type 0
Stands q v m = (w : World) → w.files q ≡ v → (m w).1.files q ≡ v

module _ (q : Text) (v : Option (List ℕ)) where
  carry_on-Stands {ℓ κ} :
      {A : Type ℓ} {B : Type κ} (f : A → Action B) (r : Result A)
      → ((a : A) → Stands q v (f a))
      → Stands q v (carry_on f r)
  carry_on-Stands f (ok a) h w e = h a w e
  carry_on-Stands f (err x) h w e = e
  carry_on-Stands f panicked h w e = e
  carry_on-Stands f stuck h w e = e

  pub >>=-Stands {ℓ κ} :
      {A : Type ℓ} {B : Type κ} (m : Action A) (f : A → Action B)
      → Stands q v m
      → ((a : A) → Stands q v (f a))
      → Stands q v (m >>= f)
  >>=-Stands m f first second w e = carry_on-Stands f (m w).0 second (m w).1 (first w e)

  pub carry_on_assoc {ℓ κ μ} :
      {A : Type ℓ} {B : Type κ} {C : Type μ} (f : A → Action B) (g : B → Action C) (r : Result A)
      (w : World)
      → (carry_on f r >>= g) w ≡ carry_on (λ a. f a >>= g) r w
  carry_on_assoc f g (ok a) w = refl
  carry_on_assoc f g (err x) w = refl
  carry_on_assoc f g panicked w = refl
  carry_on_assoc f g stuck w = refl

  pub next_call-Stands : Stands q v next_call
  unfolding next_call
  next_call-Stands w e = go w.faults refl
    where
      go : (fs : List (Option IoError)) → w.faults ≡ fs → (next_call w).1.files q ≡ v
      go [] h = rw h e
      go (none ∷ fs) h = rw h e
      go (some x ∷ fs) h = rw h e

  pub contents-Stands : (p : Text) → Stands q v (contents p)
  contents-Stands p w e = go (w.files p) refl
    where
      go : (o : Option (List ℕ)) → w.files p ≡ o → (contents p w).1.files q ≡ v
      go none h = rw (h, contents) e
      go (some bs) h = rw (h, contents) e

  pub put_file-Stands : (p : Text) (o : Option (List ℕ)) → q ≢ p → Stands q v (put_file p o)
  put_file-Stands p o ne w e = update_ne w.files p q o ne ∙ e

  pub metadata_len-Stands : (p : Text) → Stands q v (metadata_len p)
  unfolding metadata_len
  metadata_len-Stands p =
      >>=-Stands next_call _ next_call-Stands
        λ _. >>=-Stands (contents p) _ (contents-Stands p) λ bs w e. e

  pub open_file-Stands : (p : Text) → Stands q v (open_file p)
  unfolding open_file
  open_file-Stands p =
      >>=-Stands next_call _ next_call-Stands
        λ _. >>=-Stands (contents p) _ (contents-Stands p) λ bs w e. e

  pub create_file-Stands : (p : Text) → q ≢ p → Stands q v (create_file p)
  unfolding create_file
  create_file-Stands p ne =
      >>=-Stands next_call _ next_call-Stands λ _. put_file-Stands p (some []) ne

  pub write_file-Stands : (p : Text) (bs : List ℕ) → q ≢ p → Stands q v (write_file p bs)
  unfolding write_file
  write_file-Stands p bs ne =
      >>=-Stands (create_file p) _ (create_file-Stands p ne)
        λ _. >>=-Stands next_call _ next_call-Stands λ _. put_file-Stands p (some bs) ne

  pub remove_file-Stands : (p : Text) → q ≢ p → Stands q v (remove_file p)
  unfolding remove_file
  remove_file-Stands p ne =
      >>=-Stands next_call _ next_call-Stands
        λ _. >>=-Stands (contents p) _ (contents-Stands p) λ bs. put_file-Stands p none ne

  pub rename_file-Stands : (p r : Text) → q ≢ p → q ≢ r → Stands q v (rename_file p r)
  unfolding rename_file
  rename_file-Stands p r np nr = >>=-Stands next_call _ next_call-Stands λ _.
      >>=-Stands (contents p) _ (contents-Stands p) λ bs.
        >>=-Stands (put_file p none) (λ _. put_file r (some bs)) (put_file-Stands p none np)
          λ _. put_file-Stands r (some bs) nr

  pub fill_bytes-Stands : (n : ℕ) → Stands q v (fill_bytes n)
  unfolding fill_bytes
  fill_bytes-Stands n w e = e

  pub if-Stands {ℓ} :
      {A : Type ℓ} (b : Bool) (m n : Action A)
      → Stands q v m
      → Stands q v n
      → Stands q v (if b then m else n)
  if-Stands true m n hm hn = hm
  if-Stands false m n hm hn = hn

  pub exists-Stands : (p : Text) → Stands q v (exists p)
  unfolding exists
  exists-Stands p w e = go w.stat_faults refl
    where
      go : (fs : List (Option IoError)) → w.stat_faults ≡ fs → (exists p w).1.files q ≡ v
      go [] h = rw h e
      go (none ∷ fs) h = rw h e
      go (some x ∷ fs) h = rw h e

  pub ensure_writable-Stands : (p : Text) (force : Bool) → Stands q v (ensure_writable p force)
  unfolding ensure_writable
  ensure_writable-Stands p force =
      >>=-Stands (exists p)
        (λ there. if there then (if force then pure tt else raise (file_exists p)) else pure tt)
        (exists-Stands p)
        λ there.
          if-Stands there (if force then pure tt else raise (file_exists p)) (pure tt)
            (if-Stands force (pure tt) (raise (file_exists p)) (λ w e. e) (λ w e. e)) (λ w e. e)
