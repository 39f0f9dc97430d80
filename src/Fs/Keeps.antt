-- ===== src/Fs/Keeps.antt =====
-- Which actions leave a file as it is, by a rule for each way to build one.
use mathlib.Core.Path.{subst}
use cry.Base.{
  ℕ, ◌≡◌, ◌≢◌, refl, ap, ◌∙◌, sym, List, [], ◌∷◌, Option, none, some, Bool, true, false,
  if◌then◌else◌, Text,
}
use cry.Error.{IoError, CryError, Result, ok, err, panicked, stuck}
use cry.Fs.{
  World, Action, pure, raise, lift, attempt, ignore, carry_on, ◌>>=◌, next_call, contents, put_file,
  exists, is_there, metadata_len, open_file, create_file, read_file, rename_file, remove_file,
  write_file, fill_bytes, ensure_writable,
}
use cry.Fs.Stands.{
  Stands, carry_on_assoc, update_ne, next_call-Stands, contents-Stands, exists-Stands,
}

-- Where it is asked for, no coming `path.exists()` fails.
abbrev pub Sound : Bool → List (Option IoError) → Type 0
Sound true faults = faults ≡ []
Sound false faults = Unit

-- The file has the contents `v`, or is missing, and the coming looks at paths succeed if they are
-- to.
abbrev pub Holds : Bool → Text → Option (List ℕ) → World → Type 0
Holds sound q v w = Sound sound w.stat_faults × (w.files q ≡ v)

-- However the action ends, that is so after it if it is before.
pub record Keeps {ℓ} {A : Type ℓ} (sound : Bool) (q : Text) (v : Option (List ℕ)) (m : Action A)
    : Type ℓ where
  pub at : (w : World) → Holds sound q v w → Holds sound q v (m w).1

pub Keeps-Stands {ℓ} :
    {A : Type ℓ} {q : Text} {v : Option (List ℕ)} (m : Action A) → Keeps false q v m → Stands q v m
Keeps-Stands m k w e = (k.at w (tt, e)).1

module _ {sound : Bool} {q : Text} {v : Option (List ℕ)} where
  pub pure-Keeps {ℓ} : {A : Type ℓ} (a : A) → Keeps sound q v (pure a)
  pure-Keeps a = record { at = λ w h. h }

  pub raise-Keeps {ℓ} : {A : Type ℓ} (x : CryError) → Keeps sound q v (raise {A = A} x)
  raise-Keeps x = record { at = λ w h. h }

  pub lift-Keeps {ℓ} : {A : Type ℓ} (r : Result A) → Keeps sound q v (lift r)
  lift-Keeps r = record { at = λ w h. h }

  carry_on-Keeps {ℓ κ} :
      {A : Type ℓ} {B : Type κ} (f : A → Action B) (r : Result A)
      → ((a : A) → Keeps sound q v (f a))
      → Keeps sound q v (carry_on f r)
  carry_on-Keeps f (ok a) kf = kf a
  carry_on-Keeps f (err x) kf = record { at = λ w h. h }
  carry_on-Keeps f panicked kf = record { at = λ w h. h }
  carry_on-Keeps f stuck kf = record { at = λ w h. h }

  pub bind-Keeps {ℓ κ} :
      {A : Type ℓ} {B : Type κ} (m : Action A) (f : A → Action B)
      → Keeps sound q v m
      → ((a : A) → Keeps sound q v (f a))
      → Keeps sound q v (m >>= f)
  bind-Keeps m f km kf = record { at = λ w h. (carry_on-Keeps f (m w).0 kf).at (m w).1 (km.at w h) }

  -- A block in front of an action, taken apart.
  pub assoc-Keeps :
      {A B C : Type 0} (m : Action A) (f : A → Action B) (g : B → Action C)
      → Keeps sound q v (m >>= λ a. f a >>= g)
      → Keeps sound q v ((m >>= f) >>= g)
  assoc-Keeps m f g k = record {
    at = λ w h.
        subst (λ x. Holds sound q v x.1) (sym (carry_on_assoc q v f g (m w).0 (m w).1)) (k.at w h);
  }

  pub if-Keeps {ℓ} :
      {A : Type ℓ} (b : Bool) (m n : Action A)
      → Keeps sound q v m
      → Keeps sound q v n
      → Keeps sound q v (if b then m else n)
  if-Keeps true m n km kn = km
  if-Keeps false m n km kn = kn

  pub attempt-Keeps {ℓ} :
      {A : Type ℓ} (m : Action A) → Keeps sound q v m → Keeps sound q v (attempt m)
  attempt-Keeps m km = record { at = km.at }

  pub ignore-Keeps {ℓ} :
      {A : Type ℓ} (m : Action A) → Keeps sound q v m → Keeps sound q v (ignore m)
  ignore-Keeps m km = record { at = km.at }

  pub next_call-Keeps : Keeps sound q v next_call
  unfolding next_call
  next_call-Keeps = record { at = λ w (s, e). (go w s w.faults refl, next_call-Stands q v w e) }
    where
      go :
          (w : World)
          → Sound sound w.stat_faults
          → (fs : List (Option IoError)) → w.faults ≡ fs
          → Sound sound (next_call w).1.stat_faults
      go w s [] h = rw h s
      go w s (none ∷ fs) h = rw h s
      go w s (some x ∷ fs) h = rw h s

  pub contents-Keeps : (p : Text) → Keeps sound q v (contents p)
  contents-Keeps p = record {
    at = λ w (s, e). (go w s (w.files p) refl, contents-Stands q v p w e);
  }
    where
      go :
          (w : World)
          → Sound sound w.stat_faults
          → (o : Option (List ℕ)) → w.files p ≡ o
          → Sound sound (contents p w).1.stat_faults
      go w s none h = rw (h, contents) s
      go w s (some bs) h = rw (h, contents) s

  pub put_file-Keeps : (p : Text) (o : Option (List ℕ)) → q ≢ p → Keeps sound q v (put_file p o)
  put_file-Keeps p o ne = record { at = λ w (s, e). (s, update_ne w.files p q o ne ∙ e) }

  pub fill_bytes-Keeps : (n : ℕ) → Keeps sound q v (fill_bytes n)
  unfolding fill_bytes
  fill_bytes-Keeps n = record { at = λ w h. h }

-- A look that does not fail finds what is there, and changes nothing.
exists_lem :
    (p : Text) (w : World)
    → w.stat_faults ≡ []
    → ◌≡◌ {A = Result Bool × World} (exists p w) (ok (is_there (w.files p)), w)
unfolding exists
exists_lem p w s =
    ap
      (λ fs. elim fs [
        | [] ↦ (ok (is_there (w.files p)), w)
        | none ∷ faults ↦ (ok (is_there (w.files p)), record w { stat_faults = faults })
        | some e ∷ faults ↦ (ok false, record w { stat_faults = faults })
      ])
      s

exists-Sound :
    (sound : Bool) (p : Text) (w : World)
    → Sound sound w.stat_faults
    → Sound sound (exists p w).1.stat_faults
unfolding exists
exists-Sound true p w s = subst (λ x. Sound true x.1.stat_faults) (sym (exists_lem p w s)) s
exists-Sound false p w s = tt

pub exists-Keeps :
    {sound : Bool} {q : Text} {v : Option (List ℕ)} (p : Text) → Keeps sound q v (exists p)
exists-Keeps {sound} {q} {v} p = record {
  at = λ w (s, e). (exists-Sound sound p w s, exists-Stands q v p w e);
}

ruleset call_rules = (
  pure-Keeps, raise-Keeps, bind-Keeps, if-Keeps, next_call-Keeps, contents-Keeps, put_file-Keeps,
  exists-Keeps,
)

module _ {sound : Bool} {q : Text} {v : Option (List ℕ)} where
  pub metadata_len-Keeps : (p : Text) → Keeps sound q v (metadata_len p)
  unfolding metadata_len
  metadata_len-Keeps p = search call_rules

  pub open_file-Keeps : (p : Text) → Keeps sound q v (open_file p)
  unfolding open_file
  open_file-Keeps p = search call_rules

  pub read_file-Keeps : (p : Text) → Keeps sound q v (read_file p)
  unfolding read_file
  read_file-Keeps p = search call_rules

  pub create_file-Keeps : (p : Text) → q ≢ p → Keeps sound q v (create_file p)
  unfolding create_file
  create_file-Keeps p ne = search call_rules

  pub write_file-Keeps : (p : Text) (bs : List ℕ) → q ≢ p → Keeps sound q v (write_file p bs)
  unfolding write_file
  write_file-Keeps p bs ne = search (call_rules, create_file-Keeps)

  pub remove_file-Keeps : (p : Text) → q ≢ p → Keeps sound q v (remove_file p)
  unfolding remove_file
  remove_file-Keeps p ne = search call_rules

  pub rename_file-Keeps : (p r : Text) → q ≢ p → q ≢ r → Keeps sound q v (rename_file p r)
  unfolding rename_file
  rename_file-Keeps p r n1 n2 = search call_rules

  pub ensure_writable-Keeps : (p : Text) (force : Bool) → Keeps sound q v (ensure_writable p force)
  unfolding ensure_writable
  ensure_writable-Keeps p force = search call_rules

-- What follows a guard without `force`, which sees what is there, may use that the guarded path is
-- not that of the file, which is there.
pub guarded-Keeps {ℓ} :
    {B : Type ℓ} {q : Text} {bs : List ℕ} (p : Text) (f : Unit {0} → Action B)
    → (q ≢ p → Keeps true q (some bs) (f tt))
    → Keeps true q (some bs) (ensure_writable p false >>= f)
unfolding ensure_writable
guarded-Keeps {q = q} {bs = bs} p f next = record { at = λ w h. go w h (w.files p) refl }
  where
    go :
        (w : World)
        → Holds true q (some bs) w
        → (o : Option (List ℕ)) → w.files p ≡ o
        → Holds true q (some bs) ((ensure_writable p false >>= f) w).1
    go w (s, e) none h =
        let ne : q ≢ p = λ same. let here : w.files p ≡ some bs = rw (← same) e in absurd (cc) in
        rw (exists_lem p w s, h) ((next ne).at w (s, e))
    go w (s, e) (some x) h = rw (exists_lem p w s, h) (s, e)

pub ruleset keeps_rules = (
  pure-Keeps, raise-Keeps, lift-Keeps, bind-Keeps, if-Keeps, attempt-Keeps, ignore-Keeps,
  next_call-Keeps, contents-Keeps, metadata_len-Keeps, open_file-Keeps, read_file-Keeps,
  create_file-Keeps, write_file-Keeps, remove_file-Keeps, rename_file-Keeps, fill_bytes-Keeps,
  ensure_writable-Keeps,
)
