-- ===== src/Error.antt =====
-- src/error.rs: the error type, and the outcome of a Rust call.
use cry.Base.{ℕ, ◌≡◌, refl, Text}

-- `std::io::Error`, by its kind. `other` is any kind that the program does not look at.
pub data IoError : Type 0 where
  interrupted unexpected_eof : IoError
  other : ℕ → IoError

-- `enum CryError`.
pub data CryError : Type 0 where
  io : IoError → CryError
  encryption_failed : CryError
  decryption_failed : CryError
  header_tampered : CryError
  truncated : ℕ → ℕ → CryError
  invalid_format : Text → CryError
  kdf : Text → CryError
  file_exists : Text → CryError
  empty_passphrase : CryError
  passphrase_mismatch : CryError
  suspicious_chunk_len : ℕ → ℕ → CryError
  verification_failed : Text → CryError

-- What a call gives: a `Result`, or a panic. `stuck` is no Rust value: a loop of the model has run
-- out of fuel.
pub data Result {ℓ} (A : Type ℓ) : Type ℓ where
  ok : A → Result A
  err : CryError → Result A
  panicked : Result A
  stuck : Result A

infixl 5 ◌>>=◌ ◌>>◌
abbrev pub ◌>>=◌ {ℓ κ} : {A : Type ℓ} {B : Type κ} → Result A → (A → Result B) → Result B
stuck >>= next = stuck
panicked >>= next = panicked
err e >>= next = err e
ok a >>= next = next a

abbrev pub ◌>>◌ {ℓ κ} : {A : Type ℓ} {B : Type κ} → Result A → Result B → Result B
m >> k = m >>= λ _. k

-- `map_err(|_| e)`.
abbrev pub map_err {ℓ} : {A : Type ℓ} → CryError → Result A → Result A
map_err e (ok a) = ok a
map_err e (err _) = err e
map_err e panicked = panicked
map_err e stuck = stuck

-- From a successful chain of two steps: the first succeeds, and so does the second on its value.
pub after_ok {ℓ κ μ} :
    {A : Type ℓ} {B : Type κ} {P : Type μ} {b : B} (first : Result A) (second : A → Result B)
    → (first >>= second) ≡ ok b
    → ((a : A) → first ≡ ok a → second a ≡ ok b → P)
    → P
after_ok panicked second e use_it = absurd (cc)
after_ok stuck second e use_it = absurd (cc)
after_ok (err x) second e use_it = absurd (cc)
after_ok (ok a) second e use_it = use_it a refl e

-- The same as a tuple.
pub >>=-eq-ok {ℓ κ} :
    {A : Type ℓ} {B : Type κ} {b : B} (first : Result A) (second : A → Result B)
    → (first >>= second) ≡ ok b
    → (a : A) × (first ≡ ok a) × (second a ≡ ok b)
>>=-eq-ok first second e = after_ok first second e λ a p q. (a, p, q)

pub map_err-eq-ok {ℓ} :
    {A : Type ℓ} (e : CryError) (m : Result A) {a : A} → map_err e m ≡ ok a → m ≡ ok a
map_err-eq-ok e (ok a) h = h
map_err-eq-ok e (err _) h = cc
map_err-eq-ok e panicked h = cc
map_err-eq-ok e stuck h = cc

-- A call returns: with a value that satisfies `P`, or with an error; it neither panics nor hangs.
abbrev pub Returns {ℓ} : {A : Type ℓ} → (A → Type 0) → Result A → Type 0
Returns P (ok a) = P a
Returns P (err e) = Unit
Returns P panicked = ⊥
Returns P stuck = ⊥

pub >>=-Returns {ℓ κ} :
    {A : Type ℓ} {B : Type κ} (P : A → Type 0) (Q : B → Type 0) (m : Result A) (f : A → Result B)
    → Returns P m
    → ((a : A) → P a → Returns Q (f a))
    → Returns Q (m >>= f)
>>=-Returns P Q (ok a) f h next = next a h
>>=-Returns P Q (err e) f h next = tt
>>=-Returns P Q panicked f h next = absurd h
>>=-Returns P Q stuck f h next = absurd h

abbrev pub Any {ℓ} : {A : Type ℓ} → A → Type 0
Any a = Unit
