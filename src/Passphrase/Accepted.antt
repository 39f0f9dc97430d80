-- ===== src/Passphrase/Accepted.antt =====
-- src/main.rs: which passphrases `read_passphrase` and `read_openssh_passphrase` give.
use cry.Base.{
  ℕ, ◌≡◌, ◌≢◌, refl, ap, ◌∙◌, sym, List, [], ◌∷◌, ◌++◌, Option, none, some, Bool, true, false, inl,
  inr, ◌⊎◌, ◌==◌, ◌||◌, arith, Bool-cases, list_eq, list_eq_iff, All, Text, codes,
}
use cry.Error.{IoError, io, Result, ok, err, panicked, stuck}
use cry.Fs.{World, Action, pure, lift, ◌>>=◌, next_call, contents, read_file, not_found}
use cry.Fs.Stands.{next_call-Stands}
use cry.Passphrase.{
  Terminal, prompt, first_line, not_empty, same_again, confirmed, from_terminal, from_file,
  read_passphrase,
}

-- Neither a line feed nor a carriage return.
abbrev pub NoBreak : ℕ → Type 0
NoBreak b = (b ≢ 10) × (b ≢ 13)

-- The rest of a file behind its first line.
abbrev pub EndsLine : List ℕ → Type 0
EndsLine [] = Unit
EndsLine (b ∷ bs) = (b ≡ 10) ⊎ (b ≡ 13)

pub first_line_lem :
    (bs : List ℕ)
    → (rest : List ℕ) × (bs ≡ first_line bs ++ rest) × All NoBreak (first_line bs) × EndsLine rest
unfolding first_line
first_line_lem [] = ([], refl, tt, tt)
first_line_lem (b ∷ bs) = elim (Bool-cases (b == 10 || b == 13)) [
  | inl t ↦ rw t (b ∷ bs, refl, tt, ground arith)
  | inr f ↦
      let (rest, e, n, l) = first_line_lem bs in
      rw f (rest, ap (λ xs. b ∷ xs) e, ((λ x. ground arith, λ x. ground arith), n), l)
]

-- A successful chain of actions has a successful first one.
pub after_ok {ℓ κ μ} :
    {A : Type ℓ} {B : Type κ} {P : Type μ} {b : B} (m : Action A) (f : A → Action B) (w : World)
    → ((m >>= f) w).0 ≡ ok b
    → ((a : A) → (m w).0 ≡ ok a → (f a (m w).1).0 ≡ ok b → P)
    → P
after_ok {A = A} {B = B} {P = P} {b = b} m f w e next = go (m w).0 refl
  where
    go : (r : Result A) → (m w).0 ≡ r → P
    go (ok a) h = next a h (rw h at e)
    go (err x) h = let bad : ◌≡◌ {A = Result B} (err x) (ok b) = rw h at e in absurd (cc)
    go panicked h = let bad : ◌≡◌ {A = Result B} panicked (ok b) = rw h at e in absurd (cc)
    go stuck h = let bad : ◌≡◌ {A = Result B} stuck (ok b) = rw h at e in absurd (cc)

prompt-eq-ok :
    (t : Terminal) (m : Text) (w : World) {pass : List ℕ}
    → (prompt t m w).0 ≡ ok pass
    → t.answer m ≡ inl pass
unfolding prompt
prompt-eq-ok t m w {pass} e = go (t.answer m) refl
  where
    go : (a : List ℕ ⊎ IoError) → t.answer m ≡ a → t.answer m ≡ inl pass
    go (inl p) h = let same : ok p ≡ ok pass = rw (h, prompt) at e in h ∙ ap inl (cc)
    go (inr x) h =
        let bad : ◌≡◌ {A = Result (List ℕ)} (err (io x)) (ok pass) = rw (h, prompt) at e in
        absurd (cc)

not_empty-eq-ok : (pass : List ℕ) {u : Unit {0}} → not_empty pass ≡ ok u → pass ≢ []
not_empty-eq-ok [] e = absurd (cc)
not_empty-eq-ok (b ∷ bs) e = λ h. cc

same_again-eq-ok :
    (pass again : List ℕ) {u : Unit {0}} → same_again pass again ≡ ok u → pass ≡ again
same_again-eq-ok pass again e = elim (Bool-cases (list_eq pass again)) [
  | inl t ↦ (list_eq_iff pass again).0 t
  | inr f ↦ let bad = rw f at e in absurd (cc)
]

confirmed-eq-ok :
    (t : Terminal) (pass : List ℕ) (m : Text) (confirm : Bool) (w : World) {p : List ℕ}
    → (confirmed t pass m confirm w).0 ≡ ok p
    → (p ≡ pass) × (confirm ≡ true → t.answer m ≡ inl pass)
unfolding confirmed
confirmed-eq-ok t pass m false w e = (cc, λ h. absurd (cc))
confirmed-eq-ok t pass m true w {p} e = after_ok (prompt t m) _ w e λ again e1 k1.
    after_ok (lift (same_again pass again)) (λ _. pure pass) (prompt t m w).1 k1
      λ _ e2 k2. (cc, λ _. prompt-eq-ok t m w e1 ∙ ap inl (sym (same_again-eq-ok pass again e2)))

pub from_terminal-eq-ok :
    (t : Terminal) (m m' : Text) (confirm : Bool) (w : World) {p : List ℕ}
    → (from_terminal t m m' confirm w).0 ≡ ok p
    → (p ≢ []) × (t.answer m ≡ inl p) × (confirm ≡ true → t.answer m' ≡ inl p)
unfolding from_terminal
from_terminal-eq-ok t m m' confirm w {p} e = after_ok (prompt t m) _ w e λ pass e1 k1.
    after_ok (lift (not_empty pass)) (λ _. confirmed t pass m' confirm) (prompt t m w).1 k1
      λ _ e2 k2.
        let (same, again) = confirmed-eq-ok t pass m' confirm (prompt t m w).1 k2 in
        rw same (not_empty-eq-ok pass e2, prompt-eq-ok t m w e1, again)

contents-eq-ok :
    (p : Text) (w : World) {bs : List ℕ} → (contents p w).0 ≡ ok bs → w.files p ≡ some bs
contents-eq-ok p w {bs} e = go (w.files p) refl
  where
    go : (o : Option (List ℕ)) → w.files p ≡ o → w.files p ≡ some bs
    go (some xs) h = let same : ok xs ≡ ok bs = rw (h, contents) at e in h ∙ ap some (cc)
    go none h =
        let bad : ◌≡◌ {A = Result (List ℕ)} (err (io not_found)) (ok bs) = rw (h, contents) at e in
        absurd (cc)

pub read_file-eq-ok :
    (p : Text) (w : World) {bs : List ℕ} → (read_file p w).0 ≡ ok bs → w.files p ≡ some bs
unfolding read_file
read_file-eq-ok p w {bs} e =
    after_ok next_call (λ _. contents p) w e
      λ _ e1 k1. sym (next_call-Stands p (w.files p) w refl) ∙ contents-eq-ok p (next_call w).1 k1

from_file-eq-ok :
    (path : Text) (w : World) {p : List ℕ}
    → (from_file path w).0 ≡ ok p
    → (p ≢ []) × ((bs : List ℕ) × (w.files path ≡ some bs) × (p ≡ first_line bs))
unfolding from_file
from_file-eq-ok path w {p} e = after_ok (read_file path) _ w e λ bs e1 k1.
    after_ok (lift (not_empty (first_line bs))) (λ _. pure (first_line bs)) (read_file path w).1 k1
      λ _ e2 k2.
        let same : p ≡ first_line bs = cc in
        rw same (not_empty-eq-ok (first_line bs) e2, (bs, read_file-eq-ok path w e1, refl))

-- Where a passphrase is taken from: the first line of the file, or the answer to the prompt, which
-- is the answer to the second prompt too if it is asked for.
abbrev pub Source : Terminal → Option Text → Bool → World → List ℕ → Type 0
Source t (some path) confirm w p =
    (bs : List ℕ) × (rest : List ℕ) × (w.files path ≡ some bs)
    × (bs ≡ p ++ rest)
    × All NoBreak p
    × EndsLine rest
Source t none confirm w p =
    (t.answer (codes "  Passphrase : ") ≡ inl p)
    × (confirm ≡ true → t.answer (codes "  Confirm    : ") ≡ inl p)

-- A passphrase that `read_passphrase` gives is not empty. From a file, it is the file's bytes up
-- to the first line feed or carriage return, or all of them; from the terminal, it is what was
-- answered, and, where a confirmation is asked for, answered to both prompts.
pub read_passphrase-eq-ok :
    (t : Terminal) (pass_file : Option Text) (confirm : Bool) (w : World) {p : List ℕ}
    → (read_passphrase t pass_file confirm w).0 ≡ ok p
    → (p ≢ []) × Source t pass_file confirm w p
unfolding read_passphrase
read_passphrase-eq-ok t none confirm w e =
    let (ne, answer, again) =
      from_terminal-eq-ok t (codes "  Passphrase : ") (codes "  Confirm    : ") confirm w e in
    (ne, (answer, again))
read_passphrase-eq-ok t (some path) confirm w {p} e =
    let (ne, (bs, f, l)) = from_file-eq-ok path w e in
    let (rest, split, n, ends) = first_line_lem bs in (ne, rw l (bs, rest, f, split, n, ends))
