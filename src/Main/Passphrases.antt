-- ===== src/Main/Passphrases.antt =====
-- src/main.rs: the passphrases that `cry keygen`, `cry derive` and `cry ssh` go on with.
use cry.Base.{
  ℕ, ◌≡◌, ◌≢◌, ◌↔◌, ◌⊎◌, refl, inl, inr, List, [], ◌∷◌, Option, none, some, Bool, true, false, Text,
  codes,
}
use cry.Error.{empty_passphrase, ok, err}
use cry.Fs.{World, pure}
use cry.Passphrase.{Terminal, read_openssh_passphrase}
use cry.Passphrase.Accepted.{after_ok, from_terminal-eq-ok, read_passphrase-eq-ok}
use cry.Commands.{openssh_pass, derive_pass}
use cry.Main.{ssh_pass}

module _ (t : Terminal) where
  -- What the terminal has answered to the prompt for the passphrase.
  abbrev pub Answered : List ℕ → Type 0
  Answered p = t.answer (codes "  Passphrase : ") ≡ inl p

  -- A passphrase that `cry derive` goes on with is not empty, and is that of --passphrase, or
  -- without one what was answered to the prompt.
  pub derive_pass-eq-ok :
      (given : Option Text) (w : World) {p : List ℕ}
      → (derive_pass t given w).0 ≡ ok p
      → (p ≢ []) × ((given ≡ some p) ⊎ ((given ≡ none) × Answered p))
  unfolding derive_pass
  derive_pass-eq-ok (some []) w e = absurd (cc)
  derive_pass-eq-ok (some (b ∷ raw)) w {p} e =
      let same : p ≡ b ∷ raw = cc in rw same ((λ h. cc), inl refl)
  derive_pass-eq-ok none w e =
      let (ne, source) = read_passphrase-eq-ok t none false w e in (ne, inr (refl, source.0))

  -- A passphrase for an OpenSSH key that `cry keygen` or `cry derive` goes on with was asked for
  -- by --openssh, is not empty, and was answered to both prompts.
  pub openssh_pass-eq-ok :
      (openssh : Bool) (w : World) {p : List ℕ}
      → (openssh_pass t openssh w).0 ≡ ok (some p)
      → (openssh ≡ true)
        × (p ≢ [])
        × (t.answer (codes "  OpenSSH key passphrase : ") ≡ inl p)
        × (t.answer (codes "  Confirm OpenSSH passphrase : ") ≡ inl p)
  unfolding openssh_pass read_openssh_passphrase
  openssh_pass-eq-ok false w e = absurd (cc)
  openssh_pass-eq-ok true w {p} e =
      after_ok (read_openssh_passphrase t) (λ q. pure (some q)) w e
        λ q e1 k1.
          let (ne, first, again) =
            from_terminal-eq-ok t (codes "  OpenSSH key passphrase : ")
              (codes "  Confirm OpenSSH passphrase : ") true w e1 in
          let same : p ≡ q = cc in rw same (refl, ne, first, again refl)

  -- `cry ssh` goes on with an empty passphrase exactly when --passphrase gives one, which `cry
  -- derive` refuses.
  pub ssh_pass_empty_iff :
      (given : Option Text) (w : World)
      → (((ssh_pass t given w).0 ≡ ok []) ↔ (given ≡ some []))
        × (derive_pass t (some []) w ≡ (err empty_passphrase, w))
  unfolding ssh_pass derive_pass
  ssh_pass_empty_iff (some []) w = ((λ h. refl, λ h. refl), refl)
  ssh_pass_empty_iff (some (b ∷ raw)) w = ((λ h. cc, λ h. cc), refl)
  ssh_pass_empty_iff none w =
      ((λ h. absurd ((read_passphrase-eq-ok t none false w h).0 refl), λ h. absurd (cc)), refl)
