-- ===== src/Main/Verdict.antt =====
-- src/main.rs: what the exit status of `cry verify` says.
use cry.Base.{ℕ, ◌≡◌, ◌↔◌, refl, ap, ◌∙◌, sym, List, [], some, Text}
use cry.Error.{Result, ok, err, panicked, stuck}
use cry.Crypto.{Crypto, KeyCrates}
use cry.CryDna.{verify_content_signature}
use cry.CryDna.Verify.{Accepts, verify_content_signature_iff}
use cry.Fs.{World, lift, carry_on, next_call, read_file}
use cry.File.{Os}
use cry.Passphrase.{Terminal}
use cry.Commands.{VerifyArgs, slice_ends, verify_command}
use cry.Commands.SignVerify.{slice_ends-Spells}
use cry.Process.{System}
use cry.Bench.{Floats}
use cry.Ssh.{Platform}
use cry.Main.{State, verify, forget, exit_status, main}

-- A file is read where no call fails.
read_file_calm :
    (p : Text) (w : World) (bs : List ℕ)
    → w.faults ≡ []
    → w.files p ≡ some bs
    → read_file p w ≡ (ok bs, w)
unfolding read_file next_call
read_file_calm p w bs f e = rw (f, e) refl

-- The status behind a verdict that is followed by a step which a good verdict makes succeed.
verdict_status :
    (verdict next : Result (Unit {0})) (w : World)
    → (verdict ≡ ok tt → next ≡ ok tt)
    → ((exit_status (forget (carry_on (λ _. lift next) verdict w).0) ≡ some 0) ↔ (verdict ≡ ok tt))
      × ((carry_on (λ _. lift next) verdict w).1 ≡ w)
unfolding exit_status
verdict_status (ok tt) next w good =
    ((λ h. refl, λ h. ap (λ r. exit_status (forget r)) (good refl)), refl)
verdict_status (err e) next w good = ((λ h. absurd (cc), λ h. absurd (cc)), refl)
verdict_status panicked next w good = ((λ h. absurd (cc), λ h. absurd (cc)), refl)
verdict_status stuck next w good = ((λ h. absurd (cc), λ h. absurd (cc)), refl)

module _ (fl : Floats) (c : Crypto) (k : KeyCrates) (os : Os) (t : Terminal) (sys : System)
    (platform : Platform) where
  -- Where the file is there and no call fails: `cry verify` exits with 0 exactly when its two
  -- arguments spell bytes, 32 and 64 of them, the Ed25519 crate takes the first for a key, and
  -- accepts the second under it as a signature of the hash of the file's contents; and it changes
  -- nothing, whatever it exits with.
  pub verify_exit_iff :
      (args : VerifyArgs) (content : List ℕ) (s : State)
      → s.world.faults ≡ []
      → s.world.files args.file ≡ some content
      → (((main fl c k os t sys platform (some (verify args)) s).0 ≡ some 0)
          ↔ Accepts c args.public_key content args.signature)
        × ((main fl c k os t sys platform (some (verify args)) s).1 ≡ s)
  unfolding main verify_command exit_status
  verify_exit_iff args content s f e =
      let verdict = λ (bs : List ℕ). verify_content_signature c args.public_key bs args.signature in
      let next = slice_ends args.signature in
      let judged : verify_command c k os t args s.world
          ≡ carry_on (λ _. lift next) (verdict content) s.world =
        ap (λ x. carry_on (λ bs w. carry_on (λ _. lift next) (verdict bs) w) x.0 x.1)
          (read_file_calm args.file s.world content f e) in
      let accepted = verify_content_signature_iff c args.public_key args.signature content in
      let sliced : verdict content ≡ ok tt → next ≡ ok tt = λ h.
        let (pk, sig, hp, hs, lp, ls, a, v) = accepted.0 h in
        slice_ends-Spells args.signature sig hs ls in
      let (status, same) = verdict_status (verdict content) next s.world sliced in
      let code = ap (λ x. exit_status (forget x.0)) judged in
      (
        (λ h. accepted.0 (status.0 (sym code ∙ h)), λ h. code ∙ status.1 (accepted.1 h)),
        ap (λ x. record s { world = x.1 }) judged ∙ ap (λ w. record s { world = w }) same,
      )
