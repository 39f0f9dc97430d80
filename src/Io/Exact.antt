-- ===== src/Io/Exact.antt =====
-- `read_exact` over a clean reader, from both sides: a field that stands at the front is read, and
-- what is read stands at the front.
use mathlib.Core.Path.{subst}
use cry.Base.{
  ℕ, ◌≡◌, ap, ◌∙◌, sym, List, ◌++◌, inl, inr, arith, leb, length, length-append, length-take, take,
  drop, take-append, drop-append, take-append-drop, Bool-cases,
}
use cry.Error.{Result, ok}
use cry.Io.{Reader, read_exact}
use cry.Io.Clean.{IsClean, bytes_of, read_exact-IsClean, read_exact_short}

-- What is left of a reader after a field `x`, when `rest` follows it.
abbrev pub Leaves : Result (List ℕ × Reader) → List ℕ → List ℕ → Type 0
Leaves res x rest = (r' : Reader) × (res ≡ ok (x, r')) × IsClean r' × (bytes_of r' ≡ rest)

pub read_exact-append :
    (n : ℕ) (r : Reader) (xs rest : List ℕ)
    → IsClean r
    → length xs ≡ n
    → bytes_of r ≡ xs ++ rest
    → Leaves (read_exact n r) xs rest
read_exact-append n r xs rest c l e =
    let (r', d, c', b) = read_exact-IsClean n r c (rw (e, length-append) (omega arith)) in
    (
      r',
      rw (d, e) (ap (λ x. ok (x, r')) (take-append n xs rest l)),
      c',
      b ∙ ap (drop n) e ∙ drop-append n xs rest l,
    )

pub read_exact-eq-ok :
    (n : ℕ) (r : Reader) {xs : List ℕ} {r' : Reader}
    → IsClean r
    → read_exact n r ≡ ok (xs, r')
    → (bytes_of r ≡ xs ++ bytes_of r') × (length xs ≡ n) × IsClean r'
read_exact-eq-ok n r {xs} {r'} c h = elim (Bool-cases (leb n (length (bytes_of r)))) [
  | inl e ↦
      let (s, d, c', b) = read_exact-IsClean n r c (ground arith) in
      let g : ◌≡◌ {A = Result (List ℕ × Reader)} (ok (take n (bytes_of r), s)) (ok (xs, r')) =
        rw d at h in
      let p : take n (bytes_of r) ≡ xs = cc in
      let q : s ≡ r' = cc in
      (
        rw (← p, ← q, b) (sym (take-append-drop n (bytes_of r))),
        rw (← p, length-take) (ground arith),
        subst IsClean q c',
      )
  | inr e ↦ cc (h, read_exact_short n r c (ground arith))
]
