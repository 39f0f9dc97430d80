-- ===== src/Cipher/Pieces.antt =====
-- The chunks of a plaintext, as a reference for the loop of `encrypt_chunks` in src/cipher.rs.
use cry.Base.{
  ℕ, zero, suc, ◌+◌, ◌-◌, ◌/◌, ◌^◌, ◌≤◌, ◌<◌, ◌≡◌, refl, ap, ◌∙◌, List, [], ◌∷◌, ◌++◌, arith,
  length, length-take, length-drop, take, drop, take-append-drop, All,
}
use mathlib.Core.List.{flatten}

-- Runs of `size` bytes, and a shorter last one if some are left over.
unfoldable pub pieces_within : ℕ → ℕ → List ℕ → List (List ℕ)
pieces_within zero size bs = []
pieces_within (suc fuel) size [] = []
pieces_within (suc fuel) size (b ∷ bs) =
    take size (b ∷ bs) ∷ pieces_within fuel size (drop size (b ∷ bs))

-- Each piece takes a byte at least, so there are at most as many pieces as bytes.
unfoldable pub pieces : ℕ → List ℕ → List (List ℕ)
unfolding pieces_within
pieces size bs = pieces_within (length bs) size bs

pub pieces_within-nil : (f size : ℕ) → pieces_within f size [] ≡ []
unfolding pieces_within
pieces_within-nil zero size = refl
pieces_within-nil (suc f) size = refl

pub pieces_within_fuel :
    (f g size : ℕ) (bs : List ℕ)
    → 0 < size
    → length bs ≤ f
    → length bs ≤ g
    → pieces_within f size bs ≡ pieces_within g size bs
unfolding pieces_within
pieces_within_fuel zero zero size bs h p q = refl
pieces_within_fuel zero (suc g) size [] h p q = refl
pieces_within_fuel zero (suc g) size (b ∷ bs) h p q = absurd (omega arith)
pieces_within_fuel (suc f) zero size [] h p q = refl
pieces_within_fuel (suc f) zero size (b ∷ bs) h p q = absurd (omega arith)
pieces_within_fuel (suc f) (suc g) size [] h p q = refl
pieces_within_fuel (suc f) (suc g) size (b ∷ bs) h p q = ap (◌∷◌ (take size (b ∷ bs))) (
    pieces_within_fuel f g size (drop size (b ∷ bs)) h (rw length-drop (omega arith))
      (rw length-drop (omega arith)))

-- The pieces put together are the plaintext.
pub flatten-pieces_within :
    (f size : ℕ) (bs : List ℕ) → 0 < size → length bs ≤ f → flatten (pieces_within f size bs) ≡ bs
unfolding pieces_within flatten
flatten-pieces_within zero size [] h p = refl
flatten-pieces_within zero size (b ∷ bs) h p = absurd (omega arith)
flatten-pieces_within (suc f) size [] h p = refl
flatten-pieces_within (suc f) size (b ∷ bs) h p =
    ap (λ xs. take size (b ∷ bs) ++ xs)
      (flatten-pieces_within f size (drop size (b ∷ bs)) h (rw length-drop (omega arith)))
    ∙ take-append-drop size (b ∷ bs)

pub flatten-pieces : (size : ℕ) (bs : List ℕ) → 0 < size → flatten (pieces size bs) ≡ bs
unfolding pieces
flatten-pieces size bs h = flatten-pieces_within (length bs) size bs h (omega arith)

-- No piece is longer than a chunk.
pub pieces_within-le :
    (f size : ℕ) (bs : List ℕ) → All (λ p. length p ≤ size) (pieces_within f size bs)
unfolding pieces_within
pieces_within-le zero size bs = tt
pieces_within-le (suc f) size [] = tt
pieces_within-le (suc f) size (b ∷ bs) =
    (rw length-take (omega arith), pieces_within-le f size (drop size (b ∷ bs)))

-- With chunks of 1 MiB there are as many pieces as `div_ceil` says: the quotient, rounded up.
pub length-pieces_within :
    (f : ℕ) (bs : List ℕ)
    → length bs ≤ f
    → length (pieces_within f (2 ^ 20) bs) ≡ (length bs + (2 ^ 20 - 1)) / 2 ^ 20
unfolding pieces_within
length-pieces_within zero [] p = refl
length-pieces_within zero (b ∷ bs) p = absurd (omega arith)
length-pieces_within (suc f) [] p = refl
length-pieces_within (suc f) (b ∷ bs) p = omega (
  arith,
  length-pieces_within f (drop (2 ^ 20) (b ∷ bs)) (rw length-drop (omega arith)),
  length-drop (2 ^ 20) (b ∷ bs),
)

pub pieces-le : (bs : List ℕ) → All (λ p. length p ≤ 2 ^ 20) (pieces (2 ^ 20) bs)
unfolding pieces
pieces-le bs = pieces_within-le (length bs) (2 ^ 20) bs

pub length-pieces :
    (bs : List ℕ) → length (pieces (2 ^ 20) bs) ≡ (length bs + (2 ^ 20 - 1)) / 2 ^ 20
unfolding pieces
length-pieces bs = length-pieces_within (length bs) bs (omega arith)
