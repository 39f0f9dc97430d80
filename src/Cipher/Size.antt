-- ===== src/Cipher/Size.antt =====
-- src/cipher.rs: how long the body of an encrypted file is.
use mathlib.Core.List.{flatten}
use cry.Base.{ℕ, ◌+◌, ◌*◌, ◌-◌, ◌/◌, ◌≡◌, refl, ap, List, [], ◌∷◌, arith, length, length-append}
use cry.Crypto.{Crypto}
use cry.Header.{Algorithm}
use cry.Cipher.{chunk_size}
use cry.Cipher.Frames.{Sealed, length-frame_before}
use cry.Cipher.Pieces.{pieces, length-pieces, flatten-pieces}

module _ (c : Crypto) (key nonce : List ℕ) (algo : Algorithm) (aad : List ℕ) where
  -- A frame has twenty bytes more than its plaintext: four of length and sixteen of tag.
  length-Sealed :
      (i : ℕ) (ps : List (List ℕ)) (body : List ℕ)
      → Sealed c key nonce algo aad i ps body
      → length body ≡ length (flatten ps) + 20 * length ps
  unfolding flatten
  length-Sealed i [] body e = rw e refl
  length-Sealed i (p ∷ ps) body (ct, rest, sealed, l, e, more) = omega (
    arith,
    ap length e,
    length-frame_before ct rest,
    length-append p (flatten ps),
    length-Sealed (i + 1) ps rest more,
  )

  pub length-Sealed-pieces :
      (bs body : List ℕ)
      → Sealed c key nonce algo aad 0 (pieces chunk_size bs) body
      → length body ≡ length bs + 20 * ((length bs + (chunk_size - 1)) / chunk_size)
  length-Sealed-pieces bs body h = omega (
    arith,
    length-Sealed 0 (pieces chunk_size bs) body h,
    ap length (flatten-pieces chunk_size bs (omega arith)),
    length-pieces bs,
  )
