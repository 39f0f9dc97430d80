-- ===== src/Cipher/Nonce.antt =====
-- src/cipher.rs: `chunk_nonce` adds the index to the base nonce as a 96-bit number.
use cry.Base.{
  ℕ, zero, suc, [], ◌∷◌, ◌+◌, ◌*◌, ◌%◌, ◌^◌, ◌<◌, ◌≡◌, ap, ap₂, ◌∙◌, sym, List, ◌++◌, arith, leb,
  if◌then◌else◌, length, length-append, length-take, length-drop, take, drop, take-append-drop, All,
  All-append, IsByte, IsArray, IsU64,
}
use cry.Bytes.{to_be_bytes, from_be_bytes}
use cry.Bytes.RoundTrip.{
  to_be_bytes-IsArray, length-to_be_bytes, from_be_bytes-append, from_be_bytes-to_be_bytes,
  from_be_bytes-lt,
}
use cry.Cipher.{chunk_nonce}

All-take : (n : ℕ) (xs : List ℕ) → All IsByte xs → All IsByte (take n xs)
All-take zero xs h = tt
All-take (suc n) [] h = tt
All-take (suc n) (x ∷ xs) h = (h.0, All-take n xs h.1)

All-drop : (n : ℕ) (xs : List ℕ) → All IsByte xs → All IsByte (drop n xs)
All-drop zero xs h = h
All-drop (suc n) [] h = tt
All-drop (suc n) (x ∷ xs) h = All-drop n xs h.1

pub chunk_nonce-IsArray : (base : List ℕ) (i : ℕ) → IsArray 12 (chunk_nonce base i)
unfolding chunk_nonce
chunk_nonce-IsArray base i = (
  length-append (to_be_bytes 4 _) (to_be_bytes 8 _)
      ∙ ap₂ (λ m n. m + n) (length-to_be_bytes 4 _) (length-to_be_bytes 8 _),
  All-append IsByte _ _ (to_be_bytes-IsArray 4 _).1 (to_be_bytes-IsArray 8 _).1,
)

parts :
    (base : List ℕ)
    → IsArray 12 base
    → (from_be_bytes base ≡ from_be_bytes (take 4 base) * 2 ^ 64 + from_be_bytes (drop 4 base))
      × (from_be_bytes (take 4 base) < 2 ^ 32)
      × (from_be_bytes (drop 4 base) < 2 ^ 64)
parts base h = (
  ap from_be_bytes (sym (take-append-drop 4 base))
      ∙ from_be_bytes-append (take 4 base) (drop 4 base)
      ∙ (let e : length (drop 4 base) ≡ 8 = rw length-drop (omega arith) in rw e),
  from_be_bytes-lt 4 (take 4 base) (rw length-take (omega arith), All-take 4 base h.1),
  from_be_bytes-lt 8 (drop 4 base) (rw length-drop (omega arith), All-drop 4 base h.1),
)

-- Adding in two words with a carry is adding in one.
add_with_carry :
    (hi lo i : ℕ)
    → hi < 2 ^ 32
    → lo < 2 ^ 64
    → i < 2 ^ 64
    → (hi + (if leb (2 ^ 64) (lo + i) then 1 else 0)) % 2 ^ 32 * 2 ^ 64 + (lo + i) % 2 ^ 64
      ≡ (hi * 2 ^ 64 + lo + i) % 2 ^ 96
add_with_carry hi lo i h l k = ground arith

words_value :
    (hi lo : ℕ)
    → hi < 2 ^ 32
    → lo < 2 ^ 64
    → from_be_bytes (to_be_bytes 4 hi ++ to_be_bytes 8 lo) ≡ hi * 2 ^ 64 + lo
words_value hi lo h l =
    rw (from_be_bytes-append, length-to_be_bytes 8 lo)
      (ap₂ (λ a b. a * 2 ^ 64 + b) (from_be_bytes-to_be_bytes 4 hi h)
        (from_be_bytes-to_be_bytes 8 lo l))

-- For a base nonce of 12 bytes and an index below 2^64: a chunk's nonce, read as a 96-bit
-- big-endian number, is the base nonce plus the index, modulo 2^96.
pub chunk_nonce_lem :
    (base : List ℕ) (i : ℕ)
    → IsArray 12 base
    → IsU64 i
    → from_be_bytes (chunk_nonce base i) ≡ (from_be_bytes base + i) % 2 ^ 96
unfolding chunk_nonce
chunk_nonce_lem base i h hi =
    let (sum, top, low) = parts base h in
    words_value _ _ (omega arith) (omega arith)
    ∙ add_with_carry (from_be_bytes (take 4 base)) (from_be_bytes (drop 4 base)) i top low hi
    ∙ ap (λ n. (n + i) % 2 ^ 96) (sym sum)

-- No two indices below 2^64 have the same chunk nonce, whatever the base nonce of 12 bytes.
pub chunk_nonce-inj :
    (base : List ℕ) (i j : ℕ)
    → IsArray 12 base
    → IsU64 i
    → IsU64 j
    → chunk_nonce base i ≡ chunk_nonce base j
    → i ≡ j
chunk_nonce-inj base i j h hi hj e =
    omega (arith, chunk_nonce_lem base i h hi, chunk_nonce_lem base j h hj, ap from_be_bytes e)
