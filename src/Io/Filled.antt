-- ===== src/Io/Filled.antt =====
-- src/cipher.rs: what `read_chunk` makes of the calls of `read`, on every reader.
use mathlib.Core.Path.{subst}
use cry.Base.{
  ℕ, zero, suc, ◌+◌, ◌-◌, ◌≤◌, ◌<◌, ◌≡◌, ◌≢◌, refl, ◌∙◌, sym, List, [], ◌∷◌, ◌++◌, append_assoc,
  append-nil, inl, inr, ◌⊎◌, arith, ltb, leb, length, length-append, length-take, take, drop,
  Bool-cases,
}
use cry.Error.{IoError, interrupted, unexpected_eof, other, io, Result, ok, err, panicked, stuck}
use cry.Io.Steps.{
  loop_full, loop_eof, loop_empty, loop_failed, loop_interrupted, loop_whole, loop_part,
}
use cry.Io.{Reader, arrive, fail, read_chunk_loop, read_chunk}

-- Calls of `read` that are interrupted or give bytes, from a reader to one that is left, and the
-- bytes that they give. The last may leave some of the bytes that were at hand.
pub data Gives : Reader → List ℕ → Reader → Type 0 where
  nothing : {r : Reader} → Gives r [] r
  again : {r r' : Reader} {xs : List ℕ} → Gives r xs r' → Gives (fail interrupted ∷ r) xs r'
  whole :
      {r r' : Reader} {b : ℕ} {bs xs : List ℕ}
      → Gives r xs r'
      → Gives (arrive (b ∷ bs) ∷ r) ((b ∷ bs) ++ xs) r'
  part :
      {r : Reader} {bs : List ℕ} (n : ℕ)
      → n < length bs
      → Gives (arrive bs ∷ r) (take n bs) (arrive (drop n bs) ∷ r)

-- The calls stop with `n` bytes in the buffer: it is full, or the next call gives no bytes.
abbrev pub Stops : ℕ → ℕ → Reader → Reader → Type 0
Stops size n r r' =
    ((n ≡ size) × (r' ≡ r)) ⊎ ((n < size) × (((r ≡ []) × (r' ≡ [])) ⊎ (r ≡ arrive [] ∷ r')))

-- The outcome of filling the rest of a buffer that holds `buf`: what the calls of `read` give, up
-- to where they stop; or the error of the first call that fails, other than by being interrupted,
-- before the buffer is full.
abbrev pub Filled : ℕ → List ℕ → Reader → Result (List ℕ × Reader) → Type 0
Filled size buf r (ok (out, r')) =
    (xs : List ℕ) × (r1 : Reader) × Gives r xs r1
    × (out ≡ buf ++ xs)
    × Stops size (length buf + length xs) r1 r'
Filled size buf r (err e) =
    (xs : List ℕ) × (x : IoError) × (r1 : Reader) × Gives r xs (fail x ∷ r1)
    × (length buf + length xs < size)
    × (x ≢ interrupted)
    × (e ≡ io x)
Filled size buf r panicked = ⊥
Filled size buf r stuck = ⊥

Filled-again :
    (size : ℕ) (buf : List ℕ) (r : Reader) (x : Result (List ℕ × Reader))
    → Filled size buf r x
    → Filled size buf (fail interrupted ∷ r) x
Filled-again size buf r (ok (out, r')) (xs, r1, g, e, s) = (xs, r1, again g, e, s)
Filled-again size buf r (err e) (xs, x, r1, g, l, ne, same) = (xs, x, r1, again g, l, ne, same)
Filled-again size buf r panicked h = absurd h
Filled-again size buf r stuck h = absurd h

Filled-whole :
    (size : ℕ) (buf : List ℕ) (b : ℕ) (bs : List ℕ) (r : Reader) (x : Result (List ℕ × Reader))
    → Filled size (buf ++ (b ∷ bs)) r x
    → Filled size buf (arrive (b ∷ bs) ∷ r) x
Filled-whole size buf b bs r (ok (out, r')) (xs, r1, g, e, s) =
    let same : length (buf ++ (b ∷ bs)) + length xs ≡ length buf + length ((b ∷ bs) ++ xs) =
      rw (length-append, length-append) (omega arith) in
    (
      (b ∷ bs) ++ xs,
      r1,
      whole g,
      e ∙ append_assoc buf (b ∷ bs) xs,
      subst (λ n. Stops size n r1 r') same s,
    )
Filled-whole size buf b bs r (err e) (xs, x, r1, g, l, ne, same) = (
  (b ∷ bs) ++ xs,
  x,
  r1,
  whole g,
  omega (arith, l, length-append buf (b ∷ bs), length-append (b ∷ bs) xs),
  ne,
  same,
)
Filled-whole size buf b bs r panicked h = absurd h
Filled-whole size buf b bs r stuck h = absurd h

Filled-full :
    (fuel size : ℕ) (buf : List ℕ) (r : Reader)
    → length buf ≤ size
    → size ≤ length buf
    → Filled size buf r (read_chunk_loop (suc fuel) size buf r)
Filled-full fuel size buf r h k =
    rw (loop_full fuel size buf r k) ([], r, nothing, sym (append-nil buf), inl (omega arith, refl))

module _ (fuel size : ℕ) (buf : List ℕ) (room : length buf < size) where
  Filled-eof : Filled size buf [] (read_chunk_loop (suc fuel) size buf [])
  Filled-eof =
      rw (loop_eof fuel size buf room)
        ([], [], nothing, sym (append-nil buf), inr (omega arith, inl (refl, refl)))

  Filled-empty :
      (r : Reader)
      → Filled size buf (arrive [] ∷ r) (read_chunk_loop (suc fuel) size buf (arrive [] ∷ r))
  Filled-empty r =
      rw (loop_empty fuel size buf room r)
        ([], arrive [] ∷ r, nothing, sym (append-nil buf), inr (omega arith, inr refl))

  Filled-failed :
      (x : IoError) (r : Reader)
      → x ≢ interrupted
      → Filled size buf (fail x ∷ r) (read_chunk_loop (suc fuel) size buf (fail x ∷ r))
  Filled-failed x r ne =
      rw (loop_failed fuel size buf room x r ne) ([], x, r, nothing, omega arith, ne, refl)

  Filled-part :
      (b : ℕ) (bs : List ℕ) (r : Reader)
      → 0 < fuel
      → size - length buf < length (b ∷ bs)
      → Filled size buf
          (arrive (b ∷ bs) ∷ r)
          (read_chunk_loop (suc fuel) size buf (arrive (b ∷ bs) ∷ r))
  Filled-part b bs r f h =
      let n = size - length buf in
      rw (loop_part fuel size buf b bs r f room h) (
        take n (b ∷ bs),
        arrive (drop n (b ∷ bs)) ∷ r,
        part n h,
        refl,
        inl (rw length-take (omega arith), refl),
      )

  -- A round where there is room, if the rounds behind it are as they should be.
  round-Filled :
      ((buf' : List ℕ) (r : Reader)
        → length r < fuel
        → length buf' ≤ size
        → Filled size buf' r (read_chunk_loop fuel size buf' r))
      → (r : Reader) → length r < suc fuel
      → Filled size buf r (read_chunk_loop (suc fuel) size buf r)
  round-Filled rest [] f = Filled-eof
  round-Filled rest (arrive [] ∷ r) f = Filled-empty r
  round-Filled rest (fail unexpected_eof ∷ r) f = Filled-failed unexpected_eof r λ e. cc
  round-Filled rest (fail (other k) ∷ r) f = Filled-failed (other k) r λ e. cc
  round-Filled rest (fail interrupted ∷ r) f =
      rw (loop_interrupted fuel size buf room r)
        (Filled-again size buf r _ (rest buf r (omega arith) (omega arith)))
  round-Filled rest (arrive (b ∷ bs) ∷ r) f =
      elim (Bool-cases (leb (length (b ∷ bs)) (size - length buf))) [
        | inl e ↦ rw (loop_whole fuel size buf room b bs r (ground arith)) (
            Filled-whole size buf b bs r _
              (rest (buf ++ (b ∷ bs)) r (omega arith) (rw length-append (ground arith))))
        | inr e ↦ Filled-part b bs r (omega arith) (ground arith)
      ]

read_chunk_loop-Filled :
    (fuel size : ℕ) (buf : List ℕ) (r : Reader)
    → length r < fuel
    → length buf ≤ size
    → Filled size buf r (read_chunk_loop fuel size buf r)
read_chunk_loop-Filled zero size buf r f h = absurd (omega arith)
read_chunk_loop-Filled (suc fuel) size buf r f h = elim (Bool-cases (ltb (length buf) size)) [
  | inl e ↦ round-Filled fuel size buf (ground arith) (read_chunk_loop-Filled fuel size) r f
  | inr e ↦ Filled-full fuel size buf r h (ground arith)
]

-- On every reader, `read_chunk` ends: with exactly the bytes that the calls of `read` give, going
-- on behind calls that are interrupted, until the buffer is full or a call gives no bytes, and
-- with the reader that is then left; or with the error of the first call that fails otherwise, if
-- one does before that.
pub read_chunk-Filled : (size : ℕ) (r : Reader) → Filled size [] r (read_chunk size r)
unfolding read_chunk
read_chunk-Filled size r =
    read_chunk_loop-Filled (suc (length r)) size [] r (omega arith) (omega arith)
