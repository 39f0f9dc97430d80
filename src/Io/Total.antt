-- ===== src/Io/Total.antt =====
-- `read_chunk` and `read_exact` end on every reader, and take no more than the reader has.
use cry.Base.{
  ℕ, zero, suc, ◌+◌, ◌-◌, ◌≤◌, ◌<◌, ◌≡◌, refl, List, [], ◌∷◌, ◌++◌, inl, inr, arith, ltb, leb,
  length, length-append, length-take, length-drop, Bool-cases,
}
use cry.Error.{IoError, interrupted, unexpected_eof, other, io, Result, ok, err, panicked, stuck}
use cry.Io.Steps.{
  loop_full, loop_eof, loop_empty, loop_failed, loop_interrupted, loop_whole, loop_part,
}
use cry.Io.{Reader, arrive, fail, read_chunk_loop, read_chunk}

-- The calls of `read` and the bytes that are in store.
abbrev pub weight : Reader → ℕ
weight [] = 0
weight (arrive bs ∷ r) = suc (length bs + weight r)
weight (fail e ∷ r) = suc (weight r)

-- A fill from `held` bytes on ends with at most `size` bytes, all of them from the reader, or with
-- the error of a failing call.
abbrev pub Fills : ℕ → ℕ → Reader → Result (List ℕ × Reader) → Type 0
Fills size held r (ok (buf, r')) = (length buf ≤ size) × (weight r' + length buf ≤ weight r + held)
Fills size held r (err e) = (x : IoError) × (e ≡ io x)
Fills size held r panicked = ⊥
Fills size held r stuck = ⊥

Fills-weaken :
    (size held held' : ℕ) (r r' : Reader) (x : Result (List ℕ × Reader))
    → weight r' + held' ≤ weight r + held
    → Fills size held' r' x
    → Fills size held r x
Fills-weaken size held held' r r' (ok _) h f = omega arith
Fills-weaken size held held' r r' (err e) h f = f
Fills-weaken size held held' r r' panicked h f = absurd f
Fills-weaken size held held' r r' stuck h f = absurd f

Fills-full :
    (fuel size : ℕ) (buf : List ℕ) (r : Reader)
    → length buf ≤ size
    → size ≤ length buf
    → Fills size (length buf) r (read_chunk_loop (suc fuel) size buf r)
Fills-full fuel size buf r h k = rw (loop_full fuel size buf r k) (h, omega arith)

pub read_chunk_loop-Fills :
    (fuel size : ℕ) (buf : List ℕ) (r : Reader)
    → length r < fuel
    → length buf ≤ size
    → Fills size (length buf) r (read_chunk_loop fuel size buf r)
read_chunk_loop-Fills zero size buf r f h = absurd (omega arith)
read_chunk_loop-Fills (suc fuel) size buf [] f h = elim (Bool-cases (ltb (length buf) size)) [
  | inl e ↦ rw (loop_eof fuel size buf (ground arith)) (h, omega arith)
  | inr e ↦ Fills-full fuel size buf [] h (ground arith)
]
read_chunk_loop-Fills (suc fuel) size buf (arrive [] ∷ r) f h =
    elim (Bool-cases (ltb (length buf) size)) [
      | inl e ↦ rw (loop_empty fuel size buf (ground arith) r) (h, omega arith)
      | inr e ↦ Fills-full fuel size buf (arrive [] ∷ r) h (ground arith)
    ]
read_chunk_loop-Fills (suc fuel) size buf (fail interrupted ∷ r) f h =
    elim (Bool-cases (ltb (length buf) size)) [
      | inl e ↦ rw (loop_interrupted fuel size buf (ground arith) r) (
          Fills-weaken size _ (length buf) (fail interrupted ∷ r) r _ (omega arith)
            (read_chunk_loop-Fills fuel size buf r (omega arith) h))
      | inr e ↦ Fills-full fuel size buf (fail interrupted ∷ r) h (ground arith)
    ]
read_chunk_loop-Fills (suc fuel) size buf (fail unexpected_eof ∷ r) f h =
    elim (Bool-cases (ltb (length buf) size)) [
      | inl e ↦
          rw (loop_failed fuel size buf (ground arith) unexpected_eof r (λ e. cc))
            (unexpected_eof, refl)
      | inr e ↦ Fills-full fuel size buf (fail unexpected_eof ∷ r) h (ground arith)
    ]
read_chunk_loop-Fills (suc fuel) size buf (fail (other k) ∷ r) f h =
    elim (Bool-cases (ltb (length buf) size)) [
      | inl e ↦ rw (loop_failed fuel size buf (ground arith) (other k) r (λ e. cc)) (other k, refl)
      | inr e ↦ Fills-full fuel size buf (fail (other k) ∷ r) h (ground arith)
    ]
read_chunk_loop-Fills (suc fuel) size buf (arrive (b ∷ bs) ∷ r) f h =
    elim (Bool-cases (ltb (length buf) size)) [
      | inl e ↦ elim (Bool-cases (leb (length (b ∷ bs)) (size - length buf))) [
        | inl whole ↦ rw (loop_whole fuel size buf (ground arith) b bs r (ground arith)) (
            Fills-weaken size _ (length (buf ++ (b ∷ bs))) (arrive (b ∷ bs) ∷ r) r _
              (rw length-append (omega arith))
              (read_chunk_loop-Fills fuel size (buf ++ (b ∷ bs)) r (omega arith)
                (rw length-append (ground arith))))
        | inr part ↦
            rw (loop_part fuel size buf b bs r (omega arith) (ground arith) (ground arith)) (
              rw (length-append, length-take) (ground arith),
              rw (length-append, length-take, length-drop) (ground arith),
            )
      ]
      | inr e ↦ Fills-full fuel size buf (arrive (b ∷ bs) ∷ r) h (ground arith)
    ]

-- `read_chunk` ends on every reader: with no more bytes than the buffer has room for, which the
-- reader no longer has, or with the error of a failing call.
pub read_chunk-Fills : (size : ℕ) (r : Reader) → Fills size 0 r (read_chunk size r)
unfolding read_chunk
read_chunk-Fills size r =
    read_chunk_loop-Fills (suc (length r)) size [] r (omega arith) (omega arith)
