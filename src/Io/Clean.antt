-- ===== src/Io/Clean.antt =====
-- `read_chunk` and `read_exact` over a reader whose calls fail only by being interrupted: however
-- the bytes arrive, they are cut where the buffer ends.
use cry.Base.{
  ℕ, zero, suc, ◌-◌, ◌≤◌, ◌<◌, ◌≡◌, List, [], ◌∷◌, ◌++◌, append-nil, append_assoc, inl, inr, arith,
  ltb, leb, length, length-drop, take_all, drop_all, length-append, length-take, take, drop,
  take-append_ge, drop-append_ge, take-append_le, drop-append_le, true, false, Bool-cases, ◌==◌,
}
use mathlib.Core.Path.{subst}
use cry.Error.{interrupted, unexpected_eof, other, io, Result, ok, err}
use cry.Io.{Reader, arrive, fail, read_chunk_loop, read_chunk, read_exact}
use cry.Io.Total.{weight}
use cry.Io.Steps.{loop_full, loop_eof, loop_interrupted, loop_whole, loop_part}

-- All the bytes that a reader has in store.
unfoldable pub bytes_of : Reader → List ℕ
bytes_of [] = []
bytes_of (arrive bs ∷ r) = bs ++ bytes_of r
bytes_of (fail e ∷ r) = bytes_of r

pub length-bytes_of-le : (r : Reader) → length (bytes_of r) ≤ weight r
unfolding bytes_of
length-bytes_of-le [] = omega arith
length-bytes_of-le (arrive bs ∷ r) = rw length-append (omega (arith, length-bytes_of-le r))
length-bytes_of-le (fail e ∷ r) = omega (arith, length-bytes_of-le r)

-- No call fails for good, and none gives zero bytes before the end.
abbrev pub IsClean : Reader → Type 0
IsClean [] = Unit
IsClean (arrive bs ∷ r) = (1 ≤ length bs) × IsClean r
IsClean (fail interrupted ∷ r) = IsClean r
IsClean (fail unexpected_eof ∷ r) = ⊥
IsClean (fail (other k) ∷ r) = ⊥

-- The outcome of reading `n` bytes where `all` are in store: the first `n`, and a clean reader over
-- what follows them.
abbrev pub Takes : ℕ → List ℕ → List ℕ → Result (List ℕ × Reader) → Type 0
Takes n all front x =
    (r' : Reader) × (x ≡ ok (front ++ take n all, r')) × IsClean r' × (bytes_of r' ≡ drop n all)

Takes-zero :
    (n : ℕ) (buf : List ℕ) (r : Reader) → n ≡ 0 → IsClean r → Takes n (bytes_of r) buf (ok (buf, r))
Takes-zero n buf r e c = (r, rw (e, append-nil), c, rw e)

Takes-end : (n : ℕ) (buf : List ℕ) → Takes n (bytes_of []) buf (ok (buf, []))
unfolding bytes_of
Takes-end n buf = (
  [],
  rw (take_all {A = ℕ} n [] (omega arith), append-nil),
  tt,
  rw (drop_all {A = ℕ} n [] (omega arith)),
)

Takes-more :
    (size : ℕ) (buf bs : List ℕ) (r : Reader) (x : Result (List ℕ × Reader))
    → length bs ≤ size - length buf
    → Takes (size - length (buf ++ bs)) (bytes_of r) (buf ++ bs) x
    → Takes (size - length buf) (bytes_of (arrive bs ∷ r)) buf x
Takes-more size buf bs r x h (r', e, c, d) =
    let room : size - length (buf ++ bs) ≡ size - length buf - length bs =
      rw length-append (omega arith) in
    (
      r',
      unfold bytes_of in rw (e, room, take-append_ge _ bs (bytes_of r) h, append_assoc),
      c,
      unfold bytes_of in rw (d, room, drop-append_ge _ bs (bytes_of r) h),
    )

Takes-part :
    (n : ℕ) (buf bs : List ℕ) (r : Reader)
    → n < length bs
    → IsClean r
    → Takes n (bytes_of (arrive bs ∷ r)) buf (ok (buf ++ take n bs, arrive (drop n bs) ∷ r))
Takes-part n buf bs r h c = (
  arrive (drop n bs) ∷ r,
  unfold bytes_of in rw (take-append_le n bs (bytes_of r) (omega arith)),
  (rw length-drop (omega arith), c),
  unfold bytes_of in rw (drop-append_le n bs (bytes_of r) (omega arith)),
)

pub read_chunk_loop-Takes :
    (fuel size : ℕ) (buf : List ℕ) (r : Reader)
    → length r < fuel
    → IsClean r
    → Takes (size - length buf) (bytes_of r) buf (read_chunk_loop fuel size buf r)
unfolding bytes_of
read_chunk_loop-Takes zero size buf r f c = absurd (omega arith)
read_chunk_loop-Takes (suc fuel) size buf [] f c = elim (Bool-cases (ltb (length buf) size)) [
  | inl e ↦ rw (loop_eof fuel size buf (ground arith)) (Takes-end (size - length buf) buf)
  | inr e ↦ rw (loop_full fuel size buf [] (ground arith)) (Takes-zero _ buf [] (ground arith) c)
]
read_chunk_loop-Takes (suc fuel) size buf (arrive [] ∷ r) f c = absurd (omega arith)
read_chunk_loop-Takes (suc fuel) size buf (fail unexpected_eof ∷ r) f c = absurd c
read_chunk_loop-Takes (suc fuel) size buf (fail (other k) ∷ r) f c = absurd c
read_chunk_loop-Takes (suc fuel) size buf (fail interrupted ∷ r) f c =
    elim (Bool-cases (ltb (length buf) size)) [
      | inl e ↦
          rw (loop_interrupted fuel size buf (ground arith) r)
            (read_chunk_loop-Takes fuel size buf r (omega arith) c)
      | inr e ↦
          rw (loop_full fuel size buf (fail interrupted ∷ r) (ground arith))
            (Takes-zero _ buf (fail interrupted ∷ r) (ground arith) c)
    ]
read_chunk_loop-Takes (suc fuel) size buf (arrive (b ∷ bs) ∷ r) f c =
    elim (Bool-cases (ltb (length buf) size)) [
      | inl e ↦ elim (Bool-cases (leb (length (b ∷ bs)) (size - length buf))) [
        | inl whole ↦ rw (loop_whole fuel size buf (ground arith) b bs r (ground arith)) (
            Takes-more size buf (b ∷ bs) r _ (ground arith)
              (read_chunk_loop-Takes fuel size (buf ++ (b ∷ bs)) r (omega arith) c.1))
        | inr part ↦
            rw (loop_part fuel size buf b bs r (omega arith) (ground arith) (ground arith))
              (Takes-part (size - length buf) buf (b ∷ bs) r (ground arith) c.1)
      ]
      | inr e ↦
          rw (loop_full fuel size buf (arrive (b ∷ bs) ∷ r) (ground arith))
            (Takes-zero _ buf (arrive (b ∷ bs) ∷ r) (ground arith) c)
    ]

-- Over a reader whose calls fail only by being interrupted, `read_chunk` gives the first bytes up
-- to the size of the buffer, or all if there are fewer, however they arrive, and leaves what
-- follows.
pub read_chunk-IsClean :
    (size : ℕ) (r : Reader) → IsClean r → Takes size (bytes_of r) [] (read_chunk size r)
unfolding read_chunk
read_chunk-IsClean size r c =
    let e : size - 0 ≡ size = omega arith in
    subst (λ n. Takes n (bytes_of r) [] (read_chunk_loop (suc (length r)) size [] r)) e
      (read_chunk_loop-Takes (suc (length r)) size [] r (omega arith) c)

pub read_exact-IsClean :
    (size : ℕ) (r : Reader)
    → IsClean r
    → size ≤ length (bytes_of r)
    → Takes size (bytes_of r) [] (read_exact size r)
unfolding read_exact
read_exact-IsClean size r c h =
    let (r', e, c', d) = read_chunk-IsClean size r c in
    let full : (length (take size (bytes_of r)) == size) ≡ true = rw length-take (ground arith) in
    (r', rw (e, full), c', d)

-- Where the input ends first, `read_exact` says so.
pub read_exact_short :
    (size : ℕ) (r : Reader)
    → IsClean r
    → length (bytes_of r) < size
    → read_exact size r ≡ err (io unexpected_eof)
unfolding read_exact
read_exact_short size r c h =
    let (r', e, c', d) = read_chunk-IsClean size r c in
    let less : (length (take size (bytes_of r)) == size) ≡ false = rw length-take (ground arith) in
    rw (e, less)
