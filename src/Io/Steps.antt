-- ===== src/Io/Steps.antt =====
-- The rounds of the loop of `read_chunk`, one lemma for each outcome of `read`.
use cry.Base.{
  ℕ, zero, suc, ◌-◌, ◌≤◌, ◌<◌, ◌≡◌, ◌≢◌, refl, ◌∙◌, List, [], ◌∷◌, ◌++◌, true, false, arith, ltb,
  leb, length, length-append, length-take, take, drop,
}
use cry.Error.{IoError, interrupted, unexpected_eof, other, io, Result, ok, err}
use cry.Io.{Reader, arrive, fail, got, read, read_chunk_round, read_chunk_loop}

pub loop_full :
    (fuel size : ℕ) (buf : List ℕ) (r : Reader)
    → size ≤ length buf
    → read_chunk_loop (suc fuel) size buf r ≡ ok (buf, r)
unfolding read_chunk_loop
loop_full fuel size buf r h = let e : ltb (length buf) size ≡ false = ground arith in rw e

read_whole :
    (room : ℕ) (bs : List ℕ) (r : Reader)
    → length bs ≤ room
    → read room (arrive bs ∷ r) ≡ (got bs, r)
unfolding read
read_whole room bs r h = let e : leb (length bs) room ≡ true = ground arith in rw e

read_part :
    (room : ℕ) (bs : List ℕ) (r : Reader)
    → room < length bs
    → read room (arrive bs ∷ r) ≡ (got (take room bs), arrive (drop room bs) ∷ r)
unfolding read
read_part room bs r h = let e : leb (length bs) room ≡ false = ground arith in rw e

round_got :
    (again : List ℕ → Reader → Result (List ℕ × Reader)) (buf xs : List ℕ) (r : Reader)
    → 1 ≤ length xs
    → read_chunk_round again buf (got xs, r) ≡ again (buf ++ xs) r
round_got again buf [] r h = absurd (omega arith)
round_got again buf (x ∷ xs) r h = refl

module _ (fuel size : ℕ) (buf : List ℕ) (room : length buf < size) where
  has_room : ltb (length buf) size ≡ true
  has_room = ground arith

  pub loop_eof : read_chunk_loop (suc fuel) size buf [] ≡ ok (buf, [])
  unfolding read_chunk_loop
  loop_eof = unfold read in rw has_room

  pub loop_interrupted :
      (r : Reader)
      → read_chunk_loop (suc fuel) size buf (fail interrupted ∷ r) ≡ read_chunk_loop fuel size buf r
  unfolding read_chunk_loop
  loop_interrupted r = unfold read in rw has_room

  pub loop_failed :
      (e : IoError) (r : Reader)
      → e ≢ interrupted
      → read_chunk_loop (suc fuel) size buf (fail e ∷ r) ≡ err (io e)
  unfolding read_chunk_loop
  loop_failed interrupted r ne = absurd (ne refl)
  loop_failed unexpected_eof r ne = unfold read in rw has_room
  loop_failed (other k) r ne = unfold read in rw has_room

  pub loop_empty : (r : Reader) → read_chunk_loop (suc fuel) size buf (arrive [] ∷ r) ≡ ok (buf, r)
  unfolding read_chunk_loop
  loop_empty r = rw (has_room, read_whole (size - length buf) [] r (omega arith))

  pub loop_whole :
      (b : ℕ) (bs : List ℕ) (r : Reader)
      → length (b ∷ bs) ≤ size - length buf
      → read_chunk_loop (suc fuel) size buf (arrive (b ∷ bs) ∷ r)
        ≡ read_chunk_loop fuel size (buf ++ (b ∷ bs)) r
  unfolding read_chunk_loop
  loop_whole b bs r h = rw (has_room, read_whole (size - length buf) (b ∷ bs) r h)

-- A run of bytes that is longer than the room left fills the buffer, and the next round stops.
pub loop_part :
    (fuel size : ℕ) (buf : List ℕ) (b : ℕ) (bs : List ℕ) (r : Reader)
    → 0 < fuel
    → length buf < size
    → size - length buf < length (b ∷ bs)
    → read_chunk_loop (suc fuel) size buf (arrive (b ∷ bs) ∷ r)
      ≡ ok
          (buf ++ take (size - length buf) (b ∷ bs), arrive (drop (size - length buf) (b ∷ bs)) ∷ r)
unfolding read_chunk_loop
loop_part zero size buf b bs r f room h = absurd (omega arith)
loop_part (suc fuel) size buf b bs r f room h =
    let t : ltb (length buf) size ≡ true = ground arith in
    rw (t, read_part (size - length buf) (b ∷ bs) r h)
      (round_got (read_chunk_loop (suc fuel) size) buf (take (size - length buf) (b ∷ bs)) _
          (rw length-take (omega arith))
        ∙ loop_full fuel size _ _ (rw (length-append, length-take) (omega arith)))
