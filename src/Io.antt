-- ===== src/Io.antt =====
-- `std::io::Read` and `std::io::Write` as the program uses them, and `read_chunk` of
-- src/cipher.rs.
mod Steps
pub mod Clean
pub mod Exact
pub mod Total
pub mod Filled
use cry.Base.{
  ℕ, zero, suc, ◌-◌, List, [], ◌∷◌, ◌++◌, Option, none, some, ltb, leb, ◌==◌, if◌then◌else◌, length,
  take, drop,
}
use cry.Error.{IoError, interrupted, unexpected_eof, io, Result, ok, err, stuck, ◌>>=◌}

-- What the operating system has in store for a reader: some bytes that are at hand, or a failing
-- call. When the list is used up the input has ended.
pub data ReadEvent : Type 0 where
  arrive : List ℕ → ReadEvent
  fail : IoError → ReadEvent

abbrev pub Reader : Type 0
Reader = List ReadEvent

-- What one call of `read` gives; `got []` is Rust's `Ok(0)`.
pub data ReadOutcome : Type 0 where
  got : List ℕ → ReadOutcome
  failed : IoError → ReadOutcome

-- `read` into a buffer of `room` bytes: at most that many of the bytes at hand.
unfoldable pub read : ℕ → Reader → ReadOutcome × Reader
read room [] = (got [], [])
read room (fail e ∷ r) = (failed e, r)
read room (arrive bs ∷ r) =
    if leb (length bs) room then (got bs, r) else (got (take room bs), arrive (drop room bs) ∷ r)

-- The match of `read_chunk` on the outcome of `read`; `again` is the next round of its loop.
abbrev pub read_chunk_round :
    (List ℕ → Reader → Result (List ℕ × Reader))
    → List ℕ
    → ReadOutcome × Reader
    → Result (List ℕ × Reader)
read_chunk_round again buf (got [], r) = ok (buf, r)
read_chunk_round again buf (got (b ∷ bs), r) = again (buf ++ (b ∷ bs)) r
read_chunk_round again buf (failed interrupted, r) = again buf r
read_chunk_round again buf (failed e, r) = err (io e)

-- The loop of `read_chunk` over a buffer of `size` bytes, of which `buf` are filled. Each round
-- uses up an event or fills the buffer, so one round more than there are events is enough.
unfoldable pub read_chunk_loop : ℕ → ℕ → List ℕ → Reader → Result (List ℕ × Reader)
read_chunk_loop zero size buf r = stuck
read_chunk_loop (suc fuel) size buf r =
    if ltb (length buf) size
    then read_chunk_round (read_chunk_loop fuel size) buf (read (size - length buf) r)
    else ok (buf, r)

unfoldable pub read_chunk : ℕ → Reader → Result (List ℕ × Reader)
unfolding read_chunk_loop read
read_chunk size r = read_chunk_loop (suc (length r)) size [] r

-- The standard library's `read_exact` is the same loop, and an error where the buffer is not full.
unfoldable pub read_exact : ℕ → Reader → Result (List ℕ × Reader)
unfolding read_chunk
read_exact size r = do
  (buf, r') ← read_chunk size r
  if length buf == size then ok (buf, r') else err (io unexpected_eof)

-- A writer: what it has taken, and for each coming call whether it fails.
pub record Writer : Type 0 where
  pub written : List ℕ
  pub faults : List (Option IoError)

unfoldable pub write_all : List ℕ → Writer → Result Writer
write_all bs w = elim w.faults [
  | [] ↦ ok (record w { written = w.written ++ bs })
  | none ∷ faults ↦ ok (record { written = w.written ++ bs; faults = faults })
  | some e ∷ faults ↦ err (io e)
]

unfoldable pub flush : Writer → Result Writer
flush w = elim w.faults [
  | [] ↦ ok w
  | none ∷ faults ↦ ok (record w { faults = faults })
  | some e ∷ faults ↦ err (io e)
]
