-- ===== src/Bench/Figures.antt =====
-- src/bench.rs: the sort and the percentiles of rates do not panic.
use cry.Base.{
  ℕ, zero, suc, ◌+◌, ◌-◌, ◌%◌, ◌^◌, ◌≤◌, ◌<◌, ◌≡◌, refl, List, [], ◌∷◌, some, Bool, true, false,
  length, All, arith,
}
use Prim.Native.Nat.{Ordering}
use cry.Error.{ok, ◌>>=◌}
use cry.Bench.{Floats, goes_first, insert_last, sort_onto, at, percentile, Stats, stats_from}
use cry.Bench.Rounds.{FloatLaws, IsRate}

module _ (fl : Floats) (laws : FloatLaws fl) (n : ℕ) where
  -- A list of rates of a given length.
  abbrev IsRates : ℕ → List fl.Float → Type 0
  IsRates k l = (length l ≡ k) × All (IsRate fl n) l

  goes_first-ok :
      (a b : fl.Float)
      → IsRate fl n a
      → IsRate fl n b
      → (first : Bool) × (goes_first fl (fl.partial_cmp a b) ≡ ok first)
  goes_first-ok a b (s, e) (t, f) =
      let (o, h) = laws.rates_compare n s t in rw (e, f) (rw h (by_order o))
    where
      by_order : (o : Ordering) → (first : Bool) × (goes_first fl (some o) ≡ ok first)
      by_order Ordering.lt = (true, refl)
      by_order Ordering.eq = (false, refl)
      by_order Ordering.gt = (false, refl)

  insert_last-ok :
      (a : fl.Float) (l : List fl.Float)
      → IsRate fl n a
      → All (IsRate fl n) l
      → (l' : List fl.Float) × (insert_last fl a l ≡ ok l') × IsRates (suc (length l)) l'
  unfolding insert_last
  insert_last-ok a [] h k = (a ∷ [], refl, (refl, (h, tt)))
  insert_last-ok a (b ∷ l) h (hb, k) =
      let (first, e) = goes_first-ok a b h hb in
      let (rest, f, (len, m)) = insert_last-ok a l h k in place first e rest f len m
    where
      place :
          (first : Bool)
          → goes_first fl (fl.partial_cmp a b) ≡ ok first
          → (rest : List fl.Float) → insert_last fl a l ≡ ok rest
          → length rest ≡ suc (length l)
          → All (IsRate fl n) rest
          → (l' : List fl.Float) × (insert_last fl a (b ∷ l) ≡ ok l')
            × IsRates (suc (suc (length l))) l'
      place true e rest f len m = (a ∷ b ∷ l, rw (e, ◌>>=◌) refl, (refl, (h, (hb, k))))
      place false e rest f len m =
          (b ∷ rest, rw (e, ◌>>=◌) (rw (f, ◌>>=◌) refl), (omega arith, (hb, m)))

  sort_onto-ok :
      (sorted values : List fl.Float)
      → All (IsRate fl n) sorted
      → All (IsRate fl n) values
      → (l : List fl.Float) × (sort_onto fl sorted values ≡ ok l)
        × (length l ≡ length sorted + length values)
  unfolding sort_onto
  sort_onto-ok sorted [] h k = (sorted, refl, omega arith)
  sort_onto-ok sorted (a ∷ values) h (ha, k) =
      let (more, e, (len, m)) = insert_last-ok a sorted ha h in
      let (l, f, len') = sort_onto-ok more values m k in (l, rw (e, ◌>>=◌) f, omega arith)

  at-ok : (l : List fl.Float) (i : ℕ) → i < length l → (x : fl.Float) × (at fl l i ≡ ok x)
  unfolding at
  at-ok [] i h = absurd (omega arith)
  at-ok (x ∷ l) zero h = (x, refl)
  at-ok (x ∷ l) (suc i) h = at-ok l i (omega arith)

  -- The index of a percentile stays below the length of a list that is not empty.
  percentile-ok :
      (l : List fl.Float) (q : fl.Float)
      → 0 < length l
      → length l < 2 ^ 32
      → ((k : ℕ) → k < 2 ^ 32 → fl.round (fl.mul (fl.of_int k) q) ≤ k)
      → (x : fl.Float) × (percentile fl l q ≡ ok x)
  unfolding percentile
  percentile-ok l q positive small index =
      let last : (length l + 2 ^ 64 - 1) % 2 ^ 64 ≡ length l - 1 = omega arith in
      rw last (
        at-ok l (fl.round (fl.mul (fl.of_int (length l - 1)) q))
          (omega (arith, index (length l - 1) (omega arith))))

  pub stats_from-ok :
      (values : List fl.Float)
      → All (IsRate fl n) values
      → 0 < length values
      → length values < 2 ^ 32
      → (s : Stats fl) × (stats_from fl values ≡ ok s)
  unfolding stats_from
  stats_from-ok values h positive small =
      let (l, e, len) = sort_onto-ok [] values tt h in
      let (m, f) = percentile-ok l fl.half (omega arith) (omega arith) laws.half_index in
      let (p, g) = percentile-ok l fl.p95 (omega arith) (omega arith) laws.p95_index in
      (record { median = m; p95 = p }, rw (e, ◌>>=◌) (rw (f, ◌>>=◌) (rw (g, ◌>>=◌) refl)))
