-- ===== src/Bytes/RoundTrip.antt =====
-- Big-endian bytes and the number that they stand for determine one another.
use native.Mathlib.Nat.{pow-suc, mul_comm, le_trans}
use cry.Base.{
  ℕ, zero, suc, ◌+◌, ◌*◌, ◌/◌, ◌%◌, ◌^◌, ◌≤◌, ◌<◌, ◌≡◌, refl, ap, ◌∙◌, sym, List, [], ◌∷◌, ◌++◌,
  arith, length, length-append, All, All-append, IsByte, IsArray,
}
use cry.Bytes.{to_be_bytes, from_be_from, from_be_bytes}

pub length-to_be_bytes : (w n : ℕ) → length (to_be_bytes w n) ≡ w
unfolding to_be_bytes
length-to_be_bytes zero n = refl
length-to_be_bytes (suc w) n = rw length-append (omega (arith, length-to_be_bytes w (n / 256)))

to_be_bytes-IsByte : (w n : ℕ) → All IsByte (to_be_bytes w n)
unfolding to_be_bytes
to_be_bytes-IsByte zero n = tt
to_be_bytes-IsByte (suc w) n =
    All-append IsByte (to_be_bytes w (n / 256)) (n % 256 ∷ []) (to_be_bytes-IsByte w (n / 256))
      (omega arith, tt)

pub to_be_bytes-IsArray : (w n : ℕ) → IsArray w (to_be_bytes w n)
to_be_bytes-IsArray w n = (length-to_be_bytes w n, to_be_bytes-IsByte w n)

from_be_from-append :
    (a : ℕ) (xs : List ℕ) (b : ℕ) → from_be_from a (xs ++ (b ∷ [])) ≡ from_be_from a xs * 256 + b
unfolding from_be_from
from_be_from-append a [] b = refl
from_be_from-append a (x ∷ xs) b = from_be_from-append (a * 256 + x) xs b

pow_step : (w : ℕ) → 256 ^ suc w ≡ 256 * 256 ^ w
pow_step w = pow-suc 256 w ∙ mul_comm (256 ^ w) 256

pub from_be_bytes-to_be_bytes : (w n : ℕ) → n < 256 ^ w → from_be_bytes (to_be_bytes w n) ≡ n
unfolding from_be_bytes to_be_bytes
from_be_bytes-to_be_bytes zero n h = omega arith
from_be_bytes-to_be_bytes (suc w) n h =
    from_be_from-append 0 (to_be_bytes w (n / 256)) (n % 256)
    ∙ omega (arith, pow_step w, from_be_bytes-to_be_bytes w (n / 256))

pow_up : (a n : ℕ) → (a + 1) * 256 ^ suc n ≡ (a * 256 + 256) * 256 ^ n
pow_up a n = omega (arith, ap (λ (t : ℕ). (a + 1) * t) (pow_step n))

mul_mono : (x y p : ℕ) → x ≤ y → x * p ≤ y * p
mul_mono x y p h = grind arith

from_be_from-lt :
    (a : ℕ) (bs : List ℕ) → All IsByte bs → from_be_from a bs < (a + 1) * 256 ^ length bs
unfolding from_be_from
from_be_from-lt a [] h = omega arith
from_be_from-lt a (b ∷ bs) h = rw (pow_up a (length bs)) (
    le_trans (from_be_from-lt (a * 256 + b) bs h.1)
      (mul_mono (a * 256 + b + 1) (a * 256 + 256) (256 ^ length bs) (omega arith)))

pub from_be_bytes-lt : (w : ℕ) (bs : List ℕ) → IsArray w bs → from_be_bytes bs < 256 ^ w
unfolding from_be_bytes
from_be_bytes-lt w bs h = rw (← h.0) (omega (arith, from_be_from-lt 0 bs h.1))

from_be_from-acc :
    (a : ℕ) (bs : List ℕ) → from_be_from a bs ≡ a * 256 ^ length bs + from_be_from 0 bs
unfolding from_be_from
from_be_from-acc a [] = omega arith
from_be_from-acc a (b ∷ bs) = omega (
  arith,
  from_be_from-acc (a * 256 + b) bs,
  from_be_from-acc (0 * 256 + b) bs,
  ap (λ (t : ℕ). a * t) (pow_step (length bs)),
)

-- The first bytes count in units of the bytes behind them.
pub from_be_bytes-append :
    (xs ys : List ℕ)
    → from_be_bytes (xs ++ ys) ≡ from_be_bytes xs * 256 ^ length ys + from_be_bytes ys
unfolding from_be_bytes
from_be_bytes-append xs ys = from_be_from_split 0 xs ys
  where
    from_be_from_split :
        (a : ℕ) (us vs : List ℕ)
        → from_be_from a (us ++ vs) ≡ from_be_from a us * 256 ^ length vs + from_be_from 0 vs
    from_be_from_split a [] vs = unfold from_be_from in from_be_from-acc a vs
    from_be_from_split a (u ∷ us) vs = unfold from_be_from in from_be_from_split (a * 256 + u) us vs

from_be_from-inj :
    (a b : ℕ) (xs ys : List ℕ)
    → length xs ≡ length ys
    → All IsByte xs
    → All IsByte ys
    → from_be_from a xs ≡ from_be_from b ys
    → (a ≡ b) × (xs ≡ ys)
unfolding from_be_from
from_be_from-inj a b [] [] l hx hy e = (e, refl)
from_be_from-inj a b [] (y ∷ ys) l hx hy e = absurd (omega arith)
from_be_from-inj a b (x ∷ xs) [] l hx hy e = absurd (omega arith)
from_be_from-inj a b (x ∷ xs) (y ∷ ys) l hx hy e =
    let (p, q) = from_be_from-inj (a * 256 + x) (b * 256 + y) xs ys (omega arith) hx.1 hy.1 e in
    (omega arith, let p' : x ≡ y = omega arith in cc)

-- Arrays of the same width with the same number are the same bytes.
pub from_be_bytes-inj :
    (w : ℕ) (xs ys : List ℕ)
    → IsArray w xs
    → IsArray w ys
    → from_be_bytes xs ≡ from_be_bytes ys
    → xs ≡ ys
unfolding from_be_bytes
from_be_bytes-inj w xs ys hx hy e = (from_be_from-inj 0 0 xs ys (omega arith) hx.1 hy.1 e).1

pub to_be_bytes-from_be_bytes :
    (w : ℕ) (bs : List ℕ) → IsArray w bs → to_be_bytes w (from_be_bytes bs) ≡ bs
to_be_bytes-from_be_bytes w bs h =
    from_be_bytes-inj w _ bs (to_be_bytes-IsArray w (from_be_bytes bs)) h
      (from_be_bytes-to_be_bytes w (from_be_bytes bs) (from_be_bytes-lt w bs h))

pub to_be_bytes-inj :
    (w m n : ℕ) → m < 256 ^ w → n < 256 ^ w → to_be_bytes w m ≡ to_be_bytes w n → m ≡ n
to_be_bytes-inj w m n hm hn e =
    sym (from_be_bytes-to_be_bytes w m hm) ∙ ap from_be_bytes e ∙ from_be_bytes-to_be_bytes w n hn
