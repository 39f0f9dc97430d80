-- ===== src/Hex/Accepts.antt =====
-- src/crydna.rs: exactly which texts `hex_to_bytes` accepts.
use cry.Base.{
  zero, drop, ℕ, suc, ◌+◌, ◌*◌, ◌%◌, ◌<◌, ◌≡◌, ◌⊎◌, ◌↔◌, inl, inr, refl, ap, sym, List, [], ◌∷◌,
  ◌++◌, Option, none, some, Bool, true, false, ◌||◌, arith, ◌==◌, length, All, IsByte, Text,
  Bool-cases, if◌then◌else◌, codes,
}
use mathlib.Core.Path.{subst}
use cry.Fmt.{decimal}
use cry.Hex.{
  Decoded, bytes, refused, panics, hex_value, from_str_radix, starts_inside, is_continuation,
  hex_pair, hex_pairs, hex_to_bytes, two_digits,
}

-- The two characters `a b` stand for the byte `v`: two digits, or a plus sign and a digit.
abbrev pub SpellsByte : ℕ → ℕ → ℕ → Type 0
SpellsByte a b v =
    ((hi : ℕ) × (lo : ℕ) × (hex_value a ≡ some hi) × (hex_value b ≡ some lo) × (v ≡ hi * 16 + lo))
    ⊎ ((a ≡ b'+') × (hex_value b ≡ some v))

abbrev pub Spells : Text → List ℕ → Type 0
Spells [] bs = bs ≡ []
Spells (a ∷ []) bs = ⊥
Spells (a ∷ b ∷ s) bs = (v : ℕ) × (vs : List ℕ) × SpellsByte a b v × (bs ≡ v ∷ vs) × Spells s vs

hex_value_plus : hex_value b'+' ≡ none
unfolding hex_value
hex_value_plus = refl

two_digits-eq-some :
    (x y : Option ℕ) {v : ℕ}
    → two_digits x y ≡ some v
    → (hi : ℕ) × (lo : ℕ) × (x ≡ some hi) × (y ≡ some lo) × (v ≡ hi * 16 + lo)
two_digits-eq-some (some hi) (some lo) e = (hi, lo, refl, refl, ground arith)
two_digits-eq-some none y e = absurd (cc)
two_digits-eq-some (some hi) none e = absurd (cc)

from_str_radix-eq-some : (a b : ℕ) {v : ℕ} → from_str_radix a b ≡ some v → SpellsByte a b v
unfolding from_str_radix
from_str_radix-eq-some a b e = elim (Bool-cases (a == b'+')) [
  | inl t ↦ inr (ground arith, rw t at e)
  | inr f ↦ inl (two_digits-eq-some (hex_value a) (hex_value b) (rw f at e))
]

from_str_radix-Spells : (a b v : ℕ) → SpellsByte a b v → from_str_radix a b ≡ some v
unfolding from_str_radix
from_str_radix-Spells a b v (inr (p, e)) = let t : (a == b'+') ≡ true = ground arith in rw t e
from_str_radix-Spells a b v (inl (hi, lo, ea, eb, ev)) = elim (Bool-cases (a == b'+')) [
  | inl t ↦
      let plus : a ≡ b'+' = ground arith in
      let bad : hex_value b'+' ≡ some hi = rw plus at ea in absurd (cc (hex_value_plus))
  | inr f ↦ rw (f, ea, eb, ev)
]

digit-ascii : (d v : ℕ) → hex_value d ≡ some v → (is_continuation d ≡ false) × (v < 16)
unfolding hex_value is_continuation
digit-ascii d v e = ground arith

SpellsByte-ascii : (a b v : ℕ) → SpellsByte a b v → (is_continuation a ≡ false) × (v < 256)
SpellsByte-ascii a b v (inl (hi, lo, ea, eb, ev)) =
    ((digit-ascii a hi ea).0, omega (arith, (digit-ascii a hi ea).1, (digit-ascii b lo eb).1))
SpellsByte-ascii a b v (inr (p, e)) =
    (unfold is_continuation in ground arith, omega (arith, (digit-ascii b v e).1))

Spells-starts_inside : (s : Text) (bs : List ℕ) → Spells s bs → starts_inside s ≡ false
unfolding starts_inside
Spells-starts_inside [] bs h = refl
Spells-starts_inside (a ∷ []) bs h = absurd h
Spells-starts_inside (a ∷ b ∷ s) bs (v, vs, y, e, h) = (SpellsByte-ascii a b v y).0

SpellsByte-ascii_second : (a b v : ℕ) → SpellsByte a b v → is_continuation b ≡ false
SpellsByte-ascii_second a b v (inl (hi, lo, ea, eb, ev)) = (digit-ascii b lo eb).0
SpellsByte-ascii_second a b v (inr (p, e)) = (digit-ascii b v e).0

-- In a text that spells bytes no place is inside a character.
pub starts_inside-drop :
    (n : ℕ) (s : Text) (bs : List ℕ) → Spells s bs → starts_inside (drop n s) ≡ false
unfolding starts_inside
starts_inside-drop zero s bs h = Spells-starts_inside s bs h
starts_inside-drop (suc n) [] bs h = refl
starts_inside-drop (suc n) (a ∷ []) bs h = absurd h
starts_inside-drop (suc zero) (a ∷ b ∷ s) bs (v, vs, y, e, h) = SpellsByte-ascii_second a b v y
starts_inside-drop (suc (suc n)) (a ∷ b ∷ s) bs (v, vs, y, e, h) = starts_inside-drop n s vs h

hex_pairs-Spells : (s : Text) (bs : List ℕ) → Spells s bs → hex_pairs s ≡ bytes bs
unfolding hex_pairs
hex_pairs-Spells [] bs h = rw h
hex_pairs-Spells (a ∷ []) bs h = absurd h
hex_pairs-Spells (a ∷ b ∷ s) bs (v, vs, y, e, h) = rw (
  (SpellsByte-ascii a b v y).0,
  Spells-starts_inside s vs h,
  from_str_radix-Spells a b v y,
  hex_pairs-Spells s vs h,
  e,
)

hex_pair-eq-bytes :
    (inside : Bool) (o : Option ℕ) (rest : Decoded) {bs : List ℕ}
    → hex_pair inside o rest ≡ bytes bs
    → (v : ℕ) × (vs : List ℕ) × (o ≡ some v) × (rest ≡ bytes vs) × (bs ≡ v ∷ vs)
hex_pair-eq-bytes true o rest e = absurd (cc)
hex_pair-eq-bytes false none rest e = absurd (cc)
hex_pair-eq-bytes false (some v) (bytes vs) e = (v, vs, refl, refl, cc)
hex_pair-eq-bytes false (some v) (refused x) e = absurd (cc)
hex_pair-eq-bytes false (some v) panics e = absurd (cc)

hex_pairs-eq-bytes : (s : Text) (bs : List ℕ) → hex_pairs s ≡ bytes bs → Spells s bs
unfolding hex_pairs
hex_pairs-eq-bytes [] bs e = cc
hex_pairs-eq-bytes (a ∷ []) bs e = absurd (cc)
hex_pairs-eq-bytes (a ∷ b ∷ s) bs e =
    let (v, vs, o, r, q) =
      hex_pair-eq-bytes (starts_inside (a ∷ []) || starts_inside s) (from_str_radix a b)
        (hex_pairs s) e in
    (v, vs, from_str_radix-eq-some a b o, q, hex_pairs-eq-bytes s vs r)

pub length-Spells :
    (s : Text) (bs : List ℕ) → Spells s bs → (length s ≡ 2 * length bs) × All IsByte bs
length-Spells [] bs h = subst (λ xs. (0 ≡ 2 * length xs) × All IsByte xs) (sym h) (omega arith, tt)
length-Spells (a ∷ []) bs h = absurd h
length-Spells (a ∷ b ∷ s) bs (v, vs, y, e, h) =
    let (l, y') = length-Spells s vs h in
    subst (λ xs. (suc (suc (length s)) ≡ 2 * length xs) × All IsByte xs) (sym e)
      (omega arith, ((SpellsByte-ascii a b v y).1, y'))

cc_odd : (s : Text) (bs : List ℕ) → (length s % 2 == 0) ≡ false → hex_to_bytes s ≡ bytes bs → ⊥
unfolding hex_to_bytes
cc_odd s bs f e = let bad = rw f at e in cc

-- `hex_to_bytes` accepts exactly the texts that spell bytes, pair by pair, and gives the bytes
-- that they spell: two hex digits of either case, or a plus sign and one digit.
pub hex_to_bytes_iff : (s : Text) (bs : List ℕ) → (hex_to_bytes s ≡ bytes bs) ↔ Spells s bs
unfolding hex_to_bytes
hex_to_bytes_iff s bs = (
  λ e. elim (Bool-cases (length s % 2 == 0)) [
    | inl t ↦ hex_pairs-eq-bytes s bs (rw t at e)
    | inr f ↦ absurd (cc_odd s bs f e)
  ],
  λ h.
      let even : (length s % 2 == 0) ≡ true =
        let l : length s ≡ 2 * length bs = (length-Spells s bs h).0 in rw l (ground arith) in
      rw even (hex_pairs-Spells s bs h),
)

-- What is accepted has two characters for each byte, and bytes are below 256.
pub hex_to_bytes-IsByte :
    (s : Text) (bs : List ℕ)
    → hex_to_bytes s ≡ bytes bs
    → (length s ≡ 2 * length bs) × All IsByte bs
hex_to_bytes-IsByte s bs e = length-Spells s bs ((hex_to_bytes_iff s bs).0 e)

two_digits_zero : (o : Option ℕ) → o ≡ two_digits (some 0) o
two_digits_zero none = refl
two_digits_zero (some v) = ap some (omega arith)

from_str_radix_plus : (d : ℕ) → from_str_radix b'+' d ≡ from_str_radix b'0' d
unfolding from_str_radix
from_str_radix_plus d = two_digits_zero (hex_value d)

or_true : (b : Bool) → (b || true) ≡ true
or_true true = refl
or_true false = refl

-- In front of a first digit `hex_to_bytes` reads a plus sign as it would read a zero, whatever
-- follows.
pub hex_to_bytes_plus :
    (d : ℕ) (s : Text) → hex_to_bytes (b'+' ∷ d ∷ s) ≡ hex_to_bytes (b'0' ∷ d ∷ s)
unfolding hex_to_bytes
hex_to_bytes_plus d s =
    ap
      (λ (o : Option ℕ).
        if suc (suc (length s)) % 2 == 0
        then hex_pair (starts_inside s) o (hex_pairs s)
        else refused (codes "odd hex length (" ++ decimal (suc (suc (length s))) ++ codes ")"))
      (from_str_radix_plus d)

-- `hex_to_bytes` panics on every text of even length whose third byte continues the character of
-- its second.
pub hex_to_bytes_panics :
    (a lead k : ℕ) (s : Text)
    → is_continuation k ≡ true
    → length s % 2 ≡ 1
    → hex_to_bytes (a ∷ lead ∷ k ∷ s) ≡ panics
unfolding hex_to_bytes hex_pairs starts_inside
hex_to_bytes_panics a lead k s cont odd =
    let even : (length (a ∷ lead ∷ k ∷ s) % 2 == 0) ≡ true = ground arith in
    rw (even, cont, or_true)
