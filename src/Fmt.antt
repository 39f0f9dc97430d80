-- ===== src/Fmt.antt =====
-- The parts of `std::fmt` that the program's texts use: `{:02x}` of a byte, decimal numbers, and
-- `{:?}` of a byte array.
use cry.Base.{ℕ, zero, suc, ◌+◌, ◌/◌, ◌%◌, List, [], ◌∷◌, ◌++◌, ltb, if◌then◌else◌, Text, codes}

-- A lowercase hex digit, for a value below 16.
unfoldable pub hex_digit : ℕ → ℕ
hex_digit v = if ltb v 10 then v + b'0' else v + 87

-- `{b:02x}`.
unfoldable pub format_02x : ℕ → Text
unfolding hex_digit
format_02x b = hex_digit (b / 16) ∷ hex_digit (b % 16) ∷ []

decimal_loop : ℕ → ℕ → Text → Text
decimal_loop zero n out = out
decimal_loop (suc fuel) n out =
    let out' = (n % 10 + b'0') ∷ out in
    let rest = decimal_loop fuel (n / 10) out' in if ltb n 10 then out' else rest

-- `{n}`. Each round divides by ten, so `n + 1` rounds are enough.
unfoldable pub decimal : ℕ → Text
unfolding decimal_loop
decimal n = decimal_loop (suc n) n []

debug_items : List ℕ → Text
unfolding decimal
debug_items [] = []
debug_items (b ∷ []) = decimal b
debug_items (b ∷ c ∷ bs) = decimal b ++ codes ", " ++ debug_items (c ∷ bs)

-- `{:?}` of a byte array.
unfoldable pub debug_bytes : List ℕ → Text
unfolding debug_items
debug_bytes bs = codes "[" ++ debug_items bs ++ codes "]"
