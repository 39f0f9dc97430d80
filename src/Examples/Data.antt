-- ===== src/Examples/Data.antt =====
-- Concrete inputs.
use cry.Base.{ℕ, ◌≡◌, refl, List, [], ◌∷◌, Bool, true, ltb, ◌&&◌, arith, replicate, All, IsByte}
use cry.Error.{interrupted, other}
use cry.Io.{Reader, arrive, fail, Writer}
use cry.Io.Clean.{IsClean}
use cry.Header.{Header, IsHeader, chacha20poly1305}

-- A test of bytes, for long strings.
unfoldable pub all_bytes : List ℕ → Bool
all_bytes [] = true
all_bytes (b ∷ bs) = ltb b 256 && all_bytes bs

pub all_bytes-IsByte : (bs : List ℕ) → all_bytes bs ≡ true → All IsByte bs
unfolding all_bytes
all_bytes-IsByte [] e = tt
all_bytes-IsByte (b ∷ bs) e = (ground arith, all_bytes-IsByte bs (ground arith))

abbrev pub a_key : List ℕ
a_key = replicate 32 7

-- The greatest base nonce, from which the next index wraps around.
abbrev pub a_nonce : List ℕ
a_nonce = replicate 12 255

abbrev pub an_aad : List ℕ
an_aad = replicate 32 1

-- Three bytes that arrive in two parts, with an interrupted call between them.
abbrev pub a_reader : Reader
a_reader = arrive (104 ∷ 105 ∷ []) ∷ fail interrupted ∷ arrive (33 ∷ []) ∷ []

pub a_reader-IsClean : IsClean a_reader
a_reader-IsClean = (omega arith, (omega arith, tt))

-- A reader and a writer that fail.
abbrev pub bad_reader : Reader
bad_reader = arrive (104 ∷ 105 ∷ []) ∷ fail (other 5) ∷ []

abbrev pub a_writer : Writer
a_writer = record { written = []; faults = [] }

abbrev pub a_header : Header
a_header = record {
  algo = chacha20poly1305;
  salt = replicate 16 9;
  nonce = a_nonce;
  chunk_count = 1;
}

pub a_header-IsHeader : IsHeader a_header
a_header-IsHeader = record {
  salt_array = (omega arith, all_bytes-IsByte a_header.salt (unfold all_bytes in refl));
  nonce_array = (omega arith, all_bytes-IsByte a_header.nonce (unfold all_bytes in refl));
  count_u64 = omega arith;
}
