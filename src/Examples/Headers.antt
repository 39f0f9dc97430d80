-- ===== src/Examples/Headers.antt =====
-- The header of src/header.rs at concrete inputs.
use cry.Base.{
  ℕ, ◌≡◌, ◌≢◌, refl, append-nil, List, [], ◌∷◌, ◌++◌, false, arith, replicate, list_eq, list_eq_iff,
  codes, All, IsByte,
}
use cry.Error.{err, ok, header_tampered}
use cry.Bytes.{to_be_bytes, from_be_bytes}
use cry.Io.{Reader, arrive}
use cry.Io.Clean.{IsClean, bytes_of}
use cry.Header
use cry.Header.{
  pre_hmac_bytes, algo_byte, compute_hmac, derive_hmac_subkey, header_len, IsHeader, hmac_info,
}
use cry.Header.RoundTrip.{header_bytes, read-header_bytes, read-write, read_tampered}
use cry.Header.Hkdf.{hkdf_expand, derive_hmac_subkey_lem}
use cry.Header.Canonical.{read-eq-ok}
use cry.Toy.{toy, toy-MacLaws, digest}
use cry.Examples.Data.{a_key, a_header, a_header-IsHeader, all_bytes, all_bytes-IsByte}

-- A written header, and two bytes behind it.
abbrev file_reader : Reader
file_reader = arrive (header_bytes toy a_header a_key ++ (1 ∷ 2 ∷ [])) ∷ []

file_reader-IsClean : IsClean file_reader
unfolding header_bytes pre_hmac_bytes
file_reader-IsClean = (omega arith, tt)

bytes_of-file_reader : bytes_of file_reader ≡ header_bytes toy a_header a_key ++ (1 ∷ 2 ∷ [])
unfolding bytes_of
bytes_of-file_reader = append-nil (header_bytes toy a_header a_key ++ (1 ∷ 2 ∷ []))

read-write_example :
    (file : List ℕ) × (Header.write toy a_header a_key (record { written = 5 ∷ []; faults = [] })
      ≡ ok (record { written = (5 ∷ []) ++ file; faults = [] }))
    × ((r : Reader)
        → IsClean r
        → bytes_of r ≡ file ++ (1 ∷ 2 ∷ [])
        → (r' : Reader) × (Header.read toy a_key r ≡ ok (a_header, r'))
          × IsClean r'
          × (bytes_of r' ≡ 1 ∷ 2 ∷ []))
read-write_example =
    read-write toy toy-MacLaws a_header a_key (5 ∷ []) (1 ∷ 2 ∷ []) a_header-IsHeader

is_read :
    (r' : Reader) × (Header.read toy a_key file_reader ≡ ok (a_header, r'))
    × IsClean r'
    × (bytes_of r' ≡ 1 ∷ 2 ∷ [])
is_read =
    read-header_bytes toy toy-MacLaws a_header a_key (1 ∷ 2 ∷ []) file_reader a_header-IsHeader
      file_reader-IsClean bytes_of-file_reader

file_bytes : All IsByte (bytes_of file_reader)
unfolding bytes_of header_bytes pre_hmac_bytes algo_byte compute_hmac derive_hmac_subkey digest
    to_be_bytes from_be_bytes hmac_info codes
file_bytes = all_bytes-IsByte (bytes_of file_reader) (unfold all_bytes in refl)

read-eq-ok_example :
    IsHeader a_header
    × (bytes_of file_reader ≡ header_bytes toy a_header a_key ++ bytes_of is_read.0)
    × IsClean is_read.0
read-eq-ok_example =
    read-eq-ok toy toy-MacLaws a_key file_reader file_reader-IsClean file_bytes is_read.1

abbrev wrong_tag : List ℕ
wrong_tag = replicate 32 0

-- A header whose tag is all zeros.
abbrev tampered_reader : Reader
tampered_reader = arrive (pre_hmac_bytes a_header ++ (wrong_tag ++ [])) ∷ []

tag_differs : list_eq wrong_tag (compute_hmac toy (pre_hmac_bytes a_header) a_key) ≡ false
unfolding pre_hmac_bytes algo_byte compute_hmac derive_hmac_subkey digest to_be_bytes from_be_bytes
    hmac_info codes list_eq
tag_differs = refl

tag_ne : wrong_tag ≢ compute_hmac toy (pre_hmac_bytes a_header) a_key
tag_ne e =
    let t = (list_eq_iff wrong_tag (compute_hmac toy (pre_hmac_bytes a_header) a_key)).1 e in
    cc (tag_differs)

read_tampered_example : Header.read toy a_key tampered_reader ≡ err header_tampered
read_tampered_example =
    read_tampered toy toy-MacLaws a_header a_key wrong_tag [] tampered_reader a_header-IsHeader
      (omega arith) (unfold pre_hmac_bytes in (omega arith, tt))
      (unfold bytes_of in append-nil (pre_hmac_bytes a_header ++ (wrong_tag ++ []))) tag_ne

derive_hmac_subkey_lem_example :
    derive_hmac_subkey toy a_key ≡ hkdf_expand toy.hmac_sha256 a_key hmac_info 32
derive_hmac_subkey_lem_example = derive_hmac_subkey_lem toy toy-MacLaws a_key
