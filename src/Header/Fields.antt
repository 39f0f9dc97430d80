-- ===== src/Header/Fields.antt =====
-- src/header.rs: one field read from a clean reader.
use cry.Base.{ℕ, ◌<◌, ◌≡◌, List, ◌++◌, length, Text}
use cry.Error.{invalid_format, ok, err, map_err-eq-ok}
use cry.Io.{Reader, read_exact}
use cry.Io.Clean.{IsClean, bytes_of, read_exact_short}
use cry.Io.Exact.{Leaves, read_exact-append, read_exact-eq-ok}
use cry.Header.{read_field}

pub read_field-append :
    (n : ℕ) (msg : Text) (r : Reader) (xs rest : List ℕ)
    → IsClean r
    → length xs ≡ n
    → bytes_of r ≡ xs ++ rest
    → Leaves (read_field n msg r) xs rest
unfolding read_field
read_field-append n msg r xs rest c l e =
    let (r', d, c', b) = read_exact-append n r xs rest c l e in (r', rw d, c', b)

-- A field that is read stands at the front of the input.
pub read_field-eq-ok :
    (n : ℕ) (msg : Text) (r : Reader) {xs : List ℕ} {r' : Reader}
    → IsClean r
    → read_field n msg r ≡ ok (xs, r')
    → (bytes_of r ≡ xs ++ bytes_of r') × (length xs ≡ n) × IsClean r'
unfolding read_field
read_field-eq-ok n msg r c h =
    read_exact-eq-ok n r c (map_err-eq-ok (invalid_format msg) (read_exact n r) h)

-- An input that ends inside the field gives the message.
pub read_field_short :
    (n : ℕ) (msg : Text) (r : Reader)
    → IsClean r
    → length (bytes_of r) < n
    → read_field n msg r ≡ err (invalid_format msg)
unfolding read_field
read_field_short n msg r c h = rw (read_exact_short n r c h)
