-- ===== src/Header/Hkdf.antt =====
-- src/header.rs: `derive_hmac_subkey` against HKDF-Expand as RFC 5869 has it.
use cry.Base.{ℕ, zero, suc, ◌+◌, ◌/◌, ◌%◌, ◌≡◌, sym, List, [], ◌∷◌, ◌++◌, take, take-append}
use cry.Crypto.{Crypto, MacLaws}
use cry.Header.{hmac_info, derive_hmac_subkey}

-- The blocks T(i), T(i + 1), and so on, `n` of them, behind the block `prev`: each is the MAC of the
-- block before it, the info and its number.
unfoldable pub expand_blocks :
    (List ℕ → List ℕ → List ℕ) → List ℕ → List ℕ → List ℕ → ℕ → ℕ → List ℕ
expand_blocks hmac prk info prev i zero = []
expand_blocks hmac prk info prev i (suc n) =
    let block = hmac prk (prev ++ (info ++ (i % 256 ∷ []))) in
    block ++ expand_blocks hmac prk info block (i + 1) n

-- HKDF-Expand with a hash of 32 bytes: the first `len` bytes of the blocks, which begin with T(1)
-- behind an empty one.
unfoldable pub hkdf_expand : (List ℕ → List ℕ → List ℕ) → List ℕ → List ℕ → ℕ → List ℕ
unfolding expand_blocks
hkdf_expand hmac prk info len = take len (expand_blocks hmac prk info [] 1 ((len + 31) / 32))

-- Where tags are 32 bytes, the key of a header's tag is HKDF-Expand of RFC 5869, over HMAC-SHA256,
-- of the file's key and `HMAC_INFO`, 32 bytes long.
pub derive_hmac_subkey_lem :
    (c : Crypto)
    → MacLaws c
    → (master_key : List ℕ)
    → derive_hmac_subkey c master_key ≡ hkdf_expand c.hmac_sha256 master_key hmac_info 32
unfolding derive_hmac_subkey hkdf_expand
derive_hmac_subkey_lem c mac master_key =
    let block = c.hmac_sha256 master_key (hmac_info ++ (1 ∷ [])) in
    sym (take-append 32 block [] (mac.hmac_array master_key (hmac_info ++ (1 ∷ []))).0)
