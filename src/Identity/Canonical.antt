-- ===== src/Identity/Canonical.antt =====
-- x/identity/types/canonical.go: the bytes that are signed.
pub mod Injective
use phi_chain.Base.{ℕ, ◌+◌, ◌/◌, ◌%◌, ◌^◌, List, [], ◌∷◌, ◌++◌, foldl, length}

-- binary.BigEndian.PutUint32 of a length as uint32
unfoldable pub u32_be : ℕ → List ℕ
u32_be n = (n / 2 ^ 24 % 256) ∷ (n / 2 ^ 16 % 256) ∷ (n / 2 ^ 8 % 256) ∷ (n % 256) ∷ []

unfoldable pub append_length_prefixed : List ℕ → List ℕ → List ℕ
append_length_prefixed dst field = (dst ++ u32_be (length field)) ++ field

unfoldable pub canonical_message : List ℕ → List (List ℕ) → List ℕ
canonical_message domain fields =
    foldl append_length_prefixed (append_length_prefixed [] domain) fields
