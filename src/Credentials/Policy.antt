-- ===== src/Credentials/Policy.antt =====
-- x/credentials/types/policy.go: which claims of a credential may be disclosed.
use phi_chain.Base.{
  ℕ, Bool, false, ◌&&◌, ◌||◌, List, [], ◌∷◌, ◌++◌, length, ltb, leb, ◌==◌, if◌then◌else◌, Result,
  ok, fail_if, ◌>>◌,
}
use phi_chain.Sdk.{Text, text, text_bytes}
use phi_chain.Identity.Canonical.{u32_be}
use phi_chain.Identity.Store.{Host}
use phi_chain.Credentials.Types
use phi_chain.Credentials.Types.{CredentialTemplate, Error}

abbrev has_index : ℕ → List ℕ → Bool
has_index i [] = false
has_index i (j ∷ js) = (j == i) || has_index i js

-- The loop over the indices, with those seen so far.
unfoldable pub check_indices : ℕ → List ℕ → List ℕ → Result Error (Unit {0})
check_indices message_count seen [] = ok tt
check_indices message_count seen (i ∷ indices) =
    let rest = check_indices message_count (i ∷ seen) indices in
    do
      fail_if (leb message_count i) Types.invalid_request
      fail_if (has_index i seen) Types.invalid_request
      rest

unfoldable pub validate_disclosure_policy : ℕ → List ℕ → Result Error (Unit {0})
validate_disclosure_policy message_count disclosable = do
  fail_if (ltb 64 message_count) Types.invalid_request
  fail_if ((message_count == 0) && ltb 0 (length disclosable)) Types.invalid_request
  fail_if (ltb message_count (length disclosable)) Types.invalid_request
  check_indices message_count [] disclosable

-- An index into its place in an increasing list, once.
unfoldable pub place_index : ℕ → List ℕ → List ℕ
place_index i [] = i ∷ []
place_index i (j ∷ js) =
    let rest = place_index i js in
    if i == j then j ∷ js else (if ltb i j then i ∷ j ∷ js else j ∷ rest)

unfoldable pub canonical_indices : List ℕ → List ℕ
canonical_indices [] = []
canonical_indices (i ∷ is) = place_index i (canonical_indices is)

abbrev words : List ℕ → List ℕ
words [] = []
words (i ∷ is) = u32_be i ++ words is

unfoldable pub disclosure_policy_hash : ⦃host : Host⦄ → Text → ℕ → ℕ → List ℕ → Text
disclosure_policy_hash ⦃host⦄ id version message_count disclosable = host.sha256 (
    (text_bytes (text "phi-disclosure-policy-v1") ++ (0 ∷ text_bytes id))
    ++ (0 ∷ words (version ∷ message_count ∷ canonical_indices disclosable)))

unfoldable pub policy_hash : ⦃host : Host⦄ → CredentialTemplate → Text
policy_hash t = disclosure_policy_hash t.id t.version t.message_count t.disclosable_indices
