-- ===== src/Identity/Validate.antt =====
-- x/identity/types: ValidateDID and the curves of keys.go, ValidateGuardianSetBasic of guardians.go,
-- Params.Validate of params.go, and the digests of recovery.go.
use phi_chain.Base.{
  ℕ, ◌+◌, ◌%◌, Bool, true, false, not, ◌&&◌, ◌||◌, Option, none, some, List, [], ◌∷◌, ◌++◌, drop,
  length, ltb, leb, ◌==◌, ℤ, pos, ltb_ℤ, leb_ℤ, Result, ok, fail_if, check_all, ◌>>◌,
}
use phi_chain.Sdk.{Text, text, empty_text, text_bytes, text_length, Sdk}
use phi_chain.Identity.Types
use phi_chain.Identity.Types.{KeyType, Params, GuardianSet, Error}
use phi_chain.Identity.Store.{Curve, curve_r1, curve_k1, Host}

-- A byte above 127 belongs to a rune that is not allowed.
abbrev allowed : ℕ → Bool
allowed c =
    (leb b'a' c && leb c b'z')
    || (leb b'A' c && leb c b'Z')
    || (leb b'0' c && leb c b'9')
    || (c == b'-')
    || (c == b'_')
    || (c == b'.')
    || (c == b':')

abbrev all_allowed : List ℕ → Bool
all_allowed [] = true
all_allowed (c ∷ cs) = allowed c && all_allowed cs

abbrev starts_with : List ℕ → List ℕ → Bool
starts_with [] cs = true
starts_with (p ∷ ps) [] = false
starts_with (p ∷ ps) (c ∷ cs) = (p == c) && starts_with ps cs

abbrev is_empty {ℓ} : {A : Type ℓ} → List A → Bool
is_empty [] = true
is_empty (x ∷ xs) = false

abbrev max_did_len : ℕ
max_did_len = 256

unfoldable pub is_valid_did : Text → Bool
unfolding text_bytes text_length
is_valid_did did =
    let bytes = text_bytes did in
    not (did == empty_text)
    && leb (text_length did) max_did_len
    && starts_with (text_bytes (text "did:phi:")) bytes
    && not (is_empty (drop 8 bytes))
    && all_allowed (drop 8 bytes)

unfoldable pub curve_for_key_type : KeyType → Option Curve
curve_for_key_type Types.key_type_unspecified = some curve_r1
curve_for_key_type Types.secp256r1 = some curve_r1
curve_for_key_type Types.secp256k1 = some curve_k1
curve_for_key_type Types.key_type_other = none

abbrev derive_on : ⦃host : Host⦄ → Option Curve → Text → Option Text
derive_on none key = none
derive_on ⦃host⦄ (some curve) key = host.derive_did curve key

unfoldable pub derive_did_for_key_type : ⦃host : Host⦄ → KeyType → Text → Option Text
unfolding curve_for_key_type
derive_did_for_key_type type key = derive_on (curve_for_key_type type) key

unfoldable pub has_commitment : Text → List Text → Bool
has_commitment c [] = false
has_commitment c (x ∷ xs) = (x == c) || has_commitment c xs

-- The loop over the commitments, with those seen so far.
unfoldable pub check_commitments : List Text → List Text → Result Error (Unit {0})
unfolding text_length has_commitment
check_commitments seen [] = ok tt
check_commitments seen (c ∷ cs) =
    let rest = check_commitments (c ∷ seen) cs in
    do
      fail_if (not (text_length c == 32)) Types.invalid_guardians
      fail_if (has_commitment c seen) Types.invalid_guardians
      rest

unfoldable pub validate_guardian_set_basic : Text → List Text → ℕ → Result Error (Unit {0})
validate_guardian_set_basic did commitments threshold = do
  fail_if (not (is_valid_did did)) Types.invalid_did
  fail_if (is_empty commitments) Types.invalid_guardians
  check_commitments [] commitments
  fail_if (threshold == 0) Types.invalid_guardians
  fail_if (ltb (length commitments) threshold) Types.invalid_guardians

-- SHA256(domain ‖ 0x00 ‖ part ‖ 0x00 ‖ …)
abbrev joined : List ℕ → List Text → List ℕ
joined bytes [] = bytes
joined bytes (part ∷ parts) = joined (bytes ++ (0 ∷ text_bytes part)) parts

unfoldable pub guardian_commitment : ⦃host : Host⦄ → Text → Text → Text
guardian_commitment ⦃host⦄ guardian salt =
    host.sha256 (joined (text_bytes (text "phi-guardian-commit-v1")) (guardian ∷ salt ∷ []))

unfoldable pub derive_recovery_id : ⦃host : Host⦄ → Text → Text → Text → Text
derive_recovery_id ⦃host⦄ did key nonce =
    host.sha256 (joined (text_bytes (text "phi-recovery-id-v1")) (did ∷ key ∷ nonce ∷ []))

abbrev any_empty : List Text → Bool
any_empty [] = false
any_empty (t ∷ ts) = (t == empty_text) || any_empty ts

-- A text that is empty or does not start with a slash.
abbrev any_not_url : List Text → Bool
any_not_url [] = false
any_not_url (t ∷ ts) = not (t % 257 == b'/' + 1) || any_not_url ts

abbrev is_amount : Option ℤ → Bool
is_amount none = false
is_amount (some z) = leb_ℤ (pos 0) z

abbrev int_or_zero : Option ℤ → ℤ
int_or_zero none = pos 0
int_or_zero (some z) = z

module _ ⦃sdk : Sdk⦄ where
  unfoldable pub validate : Params → Result Error (Unit {0})
  unfolding check_all
  validate p = check_all (
      (ltb_ℤ p.min_identity_age_seconds (pos 0), Types.invalid_params)
      ∷ (p.bootstrap_threshold == 0, Types.invalid_params)
      ∷ (is_empty p.webauthn_allowed_origins, Types.invalid_params)
      ∷ (ltb 32 (length p.webauthn_allowed_origins), Types.invalid_params)
      ∷ (any_empty p.webauthn_allowed_origins, Types.invalid_params)
      ∷ (p.webauthn_rp_id == empty_text, Types.invalid_params)
      ∷ (p.max_guardians == 0, Types.invalid_params)
      ∷ (ltb 32 (length p.uv_sensitive_msg_type_urls), Types.invalid_params)
      ∷ (any_not_url p.uv_sensitive_msg_type_urls, Types.invalid_params)
      ∷ (not (is_amount (sdk.new_int_from_string p.uv_large_transfer_uphi)), Types.invalid_params)
      ∷ (leb_ℤ p.recovery_delay_seconds (pos 0), Types.invalid_params)
      ∷ (leb_ℤ p.recovery_request_ttl_seconds p.recovery_delay_seconds, Types.invalid_params)
      ∷ (p.max_open_recovery_requests == 0, Types.invalid_params)
      ∷ (ltb 64 p.max_open_recovery_requests, Types.invalid_params)
      ∷ (not (is_amount (sdk.new_int_from_string p.recovery_deposit_uphi)), Types.invalid_params)
      ∷ (not (is_amount (sdk.new_int_from_string p.reauth_recovery_fee_uphi)), Types.invalid_params)
      ∷ [])

  unfoldable pub recovery_deposit : Params → ℤ
  recovery_deposit p = int_or_zero (sdk.new_int_from_string p.recovery_deposit_uphi)

  unfoldable pub reauth_recovery_fee : Params → ℤ
  reauth_recovery_fee p = int_or_zero (sdk.new_int_from_string p.reauth_recovery_fee_uphi)
