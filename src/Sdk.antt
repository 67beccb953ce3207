-- ===== src/Sdk.antt =====
-- The code that the chain calls and does not contain: cosmossdk.io/math, the address codec and
-- x/bank of the Cosmos SDK. It enters the model as instance arguments; `Sample` has values of them.
pub mod Bank
pub mod Sample
use Prim.Native.Char.{code}
use Prim.Native.String.{String}
use phi_chain.Base.{
  ℕ, zero, suc, ◌+◌, ◌-◌, ◌*◌, ◌/◌, ◌%◌, ◌≡◌, Option, some, List, [], ◌∷◌, length, ◌==◌,
  if◌then◌else◌, ℤ,
}

-- A text that the code only compares, parses or prints, under a one-to-one coding of byte strings
-- by numbers in which the empty one is 0.
abbrev pub Text : Type 0
Text = ℕ

-- The number of a constant of the source.
abbrev pub text : String → Text
text String.[] = 0
text (String.◌∷◌ c s) = code c + 1 + 257 * text s

abbrev pub empty_text : Text
empty_text = 0

digits : ℕ → Text → List ℕ
digits zero t = []
digits (suc fuel) t =
    let rest = digits fuel (t / 257) in if t == 0 then [] else (t % 257 - 1) ∷ rest

-- The bytes that a text codes. A text has fewer bytes than its number.
unfoldable pub text_bytes : Text → List ℕ
unfolding digits
text_bytes t = digits t t

unfoldable pub text_length : Text → ℕ
unfolding text_bytes
text_length t = length (text_bytes t)

-- The bytes of an account address, coded in the same way.
abbrev pub Addr : Type 0
Addr = ℕ

pub record Sdk : Type 0 where
  -- math.NewIntFromString and Int.String
  pub new_int_from_string : Text → Option ℤ
  pub int_string : ℤ → Text
  -- What is printed is read back. (Values outside 256 bits make math.Int panic before that.)
  pub parse-string : (z : ℤ) → new_int_from_string (int_string z) ≡ some z
  -- sdk.AccAddressFromBech32 and AccAddress.String
  pub acc_address_from_bech32 : Text → Option Addr
  pub addr_string : Addr → Text
  pub parse-addr_string : (a : Addr) → acc_address_from_bech32 (addr_string a) ≡ some a
