-- ===== src/Base/Store.antt =====
-- A key-value store, one prefix of it: an association list.
use mathlib.Core.Path.{◌≡◌, refl}
use mathlib.Core.Logic.{◌↔◌}
use mathlib.Core.Bool.{Bool, true, false, ◌&&◌}
use mathlib.Core.Option.{Option, none, some}
use mathlib.Core.List.{List, [], ◌∷◌}
use native.Mathlib.Omega.{arith}
use Prim.Native.Nat.{ℕ}
use phi_chain.Base.Int.{ℤ, pos, negsuc}
use phi_chain.Base.Tests.{if◌then◌else◌, ◌==◌, ==_iff}

-- The equality test of a type of keys.
pub record Eq {ℓ} (A : Type ℓ) : Type ℓ where
  pub matches : A → A → Bool
  pub matches_iff : (a b : A) → (matches a b ≡ true) ↔ (a ≡ b)

abbrev nat_matches : ℕ → ℕ → Bool
nat_matches a b = a == b

instance abbrev pub nat_eq : Eq ℕ
nat_eq = record { matches = nat_matches; matches_iff = ==_iff }

abbrev pub int_matches : ℤ → ℤ → Bool
int_matches (pos a) (pos b) = a == b
int_matches (negsuc a) (negsuc b) = a == b
int_matches (pos a) (negsuc b) = false
int_matches (negsuc a) (pos b) = false

pub int_matches_iff : (a b : ℤ) → (int_matches a b ≡ true) ↔ (a ≡ b)
int_matches_iff (pos a) (pos b) = ground arith
int_matches_iff (negsuc a) (negsuc b) = ground arith
int_matches_iff (pos a) (negsuc b) = ground arith
int_matches_iff (negsuc a) (pos b) = ground arith

instance abbrev pub int_eq : Eq ℤ
int_eq = record { matches = int_matches; matches_iff = int_matches_iff }

abbrev pub Map {ℓ κ} : Type ℓ → Type κ → Type (ℓ ⊔ κ)
Map K V = List (K × V)

module _ {ℓ κ} {K : Type ℓ} {V : Type κ} ⦃e : Eq K⦄ where
  unfoldable pub lookup : K → Map K V → Option V
  lookup k [] = none
  lookup k ((j, v) ∷ m) = if e.matches j k then some v else lookup k m

  unfoldable pub insert : K → V → Map K V → Map K V
  insert k v [] = (k, v) ∷ []
  insert k v ((j, w) ∷ m) = if e.matches j k then (k, v) ∷ m else (j, w) ∷ insert k v m

  unfoldable pub erase : K → Map K V → Map K V
  erase k [] = []
  erase k ((j, w) ∷ m) = if e.matches j k then erase k m else (j, w) ∷ erase k m

  pub lookup-insert :
      (k j : K) (v : V) (m : Map K V)
      → lookup j (insert k v m) ≡ (if e.matches k j then some v else lookup j m)
  unfolding lookup insert
  lookup-insert k j v [] = refl
  lookup-insert k j v ((i, w) ∷ m) =
      ground (arith, e.matches_iff k j, e.matches_iff i k, e.matches_iff i j, lookup-insert k j v m)

  pub lookup-erase :
      (k j : K) (m : Map K V) → lookup j (erase k m) ≡ (if e.matches k j then none else lookup j m)
  unfolding lookup erase
  lookup-erase k j [] = ground arith
  lookup-erase k j ((i, w) ∷ m) =
      ground (arith, e.matches_iff k j, e.matches_iff i k, e.matches_iff i j, lookup-erase k j m)

pub pair_matches_iff {ℓ κ} :
    {A : Type ℓ} {B : Type κ} ⦃a : Eq A⦄ ⦃b : Eq B⦄ (x y : A × B)
    → ((a.matches x.0 y.0 && b.matches x.1 y.1) ≡ true) ↔ (x ≡ y)
pair_matches_iff ⦃a⦄ ⦃b⦄ x y = ground (arith, a.matches_iff x.0 y.0, b.matches_iff x.1 y.1)

-- A pair is a key if its parts are.
instance abbrev pub pair_eq {ℓ κ} : {A : Type ℓ} {B : Type κ} ⦃a : Eq A⦄ ⦃b : Eq B⦄ → Eq (A × B)
pair_eq ⦃a⦄ ⦃b⦄ = record {
  matches = λ x y. a.matches x.0 y.0 && b.matches x.1 y.1;
  matches_iff = λ x y. pair_matches_iff x y;
}
