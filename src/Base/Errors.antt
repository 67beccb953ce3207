-- ===== src/Base/Errors.antt =====
-- Results of fallible code, generic in the component's errors.
use mathlib.Core.Path.{◌≡◌, refl}
use mathlib.Core.Logic.{◌⊎◌, inl, inr, ◌≢◌}
use mathlib.Core.Bool.{Bool, true, false}
use mathlib.Core.List.{List, [], ◌∷◌}
use native.Mathlib.Omega.{arith}
use phi_chain.Base.Tests.{if◌then◌else◌, Bool-cases}
use phi_chain.Base.Lists.{All}
use mathlib.Core.Option.{Option, none, some}

pub data Result {ℓ κ} (E : Type ℓ) (A : Type κ) : Type (ℓ ⊔ κ) where
  err : E → Result E A
  ok : A → Result E A

infixl 5 ◌>>=◌
abbrev pub ◌>>=◌ {ℓ κ μ} :
    {E : Type ℓ} {A : Type κ} {B : Type μ} → Result E A → (A → Result E B) → Result E B
(err reason) >>= next = err reason
(ok value) >>= next = next value

module _ {ℓ} {E : Type ℓ} where
  -- For a step that only checks.
  infixl 5 ◌>>◌
  abbrev pub ◌>>◌ {κ} : {B : Type κ} → Result E (Unit {0}) → Result E B → Result E B
  check >> next = check >>= λ done. next

  -- `if test { return err }`
  abbrev pub fail_if : Bool → E → Result E (Unit {0})
  fail_if true e = err e
  fail_if false e = ok tt

  abbrev pub or_fail {κ} : {A : Type κ} → Option A → E → Result E A
  or_fail none e = err e
  or_fail (some a) e = ok a

  pub Result-cases {κ} :
      {A : Type κ} (r : Result E A) → ((a : A) × (r ≡ ok a)) ⊎ ((e : E) × (r ≡ err e))
  Result-cases (ok a) = inl (a, refl)
  Result-cases (err e) = inr (e, refl)

  -- A run that goes through has gone through its first step.
  pub first_step {κ μ} :
      {A : Type κ} {B : Type μ} (step : Result E A) (next : A → Result E B) (b : B)
      → (step >>= next) ≡ ok b
      → (a : A) × (step ≡ ok a) × (next a ≡ ok b)
  first_step (err reason) next b h = cc
  first_step (ok a) next b h = (a, refl, h)

  -- An error that neither step returns.
  pub no_error {κ μ} :
      {A : Type κ} {B : Type μ} {e : E} {step : Result E A} {next : A → Result E B}
      → step ≢ err e
      → ((a : A) → next a ≢ err e)
      → (step >>= next) ≢ err e
  no_error {step = err reason} h k bad = h cc
  no_error {step = ok a} h k bad = k a bad

  -- A run of guards, the first that holds giving its error.
  unfoldable pub check_all : List (Bool × E) → Result E (Unit {0})
  check_all [] = ok tt
  check_all ((test, reason) ∷ guards) = if test then err reason else check_all guards

  pub check_all-other :
      (e : E) (guards : List (Bool × E)) → All (λ g. g.1 ≢ e) guards → check_all guards ≢ err e
  unfolding check_all
  check_all-other e [] other h = cc
  check_all-other e ((test, reason) ∷ guards) other h = elim (Bool-cases test) [
    | inl fails ↦ other.0 (ground (arith, fails, h))
    | inr passes ↦ check_all-other e guards other.1 (ground (arith, passes, h))
  ]
