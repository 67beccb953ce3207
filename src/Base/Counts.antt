-- ===== src/Base/Counts.antt =====
-- Sums over the entries of a map whose keys are distinct.
use mathlib.Core.Path.{◌≡◌, refl}
use mathlib.Core.Option.{none, some}
use mathlib.Core.Logic.{inl, inr}
use mathlib.Core.List.{[], ◌∷◌}
use native.Mathlib.Omega.{arith}
use Prim.Native.Nat.{ℕ, ◌+◌}
use phi_chain.Base.Tests.{Bool-cases}
use phi_chain.Base.Store.{Eq, Map, lookup, insert, erase, lookup-insert, lookup-erase}

module _ {ℓ κ} {K : Type ℓ} {V : Type κ} where
  unfoldable pub total_of : (K → V → ℕ) → Map K V → ℕ
  total_of f [] = 0
  total_of f ((k, v) ∷ m) = f k v + total_of f m

module _ {K V : Type 0} ⦃e : Eq K⦄ where
  -- No key stands twice.
  unfoldable pub IsNodup : Map K V → Type 0
  IsNodup [] = Unit {0}
  IsNodup ((k, v) ∷ m) = (lookup k m ≡ none) × IsNodup m

  pub insert-IsNodup : (k : K) (v : V) (m : Map K V) → IsNodup m → IsNodup (insert k v m)
  unfolding IsNodup insert lookup
  insert-IsNodup k v [] h = (refl, tt)
  insert-IsNodup k v ((j, w) ∷ m) h = elim (Bool-cases (e.matches j k)) [
    | inl same ↦ rw same (ground (arith, h, same, e.matches_iff j k), h.1)
    | inr other ↦ rw other (
      ground (arith, lookup-insert k j v m, h, other, e.matches_iff j k, e.matches_iff k j),
      insert-IsNodup k v m h.1,
    )
  ]

  pub erase-IsNodup : (k : K) (m : Map K V) → IsNodup m → IsNodup (erase k m)
  unfolding IsNodup erase
  erase-IsNodup k [] h = tt
  erase-IsNodup k ((j, w) ∷ m) h = elim (Bool-cases (e.matches j k)) [
    | inl same ↦ rw same (erase-IsNodup k m h.1)
    | inr other ↦ rw other (ground (arith, lookup-erase k j m, h), erase-IsNodup k m h.1)
  ]

  pub total_of-insert_new :
      (f : K → V → ℕ) (k : K) (v : V) (m : Map K V)
      → lookup k m ≡ none
      → total_of f (insert k v m) ≡ total_of f m + f k v
  unfolding total_of insert lookup
  total_of-insert_new f k v [] h = omega arith
  total_of-insert_new f k v ((j, w) ∷ m) h = elim (Bool-cases (e.matches j k)) [
    | inl same ↦ absurd (ground (arith, h, same))
    | inr other ↦
        let rest = total_of-insert_new f k v m (ground (arith, h, other)) in
        rw other (omega (arith, rest))
  ]

  pub total_of-insert_old :
      (f : K → V → ℕ) (k : K) (v w : V) (m : Map K V)
      → lookup k m ≡ some w
      → total_of f (insert k v m) + f k w ≡ total_of f m + f k v
  unfolding total_of insert lookup
  total_of-insert_old f k v w [] h = absurd (ground (arith, h))
  total_of-insert_old f k v w ((j, x) ∷ m) h = elim (Bool-cases (e.matches j k)) [
    | inl same ↦
        let key : j ≡ k = ground (arith, same, e.matches_iff j k) in
        let val : x ≡ w = ground (arith, h, same) in rw (same, key, val) (omega arith)
    | inr other ↦
        let rest = total_of-insert_old f k v w m (ground (arith, h, other)) in
        rw other (omega (arith, rest))
  ]

  pub total_of-erase_absent :
      (f : K → V → ℕ) (k : K) (m : Map K V)
      → lookup k m ≡ none
      → total_of f (erase k m) ≡ total_of f m
  unfolding total_of erase lookup
  total_of-erase_absent f k [] h = refl
  total_of-erase_absent f k ((j, x) ∷ m) h = elim (Bool-cases (e.matches j k)) [
    | inl same ↦ absurd (ground (arith, h, same))
    | inr other ↦
        let rest = total_of-erase_absent f k m (ground (arith, h, other)) in
        rw other (omega (arith, rest))
  ]

  pub total_of-erase :
      (f : K → V → ℕ) (k : K) (w : V) (m : Map K V)
      → IsNodup m
      → lookup k m ≡ some w
      → total_of f (erase k m) + f k w ≡ total_of f m
  unfolding total_of erase lookup IsNodup
  total_of-erase f k w [] n h = absurd (ground (arith, h))
  total_of-erase f k w ((j, x) ∷ m) n h = elim (Bool-cases (e.matches j k)) [
    | inl same ↦
        let key : j ≡ k = ground (arith, same, e.matches_iff j k) in
        let val : x ≡ w = ground (arith, h, same) in
        let gone : lookup k m ≡ none = rw (← key) n.0 in
        let rest = total_of-erase_absent f k m gone in rw (same, key, val) (omega (arith, rest))
    | inr other ↦
        let rest = total_of-erase f k w m n.1 (ground (arith, h, other)) in
        rw other (omega (arith, rest))
  ]
