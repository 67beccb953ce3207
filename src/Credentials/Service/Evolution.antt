-- ===== src/Credentials/Service/Evolution.antt =====
-- How the entries of a map may change: each of them stays, related to what it was.
use phi_chain.Base.{
  ◌≡◌, subst, arith, some, inl, inr, ◌==◌, Map, lookup, insert, nat_eq, lookup-insert, Bool-cases,
}
use phi_chain.Sdk.{Text}

module _ {V : Type 0} where
  unfoldable pub Evolves : (V → V → Type 0) → Map Text V → Map Text V → Type 0
  Evolves R m n =
      (k : Text) (old : V) → lookup k m ≡ some old → (new : V) × (lookup k n ≡ some new) × R old new

  unfoldable pub IsKeyed : (V → Text) → Map Text V → Type 0
  IsKeyed key m = (k : Text) (v : V) → lookup k m ≡ some v → key v ≡ k

  pub Evolves-refl : (R : V → V → Type 0) → ((v : V) → R v v) → (m : Map Text V) → Evolves R m m
  unfolding Evolves
  Evolves-refl R same m k old h = (old, h, same old)

  pub Evolves-trans :
      (R : V → V → Type 0)
      → ((a b c : V) → R a b → R b c → R a c)
      → (l m n : Map Text V) → Evolves R l m
      → Evolves R m n
      → Evolves R l n
  unfolding Evolves
  Evolves-trans R join l m n first second k old h =
      let (mid, at, r) = first k old h in
      let (new, found, q) = second k mid at in (new, found, join old mid new r q)

  pub Evolves-insert :
      (R : V → V → Type 0)
      → ((v : V) → R v v)
      → (k : Text) (v : V) (m : Map Text V) → ((old : V) → lookup k m ≡ some old → R old v)
      → Evolves R m (insert k v m)
  unfolding Evolves
  Evolves-insert R same k v m step j old h = elim (Bool-cases (k == j)) [
    | inl e ↦
        let key : j ≡ k = ground (arith, e) in
        (
          v,
          ground (arith, e, lookup-insert k j v m),
          step old (subst (λ x. lookup x m ≡ some old) key h),
        )
    | inr e ↦ (old, ground (arith, e, h, lookup-insert k j v m), same old)
  ]

  pub IsKeyed-insert :
      (key : V → Text) (v : V) (m : Map Text V) → IsKeyed key m → IsKeyed key (insert (key v) v m)
  unfolding IsKeyed
  IsKeyed-insert key v m i k w h = elim (Bool-cases (key v == k)) [
    | inl e ↦
        let val : v ≡ w = ground (arith, h, e, lookup-insert (key v) k v m) in
        let at : key v ≡ k = ground (arith, e) in subst (λ x. key x ≡ k) val at
    | inr e ↦ i k w (ground (arith, h, e, lookup-insert (key v) k v m))
  ]
