-- ===== src/Institutions/Split/Laws.antt =====
-- Proofs about the arithmetic of minting and redeeming.
use phi_chain.Base.{
  ℕ, zero, suc, ◌+◌, ◌-◌, ◌*◌, ◌/◌, ◌%◌, ◌≤◌, ◌<◌, ◌≡◌, refl, true, arith, leb, ◌==◌, ◌&&◌,
  Bool-cases, inl, inr,
}
use native.Mathlib.Nat.{mul-div_right, mul-mod_right}
use phi_chain.Coin.Types.{uphi_per_phi}
use phi_chain.Institutions.Split.{
  RedeemSplit, minted_uphi_for_toman, uphi_per_toman, clamp_carve, finish_split, split_carved,
  compute_redeem_split,
}

-- A surrendered amount is used up, and the burned part is worth exactly what is paid out.
pub record IsExact (k uphi_in fee penalty : ℕ) (s : RedeemSplit) : Type 0 where
  pub conserved : s.burned + s.protocol_fee + s.penalty + s.dust ≡ uphi_in
  pub carve : s.carved ≡ s.protocol_fee + s.penalty + s.dust
  pub payout : s.burned ≡ k * s.toman_out
  pub fee_le : s.protocol_fee ≤ fee
  pub penalty_le : s.penalty ≤ penalty
  pub dust_lt : s.dust < k
  pub whole : k ≤ uphi_in → k ≤ s.burned

finish_split-IsExact :
    (k uphi_in burned fee penalty fee' penalty' toman : ℕ)
    → 0 < k
    → burned ≡ k * toman
    → burned + fee' + penalty' ≤ uphi_in
    → uphi_in < burned + fee' + penalty' + k
    → fee' ≤ fee
    → penalty' ≤ penalty
    → (k ≤ uphi_in → k ≤ burned)
    → IsExact k uphi_in fee penalty (finish_split k uphi_in burned fee' penalty')
unfolding finish_split
finish_split-IsExact k uphi_in burned fee penalty fee' penalty' toman h e fits near f p w = record {
  conserved = omega arith;
  carve = omega arith;
  payout = grind arith;
  fee_le = f;
  penalty_le = p;
  dust_lt = omega arith;
  whole = w;
}

down_to_multiple : (n k : ℕ) → 0 < k → n - n % k ≡ k * (n / k)
down_to_multiple n k h = grind arith

multiple_le : (k m : ℕ) → 0 < k * m → k ≤ k * m
multiple_le k zero h = ground arith
multiple_le k (suc m) h = grind arith

split_carved-IsExact :
    (k uphi_in fee penalty : ℕ)
    → 0 < k
    → fee + penalty ≤ uphi_in
    → IsExact k uphi_in fee penalty (split_carved k uphi_in fee penalty)
unfolding split_carved
split_carved-IsExact k uphi_in fee penalty h fits =
    let burnable = uphi_in - (fee + penalty) in
    let burned = burnable - burnable % k in
    let down = down_to_multiple burnable k h in
    let least : 0 < burned → k ≤ burned =
      λ some_burned. omega (arith, down, multiple_le k (burnable / k) (omega (arith, down))) in
    let rest : burnable % k < k = grind arith in
    let le : burnable % k ≤ burnable = grind arith in
    elim (Bool-cases ((burned == 0) && leb k uphi_in)) [
      | inl e ↦ rw e (
          finish_split-IsExact k uphi_in k fee penalty _ _ 1 h (omega arith) (ground arith)
            (ground arith) (ground arith) (ground arith) (λ _. omega arith))
      | inr e ↦ rw e (
          finish_split-IsExact k uphi_in burned fee penalty fee penalty (burnable / k) h down
            (omega arith) (omega arith) (omega arith) (omega arith) (λ fit. least (ground arith)))
    ]

exact_quotient :
    (rate k toman : ℕ)
    → 0 < rate
    → ((toman * (rate * k)) / rate ≡ k * toman) × ((toman * (rate * k)) % rate ≡ 0)
exact_quotient rate k toman h =
    let q : toman * (rate * k) ≡ rate * (k * toman) = grind arith in
    rw q (mul-div_right (k * toman) h, mul-mod_right rate (k * toman))

-- A whole toman is a whole number of uphi where the rate divides the uphi of a phi.
minted_uphi_for_toman-exact :
    (toman rate : ℕ)
    → 0 < rate
    → uphi_per_phi % rate ≡ 0
    → minted_uphi_for_toman toman rate ≡ (uphi_per_toman rate * toman, true)
unfolding minted_uphi_for_toman uphi_per_toman
minted_uphi_for_toman-exact toman rate h e =
    let whole : rate * (uphi_per_phi / rate) ≡ uphi_per_phi = grind arith in
    let product = exact_quotient rate (uphi_per_phi / rate) toman h in
    ground (arith, whole, product.0, product.1)

clamp_carve-fits :
    (uphi_in fee penalty : ℕ)
    → ((clamp_carve uphi_in fee penalty).0 + (clamp_carve uphi_in fee penalty).1 ≤ uphi_in)
      × ((clamp_carve uphi_in fee penalty).0 ≤ fee)
      × ((clamp_carve uphi_in fee penalty).1 ≤ penalty)
unfolding clamp_carve
clamp_carve-fits uphi_in fee penalty = ground arith

weaken :
    (k uphi_in fee penalty fee' penalty' : ℕ) (s : RedeemSplit)
    → fee' ≤ fee
    → penalty' ≤ penalty
    → IsExact k uphi_in fee' penalty' s
    → IsExact k uphi_in fee penalty s
weaken k uphi_in fee penalty fee' penalty' s f p e = record {
  conserved = e.conserved;
  carve = e.carve;
  payout = e.payout;
  fee_le = omega (arith, e.fee_le);
  penalty_le = omega (arith, e.penalty_le);
  dust_lt = e.dust_lt;
  whole = e.whole;
}

-- Whatever the fee and the penalty, and at any rate that leaves a toman some uphi, the surrendered
-- uphi is the sum of the burned part, the fee, the penalty and the dust; what is burned is exactly
-- what the paid toman are worth; no carve is more than asked for, the dust is below one toman; and
-- one toman at least is paid where one was surrendered.
pub compute_redeem_split-IsExact :
    (uphi_in fee penalty rate : ℕ)
    → 0 < uphi_per_toman rate
    → IsExact
        (uphi_per_toman rate)
        uphi_in
        fee
        penalty
        (compute_redeem_split uphi_in fee penalty rate)
unfolding compute_redeem_split
compute_redeem_split-IsExact uphi_in fee penalty rate h =
    let (fits, f, p) = clamp_carve-fits uphi_in fee penalty in
    weaken (uphi_per_toman rate) uphi_in fee penalty (clamp_carve uphi_in fee penalty).0
      (clamp_carve uphi_in fee penalty).1 (compute_redeem_split uphi_in fee penalty rate) f p
      (split_carved-IsExact (uphi_per_toman rate) uphi_in (clamp_carve uphi_in fee penalty).0
        (clamp_carve uphi_in fee penalty).1 h fits)

redeemed_multiple :
    (k toman : ℕ)
    → 0 < k
    → let s = split_carved k (k * toman) 0 0 in
      (s.toman_out ≡ toman) × (s.burned ≡ k * toman) × (s.dust ≡ 0)
unfolding split_carved
redeemed_multiple k toman h = ground (arith, mul-div_right toman h, mul-mod_right k toman)

no_carve : (uphi_in : ℕ) → clamp_carve uphi_in 0 0 ≡ (0, 0)
unfolding clamp_carve
no_carve uphi_in = ground arith

positive_rate : (rate : ℕ) → 0 < rate → uphi_per_phi % rate ≡ 0 → 0 < uphi_per_toman rate
unfolding uphi_per_toman
positive_rate rate h e = grind arith

-- At a rate that divides the uphi of a phi, what a deposit mints redeems, without a fee or a penalty,
-- to exactly that deposit: the mint is integral, all of it is burned and no dust is left.
pub compute_redeem_split-minted_uphi_for_toman :
    (toman rate : ℕ)
    → 0 < rate
    → uphi_per_phi % rate ≡ 0
    → let minted = minted_uphi_for_toman toman rate in
      let s = compute_redeem_split minted.0 0 0 rate in
      (minted.1 ≡ true) × (s.toman_out ≡ toman) × (s.burned ≡ minted.0) × (s.dust ≡ 0)
unfolding compute_redeem_split
compute_redeem_split-minted_uphi_for_toman toman rate h e =
    let k = uphi_per_toman rate in
    let all = redeemed_multiple k toman (positive_rate rate h e) in
    rw (minted_uphi_for_toman-exact toman rate h e, no_carve (k * toman))
      (refl, all.0, all.1, all.2)
