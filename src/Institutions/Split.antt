-- ===== src/Institutions/Split.antt =====
-- x/institutions/keeper/redeem_split.go, with MintedUphiForToman of keeper.go and ProtocolFee of
-- types/params.go: the arithmetic between uphi and toman. The amounts that reach these functions are
-- positive, so they are natural numbers; a rate of zero makes math.Int panic, and is kept out by the
-- handlers.
pub mod Laws
use phi_chain.Base.{
  ℕ, ◌+◌, ◌-◌, ◌*◌, ◌/◌, ◌%◌, Bool, true, false, not, ◌&&◌, ltb, leb, ◌==◌, if◌then◌else◌, min,
}
use phi_chain.Coin.Types.{uphi_per_phi, bps_denominator}
use phi_chain.Institutions.Types.{Params}

-- The conversion, and whether it is integral.
unfoldable pub minted_uphi_for_toman : ℕ → ℕ → ℕ × Bool
minted_uphi_for_toman toman phi_to_toman =
    let num = toman * uphi_per_phi in (num / phi_to_toman, num % phi_to_toman == 0)

unfoldable pub uphi_per_toman : ℕ → ℕ
uphi_per_toman phi_to_toman = uphi_per_phi / phi_to_toman

unfoldable pub protocol_fee : Params → ℕ → ℕ
protocol_fee p amount =
    if p.protocol_fee_bps == 0 then 0 else amount * p.protocol_fee_bps / bps_denominator

pub record RedeemSplit : Type 0 where
  pub uphi_in : ℕ
  pub burned : ℕ
  pub protocol_fee : ℕ
  pub penalty : ℕ
  pub dust : ℕ
  pub carved : ℕ
  pub toman_out : ℕ

-- The fee and the penalty, clamped to what was surrendered.
unfoldable pub clamp_carve : ℕ → ℕ → ℕ → ℕ × ℕ
clamp_carve uphi_in fee penalty =
    if ltb uphi_in (fee + penalty)
    then (let fee' = if ltb uphi_in fee then uphi_in else fee in (fee', uphi_in - fee'))
    else (fee, penalty)

-- The split once burned, fee and penalty are known.
unfoldable pub finish_split : ℕ → ℕ → ℕ → ℕ → ℕ → RedeemSplit
finish_split k uphi_in burned fee penalty =
    let carved = uphi_in - burned in
    record {
      uphi_in = uphi_in;
      burned = burned;
      protocol_fee = fee;
      penalty = penalty;
      dust = carved - fee - penalty;
      carved = carved;
      toman_out = burned / k;
    }

-- Rounding down to a multiple of `k`, or one `k` where the carve leaves less than that.
unfoldable pub split_carved : ℕ → ℕ → ℕ → ℕ → RedeemSplit
unfolding finish_split
split_carved k uphi_in fee penalty =
    let burnable = uphi_in - (fee + penalty) in
    let burned = burnable - burnable % k in
    let shortfall = k - burnable in
    let from_penalty = min shortfall penalty in
    if (burned == 0) && leb k uphi_in
    then finish_split k uphi_in k (fee - min (shortfall - from_penalty) fee)
        (penalty - from_penalty)
    else finish_split k uphi_in burned fee penalty

unfoldable pub compute_redeem_split : ℕ → ℕ → ℕ → ℕ → RedeemSplit
unfolding clamp_carve split_carved uphi_per_toman
compute_redeem_split uphi_in fee penalty phi_to_toman =
    let (fee', penalty') = clamp_carve uphi_in fee penalty in
    split_carved (uphi_per_toman phi_to_toman) uphi_in fee' penalty'
