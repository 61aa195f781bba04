-- ===== src/Billing/Fee.antt =====
-- The gain-share fee of backend/app/billing.py. A decimal is a whole number of units of its last
-- place: savings of 10^-8 (the ledger's), percents of 10^-4 (the column's), amounts in cents.
pub mod Bounds
use varsten.Prelude.{ℕ, suc, ◌+◌, ◌-◌, ◌*◌, ◌/◌, min, max, ltb, ◌==◌, if◌then◌else◌}
use varsten.Prelude.Int.{ℤ, pos, negsuc, ltb_ℤ}

-- n units of which d make one, to the nearest whole; a tie goes away from zero, as ROUND_HALF_UP.
unfoldable pub round_half_up : ℕ → ℕ → ℕ
round_half_up n d = (2 * n + d) / (2 * d)

-- `_q`, from units of 10^-8 to cents.
unfoldable pub quantize : ℤ → ℤ
unfolding round_half_up
quantize (pos n) = pos (round_half_up n 1_000_000)
quantize (negsuc n) =
    let cents = round_half_up (suc n) 1_000_000 in if cents == 0 then pos 0 else negsuc (cents - 1)

abbrev pub max_gain_share_percent : ℕ
max_gain_share_percent = 2500

-- `effective_gain_share_percent`
unfoldable pub effective_gain_share_percent : ℤ → ℕ
effective_gain_share_percent (pos p) = min p max_gain_share_percent
effective_gain_share_percent (negsuc p) = 0

-- An amount in cents times a percent, rounded to cents.
unfoldable pub share : ℕ → ℕ → ℕ
unfolding round_half_up
share cents percent = round_half_up (cents * percent) 10_000

pub record Billable : Type 0 where
  pub verified_savings_usd : ℕ
  pub gain_share_percent : ℕ
  pub monthly_fee_floor_usd : ℤ
  pub fee_usd : ℕ
  pub net_savings_usd : ℕ

-- `max(_q(verified_savings), 0)`
unfoldable pub gross_savings : ℤ → ℕ
unfolding quantize
gross_savings verified = elim (quantize verified) [ pos n ↦ n | negsuc _ ↦ 0 ]

-- `fee = max(fee, _q(floor))` where the floor is positive.
unfoldable pub lift : ℤ → ℕ → ℕ
lift (pos floor) fee = if ltb 0 floor then max fee floor else fee
lift (negsuc floor) fee = fee

-- `compute_fee`. The fee is at most the savings, so that `gross - fee` stays a natural number.
unfoldable pub compute_fee : ℤ → ℤ → ℤ → Billable
unfolding gross_savings effective_gain_share_percent lift
compute_fee verified percent floor =
    let gross = gross_savings verified in
    let effective = effective_gain_share_percent percent in
    let lifted = lift floor (share gross effective) in
    let fee = min lifted (share gross max_gain_share_percent) in
    record {
      verified_savings_usd = gross;
      gain_share_percent = effective;
      monthly_fee_floor_usd = floor;
      fee_usd = fee;
      net_savings_usd = gross - fee;
    }
