-- ===== src/Billing/Fee/Bounds.antt =====
-- What the fee is bounded by.
use varsten.Prelude.{ℕ, ◌+◌, ◌*◌, ◌≤◌, ◌<◌, ◌≡◌, arith}
use native.Mathlib.Nat.{mul-le-mul, le_refl}
use varsten.Prelude.Int.{ℤ, pos, negsuc, ◌≤ℤ◌}
use varsten.Billing.Fee.{
  max_gain_share_percent, effective_gain_share_percent, share, gross_savings, lift, compute_fee,
}

share_mono : (a b p q : ℕ) → a ≤ b → p ≤ q → share a p ≤ share b q
unfolding share
share_mono a b p q h k = let larger : a * p ≤ b * q = mul-le-mul h k in omega arith

share-nearest :
    (a p : ℕ) → (share a p * 10_000 ≤ a * p + 5000) × (a * p < share a p * 10_000 + 5000)
unfolding share
share-nearest a p = omega arith

share_max-le : (a : ℕ) → share a max_gain_share_percent ≤ a
unfolding share
share_max-le a = omega arith

share-zero : (p : ℕ) → share 0 p ≡ 0
unfolding share
share-zero p = omega arith

gross_savings_mono : (v w : ℤ) → v ≤ℤ w → gross_savings v ≤ gross_savings w
unfolding gross_savings
gross_savings_mono (pos n) (pos m) h = omega arith
gross_savings_mono (negsuc n) w h = ground arith
gross_savings_mono (pos n) (negsuc m) h = absurd (omega arith)

gross_savings_nonpos : (v : ℤ) → v ≤ℤ pos 0 → gross_savings v ≡ 0
unfolding gross_savings
gross_savings_nonpos (pos n) h = omega arith
gross_savings_nonpos (negsuc n) h = ground arith

lift_mono : (floor : ℤ) (a b : ℕ) → a ≤ b → lift floor a ≤ lift floor b
unfolding lift
lift_mono (pos f) a b h = ground arith
lift_mono (negsuc f) a b h = h

-- The fee is never above a quarter of the verified savings rounded half up, whatever percent and
-- floor are configured; with the net it adds up to the savings; where nothing was verified, or less
-- than nothing, it is 0.
pub compute_fee-capped :
    (verified percent floor : ℤ)
    → let b = compute_fee verified percent floor in
      (b.fee_usd * 10_000 ≤ b.verified_savings_usd * 2500 + 5000)
      × (b.fee_usd + b.net_savings_usd ≡ b.verified_savings_usd)
      × (verified ≤ℤ pos 0 → b.fee_usd ≡ 0)
unfolding compute_fee
compute_fee-capped verified percent floor =
    let zero_savings = gross_savings_nonpos verified in
    let top = share-nearest (gross_savings verified) max_gain_share_percent in
    let small = share_max-le (gross_savings verified) in
    ground (arith, share-zero max_gain_share_percent)

-- Between the two: the fee is the percent of the savings rounded half up, lifted to a floor that is
-- positive, unless a quarter of the savings is less.
compute_fee-lifted :
    (verified : ℤ) (percent floor : ℕ)
    → percent ≤ max_gain_share_percent
    → let b = compute_fee verified (pos percent) (pos floor) in
      (share b.verified_savings_usd percent ≤ b.fee_usd)
      × (floor ≤ share b.verified_savings_usd max_gain_share_percent → floor ≤ b.fee_usd)
      × (floor ≤ share b.verified_savings_usd percent
          → b.fee_usd ≡ share b.verified_savings_usd percent)
unfolding compute_fee
compute_fee-lifted verified percent floor h =
    let below =
      share_mono (gross_savings verified) (gross_savings verified) percent max_gain_share_percent
        (le_refl _) h in
    ground arith

-- More verified savings, with any percent and floor, never count as less and never make a smaller
-- fee.
compute_fee_mono :
    (v w percent floor : ℤ)
    → v ≤ℤ w
    → let a = compute_fee v percent floor in
      let b = compute_fee w percent floor in
      (a.fee_usd ≤ b.fee_usd) × (a.verified_savings_usd ≤ b.verified_savings_usd)
unfolding compute_fee
compute_fee_mono v w percent floor h =
    let up = gross_savings_mono v w h in
    let effective = effective_gain_share_percent percent in
    let shares =
      share_mono (gross_savings v) (gross_savings w) effective effective up (le_refl _) in
    let tops =
      share_mono (gross_savings v) (gross_savings w) max_gain_share_percent max_gain_share_percent
        up (le_refl _) in
    (omega (arith, lift_mono floor _ _ shares), up)
