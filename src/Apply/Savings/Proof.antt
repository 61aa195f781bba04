-- ===== src/Apply/Savings/Proof.antt =====
-- The proof rows of applied savings.
use varsten.Prelude.{
  ℕ, ◌+◌, ◌*◌, ◌≤◌, min, max, String, ◌≡◌, refl, ap, ◌∙◌, inl, inr, true, Option, some, List, [],
  ◌∷◌, arith, if◌then◌else◌, Bool-cases, str_eq_self, All,
}
use native.Mathlib.Nat.{mul-le-mul, le_refl}
use varsten.Prelude.Int.{ℤ, pos_part}
use varsten.Billing.Fee.{quantize, share, max_gain_share_percent}
use varsten.Apply.Records.{Lever, Recommendation}
use varsten.Apply.Savings.{
  SavingsAttribution, attribution_of, is_row_of, upsert, attributable, record_applied_savings,
}

-- How many rows a recommendation has for the period of `a`.
abbrev pub rows_of : SavingsAttribution → List SavingsAttribution → ℕ
rows_of a [] = 0
rows_of a (b ∷ rows) = (if is_row_of a b then 1 else 0) + rows_of a rows

abbrev pub gross_of : SavingsAttribution → List SavingsAttribution → ℕ
gross_of a [] = 0
gross_of a (b ∷ rows) = (if is_row_of a b then b.gross_savings_usd else 0) + gross_of a rows

is_row_of_self : (a : SavingsAttribution) → is_row_of a a ≡ true
is_row_of_self a = ground (arith, str_eq_self a.project_id, str_eq_self a.recommendation_id)

upsert-rows_of :
    (a : SavingsAttribution) (rows : List SavingsAttribution)
    → rows_of a (upsert a rows) ≡ max 1 (rows_of a rows)
unfolding upsert
upsert-rows_of a [] = ground (arith, is_row_of_self a)
upsert-rows_of a (b ∷ rows) = ground (arith, is_row_of_self a, upsert-rows_of a rows)

gross_of-none :
    (a : SavingsAttribution) (rows : List SavingsAttribution)
    → rows_of a rows ≡ 0
    → gross_of a rows ≡ 0
gross_of-none a [] h = refl
gross_of-none a (b ∷ rows) h = ground (arith, gross_of-none a rows)

upsert-gross_of :
    (a : SavingsAttribution) (rows : List SavingsAttribution)
    → rows_of a rows ≤ 1
    → gross_of a (upsert a rows) ≡ a.gross_savings_usd
unfolding upsert
upsert-gross_of a [] h = ground (arith, is_row_of_self a)
upsert-gross_of a (b ∷ rows) h = elim (Bool-cases (is_row_of a b)) [
  | inl mine ↦ rw mine (ground (arith, is_row_of_self a, gross_of-none a rows (ground arith)))
  | inr other ↦ ground (arith, upsert-gross_of a rows)
]

share-le : (a p : ℕ) → p ≤ max_gain_share_percent → share a p ≤ a
unfolding share
share-le a p h = let capped : a * p ≤ a * 2500 = mul-le-mul (le_refl a) h in omega arith

share_bound : (a p : ℕ) → p ≤ max_gain_share_percent → share a p * 10_000 ≤ a * 2500 + 5000
unfolding share
share_bound a p h = let capped : a * p ≤ a * 2500 = mul-le-mul (le_refl a) h in omega arith

attribution_of-adds_up :
    (rec : Recommendation) (lever : Lever) (raw : ℤ) (percent start end : ℕ)
    → let a = attribution_of rec lever raw percent start end in
      (a.varsten_fee_usd + a.net_savings_usd ≡ a.gross_savings_usd)
      × (a.varsten_fee_usd * 10_000 ≤ a.gross_savings_usd * 2500 + 5000)
unfolding attribution_of
attribution_of-adds_up rec lever raw percent start end =
    let gross = pos_part (quantize raw) in
    let p = min percent max_gain_share_percent in
    let small : p ≤ max_gain_share_percent = omega arith in
    (omega (arith, share-le gross p small), share_bound gross p small)

recorded :
    (rec : Recommendation) (percent : ℕ) (actor : Option String) (start end now : ℕ)
    (rows : List SavingsAttribution) (lever : Lever) (raw : ℤ)
    → attributable rec ≡ some (lever, raw)
    → let a = attribution_of rec lever raw percent start end in
      let r = record_applied_savings rec percent actor start end now rows in
      (r.attributions ≡ upsert a rows) × (r.action.realized_savings_usd ≡ some a.net_savings_usd)
unfolding record_applied_savings
recorded rec percent actor start end now rows lever raw e = ground arith

-- Each row of the recommendation for the period passes.
abbrev pub AllRowsOf :
    SavingsAttribution → (SavingsAttribution → Type 0) → List SavingsAttribution → Type 0
AllRowsOf a P rows = All (λ b. is_row_of a b ≡ true → P b) rows

no_rows-AllRowsOf :
    (a : SavingsAttribution) (P : SavingsAttribution → Type 0) (rows : List SavingsAttribution)
    → rows_of a rows ≡ 0
    → AllRowsOf a P rows
no_rows-AllRowsOf a P [] h = tt
no_rows-AllRowsOf a P (b ∷ rows) h =
    ((λ mine. absurd (ground arith)), no_rows-AllRowsOf a P rows (ground arith))

upsert-AllRowsOf :
    (a : SavingsAttribution) (P : SavingsAttribution → Type 0) (rows : List SavingsAttribution)
    → rows_of a rows ≤ 1
    → ((lever : Lever) → P (record a { lever = lever }))
    → AllRowsOf a P (upsert a rows)
unfolding upsert
upsert-AllRowsOf a P [] h p = ((λ mine. p a.lever), tt)
upsert-AllRowsOf a P (b ∷ rows) h p = elim (Bool-cases (is_row_of a b)) [
  | inl mine ↦ rw (mine, upsert) ((λ same. p b.lever), no_rows-AllRowsOf a P rows (ground arith))
  | inr other ↦
      rw (other, upsert)
        ((λ mine. absurd (ground arith)), upsert-AllRowsOf a P rows (ground arith) p)
]

-- Applying a recommendation with a lever and positive savings leaves exactly one attribution of it for
-- the month, if there was at most one. The row that is stored is, but for the lever of an earlier one,
-- the attribution computed now: its method is that of the recommendation, its fee, at most a quarter,
-- and its net add up to its gross, and the action row carries its net.
pub record_applied_savings-once :
    (rec : Recommendation) (percent : ℕ) (actor : Option String) (start end now : ℕ)
    (rows : List SavingsAttribution) (lever : Lever) (raw : ℤ)
    → attributable rec ≡ some (lever, raw)
    → rows_of (attribution_of rec lever raw percent start end) rows ≤ 1
    → let a = attribution_of rec lever raw percent start end in
      let r = record_applied_savings rec percent actor start end now rows in
      (rows_of a r.attributions ≡ 1)
      × (gross_of a r.attributions ≡ pos_part (quantize raw))
      × AllRowsOf a
          (λ b.
            (record b { lever = lever } ≡ a)
            × (b.gross_savings_usd ≡ pos_part (quantize raw))
            × (b.measurement_method ≡ rec.measurement_method)
            × (b.varsten_fee_usd + b.net_savings_usd ≡ b.gross_savings_usd)
            × (b.varsten_fee_usd * 10_000 ≤ b.gross_savings_usd * 2500 + 5000)
            × (r.action.realized_savings_usd ≡ some b.net_savings_usd))
          r.attributions
unfolding attribution_of
record_applied_savings-once rec percent actor start end now rows lever raw e h =
    let a = attribution_of rec lever raw percent start end in
    let (kept, net) = recorded rec percent actor start end now rows lever raw e in
    let (whole, capped) = attribution_of-adds_up rec lever raw percent start end in
    (
      ap (rows_of a) kept ∙ upsert-rows_of a rows ∙ omega arith,
      ap (gross_of a) kept ∙ upsert-gross_of a rows h,
      rw kept (upsert-AllRowsOf a _ rows h (λ l. (refl, refl, refl, whole, capped, net))),
    )
