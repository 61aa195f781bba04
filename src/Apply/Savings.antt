-- ===== src/Apply/Savings.antt =====
-- `record_applied_savings` of backend/app/savings.py: the action row of an applied recommendation, and
-- its savings attribution for the month, from `start` to `end`. Attributed amounts are in cents, and
-- the percent of the organization is the column's 10^-4, which is not negative.
pub mod Proof
use varsten.Prelude.{
  ℕ, ◌+◌, ◌-◌, min, String, Bool, true, false, ◌&&◌, Option, none, some, List, [], ◌∷◌, str_eq,
  ◌==◌, if◌then◌else◌,
}
use varsten.Prelude.Int.{ℤ, pos, pos_part, leb_ℤ}
use varsten.Billing.Fee.{quantize, share, max_gain_share_percent}
use varsten.Apply.Records.{
  Lever, lever_eq, Recommendation, RecommendationStatus, RecommendationAction, MeasurementMethod,
}

pub record SavingsAttribution : Type 0 where
  pub project_id : String
  pub recommendation_id : String
  pub lever : Lever
  pub period_start : ℕ
  pub period_end : ℕ
  pub measurement_method : MeasurementMethod
  pub is_measured : Bool
  pub gross_savings_usd : ℕ
  pub varsten_fee_usd : ℕ
  pub net_savings_usd : ℕ

-- `is_measured`
unfoldable pub is_measured : MeasurementMethod → Bool
is_measured MeasurementMethod.estimated = false
is_measured MeasurementMethod.replay_measured = true
is_measured MeasurementMethod.holdback_measured = true
is_measured MeasurementMethod.direct_measured = true
is_measured MeasurementMethod.other_method = false

-- `org_fee_percent`
unfoldable pub org_fee_percent : ℕ → ℕ
org_fee_percent percent = min percent max_gain_share_percent

-- The attribution of a recommendation with a lever and positive savings.
unfoldable pub attribution_of : Recommendation → Lever → ℤ → ℕ → ℕ → ℕ → SavingsAttribution
unfolding is_measured org_fee_percent
attribution_of rec lever raw percent start end =
    let gross = pos_part (quantize raw) in
    let fee = share gross (org_fee_percent percent) in
    record {
      project_id = rec.project_id;
      recommendation_id = rec.id;
      lever = lever;
      period_start = start;
      period_end = end;
      measurement_method = rec.measurement_method;
      is_measured = is_measured rec.measurement_method;
      gross_savings_usd = gross;
      varsten_fee_usd = fee;
      net_savings_usd = gross - fee;
    }

-- The row that the query finds: one for each recommendation and period of a project.
abbrev pub is_row_of : SavingsAttribution → SavingsAttribution → Bool
is_row_of a b =
    str_eq b.project_id a.project_id
    && str_eq b.recommendation_id a.recommendation_id
    && b.period_start == a.period_start
    && b.period_end == a.period_end

-- The row found is overwritten, except for the lever that it was created with; or the row is added.
unfoldable pub upsert : SavingsAttribution → List SavingsAttribution → List SavingsAttribution
upsert a [] = a ∷ []
upsert a (b ∷ rows) =
    if is_row_of a b then record a { lever = b.lever } ∷ rows else b ∷ upsert a rows

-- The sum that `_refresh_lever_savings` writes to the lever's configuration.
unfoldable pub lever_savings : String → Lever → ℕ → ℕ → List SavingsAttribution → ℕ
lever_savings project lever start end [] = 0
lever_savings project lever start end (a ∷ rows) =
    (if str_eq a.project_id project
        && lever_eq a.lever lever
        && a.period_start == start
        && a.period_end == end
      then a.gross_savings_usd
      else 0)
    + lever_savings project lever start end rows

abbrev pub applied_action : Recommendation → Option String → ℕ → Option ℕ → RecommendationAction
applied_action rec actor now realized = record {
  recommendation_id = rec.id;
  actor_user_id = actor;
  lever = rec.lever;
  action_type = RecommendationStatus.applied;
  realized_savings_usd = realized;
  occurred_at = now;
}

-- The lever and the savings that are attributed, where the recommendation has both.
unfoldable pub attributable : Recommendation → Option (Lever × ℤ)
attributable rec = elim rec.lever [
  | none ↦ none
  | some lever ↦ elim rec.estimated_monthly_savings_usd [
    | none ↦ none
    | some raw ↦ if leb_ℤ raw (pos 0) then none else some (lever, raw)
  ]
]

-- What applying leaves: the action row, the attributions, and the total that is written to the lever's
-- configuration where the project has one.
pub record Recorded : Type 0 where
  pub action : RecommendationAction
  pub attributions : List SavingsAttribution
  pub lever_total : Option ℕ

-- `record_applied_savings`
unfoldable pub record_applied_savings :
    Recommendation → ℕ → Option String → ℕ → ℕ → ℕ → List SavingsAttribution → Recorded
unfolding attributable
record_applied_savings rec percent actor start end now rows = elim (attributable rec) [
  | none ↦ record {
    action = applied_action rec actor now none;
    attributions = rows;
    lever_total = none;
  }
  | some (lever, raw) ↦ record {
    action =
        applied_action rec actor now
          (some (attribution_of rec lever raw percent start end).net_savings_usd);
    attributions = upsert (attribution_of rec lever raw percent start end) rows;
    lever_total = some (
        lever_savings rec.project_id lever start end
          (upsert (attribution_of rec lever raw percent start end) rows));
  }
]
