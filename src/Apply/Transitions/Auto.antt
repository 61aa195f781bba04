-- ===== src/Apply/Transitions/Auto.antt =====
-- What an application by `auto_apply_ready_recommendations` of backend/app/engine/promotion.py leaves,
-- also where it raises.
use varsten.Prelude.{◌≡◌, ◌⊎◌, true, false, Option, none, some}
use varsten.Prelude.Int.{ℤ}
use varsten.Apply.Records.{
  Recommendation, RecommendationStatus, MeasurementMethod, ApplyError, transform_conflict,
}
use varsten.Apply.Transitions.{Context, Tables, belongs, is_open_status}
use varsten.Apply.Transitions.Gates.{MayApply}

-- The recommendation with savings that a run has measured.
abbrev pub IsMeasured : Recommendation → Recommendation → Type 0
IsMeasured rec rec' =
    (delta : ℤ) × (rec' ≡ record rec {
      estimated_monthly_savings_usd = some delta;
      measurement_method = MeasurementMethod.replay_measured;
    })

-- What a failed application leaves of the recommendation.
abbrev pub IsLeft : Context → Recommendation → Tables → ApplyError → Recommendation → Type 0
IsLeft ctx rec t e rec' =
    (rec' ≡ rec)
    ⊎ ((rec.status ≡ RecommendationStatus.is_open)
        × MayApply ctx true rec t
        × (e ≡ transform_conflict)
        × IsMeasured rec rec')

-- What automation commits, without and with an error.
abbrev pub Committed :
    Context → Recommendation → Tables → Recommendation × Tables × Option ApplyError → Type 0
Committed ctx rec t (rec', t', error) =
    ((error ≡ none)
      × (belongs ctx rec ≡ true)
      × (((is_open_status rec.status ≡ false) × (rec' ≡ rec) × (t' ≡ t))
          ⊎ ((rec.status ≡ RecommendationStatus.is_open)
              × MayApply ctx true rec t
              × (rec'.status ≡ RecommendationStatus.applied))))
    ⊎ ((e : ApplyError) × (error ≡ some e)
        × (t' ≡ t)
        × (rec'.status ≡ rec.status)
        × IsLeft ctx rec t e rec')
