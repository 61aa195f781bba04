-- ===== src/Apply/EvalGate.antt =====
-- backend/app/eval/gate.py: a gated recommendation may be applied only after a shadow eval.
pub mod Sound
use varsten.Prelude.{
  String, Bool, true, false, not, Option, none, some, List, [], ◌∷◌, str_eq, ltb, if◌then◌else◌,
}
use varsten.Prelude.Int.{ℤ, pos, leb_ℤ}
use varsten.Apply.Records.{
  Recommendation, EvalRun, RunStatus, Verdict, MeasurementMethod, is_gated, Result, ok, err,
  eval_gate,
}

abbrev pub is_run_of : String → EvalRun → Bool
is_run_of recommendation_id run = elim run.recommendation_id [
  | none ↦ false
  | some r ↦ str_eq r recommendation_id
]

-- `latest_run`: the newest run of the recommendation.
unfoldable pub latest_run : String → List EvalRun → Option EvalRun
latest_run rec [] = none
latest_run rec (run ∷ runs) =
    let rest = latest_run rec runs in
    if is_run_of rec run
    then (elim rest [
      | none ↦ some run
      | some later ↦ if ltb run.created_at later.created_at then some later else some run
    ])
    else rest

-- The verdict of a completed run, where automation needs `safe`.
unfoldable pub check_verdict : Bool → EvalRun → Option Verdict → Result (Option EvalRun)
check_verdict automated run none = err eval_gate
check_verdict automated run (some Verdict.safe) = ok (some run)
check_verdict automated run (some Verdict.needs_human) =
    if automated then err eval_gate else ok (some run)
check_verdict automated run (some Verdict.unsafe) = err eval_gate
check_verdict automated run (some Verdict.insufficient_data) = err eval_gate

abbrev is_completed : RunStatus → Bool
is_completed RunStatus.completed = true
is_completed RunStatus.pending = false
is_completed RunStatus.running = false
is_completed RunStatus.failed = false

-- `assert_appliable`: the gating run, or none for a lever that is not gated.
unfoldable pub assert_appliable : List EvalRun → Recommendation → Bool → Result (Option EvalRun)
unfolding check_verdict
assert_appliable runs rec automated =
    if not (is_gated rec.lever) then ok none else elim (latest_run rec.id runs) [
      | none ↦ err eval_gate
      | some run ↦
          if not (is_completed run.status)
          then err eval_gate
          else check_verdict automated run run.verdict
    ]

-- `apply_measured_savings`; `<= 0` is what the code tests.
unfoldable pub apply_measured_savings : Recommendation → Option EvalRun → Recommendation
apply_measured_savings rec none = rec
apply_measured_savings rec (some run) = elim run.cost_delta_usd [
  | none ↦ rec
  | some delta ↦ if leb_ℤ delta (pos 0) then rec else record rec {
    estimated_monthly_savings_usd = some delta;
    measurement_method = MeasurementMethod.replay_measured;
  }
]
