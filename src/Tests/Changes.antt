-- ===== src/Tests/Changes.antt =====
-- The life of a recommendation at concrete inputs.
use varsten.Prelude.{
  ℕ, ◌+◌, ◌*◌, ◌≤◌, String, ◌≡◌, refl, ◌≢◌, ◌⊎◌, true, false, none, some, List, [], ◌∷◌, arith,
  eq_iff,
}
use varsten.Prelude.Int.{pos, pos_part}
use varsten.Billing.Fee.{quantize}
use varsten.Proxy.Canary
use varsten.Apply.Records.{
  Lever, Recommendation, RecommendationStatus, MeasurementMethod, EvalRun, RunStatus, Verdict,
  ChangeRequest, ChangeStatus, ProxyPolicy, is_gated, ok, err, Result,
}
use varsten.Apply.EvalGate.{latest_run, assert_appliable}
use varsten.Apply.EvalGate.Sound.{IsLatest, assert_appliable_sound}
use varsten.Apply.Governance.{change_request_for, new_change_request}
use varsten.Apply.Governance.Life
use varsten.Apply.Governance.Life.{Evolves, operate_all, operate_all-Evolves}
use varsten.Apply.Policies.{
  PolicyKey, no_params, find_policy, trim_live, compression_model, activate_compression_policy,
  activate_trim_policy, text_of, deactivate_execution,
}
use varsten.Apply.Policies.Rows.{
  NoneLive, others, compression_key, trim_key, deactivate_execution-NoneLive,
  trim_beside_compression,
}
use varsten.Apply.Savings.{attribution_of, attributable, record_applied_savings}
use varsten.Apply.Savings.Proof.{rows_of, gross_of, AllRowsOf, record_applied_savings-once}
use varsten.Apply.Transitions.{Context, Tables, belongs, transition_recommendation, auto_apply}
use varsten.Apply.Transitions.Gates.{MayApply, transition_recommendation-MayApply}

abbrev downshift : Recommendation
downshift = record {
  id = "r";
  organization_id = "o";
  project_id = "p";
  lever = some Lever.model_downshift;
  related_model = some "gpt-4o";
  target_key = none;
  route_key = "default";
  estimated_monthly_savings_usd = some (pos 100_000_000_000);
  measurement_method = MeasurementMethod.estimated;
  status = RecommendationStatus.is_open;
  updated_at = 0;
  resolved_at = none;
}

abbrev run_of : String → Verdict → ℕ → EvalRun
run_of id verdict time = record {
  id = id;
  recommendation_id = some "r";
  status = RunStatus.completed;
  verdict = some verdict;
  incumbent_model = "gpt-4o";
  candidate_model = "gpt-4o-mini";
  cost_delta_usd = some (pos 90_000_000_000);
  created_at = time;
}

abbrev runs : List EvalRun
runs = run_of "e1" Verdict.unsafe 1 ∷ run_of "e2" Verdict.safe 2 ∷ []

downshift-gated : is_gated (some Lever.model_downshift) ≡ true
unfolding is_gated
downshift-gated = refl

downshift-appliable : assert_appliable runs downshift true ≡ ok (some (run_of "e2" Verdict.safe 2))
unfolding assert_appliable latest_run is_gated
downshift-appliable = refl

assert_appliable_sound_example :
    (run : EvalRun) × (some (run_of "e2" Verdict.safe 2) ≡ some run)
    × IsLatest "r" runs run
    × (run.status ≡ RunStatus.completed)
    × ((run.verdict ≡ some Verdict.safe)
        ⊎ ((run.verdict ≡ some Verdict.needs_human) × (true ≡ false)))
assert_appliable_sound_example =
    assert_appliable_sound runs downshift true (some (run_of "e2" Verdict.safe 2)) downshift-gated
      downshift-appliable

abbrev request : ChangeRequest
request = record {
  recommendation_id = "r";
  eval_run_id = "e2";
  lever = some Lever.model_downshift;
  incumbent_model = "gpt-4o";
  candidate_model = "gpt-4o-mini";
  status = ChangeStatus.proposed;
  evidence = record {
    run = run_of "e2" Verdict.safe 2;
    estimated_monthly_savings_usd = some (pos 5);
    measurement_method = MeasurementMethod.estimated;
  };
  decided_by_user_id = none;
  decided_at = none;
  decision_rationale = none;
  updated_at = none;
}

abbrev operations : List (Life.Operation × ℕ)
operations =
    (Life.decides "r" "alice" true none, 3)
    ∷ (Life.proposes (run_of "e3" Verdict.safe 4) (some downshift), 4)
    ∷ (Life.activates "r", 5)
    ∷ (Life.rolls_back "r", 6)
    ∷ []

request-found : change_request_for "r" (request ∷ []) ≡ some request
unfolding change_request_for
request-found = refl

operate_all-Evolves_example :
    (d : ChangeRequest) × (change_request_for "r" (operate_all operations (request ∷ [])) ≡ some d)
    × Evolves request d
operate_all-Evolves_example =
    operate_all-Evolves operations "r" (request ∷ []) request request-found

abbrev canary_settings : Canary.Settings
canary_settings = record {
  canary_enabled = true;
  canary_initial_percent = 5;
  canary_stages = 5 ∷ 100 ∷ [];
}

abbrev live_policy : Lever → String → ProxyPolicy
live_policy lever source = record {
  project_id = "p";
  lever = lever;
  target_key = "gpt-4o";
  route_key = "default";
  params = no_params;
  rollout_percent = 25;
  enabled = true;
  source_recommendation_id = source;
  activated_at = 1;
}

abbrev policies : List ProxyPolicy
policies = live_policy Lever.model_downshift "r" ∷ live_policy Lever.token_trim "s" ∷ []

deactivate_execution-NoneLive_example :
    NoneLive "r" (deactivate_execution "r" policies)
    × (others "r" (deactivate_execution "r" policies) ≡ others "r" policies)
deactivate_execution-NoneLive_example = deactivate_execution-NoneLive "r" policies

abbrev compress : Recommendation
compress = record downshift { id = "c"; lever = some Lever.prompt_compression }

abbrev compressed : List ProxyPolicy
compressed =
    record (live_policy Lever.prompt_compression "c") {
      params = record no_params { artifact_id = some "a" };
      rollout_percent = 5;
      activated_at = 9;
    }
    ∷ []

compress-activates :
    activate_compression_policy canary_settings compress (some "a") 9 [] ≡ ok compressed
unfolding activate_compression_policy trim_live varsten.Apply.Policies.write_policy
    varsten.Apply.Policies.activated varsten.Proxy.Canary.initial_rollout_percent
compress-activates = refl

abbrev trim : Recommendation
trim = record downshift { id = "t"; lever = some Lever.token_trim }

compression-found :
    find_policy (compression_key compress) (live_policy Lever.prompt_compression "c" ∷ [])
    ≡ some (live_policy Lever.prompt_compression "c")
unfolding find_policy varsten.Apply.Policies.has_key
compression-found = refl

model-named : text_of (some "gpt-4o") ≢ ""
model-named e = let false_true : false ≡ true = (eq_iff "gpt-4o" "").1 e in cc

trim_beside_compression_example :
    let ps' =
      activate_trim_policy canary_settings trim 9 (live_policy Lever.prompt_compression "c" ∷ []) in
    (find_policy (compression_key compress) ps' ≡ some (live_policy Lever.prompt_compression "c"))
    × ((p : ProxyPolicy) × (find_policy (trim_key trim) ps' ≡ some p) × (p.enabled ≡ true))
trim_beside_compression_example =
    trim_beside_compression canary_settings trim 9 (live_policy Lever.prompt_compression "c" ∷ [])
      (compression_key compress) model-named refl refl compression-found refl

downshift-attributable : attributable downshift ≡ some (Lever.model_downshift, pos 100_000_000_000)
unfolding attributable
downshift-attributable = refl

record_applied_savings-once_example :
    let a = attribution_of downshift Lever.model_downshift (pos 100_000_000_000) 2000 0 31 in
    let r = record_applied_savings downshift 2000 none 0 31 9 [] in
    (rows_of a r.attributions ≡ 1)
    × (gross_of a r.attributions ≡ pos_part (quantize (pos 100_000_000_000)))
    × AllRowsOf a
        (λ b.
          (record b { lever = Lever.model_downshift } ≡ a)
          × (b.gross_savings_usd ≡ pos_part (quantize (pos 100_000_000_000)))
          × (b.measurement_method ≡ MeasurementMethod.estimated)
          × (b.varsten_fee_usd + b.net_savings_usd ≡ b.gross_savings_usd)
          × (b.varsten_fee_usd * 10_000 ≤ b.gross_savings_usd * 2500 + 5000)
          × (r.action.realized_savings_usd ≡ some b.net_savings_usd))
        r.attributions
record_applied_savings-once_example =
    record_applied_savings-once downshift 2000 none 0 31 9 [] Lever.model_downshift
      (pos 100_000_000_000) downshift-attributable (omega arith)

abbrev context : Context
context = record {
  canary = canary_settings;
  governance_change_requests_enabled = false;
  organization_governance = some true;
  project_id = "p";
  organization_id = "o";
  is_performance = true;
  lever_row = none;
  runs = runs;
  artifact = none;
  gain_share_percent = 2000;
  month_start = 0;
  month_end = 31;
  now = 9;
}

abbrev tables : Tables
tables = record {
  policies = [];
  change_requests = record request { status = ChangeStatus.approved } ∷ [];
  actions = [];
  attributions = [];
  lever_total = none;
}

abbrev result_of : Result (Recommendation × Tables) → Recommendation × Tables
result_of (ok done) = done
result_of (err e) = (downshift, tables)

downshift-applies :
    transition_recommendation context "alice" RecommendationStatus.applied downshift tables
    ≡ ok (
        result_of
          (transition_recommendation context "alice" RecommendationStatus.applied downshift tables))
unfolding transition_recommendation is_gated varsten.Apply.Transitions.lever_enabled
    assert_appliable latest_run varsten.Apply.Governance.assert_change_request_approved
    varsten.Apply.Governance.governance_enforced_for change_request_for
    varsten.Apply.Policies.activate_execution varsten.Apply.EvalGate.apply_measured_savings
downshift-applies = refl

transition_recommendation-MayApply_example :
    (belongs context downshift ≡ true) × MayApply context false downshift tables
transition_recommendation-MayApply_example =
    transition_recommendation-MayApply context "alice" downshift tables
      (result_of
        (transition_recommendation context "alice" RecommendationStatus.applied downshift tables))
      downshift-applies

downshift-automated : (auto_apply context downshift tables).2 ≡ none
unfolding auto_apply is_gated varsten.Apply.Transitions.lever_enabled assert_appliable latest_run
    varsten.Apply.Governance.assert_change_request_approved
    varsten.Apply.Governance.governance_enforced_for change_request_for
    varsten.Apply.Policies.activate_execution varsten.Apply.EvalGate.apply_measured_savings
downshift-automated = refl

downshift-belongs : belongs context downshift ≡ true
unfolding belongs
downshift-belongs = refl
