-- ===== src/Apply/Governance.antt =====
-- backend/app/engine/governance.py: the life of a change request. The table holds the change requests
-- of all recommendations; where the code logs an error and goes on, nothing changes.
pub mod Life
use varsten.Prelude.{
  ℕ, String, Bool, true, false, not, ◌&&◌, ◌||◌, Option, none, some, List, [], ◌∷◌, ◌++◌, str_eq,
  if◌then◌else◌,
}
use varsten.Prelude.Int.{ℤ}
use varsten.Apply.Records.{
  Recommendation, EvalRun, RunStatus, Verdict, ChangeRequest, ChangeStatus, Evidence, AuditEvent,
  is_gated, Result, ok, err, governance,
}

abbrev pub is_actionable : Option Verdict → Bool
is_actionable none = false
is_actionable (some Verdict.safe) = true
is_actionable (some Verdict.needs_human) = true
is_actionable (some Verdict.unsafe) = false
is_actionable (some Verdict.insufficient_data) = false

abbrev pub is_completed : RunStatus → Bool
is_completed RunStatus.completed = true
is_completed RunStatus.pending = false
is_completed RunStatus.running = false
is_completed RunStatus.failed = false

abbrev pub is_proposed : ChangeStatus → Bool
is_proposed ChangeStatus.proposed = true
is_proposed ChangeStatus.approved = false
is_proposed ChangeStatus.rejected = false
is_proposed ChangeStatus.active = false
is_proposed ChangeStatus.rolled_back = false

abbrev pub is_approved : ChangeStatus → Bool
is_approved ChangeStatus.approved = true
is_approved ChangeStatus.proposed = false
is_approved ChangeStatus.rejected = false
is_approved ChangeStatus.active = false
is_approved ChangeStatus.rolled_back = false

abbrev pub is_active : ChangeStatus → Bool
is_active ChangeStatus.active = true
is_active ChangeStatus.proposed = false
is_active ChangeStatus.approved = false
is_active ChangeStatus.rejected = false
is_active ChangeStatus.rolled_back = false

-- `_evidence_bundle`
unfoldable pub evidence_bundle : EvalRun → Recommendation → Evidence
evidence_bundle run rec = record {
  run = run;
  estimated_monthly_savings_usd = rec.estimated_monthly_savings_usd;
  measurement_method = rec.measurement_method;
}

-- `change_request_for_recommendation`
unfoldable pub change_request_for : String → List ChangeRequest → Option ChangeRequest
change_request_for rec [] = none
change_request_for rec (c ∷ cs) =
    if str_eq c.recommendation_id rec then some c else change_request_for rec cs

-- A write to the row that `change_request_for` finds.
unfoldable pub update_change_request :
    String → (ChangeRequest → ChangeRequest) → List ChangeRequest → List ChangeRequest
update_change_request rec f [] = []
update_change_request rec f (c ∷ cs) =
    if str_eq c.recommendation_id rec then f c ∷ cs else c ∷ update_change_request rec f cs

-- `run.incumbent_model or recommendation.related_model or ""`
unfoldable pub incumbent_of : EvalRun → Recommendation → String
incumbent_of run rec =
    if not (str_eq run.incumbent_model "")
    then run.incumbent_model
    else elim rec.related_model [ none ↦ "" | some m ↦ m ]

-- The row that is proposed.
unfoldable pub new_change_request : EvalRun → Recommendation → ChangeRequest
unfolding incumbent_of evidence_bundle
new_change_request run rec = record {
  recommendation_id = rec.id;
  eval_run_id = run.id;
  lever = rec.lever;
  incumbent_model = incumbent_of run rec;
  candidate_model = run.candidate_model;
  status = ChangeStatus.proposed;
  evidence = evidence_bundle run rec;
  decided_by_user_id = none;
  decided_at = none;
  decision_rationale = none;
  updated_at = none;
}

-- The write to an existing row: only an undecided request takes new evidence.
unfoldable pub refresh : EvalRun → Recommendation → ChangeRequest → ChangeRequest
unfolding evidence_bundle
refresh run rec c =
    if is_proposed c.status
    then record c { eval_run_id = run.id; evidence = evidence_bundle run rec }
    else c

-- `ensure_change_request`; `rec` is the recommendation that the run's id finds, if any.
unfoldable pub ensure_change_request :
    EvalRun → Option Recommendation → List ChangeRequest → List ChangeRequest
ensure_change_request run none cs = cs
ensure_change_request run (some rec) cs =
    if not (is_completed run.status && is_actionable run.verdict) || not (is_gated rec.lever)
    then cs
    else elim (change_request_for rec.id cs) [
      | some _ ↦ update_change_request rec.id (refresh run rec) cs
      | none ↦ cs ++ (new_change_request run rec ∷ [])
    ]

-- `decide_change_request`: the decided request and the audit event of the decision.
unfoldable pub decide_change_request :
    ChangeRequest → String → Bool → Option String → ℕ → Result (ChangeRequest × AuditEvent)
decide_change_request c user approve rationale now =
    let status = if approve then ChangeStatus.approved else ChangeStatus.rejected in
    if not (is_proposed c.status)
    then err governance
    else ok (
      record c {
        status = status;
        decided_by_user_id = some user;
        decided_at = some now;
        decision_rationale = rationale;
      },
      record { actor = user; target_id = c.recommendation_id; before = c.status; after = status },
    )

-- `governance_enforced_for`: the global setting, or the flag of the organization, if it is found.
unfoldable pub governance_enforced_for : Bool → Option Bool → Bool
governance_enforced_for everywhere org =
    if everywhere then true else elim org [ none ↦ false | some enforced ↦ enforced ]

-- `assert_change_request_approved`
unfoldable pub assert_change_request_approved :
    Bool → Recommendation → List ChangeRequest → Result (Unit {0})
assert_change_request_approved enforced rec cs =
    if not (is_gated rec.lever)
    then ok tt
    else if not enforced
    then ok tt
    else elim (change_request_for rec.id cs) [
      | none ↦ err governance
      | some c ↦ if not (is_approved c.status) then err governance else ok tt
    ]

-- The write of `mark_change_request_active` to the row found.
unfoldable pub activate : ℕ → ChangeRequest → ChangeRequest
activate now c =
    if is_proposed c.status || is_approved c.status
    then record c { status = ChangeStatus.active; updated_at = some now }
    else c

-- `mark_change_request_active`
unfoldable pub mark_active : String → ℕ → List ChangeRequest → List ChangeRequest
unfolding activate
mark_active rec now cs = update_change_request rec (activate now) cs

-- The write of `mark_change_request_rolled_back` to the row found.
unfoldable pub roll_back : ℕ → ChangeRequest → ChangeRequest
roll_back now c =
    if is_active c.status
    then record c { status = ChangeStatus.rolled_back; updated_at = some now }
    else c

-- `mark_change_request_rolled_back`
unfoldable pub mark_rolled_back : String → ℕ → List ChangeRequest → List ChangeRequest
unfolding roll_back
mark_rolled_back rec now cs = update_change_request rec (roll_back now) cs
