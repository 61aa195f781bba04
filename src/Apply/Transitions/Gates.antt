-- ===== src/Apply/Transitions/Gates.antt =====
-- What has to hold before a recommendation is applied, and what a transition leaves.
use varsten.Prelude.{
  String, ◌≡◌, refl, sym, ap, ◌∙◌, ◌⊎◌, inl, inr, Bool, true, false, Option, none, some, List, ◌∷◌,
  arith, Bool-cases, Option-cases,
}
use varsten.Apply.Records.{
  Recommendation, RecommendationStatus, RecommendationAction, EvalRun, RunStatus, Verdict,
  ChangeRequest, ChangeStatus, Result, ok, err, ◌>>=◌, ◌>>◌, ensure, is_gated, ApplyError,
  not_found, requires_performance, lever_off,
}
use varsten.Apply.EvalGate.{assert_appliable}
use varsten.Apply.EvalGate.Sound.{IsLatest, assert_appliable_sound}
use varsten.Apply.Governance.{
  is_approved, change_request_for, governance_enforced_for, assert_change_request_approved,
}
use varsten.Apply.Policies.Rows.{NoneLive, others, deactivate_execution-NoneLive}
use varsten.Apply.Transitions.{
  Context, Tables, lever_enabled, cleared, apply_recommendation, belongs, finish_apply, withdraw,
  transition_recommendation, is_open_status, apply_recommendation_automated,
}

bind-ok :
    {A B : Type 0} (m : Result A) (f : A → Result B) (b : B)
    → (m >>= f) ≡ ok b
    → (a : A) × (m ≡ ok a) × (f a ≡ ok b)
bind-ok (ok a) f b e = (a, refl, e)
bind-ok (err x) f b e = absurd (ground arith)

ensure-ok :
    {B : Type 0} (test : Bool) (x : ApplyError) (m : Result B) (b : B)
    → (ensure test x >> m) ≡ ok b
    → (test ≡ true) × (m ≡ ok b)
ensure-ok true x m b e = (refl, e)
ensure-ok false x m b e = absurd (ground arith)

-- Whether governance is enforced on the organization of the request.
abbrev pub enforced : Context → Bool
enforced ctx =
    governance_enforced_for ctx.governance_change_requests_enabled ctx.organization_governance

-- The recommendation has a newest run of its own that is completed with a verdict that suffices, and,
-- unless governance is not enforced, an approved change request.
abbrev pub IsCleared : Context → Bool → Recommendation → Tables → Type 0
IsCleared ctx automated rec t =
    ((run : EvalRun) × IsLatest rec.id ctx.runs run
      × (run.status ≡ RunStatus.completed)
      × ((run.verdict ≡ some Verdict.safe)
          ⊎ ((run.verdict ≡ some Verdict.needs_human) × (automated ≡ false))))
    × ((enforced ctx ≡ false)
        ⊎ ((c : ChangeRequest) × (change_request_for rec.id t.change_requests ≡ some c)
            × (c.status ≡ ChangeStatus.approved)))

-- All that `_apply_recommendation` asks for.
abbrev pub MayApply : Context → Bool → Recommendation → Tables → Type 0
MayApply ctx automated rec t =
    (ctx.is_performance ≡ true)
    × (lever_enabled rec.lever ctx.lever_row ≡ true)
    × ((is_gated rec.lever ≡ false) ⊎ IsCleared ctx automated rec t)

is_approved_only : (s : ChangeStatus) → is_approved s ≡ true → s ≡ ChangeStatus.approved
is_approved_only s e = ground arith

pub is_open_status_only :
    (s : RecommendationStatus) → is_open_status s ≡ true → s ≡ RecommendationStatus.is_open
is_open_status_only RecommendationStatus.is_open e = refl
is_open_status_only RecommendationStatus.applied e = absurd (ground arith)
is_open_status_only RecommendationStatus.dismissed e = absurd (ground arith)
is_open_status_only RecommendationStatus.rolled_back e = absurd (ground arith)

assert_change_request_approved-ok :
    (strict : Bool) (rec : Recommendation) (cs : List ChangeRequest) {u : Unit {0}}
    → is_gated rec.lever ≡ true
    → assert_change_request_approved strict rec cs ≡ ok u
    → (strict ≡ false)
      ⊎ ((c : ChangeRequest) × (change_request_for rec.id cs ≡ some c)
          × (c.status ≡ ChangeStatus.approved))
unfolding assert_change_request_approved
assert_change_request_approved-ok false rec cs gated e = inl refl
assert_change_request_approved-ok true rec cs gated e =
    elim (Option-cases (change_request_for rec.id cs)) [
      | inl missing ↦ absurd (ground arith)
      | inr (c, found) ↦ inr (c, found, is_approved_only c.status (ground arith))
    ]

pub cleared-MayApply :
    (ctx : Context) (automated : Bool) (rec : Recommendation) (t : Tables) (done : Option EvalRun)
    → cleared ctx automated rec t ≡ ok done
    → MayApply ctx automated rec t
unfolding cleared
cleared-MayApply ctx automated rec t done e =
    let (pro, e1) = ensure-ok ctx.is_performance requires_performance _ done e in
    let (on, e2) = ensure-ok (lever_enabled rec.lever ctx.lever_row) lever_off _ done e1 in
    let (gating, gate, e3) = bind-ok (assert_appliable ctx.runs rec automated) _ done e2 in
    let (_, approved, _) =
      bind-ok (assert_change_request_approved (enforced ctx) rec t.change_requests) _ done e3 in
    (
      pro,
      on,
      elim (Bool-cases (is_gated rec.lever)) [
        | inr free ↦ inl free
        | inl gated ↦ inr (
          evaluated ctx automated rec gating gated gate,
          assert_change_request_approved-ok (enforced ctx) rec t.change_requests gated approved,
        )
      ],
    )
  where
    evaluated :
        (ctx : Context) (automated : Bool) (rec : Recommendation) (gating : Option EvalRun)
        → is_gated rec.lever ≡ true
        → assert_appliable ctx.runs rec automated ≡ ok gating
        → (run : EvalRun) × IsLatest rec.id ctx.runs run
          × (run.status ≡ RunStatus.completed)
          × ((run.verdict ≡ some Verdict.safe)
              ⊎ ((run.verdict ≡ some Verdict.needs_human) × (automated ≡ false)))
    evaluated ctx automated rec gating gated gate =
        let (run, same, latest, completed, verdict) =
          assert_appliable_sound ctx.runs rec automated gating gated gate in
        (run, latest, completed, verdict)

apply_recommendation-MayApply :
    (ctx : Context) (automated : Bool) (rec : Recommendation) (t : Tables)
    (done : Recommendation × Tables)
    → apply_recommendation ctx automated rec t ≡ ok done
    → MayApply ctx automated rec t
unfolding apply_recommendation
apply_recommendation-MayApply ctx automated rec t done e =
    let (gating, passed, _) = bind-ok (cleared ctx automated rec t) _ done e in
    cleared-MayApply ctx automated rec t gating passed

-- A recommendation that a person applies belongs to the project, the organization is on Pro, the lever
-- is on, and a gated lever has its eval run and, where governance is enforced, its approved request.
pub transition_recommendation-MayApply :
    (ctx : Context) (actor : String) (rec : Recommendation) (t : Tables)
    (done : Recommendation × Tables)
    → transition_recommendation ctx actor RecommendationStatus.applied rec t ≡ ok done
    → (belongs ctx rec ≡ true) × MayApply ctx false rec t
unfolding transition_recommendation
transition_recommendation-MayApply ctx actor rec t done e =
    let (mine, e1) = ensure-ok (belongs ctx rec) not_found _ done e in
    let (given, applied, _) = bind-ok (apply_recommendation ctx false rec t) _ done e1 in
    (mine, apply_recommendation-MayApply ctx false rec t given applied)

finish_apply-applied :
    (ctx : Context) (given : Recommendation × Tables)
    → (finish_apply ctx none given).0.status ≡ RecommendationStatus.applied
unfolding finish_apply
finish_apply-applied ctx (rec, t) = refl

-- Automation leaves a recommendation that is not open as it is, and one that it applies meets the same
-- conditions, where a verdict that needs a person does not suffice.
pub apply_recommendation_automated-ok :
    (ctx : Context) (rec : Recommendation) (t : Tables) (done : Recommendation × Tables)
    → apply_recommendation_automated ctx rec t ≡ ok done
    → (belongs ctx rec ≡ true)
      × (((is_open_status rec.status ≡ false) × (done ≡ (rec, t)))
          ⊎ ((rec.status ≡ RecommendationStatus.is_open)
              × MayApply ctx true rec t
              × (done.0.status ≡ RecommendationStatus.applied)))
unfolding apply_recommendation_automated
apply_recommendation_automated-ok ctx rec t done e =
    let (mine, e1) = ensure-ok (belongs ctx rec) not_found _ done e in
    elim (Bool-cases (is_open_status rec.status)) [
      | inr closed ↦ (mine, inl (closed, ground arith))
      | inl opened ↦
          let e2 : (apply_recommendation ctx true rec t >>= λ d. ok (finish_apply ctx none d))
              ≡ ok done =
            rw opened at e1 in
          let (given, applied, last) = bind-ok (apply_recommendation ctx true rec t) _ done e2 in
          (
            mine,
            inr (
              is_open_status_only rec.status opened,
              apply_recommendation-MayApply ctx true rec t given applied,
              (let same : finish_apply ctx none given ≡ done = ground arith in
                  ap (λ d. d.0.status) (sym same) ∙ finish_apply-applied ctx given),
            ),
          )
    ]

-- The action row of a withdrawal, which saves nothing.
abbrev pub withdrawn :
    Context → String → RecommendationStatus → Recommendation → RecommendationAction
withdrawn ctx actor status rec = record {
  recommendation_id = rec.id;
  actor_user_id = some actor;
  lever = rec.lever;
  action_type = status;
  realized_savings_usd = none;
  occurred_at = ctx.now;
}

-- A dismissal or a rollback of a recommendation of the project always succeeds: the recommendation is
-- resolved now with that status, no policy of its own is enabled any longer, the policies of the
-- others are untouched, and one action row of the transition is added with no savings.
transition_recommendation-withdraws :
    (ctx : Context) (actor : String) (status : RecommendationStatus) (rec : Recommendation)
    (t : Tables)
    → belongs ctx rec ≡ true
    → (status ≡ RecommendationStatus.dismissed) ⊎ (status ≡ RecommendationStatus.rolled_back)
    → (rec' : Recommendation) × (t' : Tables) × (transition_recommendation ctx actor status rec t
        ≡ ok (rec', t'))
      × (rec'.status ≡ status)
      × (rec'.resolved_at ≡ some ctx.now)
      × NoneLive rec.id t'.policies
      × (others rec.id t'.policies ≡ others rec.id t.policies)
      × (t'.actions ≡ withdrawn ctx actor status rec ∷ t.actions)
unfolding transition_recommendation withdraw
transition_recommendation-withdraws ctx actor status rec t mine which =
    let (rec', t') = withdraw ctx actor status rec t in
    let (off, kept) = deactivate_execution-NoneLive rec.id t.policies in
    (rec', t', withdraws status which, refl, refl, off, kept, refl)
  where
    withdraws :
        (s : RecommendationStatus)
        → (s ≡ RecommendationStatus.dismissed) ⊎ (s ≡ RecommendationStatus.rolled_back)
        → transition_recommendation ctx actor s rec t ≡ ok (withdraw ctx actor s rec t)
    withdraws RecommendationStatus.dismissed w = rw mine refl
    withdraws RecommendationStatus.rolled_back w = rw mine refl
    withdraws RecommendationStatus.is_open w = absurd (ground arith)
    withdraws RecommendationStatus.applied w = absurd (ground arith)
