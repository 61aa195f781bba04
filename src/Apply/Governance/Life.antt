-- ===== src/Apply/Governance/Life.antt =====
-- The life of a change request over every history of operations on the table.
use varsten.Prelude.{
  ℕ, ◌≤◌, String, ◌≡◌, refl, ◌∙◌, inl, inr, Bool, true, not, ◌&&◌, ◌||◌, Option, none, some, List,
  [], ◌∷◌, ◌++◌, arith, str_eq, Bool-cases, Option-cases,
}
use varsten.Apply.Records.{Recommendation, EvalRun, ChangeRequest, ChangeStatus, ok, err, is_gated}
use varsten.Apply.Governance.{
  is_completed, is_actionable, change_request_for, update_change_request, new_change_request,
  refresh, ensure_change_request, decide_change_request, activate, mark_active, roll_back,
  mark_rolled_back,
}

-- An operation on the table of change requests.
pub data Operation : Type 0 where
  proposes : EvalRun → Option Recommendation → Operation
  decides : String → String → Bool → Option String → Operation
  activates : String → Operation
  rolls_back : String → Operation

-- The request after a decision that may be refused.
unfoldable pub decide_row : String → Bool → Option String → ℕ → ChangeRequest → ChangeRequest
unfolding decide_change_request
decide_row user approve rationale now c =
    elim (decide_change_request c user approve rationale now) [ ok (c', event) ↦ c' | err e ↦ c ]

unfoldable pub operate : Operation → ℕ → List ChangeRequest → List ChangeRequest
unfolding mark_active mark_rolled_back
operate (Operation.proposes run rec) now cs = ensure_change_request run rec cs
operate (Operation.decides id user approve rationale) now cs =
    update_change_request id (decide_row user approve rationale now) cs
operate (Operation.activates id) now cs = mark_active id now cs
operate (Operation.rolls_back id) now cs = mark_rolled_back id now cs

-- How far a request has come.
abbrev pub rank : ChangeStatus → ℕ
rank ChangeStatus.proposed = 0
rank ChangeStatus.approved = 1
rank ChangeStatus.active = 2
rank ChangeStatus.rolled_back = 3
rank ChangeStatus.rejected = 4

-- What may become of a request: it never goes back, a rejected or rolled back one stays so, and once
-- it is decided or active its evidence, decider and rationale are what they were.
pub record Evolves (c d : ChangeRequest) : Type 0 where
  pub same_id : d.recommendation_id ≡ c.recommendation_id
  pub forward : rank c.status ≤ rank d.status
  pub rejected_stays : c.status ≡ ChangeStatus.rejected → d.status ≡ ChangeStatus.rejected
  pub rolled_back_stays : c.status ≡ ChangeStatus.rolled_back → d.status ≡ ChangeStatus.rolled_back
  pub evidence_frozen : 1 ≤ rank c.status → d.evidence ≡ c.evidence
  pub decider_frozen : 1 ≤ rank c.status → d.decided_by_user_id ≡ c.decided_by_user_id
  pub rationale_frozen : 1 ≤ rank c.status → d.decision_rationale ≡ c.decision_rationale

Evolves-refl : (c : ChangeRequest) → Evolves c c
Evolves-refl c = record {
  same_id = refl;
  forward = omega arith;
  rejected_stays = λ e. e;
  rolled_back_stays = λ e. e;
  evidence_frozen = λ _. refl;
  decider_frozen = λ _. refl;
  rationale_frozen = λ _. refl;
}

Evolves-trans : {c d e : ChangeRequest} → Evolves c d → Evolves d e → Evolves c e
Evolves-trans p q = record {
  same_id = q.same_id ∙ p.same_id;
  forward = omega (arith, p.forward, q.forward);
  rejected_stays = λ h. q.rejected_stays (p.rejected_stays h);
  rolled_back_stays = λ h. q.rolled_back_stays (p.rolled_back_stays h);
  evidence_frozen = λ h. q.evidence_frozen (omega (arith, p.forward)) ∙ p.evidence_frozen h;
  decider_frozen = λ h. q.decider_frozen (omega (arith, p.forward)) ∙ p.decider_frozen h;
  rationale_frozen = λ h. q.rationale_frozen (omega (arith, p.forward)) ∙ p.rationale_frozen h;
}

refresh-Evolves :
    (run : EvalRun) (rec : Recommendation) (c : ChangeRequest) → Evolves c (refresh run rec c)
unfolding refresh
refresh-Evolves run rec c = ground arith

decide_row-Evolves :
    (user : String) (approve : Bool) (rationale : Option String) (now : ℕ) (c : ChangeRequest)
    → Evolves c (decide_row user approve rationale now c)
unfolding decide_row
decide_row-Evolves user approve rationale now c = ground arith

activate-Evolves : (now : ℕ) (c : ChangeRequest) → Evolves c (activate now c)
unfolding activate
activate-Evolves now c = ground arith

roll_back-Evolves : (now : ℕ) (c : ChangeRequest) → Evolves c (roll_back now c)
unfolding roll_back
roll_back-Evolves now c = ground arith

-- A write to one row that keeps its id: what is then found under an id.
find-update :
    (id rec : String) (f : ChangeRequest → ChangeRequest) (cs : List ChangeRequest)
    (c : ChangeRequest)
    → ((x : ChangeRequest) → Evolves x (f x))
    → change_request_for id cs ≡ some c
    → (d : ChangeRequest) × (change_request_for id (update_change_request rec f cs) ≡ some d)
      × Evolves c d
unfolding change_request_for update_change_request
find-update id rec f [] c ev e = cc
find-update id rec f (x ∷ cs) c ev e = elim (Bool-cases (str_eq x.recommendation_id rec)) [
  | inl here ↦ elim (Bool-cases (str_eq x.recommendation_id id)) [
    | inl mine ↦ (f x, ground (arith, (ev x).same_id), rw (same_row x c cs id mine e) (ev x))
    | inr other ↦ (c, ground (arith, (ev x).same_id), Evolves-refl c)
  ]
  | inr there ↦ elim (Bool-cases (str_eq x.recommendation_id id)) [
    | inl mine ↦ (c, ground arith, Evolves-refl c)
    | inr other ↦
        let e' : change_request_for id cs ≡ some c = ground arith in
        let (d, found, evolved) = find-update id rec f cs c ev e' in (d, ground arith, evolved)
  ]
]
  where
    same_row :
        (x c : ChangeRequest) (cs : List ChangeRequest) (id : String)
        → str_eq x.recommendation_id id ≡ true
        → change_request_for id (x ∷ cs) ≡ some c
        → c ≡ x
    same_row x c cs id mine e = ground arith

find-append :
    (id : String) (cs ds : List ChangeRequest) (c : ChangeRequest)
    → change_request_for id cs ≡ some c
    → change_request_for id (cs ++ ds) ≡ some c
unfolding change_request_for
find-append id [] ds c e = cc
find-append id (x ∷ cs) ds c e = ground (arith, find-append id cs ds c)

-- What an operation leaves of the request under an id.
abbrev pub Kept : String → ChangeRequest → List ChangeRequest → Type 0
Kept id c cs = (d : ChangeRequest) × (change_request_for id cs ≡ some d) × Evolves c d

ensure-Kept :
    (id : String) (run : EvalRun) (rec : Option Recommendation) (cs : List ChangeRequest)
    (c : ChangeRequest)
    → change_request_for id cs ≡ some c
    → Kept id c (ensure_change_request run rec cs)
unfolding ensure_change_request
ensure-Kept id run none cs c e = (c, e, Evolves-refl c)
ensure-Kept id run (some rec) cs c e =
    elim (Bool-cases
      (not (is_completed run.status && is_actionable run.verdict) || not (is_gated rec.lever))) [
        | inl stops ↦ rw stops (c, e, Evolves-refl c)
        | inr goes ↦ elim (Option-cases (change_request_for rec.id cs)) [
          | inl new ↦
              rw (goes, new)
                (c, find-append id cs (new_change_request run rec ∷ []) c e, Evolves-refl c)
          | inr (old, found) ↦
              rw (goes, found)
                (find-update id rec.id (refresh run rec) cs c (refresh-Evolves run rec) e)
        ]
      ]

operate-Kept :
    (op : Operation) (now : ℕ) (id : String) (cs : List ChangeRequest) (c : ChangeRequest)
    → change_request_for id cs ≡ some c
    → Kept id c (operate op now cs)
unfolding operate
operate-Kept (Operation.proposes run rec) now id cs c e = ensure-Kept id run rec cs c e
operate-Kept (Operation.decides at user approve rationale) now id cs c e =
    find-update id at (decide_row user approve rationale now) cs c
      (decide_row-Evolves user approve rationale now) e
operate-Kept (Operation.activates at) now id cs c e =
    find-update id at (activate now) cs c (activate-Evolves now) e
operate-Kept (Operation.rolls_back at) now id cs c e =
    find-update id at (roll_back now) cs c (roll_back-Evolves now) e

unfoldable pub operate_all : List (Operation × ℕ) → List ChangeRequest → List ChangeRequest
operate_all [] cs = cs
operate_all ((op, now) ∷ ops) cs = operate_all ops (operate op now cs)

-- Over any history of proposals, decisions, activations and rollbacks, a change request is never
-- lost and never goes back; a rejected or rolled back one stays so; and from its decision or
-- activation on, the evidence that was in front of the approver, the approver and the rationale are
-- never changed.
pub operate_all-Evolves :
    (ops : List (Operation × ℕ)) (id : String) (cs : List ChangeRequest) (c : ChangeRequest)
    → change_request_for id cs ≡ some c
    → (d : ChangeRequest) × (change_request_for id (operate_all ops cs) ≡ some d) × Evolves c d
unfolding operate_all
operate_all-Evolves [] id cs c e = (c, e, Evolves-refl c)
operate_all-Evolves ((op, now) ∷ ops) id cs c e =
    let (d, found, first) = operate-Kept op now id cs c e in
    let (d', found', rest) = operate_all-Evolves ops id (operate op now cs) d found in
    (d', found', Evolves-trans first rest)
