-- ===== src/Alerts.antt =====
-- backend/app/alerts.py: the alert rules of a project, and one delivery record for each crossing. Money
-- is in the ledger's smallest decimal, a threshold in percent in its column's 10^-4, and `period` is the
-- text of the month.
pub mod Once
use varsten.Prelude.{
  ℕ, ◌+◌, ◌-◌, ◌*◌, ◌/◌, ◌%◌, String, Bool, false, ◌&&◌, ◌||◌, Option, none, some, List, [], ◌∷◌,
  str_eq, ltb, leb, ◌==◌, if◌then◌else◌,
}
use Prim.Native.String.{◌++◌ as str_append}
use mathlib.Core.List.{◌++◌}
use varsten.Prelude.Int.{ℤ, pos, negsuc, ◌+ℤ◌, leb_ℤ}
use varsten.Proxy.Budget.{UsageEvent, BudgetRule, BudgetStatus, evaluate_budgets}

pub data DeliveryStatus : Type 0 where
  sent : DeliveryStatus
  failed : DeliveryStatus
  skipped : DeliveryStatus

pub record AlertRule : Type 0 where
  pub id : String
  pub project_id : String
  pub threshold_usd : Option ℤ
  pub threshold_percent : Option ℤ
  pub destination_type : String
  pub destination : String
  pub enabled : Bool

pub record AlertDelivery : Type 0 where
  pub project_id : String
  pub alert_rule_id : String
  pub observed_usd : ℤ
  pub status : DeliveryStatus
  pub dedupe_key : String

-- n / d to the nearest whole; a tie goes to the even one, as `quantize` does by default.
unfoldable pub round_half_even : ℕ → ℕ → ℕ
round_half_even n d =
    let q = n / d in
    let r = n % d in if ltb (2 * r) d then q else if ltb d (2 * r) then q + 1 else q + q % 2

-- `BudgetStatus.percent_used`, in tenths of a percent.
unfoldable pub percent_used : BudgetStatus → Option ℤ
unfolding round_half_even
percent_used s = elim s.budget_usd [
  | negsuc _ ↦ none
  | pos budget ↦ if budget == 0 then none else elim s.spend_usd [
    | pos n ↦ some (pos (round_half_even (n * 1000) budget))
    | negsuc n ↦
        let tenths = round_half_even ((n + 1) * 1000) budget in
        some (if tenths == 0 then pos 0 else negsuc (tenths - 1))
  ]
]

-- A percent in tenths, in units of 10^-4.
abbrev pub to_threshold_units : ℤ → ℤ
to_threshold_units (pos n) = pos (n * 1000)
to_threshold_units (negsuc n) = negsuc (n * 1000 + 999)

-- The month-to-date spend of a project.
unfoldable pub project_spend : List UsageEvent → String → ℕ → ℤ
project_spend [] project start = pos 0
project_spend (e ∷ es) project start =
    let rest = project_spend es project start in
    if str_eq e.project_id project && leb start e.received_at then e.cost_usd +ℤ rest else rest

-- A crossing: the rule, the key that it is deduplicated by, and the amount observed.
abbrev pub Crossing : Type 0
Crossing = AlertRule × String × ℤ

-- `_deliver` sends over the network: what becomes of each rule's message of a key.
abbrev pub Deliver : Type 0
Deliver = AlertRule → String → DeliveryStatus

-- `already`: a delivery of the project with the key.
unfoldable pub is_delivered : String → String → List AlertDelivery → Bool
is_delivered project key [] = false
is_delivered project key (d ∷ ds) =
    (str_eq d.project_id project && str_eq d.dedupe_key key) || is_delivered project key ds

-- `_fire_once`: the delivery, if one is made, and the table.
unfoldable pub fire_once :
    Deliver → String → Crossing → List AlertDelivery → Option AlertDelivery × List AlertDelivery
fire_once deliver project (rule, key, observed) ds =
    let made : AlertDelivery = record {
      project_id = project;
      alert_rule_id = rule.id;
      observed_usd = observed;
      status = deliver rule key;
      dedupe_key = key;
    } in
    if is_delivered project key ds then (none, ds) else (some made, made ∷ ds)

abbrev pub joined : List String → String
joined [] = ""
joined (s ∷ ss) = str_append s (joined ss)

-- `str` of the decimal numbers in a key is an argument.
module _ (text_of : ℤ → String) where
  -- The crossings of the budgets by a rule in percent.
  unfoldable pub budget_crossings : AlertRule → String → ℤ → List BudgetStatus → List Crossing
  unfolding percent_used
  budget_crossings rule period percent [] = []
  budget_crossings rule period percent (b ∷ bs) =
      let rest = budget_crossings rule period percent bs in
      let key : String = joined (
        rule.id
        ∷ ":"
        ∷ period
        ∷ ":budget:"
        ∷ b.owner_type
        ∷ ":"
        ∷ b.owner_key
        ∷ ":"
        ∷ text_of percent
        ∷ []) in
      elim (percent_used b) [
        | none ↦ rest
        | some used ↦
            if leb_ℤ percent (to_threshold_units used)
            then (rule, key, b.spend_usd) ∷ rest
            else rest
      ]

  -- The crossings of one rule, in the order of the loop.
  unfoldable pub rule_crossings : ℤ → List BudgetStatus → String → AlertRule → List Crossing
  unfolding budget_crossings
  rule_crossings spend budgets period rule = elim rule.threshold_usd [
    | some threshold ↦
        if leb_ℤ threshold spend
        then (rule, joined (rule.id ∷ ":" ∷ period ∷ ":spend:" ∷ text_of threshold ∷ []), spend)
          ∷ []
        else []
    | none ↦ elim rule.threshold_percent [
      | none ↦ []
      | some percent ↦ budget_crossings rule period percent budgets
    ]
  ]

  -- Those of the enabled rules of the project.
  unfoldable pub crossings :
      ℤ → List BudgetStatus → String → String → List AlertRule → List Crossing
  unfolding rule_crossings
  crossings spend budgets period project [] = []
  crossings spend budgets period project (rule ∷ rules) =
      let rest = crossings spend budgets period project rules in
      if str_eq rule.project_id project && rule.enabled
      then rule_crossings spend budgets period rule ++ rest
      else rest

-- The loop: fires each crossing, and collects the deliveries made.
unfoldable pub fire_all :
    Deliver → String → List Crossing → List AlertDelivery → List AlertDelivery × List AlertDelivery
unfolding fire_once
fire_all deliver project [] ds = ([], ds)
fire_all deliver project (c ∷ cs) ds =
    let (made, ds') = fire_once deliver project c ds in
    let (more, final) = fire_all deliver project cs ds' in
    (elim made [ none ↦ more | some d ↦ d ∷ more ], final)

-- `evaluate_and_deliver`: the deliveries made and the table. Delivering changes neither the ledger nor
-- the budgets, so that the crossings are those before the loop.
unfoldable pub evaluate_and_deliver :
    (ℤ → String)
    → Deliver
    → List UsageEvent
    → List BudgetRule
    → List AlertRule
    → String
    → ℕ
    → String
    → List AlertDelivery
    → List AlertDelivery × List AlertDelivery
unfolding crossings project_spend fire_all
evaluate_and_deliver text_of deliver events budgets rules project start period ds =
    fire_all deliver project
      (crossings text_of (project_spend events project start)
        (evaluate_budgets events budgets project start) period project rules)
      ds
