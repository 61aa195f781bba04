-- ===== src/Proxy/Budget.antt =====
-- backend/app/budgets.py, the status of each budget of a project, and the hard caps of
-- backend/app/proxy/budget_enforcement.py. The ledger and the rules are lists of rows; amounts are
-- whole units of the ledger's smallest decimal; `start` is the first instant of the month.
pub mod Agreement
pub mod Cache
use varsten.Prelude.{
  ℕ, String, Bool, false, not, ◌&&◌, Option, none, some, List, [], ◌∷◌, str_eq, leb, if◌then◌else◌,
}
use varsten.Prelude.Int.{ℤ, ◌+ℤ◌, leb_ℤ}

pub record UsageEvent : Type 0 where
  pub project_id : String
  pub team : Option String
  pub feature : Option String
  pub customer_id : Option String
  pub received_at : ℕ
  pub cost_usd : ℤ

pub record BudgetRule : Type 0 where
  pub project_id : String
  pub owner_type : String
  pub owner_key : String
  pub monthly_budget_usd : ℤ
  pub enabled : Bool
  pub hard_cap_enabled : Bool

pub record BudgetStatus : Type 0 where
  pub owner_type : String
  pub owner_key : String
  pub budget_usd : ℤ
  pub spend_usd : ℤ
  pub hard_cap_enabled : Bool

-- `OWNER_COLUMN.get(owner_type)`
unfoldable pub owner_column : String → Option (UsageEvent → Option String)
owner_column owner_type =
    if str_eq owner_type "team"
    then some (λ e. e.team)
    else if str_eq owner_type "feature"
    then some (λ e. e.feature)
    else if str_eq owner_type "customer"
    then some (λ e. e.customer_id)
    else none

abbrev pub equals : Option String → String → Bool
equals none key = false
equals (some v) key = str_eq v key

-- The sum of the costs of a project's rows whose column holds the key, from `start` on.
unfoldable pub column_spend :
    String → (UsageEvent → Option String) → String → ℕ → List UsageEvent → ℤ
column_spend project column key start [] = ℤ.pos 0
column_spend project column key start (e ∷ es) =
    let rest = column_spend project column key start es in
    if str_eq e.project_id project && equals (column e) key && leb start e.received_at
    then e.cost_usd +ℤ rest
    else rest

-- `period_spend`
unfoldable pub period_spend : List UsageEvent → String → String → String → ℕ → ℤ
period_spend events project owner_type owner_key start = elim (owner_column owner_type) [
  | none ↦ ℤ.pos 0
  | some column ↦ column_spend project column owner_key start events
]

-- `BudgetStatus.over_budget`; `budget > 0` is `1 <= budget` in whole units.
unfoldable pub over_budget : BudgetStatus → Bool
over_budget s = leb_ℤ (ℤ.pos 1) s.budget_usd && leb_ℤ s.budget_usd s.spend_usd

-- `BudgetStatus.hard_cap_exhausted`
unfoldable pub hard_cap_exhausted : BudgetStatus → Bool
unfolding over_budget
hard_cap_exhausted s = s.hard_cap_enabled && over_budget s

abbrev pub status_of : List UsageEvent → String → ℕ → BudgetRule → BudgetStatus
status_of events project start rule = record {
  owner_type = rule.owner_type;
  owner_key = rule.owner_key;
  budget_usd = rule.monthly_budget_usd;
  spend_usd = period_spend events project rule.owner_type rule.owner_key start;
  hard_cap_enabled = rule.hard_cap_enabled;
}

-- `evaluate_budgets`
unfoldable pub evaluate_budgets : List UsageEvent → List BudgetRule → String → ℕ → List BudgetStatus
evaluate_budgets events [] project start = []
evaluate_budgets events (rule ∷ rules) project start =
    let rest = evaluate_budgets events rules project start in
    if str_eq rule.project_id project && rule.enabled
    then status_of events project start rule ∷ rest
    else rest

-- A cap: the owner's type and key.
abbrev pub Cap : Type 0
Cap = String × String

-- The body of the loop of `_compute_exhausted` on a rule that the query selects.
unfoldable pub is_exhausted : List UsageEvent → String → ℕ → BudgetRule → Bool
is_exhausted events project start rule = elim (owner_column rule.owner_type) [
  | none ↦ false
  | some column ↦
      if leb_ℤ rule.monthly_budget_usd (ℤ.pos 0)
      then false
      else leb_ℤ rule.monthly_budget_usd (column_spend project column rule.owner_key start events)
]

-- `_compute_exhausted`: the set of exhausted caps, as a list.
unfoldable pub compute_exhausted : List UsageEvent → List BudgetRule → String → ℕ → List Cap
unfolding is_exhausted
compute_exhausted events [] project start = []
compute_exhausted events (rule ∷ rules) project start =
    let rest = compute_exhausted events rules project start in
    if str_eq rule.project_id project
      && rule.enabled
      && rule.hard_cap_enabled
      && is_exhausted events project start rule
    then (rule.owner_type, rule.owner_key) ∷ rest
    else rest

-- The workload tags of `RequestContext`.
pub record RequestContext : Type 0 where
  pub team : Option String
  pub feature : Option String
  pub customer_id : Option String

-- `owner_values.get(owner_type)`
unfoldable pub owner_value : RequestContext → String → Option String
owner_value ctx owner_type =
    if str_eq owner_type "team"
    then ctx.team
    else if str_eq owner_type "feature"
    then ctx.feature
    else if str_eq owner_type "customer"
    then ctx.customer_id
    else none

-- The loop's test: the tag is there, is not empty, and is the cap's key.
unfoldable pub hits : RequestContext → Cap → Bool
hits ctx (owner_type, owner_key) = elim (owner_value ctx owner_type) [
  | none ↦ false
  | some v ↦ not (str_eq v "") && str_eq v owner_key
]

-- `matched_cap`
unfoldable pub matched_cap : List Cap → Option RequestContext → Option Cap
unfolding hits
matched_cap [] ctx = none
matched_cap (cap ∷ caps) none = none
matched_cap (cap ∷ caps) (some ctx) = if hits ctx cap then some cap else matched_cap caps (some ctx)
