-- ===== src/Proxy/Budget/Agreement.antt =====
-- The hot path sums the ledger by itself; it blocks exactly what the budget statuses say.
use varsten.Prelude.{ℕ, String, ◌≡◌, refl, ◌&&◌, List, [], ◌∷◌, arith, if◌then◌else◌}
use varsten.Proxy.Budget.{
  UsageEvent, BudgetRule, BudgetStatus, Cap, period_spend, hard_cap_exhausted, status_of,
  evaluate_budgets, is_exhausted, compute_exhausted,
}

-- The caps of the statuses that are exhausted, in order.
abbrev pub exhausted_statuses : List BudgetStatus → List Cap
exhausted_statuses [] = []
exhausted_statuses (s ∷ ss) =
    if hard_cap_exhausted s
    then (s.owner_type, s.owner_key) ∷ exhausted_statuses ss
    else exhausted_statuses ss

is_exhausted-status :
    (events : List UsageEvent) (project : String) (start : ℕ) (rule : BudgetRule)
    → (rule.hard_cap_enabled && is_exhausted events project start rule)
      ≡ hard_cap_exhausted (status_of events project start rule)
unfolding is_exhausted hard_cap_exhausted period_spend
is_exhausted-status events project start rule = ground arith

-- The caps that the proxy computes from the ledger are those of the enabled budgets that the
-- guardrails report as exhausted hard caps, also for an owner type that no column carries.
pub compute_exhausted-evaluate_budgets :
    (events : List UsageEvent) (rules : List BudgetRule) (project : String) (start : ℕ)
    → compute_exhausted events rules project start
      ≡ exhausted_statuses (evaluate_budgets events rules project start)
unfolding compute_exhausted evaluate_budgets
compute_exhausted-evaluate_budgets events [] project start = refl
compute_exhausted-evaluate_budgets events (rule ∷ rules) project start = ground (
  arith,
  is_exhausted-status events project start rule,
  compute_exhausted-evaluate_budgets events rules project start,
)
