-- ===== src/Tests/Notices.antt =====
-- Alerts at concrete inputs.
use varsten.Prelude.{◌≤◌, String, ◌≡◌, true, none, some, List, [], ◌∷◌}
use varsten.Prelude.Int.{ℤ, pos}
use varsten.Proxy.Budget.{UsageEvent}
use varsten.Alerts.{AlertRule, Deliver, DeliveryStatus, evaluate_and_deliver}
use varsten.Alerts.Once.{count, evaluate_and_deliver_once}

abbrev spending : List UsageEvent
spending =
    record {
      project_id = "p";
      team = none;
      feature = none;
      customer_id = none;
      received_at = 7;
      cost_usd = pos 120;
    }
    ∷ []

abbrev spend_rule : AlertRule
spend_rule = record {
  id = "a";
  project_id = "p";
  threshold_usd = some (pos 100);
  threshold_percent = none;
  destination_type = "slack";
  destination = "hook";
  enabled = true;
}

abbrev fails : Deliver
fails rule key = DeliveryStatus.failed

abbrev sends : Deliver
sends rule key = DeliveryStatus.sent

abbrev digits : ℤ → String
digits n = "100"

evaluate_and_deliver_once_example :
    let table =
      (evaluate_and_deliver digits fails spending [] (spend_rule ∷ []) "p" 5 "2026-06" []).1 in
    (count "p" "a:2026-06:spend:100" table ≤ 1)
    × (evaluate_and_deliver digits sends spending [] (spend_rule ∷ []) "p" 5 "2026-06" table
        ≡ ([], table))
evaluate_and_deliver_once_example =
    evaluate_and_deliver_once digits fails sends spending [] (spend_rule ∷ []) "p" 5 "2026-06"
      "a:2026-06:spend:100" []
