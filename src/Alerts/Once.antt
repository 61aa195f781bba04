-- ===== src/Alerts/Once.antt =====
-- Each crossing is delivered once in its period.
use varsten.Prelude.{
  ℕ, ◌+◌, ◌≤◌, max, String, ◌≡◌, refl, true, false, ◌&&◌, none, List, [], ◌∷◌, arith, str_eq,
  eq_iff, if◌then◌else◌, str_eq_self, All,
}
use varsten.Prelude.Int.{ℤ}
use varsten.Proxy.Budget.{UsageEvent, BudgetRule, evaluate_budgets}
use varsten.Alerts.{
  AlertRule, AlertDelivery, Crossing, Deliver, is_delivered, fire_once, crossings, project_spend,
  fire_all, evaluate_and_deliver,
}

-- How many deliveries of the project have the key.
abbrev pub count : String → String → List AlertDelivery → ℕ
count project key [] = 0
count project key (d ∷ ds) =
    (if str_eq d.project_id project && str_eq d.dedupe_key key then 1 else 0) + count project key ds

is_delivered_count :
    (project key : String) (ds : List AlertDelivery)
    → is_delivered project key ds ≡ false
    → count project key ds ≡ 0
unfolding is_delivered
is_delivered_count project key [] h = refl
is_delivered_count project key (d ∷ ds) h = ground (arith, is_delivered_count project key ds)

fire_once-count :
    (deliver : Deliver) (project key : String) (c : Crossing) (ds : List AlertDelivery)
    → count project key (fire_once deliver project c ds).1 ≤ max 1 (count project key ds)
unfolding fire_once
fire_once-count deliver project key (rule, k, observed) ds =
    ground (arith, is_delivered_count project k ds, eq_iff k key)

fire_all-count :
    (deliver : Deliver) (project key : String) (cs : List Crossing) (ds : List AlertDelivery)
    → count project key (fire_all deliver project cs ds).1 ≤ max 1 (count project key ds)
unfolding fire_all
fire_all-count deliver project key [] ds = omega arith
fire_all-count deliver project key (c ∷ cs) ds =
    let one = fire_once-count deliver project key c ds in
    let more = fire_all-count deliver project key cs (fire_once deliver project c ds).1 in
    omega (arith, one, more)

-- What is delivered stays so, and what is fired is delivered.
fire_once-is_delivered :
    (deliver : Deliver) (project key : String) (c : Crossing) (ds : List AlertDelivery)
    → is_delivered project key ds ≡ true
    → is_delivered project key (fire_once deliver project c ds).1 ≡ true
unfolding fire_once is_delivered
fire_once-is_delivered deliver project key (rule, k, observed) ds h = ground arith

fire_once_delivers :
    (deliver : Deliver) (project : String) (c : Crossing) (ds : List AlertDelivery)
    → is_delivered project c.1 (fire_once deliver project c ds).1 ≡ true
unfolding fire_once is_delivered
fire_once_delivers deliver project (rule, k, observed) ds =
    ground (arith, str_eq_self k, str_eq_self project)

fire_all-is_delivered :
    (deliver : Deliver) (project key : String) (cs : List Crossing) (ds : List AlertDelivery)
    → is_delivered project key ds ≡ true
    → is_delivered project key (fire_all deliver project cs ds).1 ≡ true
unfolding fire_all
fire_all-is_delivered deliver project key [] ds h = h
fire_all-is_delivered deliver project key (c ∷ cs) ds h =
    fire_all-is_delivered deliver project key cs (fire_once deliver project c ds).1
      (fire_once-is_delivered deliver project key c ds h)

-- Every crossing is delivered.
abbrev pub AllDelivered : String → List AlertDelivery → List Crossing → Type 0
AllDelivered project ds = All (λ c. is_delivered project c.1 ds ≡ true)

fire_all-AllDelivered :
    (deliver : Deliver) (project : String) (cs : List Crossing) (ds : List AlertDelivery)
    → AllDelivered project (fire_all deliver project cs ds).1 cs
unfolding fire_all
fire_all-AllDelivered deliver project [] ds = tt
fire_all-AllDelivered deliver project (c ∷ cs) ds =
    let ds' = (fire_once deliver project c ds).1 in
    (
      fire_all-is_delivered deliver project c.1 cs ds' (fire_once_delivers deliver project c ds),
      fire_all-AllDelivered deliver project cs ds',
    )

fire_once_again :
    (deliver : Deliver) (project : String) (c : Crossing) (ds : List AlertDelivery)
    → is_delivered project c.1 ds ≡ true
    → fire_once deliver project c ds ≡ (none, ds)
unfolding fire_once
fire_once_again deliver project (rule, k, observed) ds h = ground arith

fire_all_again :
    (deliver : Deliver) (project : String) (cs : List Crossing) (ds : List AlertDelivery)
    → AllDelivered project ds cs
    → fire_all deliver project cs ds ≡ ([], ds)
unfolding fire_all
fire_all_again deliver project [] ds h = refl
fire_all_again deliver project (c ∷ cs) ds (h, hs) =
    ground (arith, fire_once_again deliver project c ds h, fire_all_again deliver project cs ds hs)

-- However often alerts are evaluated, over whatever ledgers and with whatever outcomes of sending, no
-- key has more than one delivery unless it had; and a second evaluation of the same month over the
-- same ledger delivers nothing and changes nothing, even where the first sending failed.
pub evaluate_and_deliver_once :
    (text_of : ℤ → String) (deliver again : Deliver) (events : List UsageEvent)
    (budgets : List BudgetRule) (rules : List AlertRule) (project : String) (start : ℕ)
    (period key : String) (ds : List AlertDelivery)
    → let table =
        (evaluate_and_deliver text_of deliver events budgets rules project start period ds).1 in
      (count project key table ≤ max 1 (count project key ds))
      × (evaluate_and_deliver text_of again events budgets rules project start period table
          ≡ ([], table))
unfolding evaluate_and_deliver
evaluate_and_deliver_once text_of deliver again events budgets rules project start period key ds =
    let cs =
      crossings text_of (project_spend events project start)
        (evaluate_budgets events budgets project start) period project rules in
    let table = (fire_all deliver project cs ds).1 in
    (
      fire_all-count deliver project key cs ds,
      fire_all_again again project cs table (fire_all-AllDelivered deliver project cs ds),
    )
