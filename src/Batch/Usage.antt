-- ===== src/Batch/Usage.antt =====
-- The measurement half of backend/app/proxy/batch.py. Prices and costs are whole numbers of 10⁻¹² dollars,
-- the scale of their columns, so that `quantize` changes nothing.
pub mod Sums
use varsten.Prelude.{
  ℕ, ◌+◌, ◌*◌, String, Bool, true, false, ◌&&◌, Option, none, some, List, [], ◌∷◌, str_eq, ltb, leb,
  if◌then◌else◌,
}
use mathlib.Core.List.{◌++◌}
use varsten.Prelude.Int.{ℤ, pos, ◌-ℤ◌, ◌+ℤ◌}
use varsten.Prelude.Dict.{Dict}

pub record ModelPrice : Type 0 where
  pub model_key : String
  pub provider : String
  pub effective_at : ℕ
  pub input_cost_per_token : ℕ
  pub output_cost_per_token : ℕ
  pub input_cost_per_token_batch : Option ℕ
  pub output_cost_per_token_batch : Option ℕ

-- A line of the output after `decode`, `strip` and `json.loads`: nothing, what is no JSON, or the model
-- and the usage of a response, where a missing count is 0.
pub data OutputLine : Type 0 where
  blank : OutputLine
  no_json : OutputLine
  row : Option String → ℕ → ℕ → OutputLine

pub record Usage : Type 0 where
  pub input : ℕ
  pub output : ℕ

-- The row of the ledger that `record_batch_usage` of backend/app/proxy/ledger.py adds.
pub record BatchUsage : Type 0 where
  pub model : String
  pub input_tokens : ℕ
  pub output_tokens : ℕ
  pub total_tokens : ℕ
  pub cost_usd : Option ℕ
  pub naive_cost_usd : Option ℕ
  pub saved_usd : Option ℤ
  pub is_priced : Bool
  pub request_count : ℕ
  pub occurred_at : ℕ

abbrev pub later_of : Option ModelPrice → ModelPrice → ModelPrice
later_of none p = p
later_of (some best) p = if ltb p.effective_at best.effective_at then best else p

-- `_latest_model_price`
unfoldable pub latest_model_price : List ModelPrice → String → String → ℕ → Option ModelPrice
latest_model_price [] model provider at = none
latest_model_price (p ∷ ps) model provider at =
    let rest = latest_model_price ps model provider at in
    if str_eq p.model_key model && str_eq p.provider provider && leb p.effective_at at
    then some (later_of rest p)
    else rest

-- `agg = by_model.setdefault(model, …)`, and the two additions to it.
unfoldable pub add_usage : String → ℕ → ℕ → Dict Usage → Dict Usage
add_usage model i o [] = (model, record { input = i; output = o }) ∷ []
add_usage model i o ((m, u) ∷ d) =
    if str_eq m model
    then (m, record { input = u.input + i; output = u.output + o }) ∷ d
    else (m, u) ∷ add_usage model i o d

-- The loop of `_parse_output_usage`, from what it has so far.
unfoldable pub parse_lines : List OutputLine → Dict Usage → ℕ → Dict Usage × ℕ
parse_lines [] by_model count = (by_model, count)
parse_lines (blank ∷ ls) by_model count = parse_lines ls by_model count
parse_lines (no_json ∷ ls) by_model count = parse_lines ls by_model count
parse_lines (row none i o ∷ ls) by_model count = parse_lines ls by_model count
parse_lines (row (some model) i o ∷ ls) by_model count =
    parse_lines ls (if str_eq model "" then by_model else add_usage model i o by_model)
      (if str_eq model "" then count else count + 1)

-- `_parse_output_usage`
unfoldable pub parse_output_usage : List OutputLine → Dict Usage × ℕ
unfolding parse_lines
parse_output_usage output = parse_lines output [] 0

-- The price of the tokens, without and with the discount.
pub record Priced : Type 0 where
  pub actual : ℕ
  pub naive : ℕ

abbrev pub batch_cost : Usage → Option ℕ → Option ℕ → ℕ → ℕ
batch_cost u (some i) (some o) naive = u.input * i + u.output * o
batch_cost u none o naive = naive
batch_cost u (some i) none naive = naive

unfoldable pub price_usage : Option ModelPrice → Usage → Option Priced
price_usage none u = none
price_usage (some p) u =
    let naive = u.input * p.input_cost_per_token + u.output * p.output_cost_per_token in
    some (record {
      actual = batch_cost u p.input_cost_per_token_batch p.output_cost_per_token_batch naive;
      naive = naive;
    })

-- `record_batch_usage`
unfoldable pub record_batch_usage : String → Usage → Option Priced → ℕ → ℕ → BatchUsage
record_batch_usage model u priced count at = record {
  model = model;
  input_tokens = u.input;
  output_tokens = u.output;
  total_tokens = u.input + u.output;
  cost_usd = elim priced [ none ↦ none | some p ↦ some p.actual ];
  naive_cost_usd = elim priced [ none ↦ none | some p ↦ some p.naive ];
  saved_usd = elim priced [ none ↦ none | some p ↦ some (pos p.naive -ℤ pos p.actual) ];
  is_priced = elim priced [ none ↦ false | some p ↦ true ];
  request_count = count;
  occurred_at = at;
}

pub record Totals : Type 0 where
  pub request_count : ℕ
  pub input_tokens : ℕ
  pub output_tokens : ℕ
  pub actual_cost_usd : Option ℕ
  pub naive_cost_usd : Option ℕ
  pub saved_usd : Option ℤ

-- The variables of the loop of `_measure_and_record`, with the rows that it adds to the ledger.
pub record Measure : Type 0 where
  pub total_in : ℕ
  pub total_out : ℕ
  pub total_actual : ℕ
  pub total_naive : ℕ
  pub any_priced : Bool
  pub rows : List BatchUsage

abbrev pub add_priced : Option Priced → Measure → Measure
add_priced none m = m
add_priced (some p) m = record m {
  any_priced = true;
  total_actual = m.total_actual + p.actual;
  total_naive = m.total_naive + p.naive;
}

-- One round of the loop, from the price of the tokens on.
unfoldable pub measure_priced : Option Priced → ℕ → ℕ → String → Usage → Measure → Measure
unfolding record_batch_usage
measure_priced priced at count model u m =
    let m' = add_priced priced m in
    record m' {
      total_in = m.total_in + u.input;
      total_out = m.total_out + u.output;
      rows = m.rows ++ (record_batch_usage model u priced count at ∷ []);
    }

-- One round of the loop.
unfoldable pub measure_model : List ModelPrice → ℕ → ℕ → String → Usage → Measure → Measure
measure_model prices at count model u m =
    measure_priced (price_usage (latest_model_price prices model "openai" at) u) at count model u m

unfoldable pub measure_models : List ModelPrice → ℕ → ℕ → Dict Usage → Measure → Measure
unfolding measure_model
measure_models prices at count [] m = m
measure_models prices at count ((model, u) ∷ d) m =
    measure_models prices at count d (measure_model prices at count model u m)

abbrev pub no_measure : Measure
no_measure = record {
  total_in = 0;
  total_out = 0;
  total_actual = 0;
  total_naive = 0;
  any_priced = false;
  rows = [];
}

abbrev pub totals_of : ℕ → Measure → Totals
totals_of count m = record {
  request_count = count;
  input_tokens = m.total_in;
  output_tokens = m.total_out;
  actual_cost_usd = if m.any_priced then some m.total_actual else none;
  naive_cost_usd = if m.any_priced then some m.total_naive else none;
  saved_usd = if m.any_priced then some (pos m.total_naive -ℤ pos m.total_actual) else none;
}

-- `_measure_and_record`: the totals of the job, and the new rows of the ledger.
unfoldable pub measure_and_record : List ModelPrice → ℕ → List OutputLine → Totals × List BatchUsage
unfolding parse_output_usage measure_models
measure_and_record prices at output =
    let (by_model, count) = parse_output_usage output in
    let m = measure_models prices at count by_model no_measure in (totals_of count m, m.rows)
