-- ===== src/Batch/Usage/Sums.antt =====
-- What the totals of a batch are sums of: the lines of its output, and the rows of the ledger.
use varsten.Prelude.{
  ℕ, ◌+◌, String, ◌≡◌, refl, sym, ap, ◌⊎◌, inl, inr, Bool, true, false, Option, none, some, List,
  [], ◌∷◌, arith, str_eq, if◌then◌else◌, Bool-cases,
}
use mathlib.Core.List.{◌++◌}
use varsten.Prelude.Int.{pos, ◌-ℤ◌}
use varsten.Prelude.Dict.{Dict}
use varsten.Batch.Usage.{
  ModelPrice, OutputLine, blank, no_json, row, Usage, BatchUsage, add_usage, parse_lines,
  parse_output_usage, latest_model_price, price_usage, Priced, record_batch_usage, Measure,
  measure_priced, measure_model, measure_models, no_measure, measure_and_record,
}

-- The lines that count: those of a response that names its model.
abbrev pub sum_lines : (ℕ → ℕ → ℕ) → List OutputLine → ℕ
sum_lines f [] = 0
sum_lines f (blank ∷ ls) = sum_lines f ls
sum_lines f (no_json ∷ ls) = sum_lines f ls
sum_lines f (row none i o ∷ ls) = sum_lines f ls
sum_lines f (row (some model) i o ∷ ls) = (if str_eq model "" then 0 else f i o) + sum_lines f ls

abbrev pub sum_rows : (BatchUsage → ℕ) → List BatchUsage → ℕ
sum_rows f [] = 0
sum_rows f (r ∷ rs) = f r + sum_rows f rs

abbrev pub or_zero : Option ℕ → ℕ
or_zero none = 0
or_zero (some n) = n

abbrev sum_models : (Usage → ℕ) → Dict Usage → ℕ
sum_models f [] = 0
sum_models f ((m, u) ∷ d) = f u + sum_models f d

add_usage_sum :
    (model : String) (i o : ℕ) (d : Dict Usage)
    → (sum_models (λ u. u.input) (add_usage model i o d) ≡ sum_models (λ u. u.input) d + i)
      × (sum_models (λ u. u.output) (add_usage model i o d) ≡ sum_models (λ u. u.output) d + o)
unfolding add_usage
add_usage_sum model i o [] = omega arith
add_usage_sum model i o ((m, u) ∷ d) = ground (arith, add_usage_sum model i o d)

parse_lines_sum :
    (ls : List OutputLine) (d : Dict Usage) (c : ℕ)
    → (sum_models (λ u. u.input) (parse_lines ls d c).0
        ≡ sum_models (λ u. u.input) d + sum_lines (λ i o. i) ls)
      × (sum_models (λ u. u.output) (parse_lines ls d c).0
          ≡ sum_models (λ u. u.output) d + sum_lines (λ i o. o) ls)
      × ((parse_lines ls d c).1 ≡ c + sum_lines (λ i o. 1) ls)
unfolding parse_lines
parse_lines_sum [] d c = omega arith
parse_lines_sum (blank ∷ ls) d c = parse_lines_sum ls d c
parse_lines_sum (no_json ∷ ls) d c = parse_lines_sum ls d c
parse_lines_sum (row none i o ∷ ls) d c = parse_lines_sum ls d c
parse_lines_sum (row (some model) i o ∷ ls) d c = elim (Bool-cases (str_eq model "")) [
  | inl e ↦ rw e (ground (arith, parse_lines_sum ls d c))
  | inr e ↦ rw e (
      ground (arith, add_usage_sum model i o d, parse_lines_sum ls (add_usage model i o d) (c + 1)))
]

sum_rows-append :
    (f : BatchUsage → ℕ) (xs ys : List BatchUsage)
    → sum_rows f (xs ++ ys) ≡ sum_rows f xs + sum_rows f ys
sum_rows-append f [] ys = omega arith
sum_rows-append f (x ∷ xs) ys = omega (arith, sum_rows-append f xs ys)

-- The variables of the loop agree with the rows that it has written.
record IsBalanced (m : Measure) : Type 0 where
  inputs : m.total_in ≡ sum_rows (λ r. r.input_tokens) m.rows
  outputs : m.total_out ≡ sum_rows (λ r. r.output_tokens) m.rows
  actual : m.total_actual ≡ sum_rows (λ r. or_zero r.cost_usd) m.rows
  naive : m.total_naive ≡ sum_rows (λ r. or_zero r.naive_cost_usd) m.rows

measure_priced-IsBalanced :
    (priced : Option Priced) (at count : ℕ) (model : String) (u : Usage) (m : Measure)
    → IsBalanced m
    → IsBalanced (measure_priced priced at count model u m)
      × ((measure_priced priced at count model u m).total_in ≡ m.total_in + u.input)
      × ((measure_priced priced at count model u m).total_out ≡ m.total_out + u.output)
unfolding measure_priced
measure_priced-IsBalanced none at count model u m h =
    let row = record_batch_usage model u none count at in
    ground (
      arith,
      sum_rows-append (λ r. r.input_tokens) m.rows (row ∷ []),
      sum_rows-append (λ r. r.output_tokens) m.rows (row ∷ []),
      sum_rows-append (λ r. or_zero r.cost_usd) m.rows (row ∷ []),
      sum_rows-append (λ r. or_zero r.naive_cost_usd) m.rows (row ∷ []),
    )
measure_priced-IsBalanced (some p) at count model u m h =
    let row = record_batch_usage model u (some p) count at in
    ground (
      arith,
      sum_rows-append (λ r. r.input_tokens) m.rows (row ∷ []),
      sum_rows-append (λ r. r.output_tokens) m.rows (row ∷ []),
      sum_rows-append (λ r. or_zero r.cost_usd) m.rows (row ∷ []),
      sum_rows-append (λ r. or_zero r.naive_cost_usd) m.rows (row ∷ []),
    )

module _ (prices : List ModelPrice) (at count : ℕ) where
  measure_models-IsBalanced :
      (d : Dict Usage) (m : Measure)
      → IsBalanced m
      → IsBalanced (measure_models prices at count d m)
        × ((measure_models prices at count d m).total_in ≡ m.total_in + sum_models (λ u. u.input) d)
        × ((measure_models prices at count d m).total_out
            ≡ m.total_out + sum_models (λ u. u.output) d)
  unfolding measure_models measure_model
  measure_models-IsBalanced [] m h = (h, omega arith, omega arith)
  measure_models-IsBalanced ((model, u) ∷ d) m h =
      let priced = price_usage (latest_model_price prices model "openai" at) u in
      let step = measure_priced-IsBalanced priced at count model u m h in
      let rest = measure_models-IsBalanced d (measure_priced priced at count model u m) step.0 in
      (rest.0, omega (arith, step.1, rest.1), omega (arith, step.2, rest.2))

costs_or_none :
    (b : Bool) (a n a' n' : ℕ)
    → a ≡ a'
    → n ≡ n'
    → (((if b then some a else none) ≡ none)
        × ((if b then some n else none) ≡ none)
        × ((if b then some (pos n -ℤ pos a) else none) ≡ none))
      ⊎ (((if b then some a else none) ≡ some a')
          × ((if b then some n else none) ≡ some n')
          × ((if b then some (pos n -ℤ pos a) else none) ≡ some (pos n' -ℤ pos a')))
costs_or_none true a n a' n' h k = inr (ap some h, ap some k, rw (h, k) refl)
costs_or_none false a n a' n' h k = inl (refl, refl, refl)

-- The totals of a batch are the sums over the lines of its output that name a model, the rows of the
-- ledger have the same tokens in all, and where a model was priced the costs of the job are the sums
-- of the costs of its rows, and what it saved is their difference.
measure_and_record_sums :
    (prices : List ModelPrice) (at : ℕ) (output : List OutputLine)
    → let t = (measure_and_record prices at output).0 in
      let rows = (measure_and_record prices at output).1 in
      (t.request_count ≡ sum_lines (λ i o. 1) output)
      × (t.input_tokens ≡ sum_lines (λ i o. i) output)
      × (t.output_tokens ≡ sum_lines (λ i o. o) output)
      × (sum_rows (λ r. r.input_tokens) rows ≡ t.input_tokens)
      × (sum_rows (λ r. r.output_tokens) rows ≡ t.output_tokens)
      × (((t.actual_cost_usd ≡ none) × (t.naive_cost_usd ≡ none) × (t.saved_usd ≡ none))
          ⊎ ((t.actual_cost_usd ≡ some (sum_rows (λ r. or_zero r.cost_usd) rows))
              × (t.naive_cost_usd ≡ some (sum_rows (λ r. or_zero r.naive_cost_usd) rows))
              × (t.saved_usd
                  ≡ some (
                      pos (sum_rows (λ r. or_zero r.naive_cost_usd) rows)
                      -ℤ pos (sum_rows (λ r. or_zero r.cost_usd) rows)))))
unfolding measure_and_record parse_output_usage
measure_and_record_sums prices at output =
    let parsed = parse_output_usage output in
    let lines = parse_lines_sum output [] 0 in
    let balanced =
      measure_models-IsBalanced prices at parsed.1 parsed.0 no_measure
        (record { inputs = refl; outputs = refl; actual = refl; naive = refl }) in
    let m = measure_models prices at parsed.1 parsed.0 no_measure in
    (
      omega (arith, lines.2),
      omega (arith, balanced.1, lines.0),
      omega (arith, balanced.2, lines.1),
      sym balanced.0.inputs,
      sym balanced.0.outputs,
      costs_or_none m.any_priced _ _ _ _ balanced.0.actual balanced.0.naive,
    )
