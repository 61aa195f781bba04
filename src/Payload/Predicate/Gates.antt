-- ===== src/Payload/Predicate/Gates.antt =====
-- What the predicate of backend/app/proxy/predicate.py lets through, and when it raises.
use varsten.Prelude.{
  ℕ, ◌≤◌, String, ◌≡◌, refl, ◌≢◌, ◌↔◌, ◌⊎◌, inl, inr, Bool, true, false, not, ◌||◌, Option, none,
  some, arith, if◌then◌else◌,
}
use varsten.Payload.Json.{Float, Value, Fields, get}
use varsten.Payload.Predicate.{
  Result, ok, type_error, value_error, overflow_error, is_eligible, default_predicate, prompt_chars,
  has_tools, wants_structured_output, completion_budget, int_of, budget_within, caught, is_null,
  exceeds, not_ok, ◌and_then◌,
}
use varsten.Prelude.Int.{ℤ, pos, ◌≤ℤ◌}

-- A predicate with a number for each limit.
abbrev pub predicate_of : ℕ → Bool → Bool → ℕ → Fields
predicate_of max_chars tools output max_tokens =
    Fields.field "max_prompt_chars" (Value.int (pos max_chars)) (
      Fields.field "route_when_tools" (Value.bool tools) (
        Fields.field "route_when_json_schema" (Value.bool output)
          (Fields.field "max_completion_tokens" (Value.int (pos max_tokens)) Fields.end)))

-- No completion is asked for, none that Python reads as a number, or one of at most `n` tokens.
abbrev pub WithinBudget : ℤ → Result (Option ℤ) → Type 0
WithinBudget n (ok none) = Unit {0}
WithinBudget n (ok (some k)) = k ≤ℤ n
WithinBudget n type_error = ⊥
WithinBudget n value_error = ⊥
WithinBudget n overflow_error = ⊥

WithinBudget-iff :
    (n : ℤ) (b : Result (Option ℤ)) → (budget_within b (Value.int n) ≡ ok true) ↔ WithinBudget n b
unfolding budget_within
WithinBudget-iff n (ok none) = ground arith
WithinBudget-iff n (ok (some k)) = ground arith
WithinBudget-iff n type_error = (λ h. absurd (ground arith), λ h. absurd h)
WithinBudget-iff n value_error = (λ h. absurd (ground arith), λ h. absurd h)
WithinBudget-iff n overflow_error = (λ h. absurd (ground arith), λ h. absurd h)

-- The gates in the order of the code, on the values that they test.
all_gates_iff :
    (p limit : ℕ) (tools output : Bool) (rest : Result Bool)
    → (not_ok (exceeds (pos p) (Value.int (pos limit)))
          and_then ok (not tools || false)
          and_then ok (not output || false)
          and_then rest
        ≡ ok true)
      ↔ ((p ≤ limit) × (tools ≡ false) × (output ≡ false) × (rest ≡ ok true))
unfolding exceeds
all_gates_iff p limit true output rest = ground arith
all_gates_iff p limit false true rest = ground arith
all_gates_iff p limit false false rest = ground arith

all_gates_overflow :
    (p limit : ℕ) (tools t output o : Bool) (rest : Result Bool)
    → (not_ok (exceeds (pos p) (Value.int (pos limit)))
          and_then ok (not tools || t)
          and_then ok (not output || o)
          and_then rest
        ≡ overflow_error)
      ↔ ((p ≤ limit)
          × ((tools ≡ false) ⊎ (t ≡ true))
          × ((output ≡ false) ⊎ (o ≡ true))
          × (rest ≡ overflow_error))
unfolding exceeds
all_gates_overflow p limit true false output o rest = ground arith
all_gates_overflow p limit true true true false rest = ground arith
all_gates_overflow p limit true true true true rest =
    (λ h. (ground arith, inr refl, inr refl, ground arith), λ h. ground arith)
all_gates_overflow p limit true true false o rest =
    (λ h. (ground arith, inr refl, inl refl, ground arith), λ h. ground arith)
all_gates_overflow p limit false t true false rest = ground arith
all_gates_overflow p limit false t true true rest =
    (λ h. (ground arith, inl refl, inr refl, ground arith), λ h. ground arith)
all_gates_overflow p limit false t false o rest =
    (λ h. (ground arith, inl refl, inl refl, ground arith), λ h. ground arith)

within_budget_overflow :
    (n : ℤ) (b : Result (Option ℤ))
    → (budget_within b (Value.int n) ≡ overflow_error) ↔ (b ≡ overflow_error)
unfolding budget_within
within_budget_overflow n (ok none) = ground arith
within_budget_overflow n (ok (some k)) = ground arith
within_budget_overflow n type_error = ground arith
within_budget_overflow n value_error = ground arith
within_budget_overflow n overflow_error = ground arith

-- The value that stands for the completion that a request asks for.
abbrev pub requested : Fields → Value
requested body =
    let limit = get "max_completion_tokens" body in
    if is_null limit then get "max_tokens" body else limit

abbrev pub IsInfinite : Value → Type 0
IsInfinite v = (v ≡ Value.float Float.infinity) ⊎ (v ≡ Value.float Float.minus_infinity)

budget_overflow :
    (int_of_text : String → Option ℤ) (v : Value)
    → ((if is_null v then ok none else caught (int_of int_of_text v)) ≡ overflow_error)
      ↔ IsInfinite v
unfolding int_of
budget_overflow iot Value.null = ground arith
budget_overflow iot (Value.bool b) = ground arith
budget_overflow iot (Value.int n) = ground arith
budget_overflow iot (Value.float (Float.finite m)) = ground arith
budget_overflow iot (Value.float Float.infinity) = (λ h. inl refl, λ h. refl)
budget_overflow iot (Value.float Float.minus_infinity) = (λ h. inr refl, λ h. refl)
budget_overflow iot (Value.float Float.nan) = ground arith
budget_overflow iot (Value.text s) = ground arith
budget_overflow iot (Value.array xs) = ground arith
budget_overflow iot (Value.object fs) = ground arith

-- The TypeError and the ValueError of `int()` are caught.
caught-clean : (r : Result ℤ) → (caught r ≢ type_error) × (caught r ≢ value_error)
caught-clean (ok n) = ((λ h. ground arith), λ h. ground arith)
caught-clean type_error = ((λ h. ground arith), λ h. ground arith)
caught-clean value_error = ((λ h. ground arith), λ h. ground arith)
caught-clean overflow_error = ((λ h. ground arith), λ h. ground arith)

budget_clean :
    (b : Bool) (r : Result ℤ)
    → ((if b then ok none else caught r) ≢ type_error)
      × ((if b then ok none else caught r) ≢ value_error)
budget_clean true r = ((λ h. ground arith), λ h. ground arith)
budget_clean false r = caught-clean r

within_budget_clean :
    (n : ℤ) (b : Result (Option ℤ))
    → (b ≢ type_error) × (b ≢ value_error)
    → (budget_within b (Value.int n) ≢ type_error) × (budget_within b (Value.int n) ≢ value_error)
unfolding budget_within
within_budget_clean n (ok none) h = ((λ e. ground arith), λ e. ground arith)
within_budget_clean n (ok (some k)) h = ((λ e. ground arith), λ e. ground arith)
within_budget_clean n type_error h = absurd (h.0 refl)
within_budget_clean n value_error h = absurd (h.1 refl)
within_budget_clean n overflow_error h = ((λ e. ground arith), λ e. ground arith)

all_gates_clean :
    (p limit : ℕ) (a b : Bool) (rest : Result Bool)
    → (rest ≢ type_error) × (rest ≢ value_error)
    → let out =
        not_ok (exceeds (pos p) (Value.int (pos limit)))
        and_then ok a
        and_then ok b
        and_then rest in
      (out ≢ type_error) × (out ≢ value_error)
unfolding exceeds
all_gates_clean p limit true true rest h = ((λ e. h.0 (ground arith)), λ e. h.1 (ground arith))
all_gates_clean p limit true false rest h = ((λ e. ground arith), λ e. ground arith)
all_gates_clean p limit false b rest h = ((λ e. ground arith), λ e. ground arith)

module _ (int_of_text : String → Option ℤ) where
  -- Under the default predicate a request may go to the candidate exactly when its texts have at
  -- most 6000 characters, it has no tools and asks for no JSON, and the completion that it asks for
  -- is at most 1024 tokens, or is none, or is a value that Python does not read as a number.
  is_eligible_default :
      (body : Fields)
      → (is_eligible int_of_text (Value.object body) (some default_predicate) ≡ ok true) ↔ (
          (prompt_chars (get "messages" body) ≤ 6000)
          × (has_tools body ≡ false)
          × (wants_structured_output body ≡ false)
          × WithinBudget (pos 1024) (completion_budget int_of_text body))
  unfolding is_eligible has_tools wants_structured_output
  is_eligible_default body =
      let gates =
        all_gates_iff (prompt_chars (get "messages" body)) 6000 (has_tools body)
          (wants_structured_output body)
          (budget_within (completion_budget int_of_text body) (Value.int (pos 1024))) in
      let budget = WithinBudget-iff (pos 1024) (completion_budget int_of_text body) in
      (
        λ h. let g = gates.0 h in (g.0, g.1, g.2, budget.0 g.3),
        λ h. gates.1 (h.0, h.1, h.2, budget.1 h.3),
      )

  -- Under a predicate with numbers for its limits the function raises exactly when the other gates
  -- let the request through and the completion that it asks for is infinite, and then it raises an
  -- OverflowError, which `_completion_budget` does not catch; it raises no TypeError and no
  -- ValueError, whatever the request asks for.
  pub is_eligible-overflow :
      (body : Fields) (max_chars max_tokens : ℕ) (tools output : Bool)
      → let out =
          is_eligible int_of_text
            (Value.object body)
            (some (predicate_of max_chars tools output max_tokens)) in
        ((out ≡ overflow_error) ↔ (
          (prompt_chars (get "messages" body) ≤ max_chars)
          × ((has_tools body ≡ false) ⊎ (tools ≡ true))
          × ((wants_structured_output body ≡ false) ⊎ (output ≡ true))
          × IsInfinite (requested body)))
        × (out ≢ type_error)
        × (out ≢ value_error)
  unfolding is_eligible has_tools wants_structured_output completion_budget
  is_eligible-overflow body max_chars max_tokens tools output =
      let b = completion_budget int_of_text body in
      let chars = prompt_chars (get "messages" body) in
      let rest = budget_within b (Value.int (pos max_tokens)) in
      let gates =
        all_gates_overflow chars max_chars (has_tools body) tools (wants_structured_output body)
          output rest in
      let within = within_budget_overflow (pos max_tokens) b in
      let infinite = budget_overflow int_of_text (requested body) in
      let clean =
        all_gates_clean chars max_chars (not (has_tools body) || tools)
          (not (wants_structured_output body) || output) rest
          (within_budget_clean (pos max_tokens) b
            (budget_clean (is_null (requested body)) (int_of int_of_text (requested body)))) in
      (
        (
          λ h. let g = gates.0 h in (g.0, g.1, g.2, infinite.0 (within.0 g.3)),
          λ h. gates.1 (h.0, h.1, h.2, within.1 (infinite.1 h.3)),
        ),
        clean.0,
        clean.1,
      )
