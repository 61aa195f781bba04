-- ===== src/Payload/Predicate.antt =====
-- backend/app/proxy/predicate.py: whether smart routing may send one request to the candidate.
-- The predicate is the dict of the policy's parameters; a comparison that Python refuses raises.
pub mod Gates
use varsten.Prelude.{
  ℕ, suc, ◌+◌, ◌*◌, ◌/◌, String, Bool, true, false, not, ◌||◌, Option, none, some, [], ◌∷◌,
  if◌then◌else◌,
}
use varsten.Payload.Json.{
  text_in, Float, Value, Items, Fields, get, get_in, truthy, or_else, text_length, is_one_of,
  is_zero,
}
use varsten.Prelude.Int.{ℤ, pos, negsuc, sub_ℕ, ltb_ℤ}

-- What a call of Python may end in.
pub data Result {ℓ} (A : Type ℓ) : Type ℓ where
  ok : A → Result A
  type_error : Result A
  value_error : Result A
  overflow_error : Result A

-- `DEFAULT_PREDICATE`
abbrev pub default_predicate : Fields
default_predicate = Fields.field "max_prompt_chars" (Value.int (pos 6000)) (
    Fields.field "route_when_tools" (Value.bool false) (
      Fields.field "route_when_json_schema" (Value.bool false)
        (Fields.field "max_completion_tokens" (Value.int (pos 1024)) Fields.end)))

-- The length of a text part of multimodal content.
abbrev pub text_chars : Value → ℕ
text_chars v = elim v [ Value.text s ↦ text_length s | _ ↦ 0 ]

unfoldable pub block_chars : Items → ℕ
unfolding text_length
block_chars Items.nil = 0
block_chars (Items.cons b bs) = text_chars (get_in "text" b) + block_chars bs

unfoldable pub content_chars : Value → ℕ
unfolding block_chars text_length
content_chars c = elim c [ Value.array bs ↦ block_chars bs | Value.text s ↦ text_length s | _ ↦ 0 ]

unfoldable pub message_chars : Items → ℕ
unfolding content_chars
message_chars Items.nil = 0
message_chars (Items.cons m ms) = content_chars (get_in "content" m) + message_chars ms

-- `_prompt_chars`
unfoldable pub prompt_chars : Value → ℕ
unfolding message_chars
prompt_chars v = elim v [ Value.array ms ↦ message_chars ms | _ ↦ 0 ]

-- `_has_tools`
unfoldable pub has_tools : Fields → Bool
unfolding get
has_tools body = truthy (or_else (get "tools" body) (get "functions" body))

-- `_wants_structured_output`
unfoldable pub wants_structured_output : Fields → Bool
unfolding text_in get
wants_structured_output body =
    is_one_of ("json_schema" ∷ "json_object" ∷ []) (get_in "type" (get "response_format" body))

-- `int` of a float rounds towards zero.
abbrev pub truncate : ℤ → ℤ
truncate (pos m) = pos (m / 1000000)
truncate (negsuc m) = sub_ℕ 0 (suc m / 1000000)

-- `int(value)`; `int_of_text` is `int` on a text, none where it raises.
unfoldable pub int_of : (String → Option ℤ) → Value → Result ℤ
int_of int_of_text Value.null = type_error
int_of int_of_text (Value.bool b) = ok (pos (if b then 1 else 0))
int_of int_of_text (Value.int n) = ok n
int_of int_of_text (Value.float (Float.finite m)) = ok (truncate m)
int_of int_of_text (Value.float Float.infinity) = overflow_error
int_of int_of_text (Value.float Float.minus_infinity) = overflow_error
int_of int_of_text (Value.float Float.nan) = value_error
int_of int_of_text (Value.text s) = elim (int_of_text s) [ none ↦ value_error | some n ↦ ok n ]
int_of int_of_text (Value.array xs) = type_error
int_of int_of_text (Value.object fs) = type_error

abbrev pub is_null : Value → Bool
is_null v = elim v [ Value.null ↦ true | _ ↦ false ]

-- `try: … except (TypeError, ValueError): return None`
abbrev pub caught : Result ℤ → Result (Option ℤ)
caught (ok n) = ok (some n)
caught type_error = ok none
caught value_error = ok none
caught overflow_error = overflow_error

-- `_completion_budget`
unfoldable pub completion_budget : (String → Option ℤ) → Fields → Result (Option ℤ)
unfolding get int_of
completion_budget int_of_text body =
    let limit = get "max_completion_tokens" body in
    let mt = if is_null limit then get "max_tokens" body else limit in
    if is_null mt then ok none else caught (int_of int_of_text mt)

-- An integer in millionths.
abbrev pub millionths : ℤ → ℤ
millionths (pos n) = pos (n * 1000000)
millionths (negsuc n) = sub_ℕ 0 (suc n * 1000000)

-- `n > limit`
unfoldable pub exceeds : ℤ → Value → Result Bool
exceeds n Value.null = type_error
exceeds n (Value.bool b) = ok (ltb_ℤ (pos (if b then 1 else 0)) n)
exceeds n (Value.int k) = ok (ltb_ℤ k n)
exceeds n (Value.float (Float.finite m)) = ok (ltb_ℤ m (millionths n))
exceeds n (Value.float Float.infinity) = ok false
exceeds n (Value.float Float.minus_infinity) = ok true
exceeds n (Value.float Float.nan) = ok false
exceeds n (Value.text s) = type_error
exceeds n (Value.array xs) = type_error
exceeds n (Value.object fs) = type_error

-- A gate that refuses ends the function; one that raises ends it as well.
infixr 20 ◌and_then◌
abbrev pub ◌and_then◌ : Result Bool → Result Bool → Result Bool
ok false and_then rest = ok false
ok true and_then rest = rest
type_error and_then rest = type_error
value_error and_then rest = value_error
overflow_error and_then rest = overflow_error

abbrev pub not_ok : Result Bool → Result Bool
not_ok (ok b) = ok (not b)
not_ok type_error = type_error
not_ok value_error = value_error
not_ok overflow_error = overflow_error

-- The gate on the size of the prompt.
unfoldable pub prompt_gate : Fields → Fields → Result Bool
unfolding get exceeds prompt_chars
prompt_gate body predicate =
    let max_chars = get "max_prompt_chars" predicate in
    if is_null max_chars
    then ok true
    else not_ok (exceeds (pos (prompt_chars (get "messages" body))) max_chars)

unfoldable pub tools_gate : Fields → Fields → Bool
unfolding get has_tools
tools_gate body predicate = not (has_tools body) || truthy (get "route_when_tools" predicate)

unfoldable pub output_gate : Fields → Fields → Bool
unfolding get wants_structured_output
output_gate body predicate =
    not (wants_structured_output body) || truthy (get "route_when_json_schema" predicate)

unfoldable pub budget_within : Result (Option ℤ) → Value → Result Bool
unfolding exceeds
budget_within (ok none) limit = ok true
budget_within (ok (some n)) limit = not_ok (exceeds n limit)
budget_within type_error limit = type_error
budget_within value_error limit = value_error
budget_within overflow_error limit = overflow_error

-- The gate on the requested completion.
unfoldable pub budget_gate : (String → Option ℤ) → Fields → Fields → Result Bool
unfolding get completion_budget budget_within
budget_gate int_of_text body predicate =
    let max_completion = get "max_completion_tokens" predicate in
    if is_null max_completion
    then ok true
    else budget_within (completion_budget int_of_text body) max_completion

-- `is_eligible`
unfoldable pub is_eligible : (String → Option ℤ) → Value → Option Fields → Result Bool
unfolding prompt_gate tools_gate output_gate budget_gate
is_eligible int_of_text body none = ok true
is_eligible int_of_text body (some Fields.end) = ok true
is_eligible int_of_text (Value.object body) (some (Fields.field k v fs)) =
    let predicate = Fields.field k v fs in
    prompt_gate body predicate
    and_then ok (tools_gate body predicate)
    and_then ok (output_gate body predicate)
    and_then budget_gate int_of_text body predicate
is_eligible int_of_text body (some (Fields.field k v fs)) = ok false
