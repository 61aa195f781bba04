-- ===== src/Tests/Bodies.antt =====
-- The bodies of requests at concrete inputs.
use varsten.Prelude.{
  ◌≤◌, String, ◌≡◌, refl, ◌≢◌, ◌↔◌, ◌⊎◌, Bool, true, false, Option, none, some, List, [], ◌∷◌,
}
use varsten.Prelude.Int.{ℤ, pos}
use varsten.Payload.Json.{Float, Value, Items, Fields, get}
use varsten.Payload.Predicate as Predicate
use varsten.Payload.Predicate.{
  ok, overflow_error, default_predicate, is_eligible, prompt_chars, has_tools,
  wants_structured_output,
}
use varsten.Payload.Predicate.Gates.{IsInfinite, requested, predicate_of, is_eligible-overflow}
use varsten.Payload.Facts.{
  normalize_request_facts, has_multimodal, freshness_terms, personalized_terms, high_risk_terms,
}
use varsten.Payload.Facts as Facts
use varsten.Payload.Facts.Formats.{HasUnhashableFormat}
use varsten.Payload.Facts.Multimodal.{HasPart}
use varsten.Payload.Facts.Safety.{prompt_of, build_optimization_plan-body}
use varsten.Payload.Wire.{WireMethods, path_only}
use varsten.Payload.Dialects.{
  ClientDialect, ParsedClientRequest, Parsed, request, unsupported_path, unsupported_method, parse,
}
use varsten.Payload.Dialects.Parsers.{IsSupported, IsBadBatch}
use varsten.Payload.Dialects.Refusals.{parse-refusals}
use varsten.Payload.CrossProvider.{safe, cross_provider_ineligibility}
use varsten.Payload.CrossProvider.Portable.{IsPortable, cross_provider_ineligibility-IsPortable}
use varsten.Payload.Trim.{get_or, trim_messages}
use varsten.Payload.Trim.Messages.{trim_messages_idem}
use varsten.Engine.Classification.{TextMethods, any_in}
use varsten.Tests.Plans.{plain_text, input, none_ready}
use varsten.Engine.Planner.{build_optimization_plan, facts_of}
use varsten.Engine.Types.{PlannerInput, RequestFacts, TaskContext, Mode}

-- No text reads as a number.
abbrev no_numbers : String → Option ℤ
no_numbers s = none

abbrev message : String → String → Fields
message role content =
    Fields.field "role" (Value.text role) (Fields.field "content" (Value.text content) Fields.end)

abbrev chat : Fields
chat = Fields.field "model" (Value.text "gpt-4o") (
    Fields.field "messages"
      (Value.array (Items.cons (Value.object (message "user" "hello  there")) Items.nil))
      Fields.end)

chat-eligible : is_eligible no_numbers (Value.object chat) (some default_predicate) ≡ ok true
unfolding is_eligible
chat-eligible = refl

abbrev endless : Fields
endless = Fields.field "max_completion_tokens" (Value.float Float.infinity) chat

is_eligible-overflow_example :
    let out =
      is_eligible no_numbers (Value.object endless) (some (predicate_of 6000 false false 1024)) in
    ((out ≡ overflow_error) ↔ (
      (prompt_chars (get "messages" endless) ≤ 6000)
      × ((has_tools endless ≡ false) ⊎ (false ≡ true))
      × ((wants_structured_output endless ≡ false) ⊎ (false ≡ true))
      × IsInfinite (requested endless)))
    × (out ≢ Predicate.type_error)
    × (out ≢ Predicate.value_error)
is_eligible-overflow_example = is_eligible-overflow no_numbers endless 6000 1024 false false

endless-raises :
    is_eligible no_numbers (Value.object endless) (some default_predicate) ≡ overflow_error
unfolding is_eligible
endless-raises = refl

abbrev picture : Value
picture =
    Value.array (
      Items.cons (Value.object (Fields.field "type" (Value.text "image_url") Fields.end)) Items.nil)

abbrev chat_facts : RequestFacts
chat_facts = record {
  prompt_chars = 12;
  message_count = 1;
  has_tools = false;
  wants_json = false;
  has_multimodal = false;
  freshness_signal = false;
  personalized_signal = false;
  high_risk_signal = false;
}

abbrev chat_input : PlannerInput
chat_input = record input { body_facts = chat_facts }

chat-facts : some chat_facts ≡ normalize_request_facts plain_text chat
unfolding normalize_request_facts
chat-facts = refl

-- Paths and methods as they are.
abbrev wire : WireMethods
wire = record { text = plain_text; upper = λ s. s; url_path = λ s. s }

abbrev odd_format : Fields
odd_format =
    Fields.field "response_format"
      (Value.object (Fields.field "type" (Value.array Items.nil) Fields.end)) chat

odd_format-raises : parse wire "POST" "/v1/chat/completions" [] odd_format ≡ Parsed.type_error
unfolding parse normalize_request_facts
odd_format-raises = refl

chat_input-enforces : (build_optimization_plan plain_text chat_input).selected.mode ≡ Mode.enforce
unfolding build_optimization_plan varsten.Engine.Planner.select_action varsten.Prelude.Dict.lookup
    varsten.Prelude.Dict.insert varsten.Engine.Planner.with_outcome_prior
    varsten.Engine.Planner.prior_for varsten.Engine.Candidates.exact_cache_candidate
    varsten.Engine.CachePolicy.evaluate_cache_eligibility varsten.Engine.Types.risky_or_unknown
    varsten.Engine.Classification.classify_request
    varsten.Engine.Candidates.semantic_cache_candidate
    varsten.Engine.Candidates.model_routing_candidate varsten.Engine.Candidates.token_trim_candidate
    varsten.Engine.Candidates.prompt_compression_candidate normalize_request_facts
chat_input-enforces = refl

build_optimization_plan-body_example :
    (Facts.has_tools chat ≡ false)
    × (HasPart plain_text (get "messages" chat) → ⊥)
    × (HasPart plain_text (get "input" chat) → ⊥)
    × (HasPart plain_text (get "content" chat) → ⊥)
    × (HasPart plain_text (get "contents" chat) → ⊥)
    × (any_in (prompt_of plain_text chat) freshness_terms ≡ false)
    × (any_in (prompt_of plain_text chat) personalized_terms ≡ false)
    × (any_in (prompt_of plain_text chat) high_risk_terms ≡ false)
build_optimization_plan-body_example =
    build_optimization_plan-body plain_text chat_input chat chat-facts none_ready
      chat_input-enforces

parse-refusals_example :
    ((parse wire "POST" "/v1/messages/" [] chat ≡ unsupported_method "POST")
      ↔ (◌≢◌ {A = String} "POST" "POST"))
    × ((parse wire "POST" "/v1/messages/" [] chat
          ≡ unsupported_path (path_only wire "/v1/messages/"))
        ↔ ((◌≡◌ {A = String} "POST" "POST") × (IsSupported (path_only wire "/v1/messages/") → ⊥)))
    × ((parse wire "POST" "/v1/messages/" [] chat ≡ Parsed.type_error) ↔ (
        (◌≡◌ {A = String} "POST" "POST")
        × (IsBadBatch (path_only wire "/v1/messages/") chat
            ⊎ (IsSupported (path_only wire "/v1/messages/") × HasUnhashableFormat chat))))
parse-refusals_example = parse-refusals wire "POST" "/v1/messages/" [] chat

abbrev chat_request : ParsedClientRequest
chat_request = record {
  dialect = ClientDialect.openai;
  operation = "chat_completions";
  method = "POST";
  path = "/v1/chat/completions";
  headers = [];
  body = chat;
  request_facts = chat_facts;
  model = some "gpt-4o";
  models = "gpt-4o" ∷ [];
  stream = false;
}

chat_request-parsed : parse wire "POST" "/v1/chat/completions/" [] chat ≡ request chat_request
unfolding parse normalize_request_facts
chat_request-parsed = refl

cross_provider_ineligibility-IsPortable_example :
    (cross_provider_ineligibility chat_request "openai" "anthropic" ≡ safe)
    ↔ ((◌≡◌ {A = String} "openai" "anthropic") ⊎ IsPortable chat_request.dialect chat_request)
cross_provider_ineligibility-IsPortable_example =
    cross_provider_ineligibility-IsPortable chat_request "openai" "anthropic"

chat_request-safe : cross_provider_ineligibility chat_request "openai" "anthropic" ≡ safe
unfolding cross_provider_ineligibility
chat_request-safe = refl

abbrev talk : List Fields
talk = message "user" "a  b" ∷ message "system" "s" ∷ message "user" "a b" ∷ message "user" "c" ∷ []

abbrev last_two : Fields
last_two = Fields.field "keep_last_turns" (Value.int (pos 2)) Fields.end

abbrev kept : List Fields
kept = message "system" "s" ∷ message "user" "a b" ∷ message "user" "c" ∷ []

talk-trimmed : trim_messages no_numbers talk last_two ≡ ok (kept, true)
unfolding trim_messages varsten.Payload.Trim.trimmed varsten.Payload.Trim.emit
    varsten.Payload.Trim.round varsten.Payload.Trim.system_of varsten.Payload.Trim.turns_of
    varsten.Payload.Trim.window get get_or varsten.Payload.Trim.seen_before varsten.Payload.Trim.put
    varsten.Payload.Whitespace.collapse_text
talk-trimmed = refl

trim_messages_idem_example :
    (again : Bool) × (trim_messages no_numbers kept last_two ≡ ok (kept, again))
trim_messages_idem_example = trim_messages_idem no_numbers last_two talk kept true talk-trimmed
