-- ===== src/Payload/Dialects.antt =====
-- backend/app/proxy/client_dialects.py: which SDK's request shape a call has, by its method, its path
-- and its body.
pub mod Shapes
pub mod Parsers
pub mod Refusals
use varsten.Prelude.{
  String, Bool, false, ◌||◌, Option, none, some, List, [], ◌∷◌, map, str_eq, if◌then◌else◌,
}
use mathlib.Core.List.{◌++◌}
use mathlib.Core.Option
use varsten.Prelude.Dict.{Dict}
use varsten.Payload.Wire.{
  WireMethods, path_only, after, remove_prefix, model_action, gemini_operation, lower_headers,
}
use varsten.Payload.Json.{Value, Items, Fields, get, get_in, truthy, loop_items}
use varsten.Payload.Facts.{normalize_request_facts}
use varsten.Engine.Types.{RequestFacts}

pub data ClientDialect : Type 0 where
  openai : ClientDialect
  anthropic : ClientDialect
  gemini_native : ClientDialect

pub record ParsedClientRequest : Type 0 where
  pub dialect : ClientDialect
  pub operation : String
  pub method : String
  pub path : String
  pub headers : Dict String
  pub body : Fields
  pub request_facts : RequestFacts
  pub model : Option String
  pub models : List String
  pub stream : Bool

-- `UnsupportedClientDialect`, by its message.
pub data Parsed : Type 0 where
  request : ParsedClientRequest → Parsed
  unsupported_method : String → Parsed
  unsupported_path : String → Parsed
  type_error : Parsed

-- What one of the parsers of the adapter returns: `None`, a request, or the TypeError that it raises.
pub data Attempt : Type 0 where
  other_shape : Attempt
  accepted : ParsedClientRequest → Attempt
  raised : Attempt

-- A text that is set and not empty.
abbrev pub text_model : Value → Option String
text_model v = elim v [ Value.text s ↦ if str_eq s "" then none else some s | _ ↦ none ]

-- `_body_model`
unfoldable pub body_model : Fields → Option String
unfolding get
body_model body = text_model (get "model" body)

-- `_single_model_tuple`
unfoldable pub single_model_tuple : Option String → List String
single_model_tuple none = []
single_model_tuple (some m) = if str_eq m "" then [] else m ∷ []

-- `_normalize_gemini_model`
unfoldable pub normalize_gemini_model : Option String → Option String
unfolding after
normalize_gemini_model none = none
normalize_gemini_model (some m) = some (remove_prefix "models/" m)

unfoldable pub text_among : String → List String → Bool
text_among s [] = false
text_among s (t ∷ ts) = str_eq s t || text_among s ts

unfoldable pub collect_models : List String → Items → List String
unfolding text_among get
collect_models models Items.nil = models
collect_models models (Items.cons r rs) =
    collect_models
      (elim (text_model (get_in "model" (get_in "params" r))) [
        | none ↦ models
        | some m ↦ if text_among m models then models else models ++ (m ∷ [])
      ])
      rs

-- `_anthropic_batch_models`, none where the loop raises a TypeError.
unfoldable pub anthropic_batch_models : Fields → Option (List String)
unfolding collect_models get
anthropic_batch_models body = Option.map (collect_models []) (loop_items (get "requests" body))

-- `models[0] if len(models) == 1 else None`
abbrev pub only_model : List String → Option String
only_model [] = none
only_model (m ∷ []) = some m
only_model (m ∷ n ∷ ms) = none

-- What the three parsers share: the fields of the call, and the facts that `__post_init__` sets, which
-- raises a TypeError where these have none.
module _ (py : WireMethods) (method path : String) (headers : Dict String) (body : Fields) where
  unfoldable pub parsed : ClientDialect → String → Option String → List String → Bool → Attempt
  parsed dialect operation model models stream = elim (normalize_request_facts py.text body) [
    | none ↦ raised
    | some facts ↦ accepted (record {
      dialect = dialect;
      operation = operation;
      method = method;
      path = path;
      headers = headers;
      body = body;
      request_facts = facts;
      model = model;
      models = models;
      stream = stream;
    })
  ]

  -- `_parse_openai_compatible`
  unfoldable pub parse_openai_compatible : Attempt
  unfolding parsed body_model single_model_tuple
  parse_openai_compatible =
      if str_eq path "/v1/chat/completions"
        || str_eq path "/v1beta/openai/chat/completions"
        || str_eq path "/v1/openai/chat/completions"
      then parsed ClientDialect.openai "chat_completions" (body_model body)
          (single_model_tuple (body_model body)) (truthy (get "stream" body))
      else other_shape

  -- The requests of a batch, each with its own model.
  unfoldable pub parse_batch : Option (List String) → Attempt
  unfolding parsed get
  parse_batch none = raised
  parse_batch (some models) =
      parsed ClientDialect.anthropic "message_batch_create" (only_model models) models
        (truthy (get "stream" body))

  -- `_parse_anthropic`
  unfoldable pub parse_anthropic : Attempt
  unfolding parsed body_model single_model_tuple parse_batch anthropic_batch_models
  parse_anthropic =
      let model = body_model body in
      let models = single_model_tuple model in
      let stream = truthy (get "stream" body) in
      if str_eq path "/v1/messages"
      then parsed ClientDialect.anthropic "messages" model models stream
      else if str_eq path "/v1/messages/count_tokens"
      then parsed ClientDialect.anthropic "count_tokens" model models stream
      else if str_eq path "/v1/messages/batches"
      then parse_batch (anthropic_batch_models body)
      else other_shape

  -- The model and the action of `_GEMINI_MODEL_ACTION`, where the action is one of the table.
  unfoldable pub parse_gemini_action : Option (String × String) → Attempt
  unfolding parsed single_model_tuple normalize_gemini_model
  parse_gemini_action none = other_shape
  parse_gemini_action (some (matched, action)) = elim (gemini_operation action) [
    | none ↦ other_shape
    | some operation ↦
        let model = normalize_gemini_model (some matched) in
        parsed ClientDialect.gemini_native operation model (single_model_tuple model)
          (str_eq operation "stream_generate_content")
  ]

  -- `_parse_gemini_native`
  unfoldable pub parse_gemini_native : Attempt
  unfolding parsed body_model single_model_tuple normalize_gemini_model parse_gemini_action
      model_action
  parse_gemini_native =
      if str_eq path "/v1beta/batches" || str_eq path "/v1/batches"
      then (let model = normalize_gemini_model (body_model body) in
          parsed ClientDialect.gemini_native "batch_create" model (single_model_tuple model) false)
      else parse_gemini_action (model_action path)

-- `a or b`, for parsers.
infixr 20 ◌or_parse◌
abbrev pub ◌or_parse◌ : Attempt → Attempt → Attempt
other_shape or_parse b = b
accepted r or_parse b = accepted r
raised or_parse b = raised

abbrev pub conclude : String → Attempt → Parsed
conclude path other_shape = unsupported_path path
conclude path (accepted r) = request r
conclude path raised = type_error

-- `ClientDialectAdapter.parse`, which `classify_client_dialect` calls.
unfoldable pub parse : WireMethods → String → String → Dict String → Fields → Parsed
unfolding path_only lower_headers parse_openai_compatible parse_anthropic parse_gemini_native
parse py method path headers body =
    let clean_method = py.upper method in
    let clean_path = path_only py path in
    let normalized = lower_headers py.text [] headers in
    if str_eq clean_method "POST"
    then conclude clean_path (
        parse_openai_compatible py clean_method clean_path normalized body
        or_parse parse_anthropic py clean_method clean_path normalized body
        or_parse parse_gemini_native py clean_method clean_path normalized body)
    else unsupported_method clean_method
