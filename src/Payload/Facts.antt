-- ===== src/Payload/Facts.antt =====
-- backend/app/engine/request_facts.py: what the planner may know of a request, counts and flags only.
pub mod Formats
pub mod Multimodal
pub mod Safety
use mathlib.Core.List.{◌++◌}
use mathlib.Core.Option
use varsten.Prelude.{
  ℕ, suc, ◌+◌, String, Bool, false, ◌&&◌, ◌||◌, Option, none, some, List, [], ◌∷◌, map, str_eq,
  if◌then◌else◌,
}
use varsten.Payload.Json.{
  Value, Items, Fields, get, get_in, has_key, truthy, or_else, text_length, is_one_of, text_in,
}
use Prim.Native.String.{◌++◌ as ◌+++◌}
use varsten.Engine.Types.{RequestFacts}
use varsten.Engine.Classification.{TextMethods, any_in}

-- `_FRESHNESS_TERMS`
abbrev pub freshness_terms : List String
freshness_terms =
    "as of " ∷ "breaking" ∷ "current" ∷ "latest" ∷ "live" ∷ "now" ∷ "recent" ∷ "right now"
    ∷ "stock price" ∷ "this month" ∷ "this week" ∷ "today" ∷ "weather" ∷ "yesterday" ∷ []

-- `_PERSONALIZED_TERMS`
abbrev pub personalized_terms : List String
personalized_terms =
    "account number" ∷ "billing address" ∷ "customer id" ∷ "for my account" ∷ "my account"
    ∷ "patient" ∷ "policy number" ∷ "ssn" ∷ "social security" ∷ []

-- `_HIGH_RISK_TERMS`
abbrev pub high_risk_terms : List String
high_risk_terms =
    "diagnose" ∷ "dosage" ∷ "financial advice" ∷ "legal advice" ∷ "medical advice" ∷ "prescription"
    ∷ "security vulnerability" ∷ "trade stock" ∷ []

-- `_TEXT_CONTAINER_KEYS`
abbrev pub text_container_keys : List String
text_container_keys =
    "content" ∷ "contents" ∷ "input" ∷ "message" ∷ "messages" ∷ "parts" ∷ "prompt" ∷ "system"
    ∷ "systemInstruction" ∷ "text" ∷ []

-- `_MULTIMODAL_PART_TYPES`
abbrev pub multimodal_part_types : List String
multimodal_part_types =
    "audio" ∷ "file" ∷ "image" ∷ "image_url" ∷ "input_audio" ∷ "input_file" ∷ "input_image"
    ∷ "video" ∷ []

-- `_MULTIMODAL_FIELDS`
abbrev pub multimodal_fields : List String
multimodal_fields =
    "audio" ∷ "file" ∷ "file_data" ∷ "fileData" ∷ "image" ∷ "image_url" ∷ "inline_data"
    ∷ "inlineData" ∷ "input_audio" ∷ "input_file" ∷ "input_image" ∷ "video" ∷ []

abbrev pub nested_keys : List String
nested_keys = "content" ∷ "contents" ∷ "messages" ∷ "input" ∷ "parts" ∷ []

-- `_iter_text_fragments`, in the order in which it yields them.
unfoldable mutual
  unfolding text_in

  pub text_fragments : TextMethods → Value → List String
  text_fragments py Value.null = []
  text_fragments py (Value.bool b) = []
  text_fragments py (Value.int n) = []
  text_fragments py (Value.float f) = []
  text_fragments py (Value.text s) = if str_eq (py.strip s) "" then [] else s ∷ []
  text_fragments py (Value.array xs) = item_fragments py xs
  text_fragments py (Value.object fs) = field_fragments py fs

  pub item_fragments : TextMethods → Items → List String
  item_fragments py Items.nil = []
  item_fragments py (Items.cons x xs) = text_fragments py x ++ item_fragments py xs

  pub field_fragments : TextMethods → Fields → List String
  field_fragments py Fields.end = []
  field_fragments py (Fields.field k v fs) =
      (if text_in text_container_keys k then text_fragments py v else []) ++ field_fragments py fs

abbrev pub count_items : Items → ℕ
count_items Items.nil = 0
count_items (Items.cons x xs) = suc (count_items xs)

-- `for key in …: if isinstance(body.get(key), list): return len(…)`
unfoldable pub first_list_length : List String → Fields → ℕ
unfolding get
first_list_length [] body = 0
first_list_length (k ∷ ks) body =
    let rest = first_list_length ks body in
    elim (get k body) [ Value.array xs ↦ count_items xs | _ ↦ rest ]

-- `_message_count`
unfoldable pub message_count : Fields → ℕ
unfolding first_list_length
message_count body = first_list_length ("messages" ∷ "contents" ∷ "input" ∷ []) body

-- `_has_tools`
unfoldable pub has_tools : Fields → Bool
unfolding get
has_tools body =
    truthy (get "tools" body)
    || truthy (get "functions" body)
    || truthy (get "tool_config" body)
    || truthy (get "toolConfig" body)

-- `value in {…}`, for a set of texts: none where Python raises a TypeError, since a list and a dict
-- have no hash.
abbrev pub in_set : List String → Value → Option Bool
in_set ts Value.null = some false
in_set ts (Value.bool b) = some false
in_set ts (Value.int n) = some false
in_set ts (Value.float f) = some false
in_set ts (Value.text s) = some (text_in ts s)
in_set ts (Value.array xs) = none
in_set ts (Value.object fs) = none

-- `_wants_json`, none where it raises a TypeError.
unfoldable pub wants_json : Fields → Option Bool
unfolding text_in get
wants_json body =
    Option.map
      (λ by_format.
        by_format
        || is_one_of ("application/json" ∷ [])
            (get_in "responseMimeType" (get "generationConfig" body))
        || is_one_of ("application/json" ∷ [])
            (or_else (get "response_mime_type" body) (get "responseMimeType" body)))
      (in_set ("json_object" ∷ "json_schema" ∷ []) (get_in "type" (get "response_format" body)))

-- `any(field in value for field in …)`
unfoldable pub has_any_key : List String → Fields → Bool
unfolding has_key
has_any_key [] fs = false
has_any_key (k ∷ ks) fs = has_key k fs || has_any_key ks fs

abbrev pub lowered : TextMethods → Value → Value
lowered py v = elim v [ Value.text s ↦ Value.text (py.lower s) | other ↦ other ]

-- The dict itself is a multimodal part.
unfoldable pub is_multimodal_part : TextMethods → Fields → Bool
unfolding text_in get has_any_key
is_multimodal_part py fs =
    is_one_of multimodal_part_types (lowered py (get "type" fs)) || has_any_key multimodal_fields fs

-- `_has_multimodal`. The code reads five keys of a dict, each of which stands there at most once:
-- the same entries are met by a walk over the dict.
unfoldable mutual
  unfolding text_in is_multimodal_part

  pub has_multimodal : TextMethods → Value → Bool
  has_multimodal py Value.null = false
  has_multimodal py (Value.bool b) = false
  has_multimodal py (Value.int n) = false
  has_multimodal py (Value.float f) = false
  has_multimodal py (Value.text s) = false
  has_multimodal py (Value.array xs) = items_multimodal py xs
  has_multimodal py (Value.object fs) = is_multimodal_part py fs || fields_multimodal py fs

  pub items_multimodal : TextMethods → Items → Bool
  items_multimodal py Items.nil = false
  items_multimodal py (Items.cons x xs) = has_multimodal py x || items_multimodal py xs

  pub fields_multimodal : TextMethods → Fields → Bool
  fields_multimodal py Fields.end = false
  fields_multimodal py (Fields.field k v fs) =
      (text_in nested_keys k && has_multimodal py v) || fields_multimodal py fs

-- `_body_has_multimodal`
unfoldable pub body_has_multimodal : TextMethods → Fields → Bool
unfolding get has_multimodal
body_has_multimodal py body =
    has_multimodal py (get "messages" body)
    || has_multimodal py (get "input" body)
    || has_multimodal py (get "content" body)
    || has_multimodal py (get "contents" body)

-- `"\n".join(…)`
unfoldable pub join_lines : List String → String
join_lines [] = ""
join_lines (s ∷ []) = s
join_lines (s ∷ t ∷ ts) = s +++ ("\n" +++ join_lines (t ∷ ts))

unfoldable pub total_length : List String → ℕ
unfolding text_length
total_length [] = 0
total_length (s ∷ ss) = text_length s + total_length ss

-- The facts of a body, where the test of its response format has a result.
unfoldable pub request_facts : TextMethods → Fields → Bool → RequestFacts
unfolding text_fragments message_count has_tools body_has_multimodal join_lines total_length any_in
request_facts py body json =
    let fragments = field_fragments py body in
    let prompt = py.lower (join_lines fragments) in
    record {
      prompt_chars = total_length fragments;
      message_count = message_count body;
      has_tools = has_tools body;
      wants_json = json;
      has_multimodal = body_has_multimodal py body;
      freshness_signal = any_in prompt freshness_terms;
      personalized_signal = any_in prompt personalized_terms;
      high_risk_signal = any_in prompt high_risk_terms;
    }

-- `normalize_request_facts`, none where it raises a TypeError.
unfoldable pub normalize_request_facts : TextMethods → Fields → Option RequestFacts
unfolding request_facts wants_json
normalize_request_facts py body = Option.map (request_facts py body) (wants_json body)
