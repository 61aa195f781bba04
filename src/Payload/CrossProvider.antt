-- ===== src/Payload/CrossProvider.antt =====
-- backend/app/proxy/routing_eligibility.py: whether a request can be sent to another provider.
pub mod Nested
pub mod OpenAi
pub mod Portable
use varsten.Prelude.{
  String, Bool, true, false, not, ◌||◌, Option, none, some, List, [], ◌∷◌, ◌++◌, map, str_eq,
  if◌then◌else◌,
}
use mathlib.Core.Option
use varsten.Prelude.Dict.{Dict, lookup}
use varsten.Payload.Json.{
  text_in, Value, Items, Fields, get, get_in, has_key, truthy, or_else, is_one_of, loop_items,
}
use varsten.Payload.Facts.{has_any_key, in_set}
use varsten.Engine.Classification.{text_or_empty}
use varsten.Payload.Dialects.{ClientDialect, ParsedClientRequest}

-- `RoutingIneligibility`
pub record RoutingIneligibility : Type 0 where
  pub reason_code : String
  pub reason_detail : Dict String

-- The first reason against a route, none, or a TypeError: of a loop over what is no list, or of a type
-- that has no hash.
pub data Answer : Type 0 where
  safe : Answer
  unsafe : RoutingIneligibility → Answer
  type_error : Answer

-- `_ANTHROPIC_SERVER_TOOL_TYPES`
abbrev pub anthropic_server_tool_types : List String
anthropic_server_tool_types =
    "bash_20250124" ∷ "computer_20250124" ∷ "text_editor_20250124" ∷ "web_search_20250305" ∷ []

-- `_SAFE_GEMINI_PART_KEYS`
abbrev pub safe_gemini_part_keys : List String
safe_gemini_part_keys = "text" ∷ "functionCall" ∷ "functionResponse" ∷ []

-- `_iter_dicts`, in the order in which it yields them.
unfoldable mutual
  pub iter_dicts : Value → List Fields
  iter_dicts Value.null = []
  iter_dicts (Value.bool b) = []
  iter_dicts (Value.int n) = []
  iter_dicts (Value.float f) = []
  iter_dicts (Value.text s) = []
  iter_dicts (Value.array xs) = item_dicts xs
  iter_dicts (Value.object fs) = fs ∷ field_dicts fs

  pub item_dicts : Items → List Fields
  item_dicts Items.nil = []
  item_dicts (Items.cons x xs) = iter_dicts x ++ item_dicts xs

  pub field_dicts : Fields → List Fields
  field_dicts Fields.end = []
  field_dicts (Fields.field k v fs) = iter_dicts v ++ field_dicts fs

unfoldable pub any_dict : (Fields → Bool) → List Fields → Bool
any_dict test [] = false
any_dict test (d ∷ ds) = test d || any_dict test ds

-- `_find_key`
unfoldable pub find_key : Value → String → Bool
unfolding iter_dicts any_dict has_key
find_key v key = any_dict (has_key key) (iter_dicts v)

unfoldable pub any_item : (Value → Bool) → Items → Bool
any_item test Items.nil = false
any_item test (Items.cons x xs) = test x || any_item test xs

-- A tool that runs at Anthropic.
abbrev pub is_anthropic_server_tool : Value → Bool
is_anthropic_server_tool tool = is_one_of anthropic_server_tool_types (get_in "type" tool)

-- `_has_anthropic_server_tool`
unfoldable pub has_anthropic_server_tool : Items → Bool
unfolding text_in any_item
has_anthropic_server_tool tools = any_item is_anthropic_server_tool tools

-- A part of Gemini content that has no counterpart elsewhere.
unfoldable pub is_unmapped_gemini_part : Value → Bool
unfolding has_key has_any_key
is_unmapped_gemini_part part = elim part [
  | Value.object fs ↦
      not (has_any_key safe_gemini_part_keys fs) || has_key "inlineData" fs || has_key "fileData" fs
  | _ ↦ false
]

abbrev pub items_of_list : Value → Items
items_of_list v = elim v [ Value.array xs ↦ xs | _ ↦ Items.nil ]

-- The dict's `parts` hold such a part.
unfoldable pub has_unmapped_parts : Fields → Bool
unfolding any_item is_unmapped_gemini_part get
has_unmapped_parts item = any_item is_unmapped_gemini_part (items_of_list (get "parts" item))

-- `_has_unmapped_gemini_part`
unfoldable pub has_unmapped_gemini_part : Fields → Bool
unfolding iter_dicts any_dict has_unmapped_parts get
has_unmapped_gemini_part body =
    any_dict has_unmapped_parts (iter_dicts (or_else (get "contents" body) (Value.array Items.nil)))

-- `_openai_server_side_tool`
unfoldable pub openai_server_side_tool : Items → Option String
unfolding get
openai_server_side_tool Items.nil = none
openai_server_side_tool (Items.cons tool tools) =
    let rest = openai_server_side_tool tools in
    elim (get_in "type" tool) [
      | Value.text s ↦ if str_eq s "function" then rest else some s
      | _ ↦ rest
    ]

-- Whether some item passes a test that may raise a TypeError, none where one raises before it.
unfoldable pub any_unless_raised : (Value → Option Bool) → Items → Option Bool
any_unless_raised test Items.nil = some false
any_unless_raised test (Items.cons x xs) =
    let rest = any_unless_raised test xs in
    elim (test x) [ none ↦ none | some found ↦ if found then some true else rest ]

-- A part of a message's content that is a dict and not of type text; its type may have no hash.
unfoldable pub is_unmapped_openai_part : Value → Option Bool
unfolding text_in get
is_unmapped_openai_part part = elim part [
  | Value.object fs ↦ Option.map not (in_set ("text" ∷ []) (get "type" fs))
  | _ ↦ some false
]

unfoldable pub has_unmapped_content : Value → Option Bool
unfolding any_unless_raised is_unmapped_openai_part get
has_unmapped_content message =
    any_unless_raised is_unmapped_openai_part (items_of_list (get_in "content" message))

-- `_has_unmapped_openai_content_part`
unfoldable pub has_unmapped_openai_content_part : Items → Option Bool
unfolding any_unless_raised has_unmapped_content
has_unmapped_openai_content_part messages = any_unless_raised has_unmapped_content messages

abbrev pub reason : String → String → List (String × String) → Answer
reason code path detail =
    unsafe (record { reason_code = code; reason_detail = ("path", path) ∷ detail })

-- `_anthropic_ineligibility`
unfoldable pub anthropic_ineligibility : ParsedClientRequest → Answer
unfolding find_key lookup loop_items has_anthropic_server_tool get
anthropic_ineligibility parsed =
    let beta = text_or_empty (lookup "anthropic-beta" parsed.headers) in
    if find_key (Value.object parsed.body) "cache_control"
    then reason "anthropic_cache_control" parsed.path (("field", "cache_control") ∷ [])
    else if not (str_eq beta "")
    then reason "anthropic_beta_unsupported" parsed.path
        (("header", "anthropic-beta") ∷ ("value", beta) ∷ [])
    else elim (loop_items (get "tools" parsed.body)) [
      | none ↦ type_error
      | some tools ↦
          if has_anthropic_server_tool tools
          then reason "server_side_tool" parsed.path (("field", "tools") ∷ [])
          else safe
    ]

-- `_gemini_native_ineligibility`
unfoldable pub gemini_native_ineligibility : ParsedClientRequest → Answer
unfolding get has_unmapped_gemini_part
gemini_native_ineligibility parsed =
    if truthy (get "safetySettings" parsed.body)
    then reason "gemini_safety_settings" parsed.path (("field", "safetySettings") ∷ [])
    else if has_unmapped_gemini_part parsed.body
    then reason "native_multimodal_unmapped" parsed.path (("field", "contents.parts") ∷ [])
    else safe

-- `_openai_ineligibility`; an empty type of tool counts as none.
unfoldable pub openai_ineligibility : ParsedClientRequest → Answer
unfolding loop_items openai_server_side_tool has_unmapped_openai_content_part get
openai_ineligibility parsed = elim (loop_items (get "tools" parsed.body)) [
  | none ↦ type_error
  | some tools ↦
      let tool = text_or_empty (openai_server_side_tool tools) in
      if not (str_eq tool "")
      then reason "server_side_tool" parsed.path (("field", "tools") ∷ ("tool_type", tool) ∷ [])
      else elim (loop_items (get "messages" parsed.body)) [
        | none ↦ type_error
        | some messages ↦ elim (has_unmapped_openai_content_part messages) [
          | none ↦ type_error
          | some unmapped ↦
              if unmapped
              then reason "native_multimodal_unmapped" parsed.path
                  (("field", "messages.content") ∷ [])
              else safe
        ]
      ]
]

abbrev pub by_dialect : ClientDialect → ParsedClientRequest → Answer
by_dialect ClientDialect.anthropic parsed = anthropic_ineligibility parsed
by_dialect ClientDialect.gemini_native parsed = gemini_native_ineligibility parsed
by_dialect ClientDialect.openai parsed = openai_ineligibility parsed

-- `cross_provider_ineligibility`
unfoldable pub cross_provider_ineligibility : ParsedClientRequest → String → String → Answer
unfolding anthropic_ineligibility gemini_native_ineligibility openai_ineligibility
cross_provider_ineligibility parsed requested_provider candidate_provider =
    if str_eq requested_provider candidate_provider then safe else by_dialect parsed.dialect parsed
