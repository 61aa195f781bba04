-- ===== src/Payload/Wire.antt =====
-- The texts of a call that backend/app/proxy/client_dialects.py takes apart: the path and the headers.
use varsten.Prelude.{String, ◌&&◌, Option, none, some, [], ◌∷◌, str_eq, ◌==◌, if◌then◌else◌}
use Prim.Native.Char.{code}
use mathlib.Core.Option
use varsten.Prelude.Dict.{Dict, insert}
use varsten.Engine.Classification.{TextMethods}

-- `str.upper`, and the path of `urllib.parse.urlsplit`, which holds no newline.
pub record WireMethods : Type 0 where
  pub text : TextMethods
  pub upper : String → String
  pub url_path : String → String

-- `rstrip("/")`
unfoldable pub strip_slashes : String → String
strip_slashes String.[] = ""
strip_slashes (String.◌∷◌ c s) =
    let rest = strip_slashes s in
    if (code c == b'/') && str_eq rest "" then "" else String.◌∷◌ c rest

-- `_path_only`
unfoldable pub path_only : WireMethods → String → String
unfolding strip_slashes
path_only py path =
    let clean = strip_slashes (if str_eq (py.url_path path) "" then path else py.url_path path) in
    if str_eq clean "" then "/" else clean

-- What follows the prefix, where the text begins with it.
unfoldable pub after : String → String → Option String
after String.[] s = some s
after (String.◌∷◌ p ps) String.[] = none
after (String.◌∷◌ p ps) (String.◌∷◌ c s) = if code p == code c then after ps s else none

-- `str.removeprefix`
abbrev pub remove_prefix : String → String → String
remove_prefix p s = elim (after p s) [ none ↦ s | some rest ↦ rest ]

-- The text up to the first colon and the text after it.
unfoldable pub split_colon : String → Option (String × String)
split_colon String.[] = none
split_colon (String.◌∷◌ c s) =
    let rest = split_colon s in
    if code c == b':'
    then some ("", s)
    else Option.map (λ (r : String × String). (String.◌∷◌ c r.0, r.1)) rest

-- A model is not empty.
abbrev pub with_model : Option (String × String) → Option (String × String)
with_model none = none
with_model (some (model, action)) = if str_eq model "" then none else some (model, action)

-- `_GEMINI_MODEL_ACTION.match(path)`: the model ends at the first colon. That the action is of letters
-- is left to the table of operations, whose keys are.
unfoldable pub model_action : String → Option (String × String)
unfolding after split_colon
model_action path = elim (after "/v1/models/" path) [
  | some rest ↦ with_model (split_colon rest)
  | none ↦ elim (after "/v1beta/models/" path) [
    | some rest ↦ with_model (split_colon rest)
    | none ↦ none
  ]
]

-- The operation that an action names.
unfoldable pub gemini_operation : String → Option String
gemini_operation action =
    if str_eq action "generateContent"
    then some "generate_content"
    else if str_eq action "streamGenerateContent"
    then some "stream_generate_content"
    else if str_eq action "countTokens"
    then some "count_tokens"
    else none

-- `{key.lower(): value for …}`
unfoldable pub lower_headers : TextMethods → Dict String → Dict String → Dict String
unfolding insert
lower_headers py done [] = done
lower_headers py done ((k, v) ∷ hs) = lower_headers py (insert (py.lower k) v done) hs
