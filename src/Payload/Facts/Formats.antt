-- ===== src/Payload/Facts/Formats.antt =====
-- When `_wants_json` of backend/app/engine/request_facts.py raises a TypeError.
use varsten.Prelude.{
  String, ◌≡◌, refl, sym, ap, ◌↔◌, ◌⊎◌, inl, inr, Option, none, some, List, [], ◌∷◌, arith,
}
use mathlib.Core.Path.{subst}
use mathlib.Core.Option
use varsten.Payload.Json.{Value, Items, Fields, get, get_in}
use varsten.Payload.Facts.{normalize_request_facts, request_facts, wants_json, in_set}
use varsten.Engine.Classification.{TextMethods}

-- Python has no hash for a list and a dict.
abbrev pub IsContainer : Value → Type 0
IsContainer v = ((xs : Items) × (v ≡ Value.array xs)) ⊎ ((fs : Fields) × (v ≡ Value.object fs))

abbrev HasContainerType : Value → Type 0
HasContainerType v = (fs : Fields) × (v ≡ Value.object fs) × IsContainer (get "type" fs)

-- A `response_format` that is a dict and whose `type` is a list or a dict.
abbrev pub HasUnhashableFormat : Fields → Type 0
HasUnhashableFormat body = HasContainerType (get "response_format" body)

in_set-none : (ts : List String) (v : Value) → (in_set ts v ≡ none) ↔ IsContainer v
in_set-none ts Value.null = ground arith
in_set-none ts (Value.bool b) = ground arith
in_set-none ts (Value.int n) = ground arith
in_set-none ts (Value.float f) = ground arith
in_set-none ts (Value.text s) = ground arith
in_set-none ts (Value.array xs) = (λ h. inl (xs, refl), λ h. refl)
in_set-none ts (Value.object fs) = (λ h. inr (fs, refl), λ h. refl)

get_in-IsContainer : (v : Value) → IsContainer (get_in "type" v) ↔ HasContainerType v
get_in-IsContainer Value.null = ground arith
get_in-IsContainer (Value.bool b) = ground arith
get_in-IsContainer (Value.int n) = ground arith
get_in-IsContainer (Value.float f) = ground arith
get_in-IsContainer (Value.text s) = ground arith
get_in-IsContainer (Value.array xs) = ground arith
get_in-IsContainer (Value.object fs) =
    (λ h. (fs, refl, h), λ h. subst IsContainer (sym (ap (get_in "type") h.1)) h.2)

map-none : {A B : Type 0} (f : A → B) (o : Option A) → (Option.map f o ≡ none) ↔ (o ≡ none)
map-none f none = (λ h. refl, λ h. refl)
map-none f (some x) = (λ h. absurd (ground arith), λ h. absurd (ground arith))

-- The facts fail exactly for a response format whose type has no hash.
pub normalize_request_facts-none :
    (py : TextMethods) (body : Fields)
    → (normalize_request_facts py body ≡ none) ↔ HasUnhashableFormat body
unfolding normalize_request_facts wants_json
normalize_request_facts-none py body =
    let format = get_in "type" (get "response_format" body) in
    let a = map-none (request_facts py body) (wants_json body) in
    let b = map-none _ (in_set ("json_object" ∷ "json_schema" ∷ []) format) in
    let c = in_set-none ("json_object" ∷ "json_schema" ∷ []) format in
    let d = get_in-IsContainer (get "response_format" body) in
    (λ h. d.0 (c.0 (b.0 (a.0 h))), λ h. a.1 (b.1 (c.1 (d.1 h))))
