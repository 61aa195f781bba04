-- ===== src/Payload/Trim.antt =====
-- backend/app/proxy/trim.py: the redundancy that is taken out of the messages of a request. The role of a
-- message is no list and no dict, since Python hashes it.
use varsten.Prelude.{
  ℕ, zero, suc, ◌-◌, String, Bool, true, false, not, ◌&&◌, ◌||◌, Option, none, some, List, [], ◌∷◌,
  map, str_eq, ltb, if◌then◌else◌, length,
}
pub mod Rounds
pub mod Stable
pub mod Messages
use mathlib.Core.Option
use mathlib.Core.List.{◌++◌}
use varsten.Prelude.Int.{ℤ, pos, negsuc, ltb_ℤ}
use varsten.Payload.Json.{text_in, Float, Value, Items, Fields, get, has_key, truthy, is_one_of}
use varsten.Payload.Predicate.{
  Result, ok, type_error, value_error, overflow_error, int_of, is_null, millionths,
}
use varsten.Payload.Equality.{eq_value}
use varsten.Payload.Whitespace.{collapse_text}

-- `d.get(k, default)`
unfoldable pub get_or : String → Value → Fields → Value
unfolding get has_key
get_or k default d = if has_key k d then get k d else default

-- `{**d, k: v}`
unfoldable pub put : String → Value → Fields → Fields
put k v Fields.end = Fields.field k v Fields.end
put k v (Fields.field j w fs) =
    if str_eq j k then Fields.field j v fs else Fields.field j w (put k v fs)

abbrev pub is_system : Fields → Bool
is_system m = is_one_of ("system" ∷ []) (get "role" m)

-- The messages of the system, and the others.
unfoldable pub system_of : List Fields → List Fields
unfolding text_in
system_of [] = []
system_of (m ∷ ms) = let rest = system_of ms in if is_system m then m ∷ rest else rest

unfoldable pub turns_of : List Fields → List Fields
unfolding text_in
turns_of [] = []
turns_of (m ∷ ms) = let rest = turns_of ms in if is_system m then rest else m ∷ rest

unfoldable pub drop : ℕ → List Fields → List Fields
drop zero ms = ms
drop (suc n) [] = []
drop (suc n) (m ∷ ms) = drop n ms

-- `rest[-keep_last:] if keep_last > 0 and len(rest) > keep_last else rest`
unfoldable pub window : ℤ → List Fields → List Fields
unfolding drop
window (negsuc k) turns = turns
window (pos k) turns =
    if ltb 0 k && ltb k (length turns) then drop (length turns - k) turns else turns

-- The role and the text of a message that the loop has written.
abbrev pub Key : Type 0
Key = Value × String

unfoldable pub seen_before : Key → List Key → Bool
unfolding eq_value
seen_before k [] = false
seen_before k (j ∷ js) = (eq_value k.0 j.0 && str_eq k.1 j.1) || seen_before k js

-- `new_m` for the collapsed text.
abbrev pub rewritten : Fields → String → String → Fields
rewritten m content text = if str_eq text content then m else put "content" (Value.text text) m

-- What the loop appends for a message under its key, and `seen`, by `do_dedupe` and by whether the
-- key is seen.
abbrev pub appended : Bool → Bool → List Key → Key → Fields → List Fields × List Key
appended true true seen key m = ([], seen)
appended true false seen key m = (m ∷ [], key ∷ seen)
appended false known seen key m = (m ∷ [], seen)

-- The text of a message after `_collapse_text`, where that is on.
abbrev pub text_of : Bool → String → String
text_of collapse content = if collapse then collapse_text content else content

-- One round of the loop.
unfoldable pub round : Bool → Bool → List Key → Fields → List Fields × List Key
round dedupe collapse seen m = elim (get "content" m) [
  | Value.text content ↦
      let text = text_of collapse content in
      let key : Key = (get_or "role" (Value.text "") m, text) in
      appended dedupe (seen_before key seen) seen key (rewritten m content text)
  | _ ↦ (m ∷ [], seen)
]

-- The loop, from the keys that are seen.
unfoldable pub emit : Bool → Bool → List Key → List Fields → List Fields
emit dedupe collapse seen [] = []
emit dedupe collapse seen (m ∷ ms) =
    let (out, seen') = round dedupe collapse seen m in out ++ emit dedupe collapse seen' ms

-- `list == list` for messages.
unfoldable pub eq_messages : List Fields → List Fields → Bool
unfolding eq_value
eq_messages [] ns = elim ns [ [] ↦ true | _ ↦ false ]
eq_messages (m ∷ ms) ns = elim ns [
  | n ∷ rest ↦ eq_value (Value.object m) (Value.object n) && eq_messages ms rest
  | _ ↦ false
]

-- `system + windowed_rest`, and the loop over it.
unfoldable pub trimmed : ℤ → Bool → Bool → List Fields → List Fields
trimmed keep_last dedupe collapse messages =
    emit dedupe collapse [] (system_of messages ++ window keep_last (turns_of messages))

abbrev pub with_keep : Result ℤ → Bool → Bool → List Fields → Result (List Fields × Bool)
with_keep (ok keep_last) dedupe collapse messages =
    let out = trimmed keep_last dedupe collapse messages in ok (out, not (eq_messages out messages))
with_keep type_error dedupe collapse messages = type_error
with_keep value_error dedupe collapse messages = value_error
with_keep overflow_error dedupe collapse messages = overflow_error

-- `trim_messages`
unfoldable pub trim_messages :
    (String → Option ℤ) → List Fields → Fields → Result (List Fields × Bool)
unfolding get_or int_of trimmed eq_messages
trim_messages int_of_text [] params = ok ([], false)
trim_messages int_of_text (m ∷ ms) params =
    with_keep (int_of int_of_text (get_or "keep_last_turns" (Value.int (pos 12)) params))
      (truthy (get_or "dedupe" (Value.bool true) params))
      (truthy (get_or "collapse_whitespace" (Value.bool true) params)) (m ∷ ms)

-- The messages of a list of dicts, none where one is no dict and `m.get` raises.
unfoldable pub as_messages : Items → Option (List Fields)
as_messages Items.nil = some []
as_messages (Items.cons x xs) =
    let rest = as_messages xs in
    elim x [ Value.object m ↦ Option.map (λ (ms : List Fields). m ∷ ms) rest | _ ↦ none ]

unfoldable pub as_items : List Fields → Items
as_items [] = Items.nil
as_items (m ∷ ms) = Items.cons (Value.object m) (as_items ms)

-- The new body and whether it changed, or an exception.
pub data Applied : Type 0 where
  applied : Fields → Bool → Applied
  raises : Applied

abbrev pub finish : Fields → Result (List Fields × Bool) → Applied
finish body (ok (out, changed)) =
    if changed
    then applied (put "messages" (Value.array (as_items out)) body) true
    else applied body false
finish body type_error = raises
finish body value_error = raises
finish body overflow_error = raises

-- `apply_trim`
unfoldable pub apply_trim : (String → Option ℤ) → Fields → Fields → Applied
unfolding get as_messages trim_messages
apply_trim int_of_text body params = elim (get "messages" body) [
  | Value.array xs ↦ elim (as_messages xs) [
    | none ↦ raises
    | some messages ↦ finish body (trim_messages int_of_text messages params)
  ]
  | _ ↦ applied body false
]
