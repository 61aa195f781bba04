-- ===== src/Payload/Json.antt =====
-- The JSON values that backend/app/proxy and backend/app/engine read, as the `json` module gives them.
-- A finite float is its value in millionths.
use varsten.Prelude.{
  ℕ, suc, String, Bool, true, false, not, ◌||◌, Option, none, some, List, [], ◌∷◌, str_eq, ◌==◌,
  if◌then◌else◌,
}
use varsten.Prelude.Int.{ℤ, pos, negsuc}

pub data Float : Type 0 where
  finite : ℤ → Float
  infinity : Float
  minus_infinity : Float
  nan : Float

mutual
  pub data Value : Type 0 where
    null : Value
    bool : Bool → Value
    int : ℤ → Value
    float : Float → Value
    text : String → Value
    array : Items → Value
    object : Fields → Value

  pub data Items : Type 0 where
    nil : Items
    cons : Value → Items → Items

  -- The entries of a dict, each key once.
  pub data Fields : Type 0 where
    end : Fields
    field : String → Value → Fields → Fields

-- `d.get(k)`, where a missing key reads as `None`.
unfoldable pub get : String → Fields → Value
get k Fields.end = Value.null
get k (Fields.field j v fs) = if str_eq j k then v else get k fs

-- `k in d`
unfoldable pub has_key : String → Fields → Bool
has_key k Fields.end = false
has_key k (Fields.field j v fs) = str_eq j k || has_key k fs

-- `value.get(k)` where the code has tested that `value` is a dict, `None` elsewhere.
abbrev pub get_in : String → Value → Value
get_in k (Value.object fs) = get k fs
get_in k Value.null = Value.null
get_in k (Value.bool b) = Value.null
get_in k (Value.int n) = Value.null
get_in k (Value.float f) = Value.null
get_in k (Value.text s) = Value.null
get_in k (Value.array xs) = Value.null

abbrev pub is_zero : ℤ → Bool
is_zero (pos n) = n == 0
is_zero (negsuc n) = false

-- Python's `bool(value)`.
abbrev pub truthy : Value → Bool
truthy Value.null = false
truthy (Value.bool b) = b
truthy (Value.int n) = not (is_zero n)
truthy (Value.float (Float.finite m)) = not (is_zero m)
truthy (Value.float Float.infinity) = true
truthy (Value.float Float.minus_infinity) = true
truthy (Value.float Float.nan) = true
truthy (Value.text s) = not (str_eq s "")
truthy (Value.array Items.nil) = false
truthy (Value.array (Items.cons x xs)) = true
truthy (Value.object Fields.end) = false
truthy (Value.object (Fields.field k v fs)) = true

-- `a or b`
abbrev pub or_else : Value → Value → Value
or_else a b = if truthy a then a else b

-- `len(text)`
unfoldable pub text_length : String → ℕ
text_length String.[] = 0
text_length (String.◌∷◌ c s) = suc (text_length s)

unfoldable pub text_in : List String → String → Bool
text_in [] s = false
text_in (t ∷ ts) s = str_eq s t || text_in ts s

-- `isinstance(value, str) and value in (…)`, for a tuple or a set of texts.
abbrev pub is_one_of : List String → Value → Bool
is_one_of ts v = elim v [ Value.text s ↦ text_in ts s | _ ↦ false ]

-- What `for item in (value or [])` goes through, none where Python raises a TypeError. The keys of a
-- dict and the characters of a text stand for items that are texts: no code looks into those.
unfoldable pub loop_items : Value → Option Items
loop_items Value.null = some Items.nil
loop_items (Value.bool b) = if b then none else some Items.nil
loop_items (Value.int n) = if is_zero n then some Items.nil else none
loop_items (Value.float (Float.finite m)) = if is_zero m then some Items.nil else none
loop_items (Value.float Float.infinity) = none
loop_items (Value.float Float.minus_infinity) = none
loop_items (Value.float Float.nan) = none
loop_items (Value.text s) = some Items.nil
loop_items (Value.array xs) = some xs
loop_items (Value.object fs) = some Items.nil
