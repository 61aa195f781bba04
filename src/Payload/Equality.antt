-- ===== src/Payload/Equality.antt =====
-- Python's `==` on the values of JSON, by which backend/app/proxy/trim.py compares messages.
use varsten.Prelude.{
  ℕ, suc, Bool, true, false, ◌&&◌, Option, none, some, str_eq, ◌==◌, if◌then◌else◌,
}
use varsten.Prelude.Int.{ℤ, pos, negsuc}
use varsten.Payload.Json.{Float, Value, Items, Fields, get, has_key}
use varsten.Payload.Predicate.{is_null, millionths}

-- A number of Python: `True` is 1, and an integer is in millionths like a float.
abbrev pub number_of : Value → Option Float
number_of (Value.bool b) = some (Float.finite (millionths (pos (if b then 1 else 0))))
number_of (Value.int n) = some (Float.finite (millionths n))
number_of (Value.float f) = some f
number_of Value.null = none
number_of (Value.text s) = none
number_of (Value.array xs) = none
number_of (Value.object fs) = none

abbrev pub eq_ℤ : ℤ → ℤ → Bool
eq_ℤ (pos a) (pos b) = a == b
eq_ℤ (negsuc a) (negsuc b) = a == b
eq_ℤ (pos a) (negsuc b) = false
eq_ℤ (negsuc a) (pos b) = false

-- A NaN is met again only as the same object, which Python takes to be equal within a container.
abbrev pub eq_float : Float → Float → Bool
eq_float (Float.finite a) f = elim f [ Float.finite b ↦ eq_ℤ a b | _ ↦ false ]
eq_float Float.infinity f = elim f [ Float.infinity ↦ true | _ ↦ false ]
eq_float Float.minus_infinity f = elim f [ Float.minus_infinity ↦ true | _ ↦ false ]
eq_float Float.nan f = elim f [ Float.nan ↦ true | _ ↦ false ]

abbrev pub eq_number : Option Float → Option Float → Bool
eq_number none g = false
eq_number (some f) none = false
eq_number (some f) (some g) = eq_float f g

abbrev pub count_fields : Fields → ℕ
count_fields Fields.end = 0
count_fields (Fields.field k v fs) = suc (count_fields fs)

-- `a == b`: a dict equals another in whatever order the entries stand.
unfoldable mutual
  unfolding get has_key

  pub eq_value : Value → Value → Bool
  eq_value Value.null w = is_null w
  eq_value (Value.bool b) w = eq_number (number_of (Value.bool b)) (number_of w)
  eq_value (Value.int n) w = eq_number (number_of (Value.int n)) (number_of w)
  eq_value (Value.float f) w = eq_number (number_of (Value.float f)) (number_of w)
  eq_value (Value.text s) w = elim w [ Value.text t ↦ str_eq s t | _ ↦ false ]
  eq_value (Value.array xs) w = elim w [ Value.array ys ↦ eq_items xs ys | _ ↦ false ]
  eq_value (Value.object fs) w = elim w [
    | Value.object gs ↦ (count_fields fs == count_fields gs) && eq_entries fs gs
    | _ ↦ false
  ]

  pub eq_items : Items → Items → Bool
  eq_items Items.nil ys = elim ys [ Items.nil ↦ true | _ ↦ false ]
  eq_items (Items.cons x xs) ys = elim ys [
    | Items.cons y zs ↦ eq_value x y && eq_items xs zs
    | _ ↦ false
  ]

  pub eq_entries : Fields → Fields → Bool
  eq_entries Fields.end gs = true
  eq_entries (Fields.field k v fs) gs = has_key k gs && eq_value v (get k gs) && eq_entries fs gs
