-- ===== src/Payload/Nesting.antt =====
-- How a value nests in another: through the items of lists and the entries of dicts whose key a
-- search enters.
use varsten.Prelude.{String, ◌≡◌, ◌⊎◌, Bool, true}
use varsten.Payload.Json.{Value, Items, Fields}

abbrev pub InItems : Value → Items → Type 0
InItems x Items.nil = ⊥
InItems x (Items.cons y ys) = (x ≡ y) ⊎ InItems x ys

-- An entry of the dict, under a key that `enter` admits.
abbrev pub InFields : (String → Bool) → Value → Fields → Type 0
InFields enter x Fields.end = ⊥
InFields enter x (Fields.field k y fs) = ((enter k ≡ true) × (x ≡ y)) ⊎ InFields enter x fs

-- `w` is `v`, or stands within it.
pub data Within (enter : String → Bool) (w : Value) : Value → Type 0 where
  here : Within enter w w
  item :
      (xs : Items) (x : Value) → InItems x xs → Within enter w x → Within enter w (Value.array xs)
  entry :
      (fs : Fields) (x : Value)
      → InFields enter x fs
      → Within enter w x
      → Within enter w (Value.object fs)
