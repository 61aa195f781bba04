-- ===== src/Payload/Facts/Multimodal.antt =====
-- The search for multimodal parts, against the parts that stand anywhere within the value.
use varsten.Prelude.{String, ◌≡◌, refl, ◌↔◌, inl, inr, Bool, true, ◌&&◌, ◌||◌, arith, Bool-cases}
use varsten.Payload.Json.{Value, Items, Fields, text_in}
use varsten.Payload.Nesting.{InItems, InFields, Within, here, item, entry}
use varsten.Payload.Facts.{
  has_multimodal, items_multimodal, fields_multimodal, is_multimodal_part, nested_keys,
}
use varsten.Engine.Classification.{TextMethods}

-- A key under which the search goes on.
abbrev pub enters : String → Bool
enters k = text_in nested_keys k

-- A multimodal part stands within the value.
abbrev pub HasPart : TextMethods → Value → Type 0
HasPart py v = (fs : Fields) × Within enters (Value.object fs) v × (is_multimodal_part py fs ≡ true)

or_true : (a b : Bool) → b ≡ true → (a || b) ≡ true
or_true a b h = ground arith

true_and_or : (a b c : Bool) → a ≡ true → b ≡ true → ((a && b) || c) ≡ true
true_and_or a b c h k = ground arith

module _ (py : TextMethods) where
  abbrev PartInItems : Items → Type 0
  PartInItems xs = (x : Value) × InItems x xs × HasPart py x

  abbrev PartInFields : Fields → Type 0
  PartInFields fs = (x : Value) × InFields enters x fs × HasPart py x

  mutual
    unfolding has_multimodal

    finds_part : (v : Value) → has_multimodal py v ≡ true → HasPart py v
    finds_part Value.null h = absurd (ground arith)
    finds_part (Value.bool b) h = absurd (ground arith)
    finds_part (Value.int n) h = absurd (ground arith)
    finds_part (Value.float f) h = absurd (ground arith)
    finds_part (Value.text s) h = absurd (ground arith)
    finds_part (Value.array xs) h =
        let (x, i, (fs, w, p)) = finds_item xs h in (fs, item xs x i w, p)
    finds_part (Value.object fs) h = elim (Bool-cases (is_multimodal_part py fs)) [
      | inl part ↦ (fs, here, part)
      | inr other ↦
          let (x, i, (gs, w, p)) = finds_field fs (ground arith) in (gs, entry fs x i w, p)
    ]

    finds_item : (xs : Items) → items_multimodal py xs ≡ true → PartInItems xs
    finds_item Items.nil h = absurd (ground arith)
    finds_item (Items.cons x xs) h = elim (Bool-cases (has_multimodal py x)) [
      | inl e ↦ (x, inl refl, finds_part x e)
      | inr e ↦ let (y, i, found) = finds_item xs (ground arith) in (y, inr i, found)
    ]

    finds_field : (fs : Fields) → fields_multimodal py fs ≡ true → PartInFields fs
    finds_field Fields.end h = absurd (ground arith)
    finds_field (Fields.field k v fs) h =
        elim (Bool-cases (text_in nested_keys k && has_multimodal py v)) [
          | inl e ↦ (v, inl (ground arith, refl), finds_part v (ground arith))
          | inr e ↦ let (y, i, found) = finds_field fs (ground arith) in (y, inr i, found)
        ]

  item_counts :
      (x : Value) (xs : Items)
      → InItems x xs
      → has_multimodal py x ≡ true
      → items_multimodal py xs ≡ true
  unfolding has_multimodal
  item_counts x Items.nil i h = absurd i
  item_counts x (Items.cons y ys) (inl e) h = ground arith
  item_counts x (Items.cons y ys) (inr i) h = ground (arith, item_counts x ys i h)

  field_counts :
      (x : Value) (fs : Fields)
      → InFields enters x fs
      → has_multimodal py x ≡ true
      → fields_multimodal py fs ≡ true
  unfolding has_multimodal
  field_counts x Fields.end i h = absurd i
  field_counts x (Fields.field k y fs) (inl e) h =
      true_and_or (enters k) (has_multimodal py y) (fields_multimodal py fs) e.0 (rw e.1 at h)
  field_counts x (Fields.field k y fs) (inr i) h = ground (arith, field_counts x fs i h)

  counts_part :
      {fs : Fields} {v : Value}
      → is_multimodal_part py fs ≡ true
      → Within enters (Value.object fs) v
      → has_multimodal py v ≡ true
  unfolding has_multimodal
  counts_part p here = ground arith
  counts_part p (item xs x i w) = item_counts x xs i (counts_part p w)
  counts_part p (entry fs x i w) =
      or_true (is_multimodal_part py fs) _ (field_counts x fs i (counts_part p w))

  -- The search for multimodal content is true of a value exactly when a dict that stands in it,
  -- through lists and the five keys that the search enters, has a multimodal type or a multimodal
  -- field.
  pub has_multimodal-HasPart : (v : Value) → (has_multimodal py v ≡ true) ↔ HasPart py v
  has_multimodal-HasPart v = (finds_part v, λ h. counts_part h.2 h.1)
