-- ===== src/Payload/CrossProvider/Nested.antt =====
-- The dicts that `_iter_dicts` of backend/app/proxy/routing_eligibility.py yields are those that stand in
-- the value, at any depth.
use varsten.Prelude.{
  String, ◌≡◌, refl, sym, ◌∙◌, ◌↔◌, ◌⊎◌, inl, inr, Bool, true, ◌||◌, List, [], ◌∷◌, ◌++◌, arith,
}
use varsten.Payload.Json.{Value, Items, Fields}
use varsten.Payload.Nesting.{InItems, InFields, Within, here, item, entry}
use varsten.Payload.CrossProvider.{iter_dicts, item_dicts, field_dicts, any_dict}

abbrev pub everywhere : String → Bool
everywhere k = true

-- A dict that stands in the value passes the test.
abbrev pub HasDict : (Fields → Bool) → Value → Type 0
HasDict test v = (d : Fields) × Within everywhere (Value.object d) v × (test d ≡ true)

or_cases : (a b : Bool) → (a || b) ≡ true → (a ≡ true) ⊎ (b ≡ true)
or_cases a b h = ground arith

or_left : (a b : Bool) → a ≡ true → (a || b) ≡ true
or_left a b h = ground arith

or_right : (a b : Bool) → b ≡ true → (a || b) ≡ true
or_right a b h = ground arith

module _ (test : Fields → Bool) where
  any_append :
      (xs ys : List Fields) → any_dict test (xs ++ ys) ≡ (any_dict test xs || any_dict test ys)
  unfolding any_dict
  any_append [] ys = refl
  any_append (x ∷ xs) ys = ground (arith, any_append xs ys)

  mutual
    unfolding iter_dicts any_dict

    yields_dict : (v : Value) → any_dict test (iter_dicts v) ≡ true → HasDict test v
    yields_dict Value.null h = absurd (ground arith)
    yields_dict (Value.bool b) h = absurd (ground arith)
    yields_dict (Value.int n) h = absurd (ground arith)
    yields_dict (Value.float f) h = absurd (ground arith)
    yields_dict (Value.text s) h = absurd (ground arith)
    yields_dict (Value.array xs) h =
        let (x, i, (d, w, t)) = yields_item xs h in (d, item xs x i w, t)
    yields_dict (Value.object fs) h = elim (or_cases (test fs) _ h) [
      | inl t ↦ (fs, here, t)
      | inr r ↦ let (x, i, (d, w, t)) = yields_field fs r in (d, entry fs x i w, t)
    ]

    yields_item :
        (xs : Items)
        → any_dict test (item_dicts xs) ≡ true
        → (x : Value) × InItems x xs × HasDict test x
    yields_item Items.nil h = absurd (ground arith)
    yields_item (Items.cons x xs) h =
        elim (or_cases _ _ (sym (any_append (iter_dicts x) (item_dicts xs)) ∙ h)) [
          | inl e ↦ (x, inl refl, yields_dict x e)
          | inr r ↦ let (y, i, found) = yields_item xs r in (y, inr i, found)
        ]

    yields_field :
        (fs : Fields)
        → any_dict test (field_dicts fs) ≡ true
        → (x : Value) × InFields everywhere x fs × HasDict test x
    yields_field Fields.end h = absurd (ground arith)
    yields_field (Fields.field k v fs) h =
        elim (or_cases _ _ (sym (any_append (iter_dicts v) (field_dicts fs)) ∙ h)) [
          | inl e ↦ (v, inl (refl, refl), yields_dict v e)
          | inr r ↦ let (y, i, found) = yields_field fs r in (y, inr i, found)
        ]

  item_yields :
      (x : Value) (xs : Items)
      → InItems x xs
      → any_dict test (iter_dicts x) ≡ true
      → any_dict test (item_dicts xs) ≡ true
  unfolding iter_dicts
  item_yields x Items.nil i h = absurd i
  item_yields x (Items.cons y ys) (inl e) h =
      any_append (iter_dicts y) (item_dicts ys) ∙ or_left _ _ (rw e at h)
  item_yields x (Items.cons y ys) (inr i) h =
      any_append (iter_dicts y) (item_dicts ys)
      ∙ or_right (any_dict test (iter_dicts y)) _ (item_yields x ys i h)

  field_yields :
      (x : Value) (fs : Fields)
      → InFields everywhere x fs
      → any_dict test (iter_dicts x) ≡ true
      → any_dict test (field_dicts fs) ≡ true
  unfolding iter_dicts
  field_yields x Fields.end i h = absurd i
  field_yields x (Fields.field k y fs) (inl e) h =
      any_append (iter_dicts y) (field_dicts fs) ∙ or_left _ _ (rw e.1 at h)
  field_yields x (Fields.field k y fs) (inr i) h =
      any_append (iter_dicts y) (field_dicts fs)
      ∙ or_right (any_dict test (iter_dicts y)) _ (field_yields x fs i h)

  dict_counts :
      {d : Fields} {v : Value}
      → test d ≡ true
      → Within everywhere (Value.object d) v
      → any_dict test (iter_dicts v) ≡ true
  unfolding iter_dicts any_dict
  dict_counts t here = or_left _ _ t
  dict_counts t (item xs x i w) = item_yields x xs i (dict_counts t w)
  dict_counts t (entry fs x i w) = or_right (test fs) _ (field_yields x fs i (dict_counts t w))

  -- A test of the dicts that the search yields is a test of all that stand in the value.
  pub any_dict-HasDict : (v : Value) → (any_dict test (iter_dicts v) ≡ true) ↔ HasDict test v
  any_dict-HasDict v = (yields_dict v, λ h. dict_counts h.2 h.1)
