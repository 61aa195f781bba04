-- ===== src/Proxy/SharedState/InProcess.antt =====
-- `class InProcessStore` of backend/app/proxy/shared_state.py, a dict of values that expire.
pub mod Laws
use text.Mathlib.Text.{starts_with}
use varsten.Prelude.{ℕ, ◌+◌, Bool, false, Option, none, some, [], ◌∷◌, String, leb, if◌then◌else◌}
use varsten.Prelude.Dict.{Dict, lookup, insert, erase}

-- An entry of `InProcessStore._data`: the value and the tick at which it expires, if it does.
pub record Item : Type 0 where
  pub value : String
  pub expires_at : Option ℕ

-- `expires_at is not None and expires_at <= time.monotonic()`
pub is_expired : Item → ℕ → Bool
is_expired item now = elim item.expires_at [ none ↦ false | some e ↦ leb e now ]

-- The branch of `get` on the entry that was found; an expired one is popped.
get_item : String → ℕ → Option Item → Dict Item → Option String × Dict Item
unfolding is_expired
get_item k now none d = (none, d)
get_item k now (some item) d =
    if is_expired item now then (none, erase k d) else (some item.value, d)

-- `InProcessStore.get`
unfoldable pub get : String → ℕ → Dict Item → Option String × Dict Item
unfolding get_item
get k now d = get_item k now (lookup k d) d

-- `InProcessStore.delete`
unfoldable pub delete : String → Dict Item → Dict Item
delete k d = erase k d

-- `InProcessStore.set`: a time to live that is not positive drops the key.
unfoldable pub set : String → String → Option ℕ → ℕ → Dict Item → Dict Item
unfolding delete
set k v none t d = insert k (record { value = v; expires_at = none }) d
set k v (some ttl) t d =
    if leb ttl 0 then delete k d else insert k (record { value = v; expires_at = some (t + ttl) }) d

-- `InProcessStore.clear_prefix`
unfoldable pub clear_prefix : String → Dict Item → Dict Item
clear_prefix p [] = []
clear_prefix p (e ∷ d) = if starts_with e.0 p then clear_prefix p d else e ∷ clear_prefix p d
