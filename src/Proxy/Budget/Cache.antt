-- ===== src/Proxy/Budget/Cache.antt =====
-- `exhausted_hard_caps`: the caps behind a shared store or a cache of the process. The text form
-- (`json`) and the process's TTL cache (`cachetools`) are parameters.
use varsten.Prelude.{
  ℕ, ◌+◌, ◌≤◌, ◌<◌, max, String, ◌≡◌, Bool, true, not, Option, none, some, List, [], arith,
  if◌then◌else◌,
}
use Prim.Native.String.{◌++◌ as str_append}
use varsten.Proxy.SharedState.{SharedStore, IsStore}
use varsten.Proxy.Budget.{Cap}

-- `_serialize_caps` and `_deserialize_caps`; `none` is an unreadable value.
pub record CapsText : Type 0 where
  pub serialize_caps : List Cap → String
  pub deserialize_caps : String → Option (List Cap)

-- The process's `TTLCache` over a type of cache states.
pub record TtlCache (C : Type 0) : Type 0 where
  pub get : String → ℕ → C → Option (List Cap)
  pub set : String → List Cap → ℕ → C → C

pub record Settings : Type 0 where
  pub budget_enforcement_enabled : Bool
  pub budget_enforcement_cache_ttl : ℕ

abbrev pub budget_key : String → String
budget_key project = str_append "budget:exhausted:" project

module _ {S C : Type 0} (store : SharedStore S) (cache : TtlCache C) (text : CapsText) where
  -- After a miss in the shared store: what was computed is stored, and an error (`none`) is an empty
  -- set that is not stored.
  unfoldable pub compute_shared : Settings → String → ℕ → Option (List Cap) → S → List Cap × S
  compute_shared cfg project now none s = ([], s)
  compute_shared cfg project now (some caps) s = (
    caps,
    store.set (budget_key project) (text.serialize_caps caps)
        (some (max 1 cfg.budget_enforcement_cache_ttl)) now s,
  )

  -- The branch with a shared store. `computed` is what `_compute_and_report` gives.
  unfoldable pub shared_caps : Settings → String → ℕ → Option (List Cap) → S → List Cap × S
  unfolding compute_shared
  shared_caps cfg project now computed s =
      let (raw, s') = store.get (budget_key project) now s in
      let fresh = compute_shared cfg project now computed s' in
      elim raw [
        | none ↦ fresh
        | some value ↦ elim (text.deserialize_caps value) [ none ↦ fresh | some caps ↦ (caps, s') ]
      ]

  -- The branch with the process's cache.
  unfoldable pub local_caps : String → ℕ → Option (List Cap) → C → List Cap × C
  local_caps project now computed c = elim (cache.get project now c) [
    | some caps ↦ (caps, c)
    | none ↦ elim computed [ none ↦ ([], c) | some caps ↦ (caps, cache.set project caps now c) ]
  ]

  -- `exhausted_hard_caps`
  unfoldable pub exhausted_hard_caps :
      Settings → String → ℕ → Option (List Cap) → Option S → C → List Cap × Option S × C
  unfolding shared_caps local_caps
  exhausted_hard_caps cfg project now computed none c =
      let (caps, c') = local_caps project now computed c in
      if not cfg.budget_enforcement_enabled then ([], none, c) else (caps, none, c')
  exhausted_hard_caps cfg project now computed (some s) c =
      let (caps, s') = shared_caps cfg project now computed s in
      if not cfg.budget_enforcement_enabled then ([], some s, c) else (caps, some s', c)

module _ {S C : Type 0} (store : SharedStore S) (laws : IsStore store) (cache : TtlCache C)
    (text : CapsText) where
  open laws use {get-set_live}

  -- With a text form that reads back what it wrote, the caps that one instance computed after a miss
  -- are what every instance answers with until their time to live is over, whatever it would compute
  -- itself, an error included.
  exhausted_hard_caps_shared :
      (cfg : Settings) (project : String) (t now : ℕ) (caps : List Cap)
      (computed : Option (List Cap)) (s : S) (c c' : C)
      → cfg.budget_enforcement_enabled ≡ true
      → text.deserialize_caps (text.serialize_caps caps) ≡ some caps
      → (store.get (budget_key project) t s).0 ≡ none
      → t ≤ now
      → now < t + max 1 cfg.budget_enforcement_cache_ttl
      → let s' = (exhausted_hard_caps store cache text cfg project t (some caps) (some s) c).1 in
        (exhausted_hard_caps store cache text cfg project now computed s' c').0 ≡ caps
  unfolding exhausted_hard_caps
  exhausted_hard_caps_shared cfg project t now caps computed s c c' on reads miss order early =
      let live =
        get-set_live (budget_key project) (text.serialize_caps caps)
          (max 1 cfg.budget_enforcement_cache_ttl) t now (store.get (budget_key project) t s).1
          order early in
      ground arith
