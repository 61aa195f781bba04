-- ===== src/Proxy/SharedState.antt =====
-- backend/app/proxy/shared_state.py: the store that app instances share, as the interface its
-- clients use; `InProcessStore` is in the child module. Time is a whole number of ticks, passed in where the code
-- reads `time.monotonic()`; keys and values are texts.
pub mod InProcess
use varsten.Prelude.{ℕ, ◌+◌, ◌≤◌, ◌<◌, ◌≡◌, ◌≢◌, Option, none, some, String}

-- `class SharedStore(Protocol)` over a type of store states; an operation returns the new state.
pub record SharedStore (S : Type 0) : Type 0 where
  pub get : String → ℕ → S → Option String × S
  pub set : String → String → Option ℕ → ℕ → S → S
  pub delete : String → S → S

-- What the clients rely on: a value is read back until its time to live is over and not after, a
-- deleted key is gone, a read changes no later answer, and other keys are left alone.
pub record IsStore {S : Type 0} (store : SharedStore S) : Type 0 where
  pub get-set_live :
      (k v : String) (ttl t now : ℕ) (s : S)
      → t ≤ now
      → now < t + ttl
      → (store.get k now (store.set k v (some ttl) t s)).0 ≡ some v
  pub get-set_over :
      (k v : String) (ttl t now : ℕ) (s : S)
      → t + ttl ≤ now
      → (store.get k now (store.set k v (some ttl) t s)).0 ≡ none
  pub get-delete : (k : String) (now : ℕ) (s : S) → (store.get k now (store.delete k s)).0 ≡ none
  pub get-get :
      (j k : String) (t now : ℕ) (s : S)
      → t ≤ now
      → (store.get j now (store.get k t s).1).0 ≡ (store.get j now s).0
  pub get-set_ne :
      (j k v : String) (ttl : Option ℕ) (t now : ℕ) (s : S)
      → j ≢ k
      → (store.get j now (store.set k v ttl t s)).0 ≡ (store.get j now s).0
  pub get-delete_ne :
      (j k : String) (now : ℕ) (s : S)
      → j ≢ k
      → (store.get j now (store.delete k s)).0 ≡ (store.get j now s).0
