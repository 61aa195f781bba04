-- ===== src/Proxy/SharedState/InProcess/Laws.antt =====
-- `InProcessStore` keeps what the clients of the shared store rely on.
use varsten.Prelude.{
  ℕ, ◌+◌, ◌≤◌, ◌<◌, ◌∙◌, ◌≡◌, ◌≢◌, Option, none, some, String, str_eq_self, str_eq_ne, arith,
  if◌then◌else◌, leb, str_eq, sym, eq_iff,
}
use varsten.Prelude.Dict.{Dict, lookup, lookup-insert, lookup-erase}
use varsten.Proxy.SharedState.{SharedStore, IsStore}
use varsten.Proxy.SharedState.InProcess.{Item, is_expired, get, set, delete}

abbrev pub in_process : SharedStore (Dict Item)
in_process = record { get = get; set = set; delete = delete }

-- What a read answers, as a function of the entry alone.
unfoldable pub live : ℕ → Option Item → Option String
unfolding is_expired
live now none = none
live now (some item) = if is_expired item now then none else some item.value

get-value : (k : String) (now : ℕ) (d : Dict Item) → (get k now d).0 ≡ live now (lookup k d)
unfolding get live
get-value k now d = ground arith

-- What `set` leaves under its key.
abbrev stored : String → Option ℕ → ℕ → Option Item
stored v none t = some (record { value = v; expires_at = none })
stored v (some ttl) t =
    if leb ttl 0 then none else some (record { value = v; expires_at = some (t + ttl) })

lookup-set :
    (k j v : String) (ttl : Option ℕ) (t : ℕ) (d : Dict Item)
    → lookup j (set k v ttl t d) ≡ (if str_eq k j then stored v ttl t else lookup j d)
unfolding set
lookup-set k j v none t d = lookup-insert k j (record { value = v; expires_at = none }) d
lookup-set k j v (some ttl) t d = ground (
  arith,
  lookup-insert k j (record { value = v; expires_at = some (t + ttl) }) d,
  lookup-erase k j d,
)

get-set_live :
    (k v : String) (ttl t now : ℕ) (d : Dict Item)
    → t ≤ now
    → now < t + ttl
    → (get k now (set k v (some ttl) t d)).0 ≡ some v
unfolding live
get-set_live k v ttl t now d p h = rw (get-value, lookup-set, str_eq_self) (ground arith)

get-set_over :
    (k v : String) (ttl t now : ℕ) (d : Dict Item)
    → t + ttl ≤ now
    → (get k now (set k v (some ttl) t d)).0 ≡ none
unfolding live
get-set_over k v ttl t now d h = rw (get-value, lookup-set, str_eq_self) (ground arith)

get-delete : (k : String) (now : ℕ) (d : Dict Item) → (get k now (delete k d)).0 ≡ none
unfolding delete live
get-delete k now d = rw (get-value, lookup-erase, str_eq_self)

-- An entry that a read at `t` pops is over at every later time too.
live-get :
    (j k : String) (t now : ℕ) (d : Dict Item)
    → t ≤ now
    → live now (lookup j (get k t d).1) ≡ live now (lookup j d)
unfolding get live
live-get j k t now d h = ground (arith, lookup-erase k j d, eq_iff k j)

get-get :
    (j k : String) (t now : ℕ) (d : Dict Item)
    → t ≤ now
    → (get j now (get k t d).1).0 ≡ (get j now d).0
get-get j k t now d h =
    get-value j now (get k t d).1 ∙ live-get j k t now d h ∙ sym (get-value j now d)

get-set_ne :
    (j k v : String) (ttl : Option ℕ) (t now : ℕ) (d : Dict Item)
    → j ≢ k
    → (get j now (set k v ttl t d)).0 ≡ (get j now d).0
get-set_ne j k v ttl t now d h =
    rw (get-value, get-value, lookup-set, str_eq_ne k j (λ e. h (sym e)))

get-delete_ne :
    (j k : String) (now : ℕ) (d : Dict Item) → j ≢ k → (get j now (delete k d)).0 ≡ (get j now d).0
unfolding delete
get-delete_ne j k now d h = rw (get-value, get-value, lookup-erase, str_eq_ne k j (λ e. h (sym e)))

-- The in-process store implements the interface of the shared store.
pub in_process-IsStore : IsStore in_process
in_process-IsStore = record {
  get-set_live = get-set_live;
  get-set_over = get-set_over;
  get-delete = get-delete;
  get-get = get-get;
  get-set_ne = get-set_ne;
  get-delete_ne = get-delete_ne;
}
