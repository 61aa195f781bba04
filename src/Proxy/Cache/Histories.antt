-- ===== src/Proxy/Cache/Histories.antt =====
-- The caches agree over every history.
use varsten.Prelude.{
  ℕ, String, ◌≡◌, refl, ◌∙◌, inl, inr, true, false, Option, none, some, List, [], ◌∷◌, arith,
  str_eq, eq_iff, Bool-cases, str_eq_self, All,
}
use varsten.Proxy.Cache.{
  CacheRow, is_row, Kept, Caches, is_kept, drop_kept, keep, clear_exact_snapshot_cache, get_cached,
  snapshot_of, get_cached_snapshot, record_hit, has_row, Stored, add_row, Response, row_of,
  store_new, store, is_purged, purged_rows, purge_expired,
}
use varsten.Proxy.Cache.Agreement.{
  find_row, IsUnique, IsHeld, IsAgreeing, drop_kept-All, get_cached_snapshot-IsRead,
}

-- What may happen to a project's cache.
pub data Event : Type 0 where
  reads : String → String → Event
  stores : ℕ → Response → Event
  hits : String → Event
  purges : Event
  clears : Option String → Event

abbrev pub caches_of : Stored → Caches → Caches
caches_of (Stored.stored r c) old = c
caches_of Stored.violates_unique old = old

abbrev pub happens : ℕ → Event → Caches → Caches
happens now (reads project key) c = (get_cached_snapshot now project key c).1
happens now (stores ttl x) c = caches_of (store now ttl x c) c
happens now (hits id) c = record c { rows = record_hit now id c.rows }
happens now purges c = purge_expired now c
happens now (clears project) c = record c {
  snapshots = clear_exact_snapshot_cache project c.snapshots;
}

-- A history of events, each at its time.
unfoldable pub history : List (ℕ × Event) → Caches → Caches
history [] c = c
history ((now, e) ∷ es) c = history es (happens now e c)

abbrev pub empty_caches : Caches
empty_caches = record { rows = []; snapshots = [] }

has_row-record_hit :
    (now : ℕ) (id project key : String) (rows : List CacheRow)
    → has_row project key (record_hit now id rows) ≡ has_row project key rows
unfolding has_row record_hit
has_row-record_hit now id project key [] = refl
has_row-record_hit now id project key (r ∷ rs) =
    let ih = has_row-record_hit now id project key rs in
    elim (Bool-cases (str_eq r.id id)) [ inl e ↦ rw (e, ih) refl | inr e ↦ rw (e, ih) refl ]

find_row-record_hit :
    (now : ℕ) (id project key : String) (rows : List CacheRow)
    → snapshot_of (find_row project key (record_hit now id rows))
      ≡ snapshot_of (find_row project key rows)
unfolding find_row record_hit
find_row-record_hit now id project key [] = refl
find_row-record_hit now id project key (r ∷ rs) =
    let ih = find_row-record_hit now id project key rs in
    elim (Bool-cases (str_eq r.id id)) [
      | inl e ↦ elim (Bool-cases (is_row project key r)) [
        | inl mine ↦ rw (e, mine) refl
        | inr other ↦ rw (e, other) ih
      ]
      | inr e ↦ elim (Bool-cases (is_row project key r)) [
        | inl mine ↦ rw (e, mine) refl
        | inr other ↦ rw (e, other) ih
      ]
    ]

record_hit-IsUnique :
    (now : ℕ) (id : String) (rows : List CacheRow)
    → IsUnique rows
    → IsUnique (record_hit now id rows)
unfolding record_hit
record_hit-IsUnique now id [] u = tt
record_hit-IsUnique now id (r ∷ rs) (fresh, u) =
    let rest = record_hit-IsUnique now id rs u in
    let same = has_row-record_hit now id r.project_id r.cache_key rs ∙ fresh in
    elim (Bool-cases (str_eq r.id id)) [ inl e ↦ rw e (same, rest) | inr e ↦ rw e (same, rest) ]

pub has_row-purged :
    (at : ℕ) (project key : String) (rows : List CacheRow)
    → has_row project key rows ≡ false
    → has_row project key (purged_rows at rows) ≡ false
unfolding has_row purged_rows
has_row-purged at project key [] h = refl
has_row-purged at project key (r ∷ rs) h =
    let ih = has_row-purged at project key rs (ground arith) in
    elim (Bool-cases (is_purged at r.expires_at)) [
      | inl e ↦ rw e ih
      | inr e ↦ let no : is_row project key r ≡ false = ground arith in rw (e, no) ih
    ]

pub purged_rows-IsUnique :
    (at : ℕ) (rows : List CacheRow) → IsUnique rows → IsUnique (purged_rows at rows)
unfolding purged_rows
purged_rows-IsUnique at [] u = tt
purged_rows-IsUnique at (r ∷ rs) (fresh, u) =
    let rest = purged_rows-IsUnique at rs u in
    elim (Bool-cases (is_purged at r.expires_at)) [
      | inl e ↦ rw (e, purged_rows) rest
      | inr e ↦ rw (e, purged_rows) (has_row-purged at r.project_id r.cache_key rs fresh, rest)
    ]

-- A change of the rows under which no kept row changes.
IsHeld-map :
    (rows rows' : List CacheRow) (ks : List Kept)
    → ((p q : String) → snapshot_of (find_row p q rows') ≡ snapshot_of (find_row p q rows))
    → All (IsHeld rows) ks
    → All (IsHeld rows') ks
IsHeld-map rows rows' [] same h = tt
IsHeld-map rows rows' (k ∷ ks) same (hk, h) =
    (same k.project_id k.cache_key ∙ hk, IsHeld-map rows rows' ks same h)

-- A row of a key that no other snapshot has.
IsHeld-add :
    (r : CacheRow) (rows : List CacheRow) (ks : List Kept)
    → All (IsHeld rows) ks
    → All (IsHeld (r ∷ rows)) (drop_kept (is_kept r.project_id r.cache_key) ks)
unfolding drop_kept find_row
IsHeld-add r rows [] h = tt
IsHeld-add r rows (k ∷ ks) (hk, h) = elim (Bool-cases (is_kept r.project_id r.cache_key k)) [
  | inl mine ↦ rw (mine, drop_kept) (IsHeld-add r rows ks h)
  | inr other ↦
      let no : is_row k.project_id k.cache_key r ≡ false = ground (
        arith,
        eq_iff r.project_id k.project_id,
        eq_iff r.cache_key k.cache_key,
        eq_iff k.project_id r.project_id,
        eq_iff k.cache_key r.cache_key,
      ) in
      rw (other, drop_kept) (rw no hk, IsHeld-add r rows ks h)
]

pub is_row_self : (r : CacheRow) → is_row r.project_id r.cache_key r ≡ true
is_row_self r = rw (str_eq_self r.project_id, str_eq_self r.cache_key) refl

pub add_row-IsAgreeing :
    (now : ℕ) (r : CacheRow) (c : Caches)
    → IsAgreeing c
    → IsAgreeing (caches_of (add_row now r c) c)
unfolding keep find_row
add_row-IsAgreeing now r c h = elim (Bool-cases (has_row r.project_id r.cache_key c.rows)) [
  | inl there ↦ rw there h
  | inr fresh ↦
      rw fresh ((fresh, h.0), (rw (is_row_self r) refl, IsHeld-add r c.rows c.snapshots h.1))
]

store-IsAgreeing :
    (now ttl : ℕ) (x : Response) (c : Caches)
    → IsAgreeing c
    → IsAgreeing (caches_of (store now ttl x c) c)
unfolding store
store-IsAgreeing now ttl x c h = go (get_cached now x.project_id x.cache_key c.rows)
  where
    go : (o : Option CacheRow) → IsAgreeing (caches_of (store_new o now ttl x c) c)
    go (some r) = h
    go none = add_row-IsAgreeing now (row_of now ttl x) c h

pub purge_expired-IsAgreeing :
    (at : ℕ) (c : Caches) → IsAgreeing c → IsAgreeing (purge_expired at c)
unfolding purge_expired clear_exact_snapshot_cache
purge_expired-IsAgreeing at c h = (purged_rows-IsUnique at c.rows h.0, tt)

clear-IsAgreeing :
    (project : Option String) (c : Caches)
    → IsAgreeing c
    → IsAgreeing (record c { snapshots = clear_exact_snapshot_cache project c.snapshots })
unfolding clear_exact_snapshot_cache
clear-IsAgreeing none c h = (h.0, tt)
clear-IsAgreeing (some project) c h =
    (h.0, drop_kept-All (IsHeld c.rows) (λ k. str_eq k.project_id project) c.snapshots h.1)

happens-IsAgreeing :
    (now : ℕ) (e : Event) (c : Caches) → IsAgreeing c → IsAgreeing (happens now e c)
happens-IsAgreeing now (Event.reads project key) c h =
    (get_cached_snapshot-IsRead now project key c h).2
happens-IsAgreeing now (Event.stores ttl x) c h = store-IsAgreeing now ttl x c h
happens-IsAgreeing now (Event.hits id) c h = (
  record_hit-IsUnique now id c.rows h.0,
  IsHeld-map c.rows (record_hit now id c.rows) c.snapshots
      (λ p q. find_row-record_hit now id p q c.rows) h.1,
)
happens-IsAgreeing now Event.purges c h = purge_expired-IsAgreeing now c h
happens-IsAgreeing now (Event.clears project) c h = clear-IsAgreeing project c h

history-IsAgreeing : (es : List (ℕ × Event)) (c : Caches) → IsAgreeing c → IsAgreeing (history es c)
unfolding history
history-IsAgreeing [] c h = h
history-IsAgreeing ((now, e) ∷ es) c h =
    history-IsAgreeing es (happens now e c) (happens-IsAgreeing now e c h)

-- After every history of an empty cache, at whatever times, a lookup through the snapshots gives what a
-- lookup in the table gives.
pub history-transparent :
    (es : List (ℕ × Event)) (now : ℕ) (project key : String)
    → let c = history es empty_caches in
      (get_cached_snapshot now project key c).0 ≡ snapshot_of (get_cached now project key c.rows)
history-transparent es now project key =
    (get_cached_snapshot-IsRead now project key (history es empty_caches)
      (history-IsAgreeing es empty_caches (tt, tt))).0
