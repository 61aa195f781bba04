-- ===== src/Proxy/Cache.antt =====
-- backend/app/proxy/cache.py: the exact and the semantic cache of responses, with the snapshots that a
-- process keeps of its rows. A payload is a text, and so is an embedding.
pub mod Agreement
pub mod Histories
pub mod Retention
use varsten.Prelude.{
  ℕ, ◌+◌, String, Bool, true, false, ◌&&◌, ◌||◌, Option, none, some, List, [], ◌∷◌, str_eq, ltb,
  leb, if◌then◌else◌,
}

-- `ProxyCacheEntry`
pub record CacheRow : Type 0 where
  pub id : String
  pub project_id : String
  pub cache_key : String
  pub model : String
  pub embedding : Option String
  pub response_payload : String
  pub input_tokens : ℕ
  pub output_tokens : ℕ
  pub hit_count : ℕ
  pub last_hit_at : Option ℕ
  pub expires_at : Option ℕ

-- `CacheEntrySnapshot`
pub record Snapshot : Type 0 where
  pub id : String
  pub model : String
  pub response_payload : String
  pub input_tokens : ℕ
  pub output_tokens : ℕ
  pub expires_at : Option ℕ

-- `_snapshot`
abbrev pub snapshot : CacheRow → Snapshot
snapshot r = record {
  id = r.id;
  model = r.model;
  response_payload = r.response_payload;
  input_tokens = r.input_tokens;
  output_tokens = r.output_tokens;
  expires_at = r.expires_at;
}

-- `_live` and `_snapshot_live`
abbrev pub is_live : ℕ → Option ℕ → Bool
is_live now none = true
is_live now (some e) = ltb now e

abbrev pub is_row : String → String → CacheRow → Bool
is_row project key r = str_eq r.project_id project && str_eq r.cache_key key

-- An entry of the TTL cache of snapshots, with the tick at which it lapses.
pub record Kept : Type 0 where
  pub project_id : String
  pub cache_key : String
  pub kept : Snapshot
  pub lapses_at : ℕ

pub record Caches : Type 0 where
  pub rows : List CacheRow
  pub snapshots : List Kept

abbrev pub is_kept : String → String → Kept → Bool
is_kept project key k = str_eq k.project_id project && str_eq k.cache_key key

-- The `get` of the TTL cache.
unfoldable pub find_kept : ℕ → String → String → List Kept → Option Snapshot
find_kept now project key [] = none
find_kept now project key (k ∷ ks) =
    if is_kept project key k && ltb now k.lapses_at
    then some k.kept
    else find_kept now project key ks

-- The `pop` of the TTL cache.
unfoldable pub drop_kept : (Kept → Bool) → List Kept → List Kept
drop_kept test [] = []
drop_kept test (k ∷ ks) = if test k then drop_kept test ks else k ∷ drop_kept test ks

-- An assignment to the TTL cache, of 30 ticks.
unfoldable pub keep : ℕ → String → String → Snapshot → List Kept → List Kept
unfolding drop_kept
keep now project key s ks =
    record { project_id = project; cache_key = key; kept = s; lapses_at = now + 30 }
    ∷ drop_kept (is_kept project key) ks

-- `clear_exact_snapshot_cache`
unfoldable pub clear_exact_snapshot_cache : Option String → List Kept → List Kept
unfolding drop_kept
clear_exact_snapshot_cache none ks = []
clear_exact_snapshot_cache (some project) ks = drop_kept (λ k. str_eq k.project_id project) ks

-- `get_cached`
unfoldable pub get_cached : ℕ → String → String → List CacheRow → Option CacheRow
get_cached now project key [] = none
get_cached now project key (r ∷ rs) =
    if is_row project key r && is_live now r.expires_at
    then some r
    else get_cached now project key rs

abbrev pub snapshot_of : Option CacheRow → Option Snapshot
snapshot_of none = none
snapshot_of (some r) = some (snapshot r)

-- The lookup of a row, which is kept.
abbrev pub keep_found : Option CacheRow → ℕ → String → String → Caches → Option Snapshot × Caches
keep_found none now project key c = (none, c)
keep_found (some r) now project key c =
    (some (snapshot r), record c { snapshots = keep now project key (snapshot r) c.snapshots })

abbrev pub read_row : ℕ → String → String → Caches → Option Snapshot × Caches
read_row now project key c = keep_found (get_cached now project key c.rows) now project key c

-- `get_cached_snapshot`, given the snapshot that is kept.
abbrev pub use_kept : Option Snapshot → ℕ → String → String → Caches → Option Snapshot × Caches
use_kept none now project key c = read_row now project key c
use_kept (some s) now project key c =
    if is_live now s.expires_at
    then (some s, c)
    else read_row now project key
        (record c { snapshots = drop_kept (is_kept project key) c.snapshots })

-- `get_cached_snapshot`
unfoldable pub get_cached_snapshot : ℕ → String → String → Caches → Option Snapshot × Caches
get_cached_snapshot now project key c =
    use_kept (find_kept now project key c.snapshots) now project key c

-- `record_hit`
unfoldable pub record_hit : ℕ → String → List CacheRow → List CacheRow
record_hit now id [] = []
record_hit now id (r ∷ rs) =
    (if str_eq r.id id then record r { hit_count = r.hit_count + 1; last_hit_at = some now } else r)
    ∷ record_hit now id rs

unfoldable pub has_row : String → String → List CacheRow → Bool
has_row project key [] = false
has_row project key (r ∷ rs) = is_row project key r || has_row project key rs

-- What `store` gives, or the exception of the table's unique constraint.
pub data Stored : Type 0 where
  stored : CacheRow → Caches → Stored
  violates_unique : Stored

-- The insertion of a row.
abbrev pub add_row : ℕ → CacheRow → Caches → Stored
add_row now r c =
    if has_row r.project_id r.cache_key c.rows
    then violates_unique
    else stored r (record {
      rows = r ∷ c.rows;
      snapshots = keep now r.project_id r.cache_key (snapshot r) c.snapshots;
    })

-- A response for `store`, with the id that its row would have.
pub record Response : Type 0 where
  pub id : String
  pub project_id : String
  pub cache_key : String
  pub model : String
  pub response_payload : String
  pub input_tokens : ℕ
  pub output_tokens : ℕ
  pub embedding : Option String

abbrev pub row_of : ℕ → ℕ → Response → CacheRow
row_of now ttl x = record {
  id = x.id;
  project_id = x.project_id;
  cache_key = x.cache_key;
  model = x.model;
  embedding = x.embedding;
  response_payload = x.response_payload;
  input_tokens = x.input_tokens;
  output_tokens = x.output_tokens;
  hit_count = 0;
  last_hit_at = none;
  expires_at = some (now + ttl);
}

abbrev pub store_new : Option CacheRow → ℕ → ℕ → Response → Caches → Stored
store_new (some r) now ttl x c = stored r c
store_new none now ttl x c = add_row now (row_of now ttl x) c

-- `store`, for `proxy_cache_ttl_seconds`.
unfoldable pub store : ℕ → ℕ → Response → Caches → Stored
store now ttl x c = store_new (get_cached now x.project_id x.cache_key c.rows) now ttl x c

abbrev pub is_purged : ℕ → Option ℕ → Bool
is_purged at none = false
is_purged at (some e) = leb e at

unfoldable pub purged_rows : ℕ → List CacheRow → List CacheRow
purged_rows at [] = []
purged_rows at (r ∷ rs) =
    if is_purged at r.expires_at then purged_rows at rs else r ∷ purged_rows at rs

-- `purge_expired`
unfoldable pub purge_expired : ℕ → Caches → Caches
purge_expired at c = record {
  rows = purged_rows at c.rows;
  snapshots = clear_exact_snapshot_cache none c.snapshots;
}

-- The nearest of the rows that `semantic_search` compares, with its distance.
abbrev pub nearer : Option (CacheRow × ℕ) → CacheRow × ℕ → Option (CacheRow × ℕ)
nearer none found = some found
nearer (some best) found = if ltb best.1 found.1 then some best else some found

unfoldable pub nearest : (String → ℕ) → (CacheRow → Bool) → List CacheRow → Option (CacheRow × ℕ)
nearest distance test [] = none
nearest distance test (r ∷ rs) =
    let rest = nearest distance test rs in
    elim r.embedding [ none ↦ rest | some e ↦ if test r then nearer rest (r, distance e) else rest ]

-- `semantic_search`, with the cosine distance of the vectors of two texts.
unfoldable pub semantic_search :
    (String → String → ℕ)
    → ℕ
    → String
    → String
    → Option String
    → ℕ
    → List CacheRow
    → Option CacheRow
semantic_search cosine now project model none threshold rows = none
semantic_search cosine now project model (some embedding) threshold rows =
    let test = λ (r : CacheRow).
      str_eq r.project_id project && str_eq r.model model && is_live now r.expires_at in
    elim (nearest (cosine embedding) test rows) [
      | none ↦ none
      | some (r, d) ↦ if leb d threshold then some r else none
    ]
