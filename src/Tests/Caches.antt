-- ===== src/Tests/Caches.antt =====
-- The cache of responses at concrete inputs.
use varsten.Prelude.{ℕ, ◌≡◌, refl, ◌≢◌, none, some, List, [], ◌∷◌, arith}
use varsten.Proxy.Cache.{
  Response, Stored, CacheRow, snapshot, row_of, get_cached, get_cached_snapshot, purge_expired,
  snapshot_of, store,
}
use varsten.Proxy.Cache.Histories.{Event, history, empty_caches, history-transparent}
use varsten.Proxy.Cache.Retention.{again, store-get_cached_snapshot, store_lapsed, stored_caches}

abbrev response : Response
response = record {
  id = "r1";
  project_id = "p";
  cache_key = "k";
  model = "gpt-4o";
  response_payload = "hello";
  input_tokens = 3;
  output_tokens = 5;
  embedding = none;
}

abbrev events : List (ℕ × Event)
events =
    (0, Event.stores 60 response)
    ∷ (5, Event.reads "p" "k")
    ∷ (6, Event.hits "r1")
    ∷ (70, Event.reads "p" "k")
    ∷ (71, Event.clears (some "q"))
    ∷ []

history-transparent_example :
    let c = history events empty_caches in
    (get_cached_snapshot 20 "p" "k" c).0 ≡ snapshot_of (get_cached 20 "p" "k" c.rows)
history-transparent_example = history-transparent events 20 "p" "k"

store-get_cached_snapshot_example :
    (get_cached_snapshot 59 "p" "k" (stored_caches 0 60 response empty_caches)).0
    ≡ some (snapshot (row_of 0 60 response))
unfolding varsten.Proxy.Cache.has_row
store-get_cached_snapshot_example =
    store-get_cached_snapshot 0 60 response empty_caches 59 (tt, tt) refl

store_lapsed_example :
    let c' = stored_caches 0 60 response empty_caches in
    (store 61 60 (again response response) c' ≡ Stored.violates_unique)
    × (store 61 60 (again response response) (purge_expired 61 c') ≢ Stored.violates_unique)
unfolding varsten.Proxy.Cache.has_row
store_lapsed_example = store_lapsed 0 60 response response empty_caches 61 refl (omega arith)
