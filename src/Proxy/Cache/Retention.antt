-- ===== src/Proxy/Cache/Retention.antt =====
-- How long a response is served, and when it can be stored again.
use varsten.Prelude.{
  ℕ, ◌+◌, ◌≤◌, ◌≡◌, refl, sym, ap, ◌∙◌, ◌≢◌, Bool, true, false, none, some, List, ◌∷◌, arith, ltb,
  leb, if◌then◌else◌,
}
use varsten.Proxy.Cache.{
  CacheRow, snapshot, Caches, get_cached, snapshot_of, get_cached_snapshot, has_row, Stored,
  add_row, Response, row_of, store, keep, purged_rows, purge_expired,
}
use mathlib.Core.Path.{subst}
use varsten.Proxy.Cache.Agreement.{IsAgreeing, get_cached-absent, get_cached_snapshot-IsRead}
use varsten.Proxy.Cache.Histories.{caches_of, add_row-IsAgreeing, is_row_self, has_row-purged}

-- What `store` leaves of a response whose key has no row.
abbrev pub stored_caches : ℕ → ℕ → Response → Caches → Caches
stored_caches now ttl x c = caches_of (store now ttl x c) c

add_fresh :
    (now : ℕ) (r : CacheRow) (c : Caches)
    → has_row r.project_id r.cache_key c.rows ≡ false
    → add_row now r c
      ≡ Stored.stored r (record {
        rows = r ∷ c.rows;
        snapshots = keep now r.project_id r.cache_key (snapshot r) c.snapshots;
      })
add_fresh now r c fresh = rw fresh refl

store-fresh :
    (now ttl : ℕ) (x : Response) (c : Caches)
    → has_row x.project_id x.cache_key c.rows ≡ false
    → store now ttl x c ≡ add_row now (row_of now ttl x) c
unfolding store
store-fresh now ttl x c fresh =
    rw (get_cached-absent now x.project_id x.cache_key c.rows fresh) refl

-- The lookup of a response that has been added.
get_cached-added :
    (now ttl : ℕ) (x : Response) (rows : List CacheRow) (t : ℕ)
    → has_row x.project_id x.cache_key rows ≡ false
    → get_cached t x.project_id x.cache_key (row_of now ttl x ∷ rows)
      ≡ (if ltb t (now + ttl) then some (row_of now ttl x) else none)
unfolding get_cached
get_cached-added now ttl x rows t fresh =
    rw (is_row_self (row_of now ttl x), get_cached-absent t x.project_id x.cache_key rows fresh)
      refl

snapshot_if :
    (b : Bool) (r : CacheRow)
    → snapshot_of (if b then some r else none) ≡ (if b then some (snapshot r) else none)
snapshot_if true r = refl
snapshot_if false r = refl

-- What is left of a fresh response.
abbrev pub added : ℕ → ℕ → Response → Caches → Caches
added now ttl x c = record {
  rows = row_of now ttl x ∷ c.rows;
  snapshots = keep now x.project_id x.cache_key (snapshot (row_of now ttl x)) c.snapshots;
}

stored_caches-added :
    (now ttl : ℕ) (x : Response) (c : Caches)
    → has_row x.project_id x.cache_key c.rows ≡ false
    → stored_caches now ttl x c ≡ added now ttl x c
stored_caches-added now ttl x c fresh =
    ap (λ s. caches_of s c)
      (store-fresh now ttl x c fresh ∙ add_fresh now (row_of now ttl x) c fresh)

-- A response under a key without a row is stored, and is then looked up as it was stored until its time
-- to live is over, and from then on not at all.
pub store-get_cached_snapshot :
    (now ttl : ℕ) (x : Response) (c : Caches) (t : ℕ)
    → IsAgreeing c
    → has_row x.project_id x.cache_key c.rows ≡ false
    → (get_cached_snapshot t x.project_id x.cache_key (stored_caches now ttl x c)).0
      ≡ (if ltb t (now + ttl) then some (snapshot (row_of now ttl x)) else none)
store-get_cached_snapshot now ttl x c t h fresh =
    let left = stored_caches-added now ttl x c fresh in
    let agrees : IsAgreeing (added now ttl x c) =
      subst IsAgreeing (ap (λ s. caches_of s c) (add_fresh now (row_of now ttl x) c fresh))
        (add_row-IsAgreeing now (row_of now ttl x) c h) in
    ap (λ d. (get_cached_snapshot t x.project_id x.cache_key d).0) left
    ∙ (get_cached_snapshot-IsRead t x.project_id x.cache_key (added now ttl x c) agrees).0
    ∙ ap snapshot_of (get_cached-added now ttl x c.rows t fresh)
    ∙ snapshot_if (ltb t (now + ttl)) (row_of now ttl x)

-- A response of the same key.
abbrev pub again : Response → Response → Response
again x y = record y { project_id = x.project_id; cache_key = x.cache_key }

not_twice :
    (t ttl : ℕ) (y : Response) (c : Caches)
    → get_cached t y.project_id y.cache_key c.rows ≡ none
    → has_row y.project_id y.cache_key c.rows ≡ true
    → store t ttl y c ≡ Stored.violates_unique
unfolding store
not_twice t ttl y c lapsed there = rw (lapsed, there) refl

stored-not_violates : (r : CacheRow) (c : Caches) → Stored.stored r c ≢ Stored.violates_unique
stored-not_violates r c h = ground arith

-- When a response has lapsed, another of its key is not stored, since the unique constraint raises; after
-- a purge it is.
pub store_lapsed :
    (now ttl : ℕ) (x y : Response) (c : Caches) (t : ℕ)
    → has_row x.project_id x.cache_key c.rows ≡ false
    → now + ttl ≤ t
    → let c' = stored_caches now ttl x c in
      (store t ttl (again x y) c' ≡ Stored.violates_unique)
      × (store t ttl (again x y) (purge_expired t c') ≢ Stored.violates_unique)
unfolding has_row purge_expired purged_rows
store_lapsed now ttl x y c t fresh late =
    let late_b : ltb t (now + ttl) ≡ false = ground arith in
    let purged_b : leb (now + ttl) t ≡ true = ground arith in
    let lapsed : get_cached t x.project_id x.cache_key (added now ttl x c).rows ≡ none =
      get_cached-added now ttl x c.rows t fresh
      ∙ ap (λ b. if b then some (row_of now ttl x) else none) late_b in
    let there : has_row x.project_id x.cache_key (added now ttl x c).rows ≡ true =
      rw (is_row_self (row_of now ttl x)) refl in
    let purged = purge_expired t (added now ttl x c) in
    let gone : has_row x.project_id x.cache_key purged.rows ≡ false =
      rw purged_b (has_row-purged t x.project_id x.cache_key c.rows fresh) in
    let kept =
      store-fresh t ttl (again x y) purged gone
      ∙ add_fresh t (row_of t ttl (again x y)) purged gone in
    rw (stored_caches-added now ttl x c fresh) (
      not_twice t ttl (again x y) (added now ttl x c) lapsed there,
      λ h. stored-not_violates _ _ (sym kept ∙ h),
    )
