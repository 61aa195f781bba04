-- ===== src/Billing/Pricing/Latest.antt =====
-- Which price `resolve_price` of backend/app/pricing/service.py gives.
use varsten.Prelude.{
  ℕ, ◌+◌, ◌≤◌, ◌<◌, String, ◌≡◌, refl, ◌⊎◌, inl, inr, Bool, true, false, ◌&&◌, Option, none, some,
  List, [], ◌∷◌, arith, eq_iff, ltb, leb, Bool-cases, Option-cases, All, In,
}
use mathlib.Core.Path.{subst}
use varsten.Billing.Pricing.{
  PriceRow, ResolvedPrice, later_of, latest, overrides, lists_exactly, lists, from_override,
  from_catalog, Prices, override_for, catalog_price_for, read_price, CacheEntry, is_entry, cached,
  store, resolve_price,
}

-- The row is not one that the query selects.
abbrev pub IsOut : (PriceRow → Bool) → ℕ → PriceRow → Type 0
IsOut test at r = (test r ≡ false) ⊎ (at < r.effective_at)

-- No row is selected, or the row is and no other that is selected takes effect later.
abbrev pub IsLatest : (PriceRow → Bool) → ℕ → List PriceRow → Option PriceRow → Type 0
IsLatest test at rows none = All (IsOut test at) rows
IsLatest test at rows (some r) =
    In r rows
    × (test r ≡ true)
    × (r.effective_at ≤ at)
    × All (λ q. IsOut test at q ⊎ (q.effective_at ≤ r.effective_at)) rows

module _ (test : PriceRow → Bool) (at : ℕ) where
  weaken :
      (t u : ℕ) (rows : List PriceRow)
      → t ≤ u
      → All (λ q. IsOut test at q ⊎ (q.effective_at ≤ t)) rows
      → All (λ q. IsOut test at q ⊎ (q.effective_at ≤ u)) rows
  weaken t u [] le h = tt
  weaken t u (q ∷ rows) le h =
      (elim h.0 [ inl out ↦ inl out | inr before ↦ inr (omega arith) ], weaken t u rows le h.1)

  All-IsOut :
      (t : ℕ) (rows : List PriceRow)
      → All (IsOut test at) rows
      → All (λ q. IsOut test at q ⊎ (q.effective_at ≤ t)) rows
  All-IsOut t [] h = tt
  All-IsOut t (q ∷ rows) h = (inl h.0, All-IsOut t rows h.1)

  -- A row before the others, selected or not.
  skip :
      (r : PriceRow) (rows : List PriceRow) (o : Option PriceRow)
      → IsOut test at r
      → IsLatest test at rows o
      → IsLatest test at (r ∷ rows) o
  skip r rows none out h = (out, h)
  skip r rows (some best) out (there, passes, before, rest) =
      (inr there, passes, before, (inl out, rest))

  take_first :
      (r : PriceRow) (rows : List PriceRow) (o : Option PriceRow)
      → test r ≡ true
      → r.effective_at ≤ at
      → IsLatest test at rows o
      → IsLatest test at (r ∷ rows) (some (later_of o r))
  take_first r rows none t e h =
      (inl refl, t, e, (inr (omega arith), All-IsOut r.effective_at rows h))
  take_first r rows (some best) t e (there, passes, before, rest) =
      elim (Bool-cases (ltb r.effective_at best.effective_at)) [
        | inl earlier ↦
            let same : best ≡ later_of (some best) r = rw earlier refl in
            subst (λ x. IsLatest test at (r ∷ rows) (some x)) same
              (inr there, passes, before, (inr (ground arith), rest))
        | inr later ↦
            let same : r ≡ later_of (some best) r = rw later refl in
            subst (λ x. IsLatest test at (r ∷ rows) (some x)) same
              (
                inl refl,
                t,
                e,
                (
                  inr (omega arith),
                  weaken best.effective_at r.effective_at rows (ground arith) rest,
                ),
              )
      ]

  not_selected : (r : PriceRow) → (test r && leb r.effective_at at) ≡ false → IsOut test at r
  not_selected r e = elim (Bool-cases (test r)) [
    | inl passes ↦ inr (ground arith)
    | inr fails ↦ inl fails
  ]

  latest-IsLatest : (rows : List PriceRow) → IsLatest test at rows (latest test at rows)
  unfolding latest
  latest-IsLatest [] = tt
  latest-IsLatest (r ∷ rows) = elim (Bool-cases (test r && leb r.effective_at at)) [
    | inl e ↦
        rw (e, latest)
          (take_first r rows (latest test at rows) (ground arith) (ground arith)
            (latest-IsLatest rows))
    | inr e ↦
        rw (e, latest) (skip r rows (latest test at rows) (not_selected r e) (latest-IsLatest rows))
  ]

-- The price that the database gives: the latest override for the organization, the model and the
-- provider; if there is none, the latest row of the catalog for the model and the provider; if there is
-- none, the latest for the model; none if there is none.
abbrev pub IsResolved : Prices → String → String → String → ℕ → Option ResolvedPrice → Type 0
IsResolved db organization model provider at price =
    ((r : PriceRow) × IsLatest (overrides organization model provider) at db.overrides (some r)
      × (price ≡ some (from_override r)))
    ⊎ (IsLatest (overrides organization model provider) at db.overrides none
        × (((r : PriceRow) × IsLatest (lists_exactly model provider) at db.catalog (some r)
              × (price ≡ some (from_catalog r)))
            ⊎ (IsLatest (lists_exactly model provider) at db.catalog none
                × (((r : PriceRow) × IsLatest (lists model) at db.catalog (some r)
                      × (price ≡ some (from_catalog r)))
                    ⊎ (IsLatest (lists model) at db.catalog none × (price ≡ none))))))

read_price-IsResolved :
    (db : Prices) (organization model provider : String) (at : ℕ)
    → IsResolved db organization model provider at (read_price db organization model provider at)
unfolding read_price override_for catalog_price_for
read_price-IsResolved db organization model provider at =
    let o = latest (overrides organization model provider) at db.overrides in
    let x = latest (lists_exactly model provider) at db.catalog in
    let m = latest (lists model) at db.catalog in
    let is_o = latest-IsLatest (overrides organization model provider) at db.overrides in
    let is_x = latest-IsLatest (lists_exactly model provider) at db.catalog in
    let is_m = latest-IsLatest (lists model) at db.catalog in
    elim (Option-cases o) [
      | inr (r, e) ↦ inl (r, rw e at is_o, rw (e, read_price, override_for) refl)
      | inl e ↦ inr (
        rw e at is_o,
        elim (Option-cases x) [
          | inr (r, e2) ↦
              inl (r, rw e2 at is_x, rw (e, e2, read_price, override_for, catalog_price_for) refl)
          | inl e2 ↦ inr (
            rw e2 at is_x,
            elim (Option-cases m) [
              | inr (r, e3) ↦ inl (
                r,
                rw e3 at is_m,
                rw (e, e2, e3, read_price, override_for, catalog_price_for) refl,
              )
              | inl e3 ↦
                  inr (
                    rw e3 at is_m,
                    rw (e, e2, e3, read_price, override_for, catalog_price_for) refl,
                  )
            ],
          )
        ],
      )
    ]

-- Every entry of the cache holds what the database gave at some time.
abbrev pub IsHonest : Prices → List CacheEntry → Type 0
IsHonest db cache =
    All (λ e. (t : ℕ) × IsResolved db e.organization_id e.model_key e.provider t e.price) cache

cached-IsResolved :
    (db : Prices) (organization model provider : String) (cache : List CacheEntry) (e : CacheEntry)
    → IsHonest db cache
    → cached organization model provider cache ≡ some e
    → (t : ℕ) × IsResolved db organization model provider t e.price
unfolding cached
cached-IsResolved db organization model provider [] e h found = absurd (ground arith)
cached-IsResolved db organization model provider (d ∷ cache) e h found =
    elim (Bool-cases (is_entry organization model provider d)) [
      | inl hit ↦
          let same : d ≡ e = ground arith in
          let o : d.organization_id ≡ organization =
            (eq_iff d.organization_id organization).0 (ground arith) in
          let m : d.model_key ≡ model = (eq_iff d.model_key model).0 (ground arith) in
          let p : d.provider ≡ provider = (eq_iff d.provider provider).0 (ground arith) in
          (
            h.0.0,
            subst (λ (x : CacheEntry). IsResolved db organization model provider h.0.0 x.price) same
                (subst (λ q. IsResolved db organization model q h.0.0 d.price) p
                  (subst (λ q. IsResolved db organization q d.provider h.0.0 d.price) m
                    (subst (λ q. IsResolved db q d.model_key d.provider h.0.0 d.price) o h.0.1))),
          )
      | inr miss ↦
          cached-IsResolved db organization model provider cache e h.1 (rw (miss, cached) at found)
    ]

store-IsHonest :
    (db : Prices) (b : Bool) (e : CacheEntry) (cache : List CacheEntry)
    → (t : ℕ) × IsResolved db e.organization_id e.model_key e.provider t e.price
    → IsHonest db cache
    → IsHonest db (store b e cache)
store-IsHonest db true e cache r h = (r, h)
store-IsHonest db false e cache r h = h

-- As long as every entry of the cache is what the database gave at some time, it stays so, and the
-- price that `resolve_price` returns is what the database gives at some time; for an event that is older
-- than the cache's time to live, it is what the database gives at the event's own.
pub resolve_price-IsResolved :
    (db : Prices) (cache : List CacheEntry) (now : ℕ) (organization model provider : String)
    (at : ℕ)
    → IsHonest db cache
    → let out = resolve_price db cache now organization model provider at in
      IsHonest db out.1
      × ((t : ℕ) × IsResolved db organization model provider t out.0)
      × ((now ≤ at + 3600) ⊎ IsResolved db organization model provider at out.0)
unfolding resolve_price
resolve_price-IsResolved db cache now organization model provider at h =
    let read = read_price-IsResolved db organization model provider at in
    let entry : CacheEntry = record {
      organization_id = organization;
      model_key = model;
      provider = provider;
      price = read_price db organization model provider at;
    } in
    elim (Bool-cases (leb now (at + 3600))) [
      | inl near ↦ elim (Option-cases (cached organization model provider cache)) [
        | inl miss ↦
            rw (near, miss, resolve_price)
              (
                store-IsHonest db (leb now (at + 3600)) entry cache (at, read) h,
                (at, read),
                inl (ground arith),
              )
        | inr (e, found) ↦
            rw (near, found, resolve_price)
              (
                h,
                cached-IsResolved db organization model provider cache e h found,
                inl (ground arith),
              )
      ]
      | inr old ↦
          rw (old, resolve_price)
            (store-IsHonest db (leb now (at + 3600)) entry cache (at, read) h, (at, read), inr read)
    ]
