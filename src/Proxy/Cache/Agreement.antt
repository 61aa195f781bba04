-- ===== src/Proxy/Cache/Agreement.antt =====
-- The snapshots of a process answer as its table does.
use varsten.Prelude.{
  ℕ, String, ◌≡◌, refl, sym, ap, ◌∙◌, inl, inr, Bool, true, false, ◌&&◌, Option, none, some, List,
  [], ◌∷◌, arith, eq_iff, ltb, if◌then◌else◌, Bool-cases, All,
}
use varsten.Proxy.Cache.{
  CacheRow, Snapshot, snapshot, is_live, is_row, Kept, Caches, is_kept, find_kept, drop_kept, keep,
  get_cached, snapshot_of, keep_found, read_row, use_kept, get_cached_snapshot, has_row,
}
use mathlib.Core.Path.{subst}

-- The row of a key, live or not.
unfoldable pub find_row : String → String → List CacheRow → Option CacheRow
find_row project key [] = none
find_row project key (r ∷ rs) = if is_row project key r then some r else find_row project key rs

-- The table's unique constraint.
abbrev pub IsUnique : List CacheRow → Type 0
IsUnique [] = Unit
IsUnique (r ∷ rs) = (has_row r.project_id r.cache_key rs ≡ false) × IsUnique rs

abbrev pub IsHeld : List CacheRow → Kept → Type 0
IsHeld rows k = snapshot_of (find_row k.project_id k.cache_key rows) ≡ some k.kept

-- Every snapshot is that of a row of the table.
abbrev pub IsAgreeing : Caches → Type 0
IsAgreeing c = IsUnique c.rows × All (IsHeld c.rows) c.snapshots

abbrev pub live_only : ℕ → Option CacheRow → Option CacheRow
live_only now none = none
live_only now (some r) = if is_live now r.expires_at then some r else none

pub get_cached-absent :
    (now : ℕ) (project key : String) (rows : List CacheRow)
    → has_row project key rows ≡ false
    → get_cached now project key rows ≡ none
unfolding get_cached has_row
get_cached-absent now project key [] h = refl
get_cached-absent now project key (r ∷ rs) h =
    let ih = get_cached-absent now project key rs in ground (arith, ih)

is_row-keys :
    (project key : String) (r : CacheRow)
    → is_row project key r ≡ true
    → (r.project_id ≡ project) × (r.cache_key ≡ key)
is_row-keys project key r h =
    ((eq_iff r.project_id project).0 (ground arith), (eq_iff r.cache_key key).0 (ground arith))

-- With the constraint, the lookup is that of the row, which is then tested.
pub get_cached-find_row :
    (now : ℕ) (project key : String) (rows : List CacheRow)
    → IsUnique rows
    → get_cached now project key rows ≡ live_only now (find_row project key rows)
unfolding get_cached find_row
get_cached-find_row now project key [] u = refl
get_cached-find_row now project key (r ∷ rs) (fresh, u) =
    let ih = get_cached-find_row now project key rs u in
    elim (Bool-cases (is_row project key r)) [
      | inr other ↦ rw (other, ih) refl
      | inl mine ↦
          let (p, k) = is_row-keys project key r mine in
          let absent : has_row project key rs ≡ false =
            subst (λ q. has_row q key rs ≡ false) p
              (subst (λ q. has_row r.project_id q rs ≡ false) k fresh) in
          let gone = get_cached-absent now project key rs absent in rw (mine, gone) refl
    ]

pub drop_kept-All :
    (P : Kept → Type 0) (test : Kept → Bool) (ks : List Kept) → All P ks → All P (drop_kept test ks)
unfolding drop_kept
drop_kept-All P test [] h = tt
drop_kept-All P test (k ∷ ks) (hk, h) = elim (Bool-cases (test k)) [
  | inl e ↦ rw (e, drop_kept) (drop_kept-All P test ks h)
  | inr e ↦ rw (e, drop_kept) (hk, drop_kept-All P test ks h)
]

find_kept-IsHeld :
    (now : ℕ) (project key : String) (rows : List CacheRow) (ks : List Kept) (s : Snapshot)
    → All (IsHeld rows) ks
    → find_kept now project key ks ≡ some s
    → snapshot_of (find_row project key rows) ≡ some s
unfolding find_kept
find_kept-IsHeld now project key rows [] s h found = absurd (ground arith)
find_kept-IsHeld now project key rows (k ∷ ks) s (hk, h) found =
    elim (Bool-cases (is_kept project key k && ltb now k.lapses_at)) [
      | inr miss ↦ find_kept-IsHeld now project key rows ks s h (rw (miss, find_kept) at found)
      | inl hit ↦
          let p : k.project_id ≡ project = (eq_iff k.project_id project).0 (ground arith) in
          let c : k.cache_key ≡ key = (eq_iff k.cache_key key).0 (ground arith) in
          let same : k.kept ≡ s = ground arith in
          subst (λ q. snapshot_of (find_row q key rows) ≡ some s) p
            (subst (λ q. snapshot_of (find_row k.project_id q rows) ≡ some s) c
              (hk ∙ ap (λ x. some x) same))
    ]

keep-IsAgreeing :
    (now : ℕ) (project key : String) (s : Snapshot) (c : Caches)
    → IsAgreeing c
    → snapshot_of (find_row project key c.rows) ≡ some s
    → IsAgreeing (record c { snapshots = keep now project key s c.snapshots })
unfolding keep
keep-IsAgreeing now project key s c (u, held) h =
    (u, (h, drop_kept-All (IsHeld c.rows) (is_kept project key) c.snapshots held))

live_only-some :
    (now : ℕ) (o : Option CacheRow) (r : CacheRow) → live_only now o ≡ some r → o ≡ some r
live_only-some now none r h = absurd (ground arith)
live_only-some now (some q) r h = ground arith

-- What a lookup gives: the snapshot of the table's row, and caches that still agree.
abbrev pub IsRead : ℕ → String → String → Caches → Option Snapshot × Caches → Type 0
IsRead now project key c out =
    (out.0 ≡ snapshot_of (get_cached now project key c.rows))
    × (out.1.rows ≡ c.rows)
    × IsAgreeing out.1

read_row-IsRead :
    (now : ℕ) (project key : String) (c : Caches)
    → IsAgreeing c
    → IsRead now project key c (read_row now project key c)
read_row-IsRead now project key c h = go (get_cached now project key c.rows) refl
  where
    go :
        (o : Option CacheRow)
        → get_cached now project key c.rows ≡ o
        → let out = keep_found o now project key c in
          (out.0 ≡ snapshot_of o) × (out.1.rows ≡ c.rows) × IsAgreeing out.1
    go none e = (refl, refl, h)
    go (some r) e =
        let row =
          live_only-some now (find_row project key c.rows) r
            (sym (get_cached-find_row now project key c.rows h.0) ∙ e) in
        (refl, refl, keep-IsAgreeing now project key (snapshot r) c h (ap snapshot_of row))

served :
    (now : ℕ) (o : Option CacheRow) (s : Snapshot)
    → snapshot_of o ≡ some s
    → is_live now s.expires_at ≡ true
    → snapshot_of (live_only now o) ≡ some s
served now none s h live = absurd (ground arith)
served now (some r) s h live =
    let same : snapshot r ≡ s = ground arith in
    let mine = ap (λ (x : Snapshot). is_live now x.expires_at) same ∙ live in rw mine h

pub get_cached_snapshot-IsRead :
    (now : ℕ) (project key : String) (c : Caches)
    → IsAgreeing c
    → IsRead now project key c (get_cached_snapshot now project key c)
unfolding get_cached_snapshot
get_cached_snapshot-IsRead now project key c h = go (find_kept now project key c.snapshots) refl
  where
    go :
        (o : Option Snapshot)
        → find_kept now project key c.snapshots ≡ o
        → IsRead now project key c (use_kept o now project key c)
    go none e = read_row-IsRead now project key c h
    go (some s) e = elim (Bool-cases (is_live now s.expires_at)) [
      | inl live ↦
          let row =
            served now (find_row project key c.rows) s
              (find_kept-IsHeld now project key c.rows c.snapshots s h.1 e) live in
          let answer = ap snapshot_of (get_cached-find_row now project key c.rows h.0) ∙ row in
          rw live (sym answer, refl, h)
      | inr lapsed ↦
          let c' = record c { snapshots = drop_kept (is_kept project key) c.snapshots } in
          let h' = drop_kept-All (IsHeld c.rows) (is_kept project key) c.snapshots h.1 in
          rw lapsed (read_row-IsRead now project key c' (h.0, h'))
    ]
