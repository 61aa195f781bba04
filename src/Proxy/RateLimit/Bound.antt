-- ===== src/Proxy/RateLimit/Bound.antt =====
-- The in-memory limiter over a whole history of calls.
use varsten.Prelude.{
  ℕ, ◌+◌, ◌-◌, ◌/◌, ◌≤◌, ◌<◌, String, ◌≡◌, refl, inl, inr, false, ◌&&◌, Option, none, some, List,
  [], ◌∷◌, arith, str_eq, eq_iff, ltb, ◌==◌, if◌then◌else◌, Bool-cases,
}
use native.Mathlib.Nat.{le-div_iff_mul-le, mul-div-le}
use varsten.Prelude.Dict.{Dict, lookup, lookup-insert}
use varsten.Proxy.RateLimit.{Window, Limiter, memory, count_call, allow}

-- A call of the limiter: its key and its time.
abbrev pub Call : Type 0
Call = String × ℕ

-- Times do not fall, from `t` on.
abbrev pub IsOrdered : ℕ → List Call → Type 0
IsOrdered t [] = Unit
IsOrdered t ((_, now) ∷ cs) = (t ≤ now) × IsOrdered now cs

-- How many of the calls under `key` in window number `bucket` are let through, from a limiter on.
unfoldable pub admitted : ℕ → ℕ → String → ℕ → List Call → Limiter → ℕ
admitted limit window key bucket [] l = 0
admitted limit window key bucket ((k, now) ∷ cs) l =
    let (ok, l') = allow k limit window now none l in
    admitted limit window key bucket cs l'
    + (if ok && str_eq k key && now / window == bucket then 1 else 0)

div-le-div : (a b w : ℕ) → 0 < w → a ≤ b → a / w ≤ b / w
div-le-div a b w p h =
    (le-div_iff_mul-le {k = w} {x = a / w} {y = b} p).1 (grind (arith, mul-div-le))

-- The calls that window number `bucket` has left under `key` once time has reached window `q`.
abbrev left : ℕ → ℕ → ℕ → Option Window → ℕ
left limit bucket q found = if ltb bucket q then 0 else elim found [
  | none ↦ limit
  | some w ↦ if w.bucket == bucket then limit - w.count else limit
]

-- The window under a key is not one of the future.
abbrev IsPast : ℕ → Option Window → Type 0
IsPast q none = Unit
IsPast q (some w) = w.bucket ≤ q

-- A call under the key itself, on the window found.
own_call-left :
    (limit bucket p q : ℕ) (k : String) (d : Dict Window) (found : Option Window)
    → 0 < limit
    → p ≤ q
    → IsPast p found
    → lookup k d ≡ found
    → let (ok, d') = count_call k limit q found d in
      (left limit bucket q (lookup k d') + (if ok && q == bucket then 1 else 0)
        ≤ left limit bucket p found)
      × IsPast q (lookup k d')
unfolding count_call
own_call-left limit bucket p q k d none pos order past e =
    ground (arith, lookup-insert k k (record { bucket = q; count = 1 }) d, eq_iff k k)
own_call-left limit bucket p q k d (some w) pos order past e = ground (
  arith,
  lookup-insert k k (record { bucket = q; count = 1 }) d,
  lookup-insert k k (record { bucket = w.bucket; count = w.count + 1 }) d,
  eq_iff k k,
)

-- A call under another key changes nothing for this one.
other_call-lookup :
    (limit q : ℕ) (key k : String) (d : Dict Window) (found : Option Window)
    → str_eq k key ≡ false
    → lookup key (count_call k limit q found d).1 ≡ lookup key d
unfolding count_call
other_call-lookup limit q key k d none h =
    ground (arith, lookup-insert k key (record { bucket = q; count = 1 }) d)
other_call-lookup limit q key k d (some w) h = ground (
  arith,
  lookup-insert k key (record { bucket = q; count = 1 }) d,
  lookup-insert k key (record { bucket = w.bucket; count = w.count + 1 }) d,
)

left_later :
    (limit bucket p q : ℕ) (found : Option Window)
    → p ≤ q
    → IsPast p found
    → (left limit bucket q found ≤ left limit bucket p found) × IsPast q found
left_later limit bucket p q none order past = ground arith
left_later limit bucket p q (some w) order past = ground arith

count_call-left :
    (limit bucket p q : ℕ) (key k : String) (d : Dict Window)
    → 0 < limit
    → p ≤ q
    → IsPast p (lookup key d)
    → let (ok, d') = count_call k limit q (lookup k d) d in
      (left limit bucket q (lookup key d') + (if ok && str_eq k key && q == bucket then 1 else 0)
        ≤ left limit bucket p (lookup key d))
      × IsPast q (lookup key d')
count_call-left limit bucket p q key k d pos order past = elim (Bool-cases (str_eq k key)) [
  | inl same ↦
      let e : k ≡ key = (eq_iff k key).0 same in
      let own = own_call-left limit bucket p q key d (lookup key d) pos order past refl in
      rw (same, e) (ground arith)
  | inr other ↦
      let later = left_later limit bucket p q (lookup key d) order past in
      rw (other, other_call-lookup limit q key k d (lookup k d) other) (ground arith)
]

-- With a positive limit and window, a call is the locked branch.
allow-memory :
    (limit window now : ℕ) (k : String) (d : Dict Window)
    → 0 < limit
    → 0 < window
    → let (ok, d') = count_call k limit (now / window) (lookup k d) d in
      allow k limit window now none (memory d) ≡ (ok, memory d')
unfolding allow
allow-memory limit window now k d pos wide = ground arith

admitted-le-left :
    (limit window bucket t : ℕ) (key : String) (cs : List Call) (d : Dict Window)
    → 0 < limit
    → 0 < window
    → IsOrdered t cs
    → IsPast (t / window) (lookup key d)
    → admitted limit window key bucket cs (memory d) ≤ left limit bucket (t / window) (lookup key d)
unfolding admitted
admitted-le-left limit window bucket t key [] d pos wide ordered past = omega arith
admitted-le-left limit window bucket t key ((k, now) ∷ cs) d pos wide (order, ordered) past =
    let here =
      count_call-left limit bucket (t / window) (now / window) key k d pos
        (div-le-div t now window wide order) past in
    let d' = (count_call k limit (now / window) (lookup k d) d).1 in
    let later = admitted-le-left limit window bucket now key cs d' pos wide ordered here.1 in
    rw (allow-memory limit window now k d pos wide) (omega (arith, here.0, later))

-- No history of calls at times that do not fall, under whatever keys, gets more than a positive
-- limit of calls under one key through a new in-memory limiter in one window.
pub admitted-le-limit :
    (limit window bucket t : ℕ) (key : String) (cs : List Call)
    → 0 < limit
    → 0 < window
    → IsOrdered t cs
    → admitted limit window key bucket cs (memory []) ≤ limit
unfolding lookup
admitted-le-limit limit window bucket t key cs pos wide ordered =
    let bound = admitted-le-left limit window bucket t key cs [] pos wide ordered tt in ground arith
