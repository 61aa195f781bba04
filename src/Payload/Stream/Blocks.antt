-- ===== src/Payload/Stream/Blocks.antt =====
-- The blocks of the tools.
use varsten.Prelude.{
  ℕ, ◌+◌, ◌≤◌, ◌≡◌, refl, ap, inl, inr, true, false, none, some, List, [], ◌∷◌, arith, ltb, ◌==◌,
  if◌then◌else◌, Bool-cases,
}
use varsten.Payload.Stream.{Event, find}
use varsten.Payload.Stream.Finish.{insert_sorted, sorted_blocks, stops}
use varsten.Payload.Stream.Protocol.{Stage, View, count, remove, take, accept, blocks_of}

abbrev pub keys_of : List (ℕ × ℕ) → List ℕ
keys_of [] = []
keys_of ((k, i) ∷ d) = k ∷ keys_of d

-- No tool has two blocks.
abbrev pub IsDistinct : List (ℕ × ℕ) → Type 0
IsDistinct [] = Unit
IsDistinct ((k, i) ∷ d) = (find k d ≡ none) × IsDistinct d

pub find-In : (k i : ℕ) (d : List (ℕ × ℕ)) → find k d ≡ some i → 1 ≤ count i (blocks_of d)
unfolding find
find-In k i [] h = absurd (ground arith)
find-In k i ((j, b) ∷ d) h = elim (Bool-cases (j == k)) [
  | inl e ↦ ground arith
  | inr e ↦ let ih = find-In k i d (ground arith) in omega (arith, ih)
]

-- A block that no open tool has changes nothing.
sorted_blocks-fresh :
    (k i : ℕ) (d es : List (ℕ × ℕ))
    → find k es ≡ none
    → sorted_blocks ((k, i) ∷ d) (keys_of es) ≡ sorted_blocks d (keys_of es)
unfolding sorted_blocks find
sorted_blocks-fresh k i d [] h = refl
sorted_blocks-fresh k i d ((j, b) ∷ es) h =
    let ih = sorted_blocks-fresh k i d es (ground arith) in
    let other : (k == j) ≡ false = ground arith in rw (other, ih) refl

count-insert_sorted : (i x : ℕ) (ys : List ℕ) → count i (insert_sorted x ys) ≡ count i (x ∷ ys)
unfolding insert_sorted
count-insert_sorted i x [] = refl
count-insert_sorted i x (y ∷ ys) = let ih = count-insert_sorted i x ys in ground (arith, ih)

-- Every block is closed exactly once.
pub count-sorted_blocks :
    (i : ℕ) (d : List (ℕ × ℕ))
    → IsDistinct d
    → count i (sorted_blocks d (keys_of d)) ≡ count i (blocks_of d)
unfolding sorted_blocks find
count-sorted_blocks i [] h = refl
count-sorted_blocks i ((k, b) ∷ d) (fresh, rest) =
    let mine : (k == k) ≡ true = ground arith in
    let same = count-sorted_blocks i d rest in
    rw
      (
        mine,
        sorted_blocks-fresh k b d d fresh,
        count-insert_sorted i b (sorted_blocks d (keys_of d)),
        same,
      )
      refl

count-remove :
    (i y : ℕ) (xs : List ℕ)
    → 1 ≤ count y xs
    → count i (remove y xs) + (if i == y then 1 else 0) ≡ count i xs
unfolding remove
count-remove i y [] h = absurd (ground arith)
count-remove i y (x ∷ xs) h = elim (Bool-cases (y == x)) [
  | inl e ↦ ground arith
  | inr e ↦ let ih = count-remove i y xs (ground arith) in ground (arith, ih)
]

none_left : (xs : List ℕ) → ((i : ℕ) → count i xs ≡ 0) → xs ≡ []
none_left [] h = refl
none_left (x ∷ xs) h = absurd (ground (arith, h x))

pub ltb-true : {n : ℕ} → 1 ≤ n → ltb 0 n ≡ true
ltb-true h = ground arith

abbrev pub between : ℕ → List ℕ → View
between n tools = record { stage = Stage.running; next = n; text = none; tools = tools }

-- The client takes the stops of exactly the open blocks, in any order.
pub accept-stops :
    (n : ℕ) (xs ys : List ℕ)
    → ((i : ℕ) → count i xs ≡ count i ys)
    → accept (stops ys) (between n xs) ≡ some (between n [])
unfolding accept stops
accept-stops n xs [] h = ap (λ zs. some (between n zs)) (none_left xs h)
accept-stops n xs (y ∷ ys) h =
    let one : 1 ≤ count y xs = ground (arith, h y) in
    let taken : take Stage.running (Event.block_stop y) (between n xs)
        ≡ some (between n (remove y xs)) =
      rw (ltb-true one) refl in
    rw (taken, accept)
      (accept-stops n (remove y xs) ys
        (λ i. let hi = h i in let ri = count-remove i y xs one in omega (arith, hi, ri)))
