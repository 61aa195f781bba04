-- ===== src/Payload/Trim/Stable.antt =====
-- Trimming messages a second time changes nothing.
use varsten.Prelude.{
  ℕ, zero, suc, ◌+◌, ◌-◌, ◌≤◌, ◌<◌, ◌≡◌, refl, sym, ap, ◌∙◌, inl, inr, Bool, true, false, ◌&&◌,
  List, [], ◌∷◌, arith, ltb, Bool-cases, length, All,
}
use mathlib.Core.List.{◌++◌, append_assoc}
use varsten.Prelude.Int.{ℤ, pos, negsuc}
use varsten.Payload.Json.{Fields, get}
use varsten.Payload.Trim.{
  Key, is_system, system_of, turns_of, drop, window, round, emit, trimmed, rewritten, text_of,
  appended,
}
use varsten.Payload.Trim.Rounds.{emit_idem, content_cases, round-text, rewritten-role}

-- Messages that are all of the system, or all not.
abbrev pub AllOf : Bool → List Fields → Type 0
AllOf b ms = All (λ m. is_system m ≡ b) ms

system_of-AllOf : (ms : List Fields) → AllOf true (system_of ms)
unfolding system_of
system_of-AllOf [] = tt
system_of-AllOf (m ∷ ms) = elim (Bool-cases (is_system m)) [
  | inl e ↦ rw (e, system_of) (e, system_of-AllOf ms)
  | inr e ↦ rw (e, system_of) (system_of-AllOf ms)
]

turns_of-AllOf : (ms : List Fields) → AllOf false (turns_of ms)
unfolding turns_of
turns_of-AllOf [] = tt
turns_of-AllOf (m ∷ ms) = elim (Bool-cases (is_system m)) [
  | inl e ↦ rw (e, turns_of) (turns_of-AllOf ms)
  | inr e ↦ rw (e, turns_of) (e, turns_of-AllOf ms)
]

drop-AllOf : (b : Bool) (n : ℕ) (ms : List Fields) → AllOf b ms → AllOf b (drop n ms)
unfolding drop
drop-AllOf b zero ms h = h
drop-AllOf b (suc n) [] h = tt
drop-AllOf b (suc n) (m ∷ ms) h = drop-AllOf b n ms h.1

window-AllOf : (b : Bool) (k : ℤ) (ms : List Fields) → AllOf b ms → AllOf b (window k ms)
unfolding window
window-AllOf b (negsuc k) ms h = h
window-AllOf b (pos k) ms h = elim (Bool-cases (ltb 0 k && ltb k (length ms))) [
  | inl e ↦ rw (e, window) (drop-AllOf b (length ms - k) ms h)
  | inr e ↦ rw (e, window) h
]

-- The two kinds, one after the other, are told apart again.
split_system :
    (xs ys : List Fields)
    → AllOf true xs
    → AllOf false ys
    → (system_of (xs ++ ys) ≡ xs) × (turns_of (xs ++ ys) ≡ ys)
unfolding system_of turns_of
split_system [] [] h k = (refl, refl)
split_system [] (y ∷ ys) h k =
    let rest = split_system [] ys tt k.1 in (rw (k.0, rest.0) refl, rw (k.0, rest.1) refl)
split_system (x ∷ xs) ys h k =
    let rest = split_system xs ys h.1 k in (rw (h.0, rest.0) refl, rw (h.0, rest.1) refl)

length-drop : (n : ℕ) (ms : List Fields) → length (drop n ms) ≡ length ms - n
unfolding drop
length-drop zero ms = omega arith
length-drop (suc n) [] = omega arith
length-drop (suc n) (m ∷ ms) = omega (arith, length-drop n ms)

-- The window is not longer than `keep_last`, where that is positive.
pub window-length : (k : ℕ) (ms : List Fields) → 0 < k → length (window (pos k) ms) ≤ k
unfolding window
window-length k ms h = elim (Bool-cases (ltb 0 k && ltb k (length ms))) [
  | inl e ↦ rw (e, window) (omega (arith, length-drop (length ms - k) ms))
  | inr e ↦ rw (e, window) (ground arith)
]

-- A list that is no longer than a window is its own window.
window_short : (k : ℤ) (xs ys : List Fields) → length ys ≤ length (window k xs) → window k ys ≡ ys
unfolding window
window_short (negsuc k) xs ys h = refl
window_short (pos zero) xs ys h = refl
window_short (pos (suc k)) xs ys h =
    let short : length ys ≤ suc k = omega (arith, h, window-length (suc k) xs) in
    elim (Bool-cases (ltb 0 (suc k) && ltb (suc k) (length ys))) [
      | inl e ↦ absurd (ground arith)
      | inr e ↦ rw (e, window) refl
    ]

module _ (dedupe collapse : Bool) where
  appended-AllOf :
      (b known : Bool) (seen : List Key) (key : Key) (m : Fields)
      → is_system m ≡ b
      → AllOf b (appended dedupe known seen key m).0
        × (length (appended dedupe known seen key m).0 ≤ 1)
  appended-AllOf b known seen key m h = elim (Bool-cases dedupe) [
    | inl d ↦ elim (Bool-cases known) [
      | inl k ↦ rw (d, k) (tt, omega arith)
      | inr k ↦ rw (d, k) ((h, tt), omega arith)
    ]
    | inr d ↦ rw d ((h, tt), omega arith)
  ]

  -- A round writes at most one message, of the kind of the one that it reads.
  round-AllOf :
      (b : Bool) (seen : List Key) (m : Fields)
      → is_system m ≡ b
      → AllOf b (round dedupe collapse seen m).0 × (length (round dedupe collapse seen m).0 ≤ 1)
  round-AllOf b seen m h = elim (content_cases dedupe collapse seen m (get "content" m) refl) [
    | inl (s, e) ↦ rw (round-text dedupe collapse seen m s e) (
        appended-AllOf b _ seen _ (rewritten m s (text_of collapse s))
          (rw (rewritten-role m s (text_of collapse s) e) h))
    | inr other ↦ rw other ((h, tt), omega arith)
  ]

  append-AllOf : (b : Bool) (xs ys : List Fields) → AllOf b xs → AllOf b ys → AllOf b (xs ++ ys)
  append-AllOf b [] ys h k = k
  append-AllOf b (x ∷ xs) ys h k = (h.0, append-AllOf b xs ys h.1 k)

  length-append : (xs ys : List Fields) → length (xs ++ ys) ≡ length xs + length ys
  length-append [] ys = omega arith
  length-append (x ∷ xs) ys = omega (arith, length-append xs ys)

  emit-AllOf :
      (b : Bool) (seen : List Key) (ms : List Fields)
      → AllOf b ms
      → AllOf b (emit dedupe collapse seen ms) × (length (emit dedupe collapse seen ms) ≤ length ms)
  unfolding emit
  emit-AllOf b seen [] h = (tt, omega arith)
  emit-AllOf b seen (m ∷ ms) h =
      let out = round dedupe collapse seen m in
      let one = round-AllOf b seen m h.0 in
      let rest = emit-AllOf b out.1 ms h.1 in
      (
        append-AllOf b out.0 (emit dedupe collapse out.1 ms) one.0 rest.0,
        omega (arith, length-append out.0 (emit dedupe collapse out.1 ms), one.1, rest.1),
      )

  keys_after : List Key → List Fields → List Key
  keys_after seen [] = seen
  keys_after seen (m ∷ ms) = keys_after (round dedupe collapse seen m).1 ms

  emit-append :
      (seen : List Key) (xs ys : List Fields)
      → emit dedupe collapse seen (xs ++ ys)
        ≡ emit dedupe collapse seen xs ++ emit dedupe collapse (keys_after seen xs) ys
  unfolding emit keys_after
  emit-append seen [] ys = refl
  emit-append seen (m ∷ xs) ys =
      let out = round dedupe collapse seen m in
      rw (emit-append out.1 xs ys) (sym (append_assoc out.0 _ _))

-- Trimmed messages are those of the system, then at most `keep_last` others where that is positive.
pub trimmed_parts :
    (k : ℤ) (dedupe collapse : Bool) (ms : List Fields)
    → (systems : List Fields) × (turns : List Fields) × (trimmed k dedupe collapse ms
        ≡ systems ++ turns)
      × AllOf true systems
      × AllOf false turns
      × (window k turns ≡ turns)
unfolding trimmed
trimmed_parts k dedupe collapse ms =
    let xs = system_of ms in
    let ys = window k (turns_of ms) in
    let keys = keys_after dedupe collapse [] xs in
    let first = emit-AllOf dedupe collapse true [] xs (system_of-AllOf ms) in
    let second =
      emit-AllOf dedupe collapse false keys ys (window-AllOf false k _ (turns_of-AllOf ms)) in
    (
      emit dedupe collapse [] xs,
      emit dedupe collapse keys ys,
      emit-append dedupe collapse [] xs ys,
      first.0,
      second.0,
      window_short k (turns_of ms) (emit dedupe collapse keys ys) second.1,
    )

reassembled :
    (k : ℤ) (dedupe collapse : Bool) (ms : List Fields)
    → let out = trimmed k dedupe collapse ms in system_of out ++ window k (turns_of out) ≡ out
reassembled k dedupe collapse ms =
    let (systems, turns, e, s, t, w) = trimmed_parts k dedupe collapse ms in
    let parts = split_system systems turns s t in rw (e, parts.0, parts.1, w) refl

-- Trimming messages that are trimmed already changes nothing.
pub trimmed_idem :
    (k : ℤ) (dedupe collapse : Bool) (ms : List Fields)
    → trimmed k dedupe collapse (trimmed k dedupe collapse ms) ≡ trimmed k dedupe collapse ms
unfolding trimmed
trimmed_idem k dedupe collapse ms =
    let out = trimmed k dedupe collapse ms in
    ap (emit dedupe collapse []) (reassembled k dedupe collapse ms)
    ∙ emit_idem dedupe collapse [] (system_of ms ++ window k (turns_of ms))
