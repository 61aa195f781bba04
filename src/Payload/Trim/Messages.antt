-- ===== src/Payload/Trim/Messages.antt =====
-- What `trim_messages` and `apply_trim` of backend/app/proxy/trim.py promise for a whole request.
use varsten.Prelude.{
  ℕ, suc, ◌≤◌, String, ◌≡◌, refl, sym, ap, ◌∙◌, Bool, true, false, not, Option, List, [], ◌∷◌,
  arith, length,
}
use mathlib.Core.Path.{subst}
use mathlib.Core.List.{◌++◌}
use varsten.Prelude.Int.{ℤ, pos}
use varsten.Payload.Json.{Value, Fields, truthy}
use varsten.Payload.Predicate.{Result, ok, type_error, value_error, overflow_error, int_of}
use varsten.Payload.Trim.{get_or, window, trimmed, with_keep, trim_messages, eq_messages}
use varsten.Payload.Trim.Stable.{AllOf, trimmed_parts, trimmed_idem, window-length}

module _ (int_of_text : String → Option ℤ) (params : Fields) where
  abbrev dedupe_of : Bool
  dedupe_of = truthy (get_or "dedupe" (Value.bool true) params)

  abbrev collapse_of : Bool
  collapse_of = truthy (get_or "collapse_whitespace" (Value.bool true) params)

  abbrev keep_of : Result ℤ
  keep_of = int_of int_of_text (get_or "keep_last_turns" (Value.int (pos 12)) params)

  with_keep_cases :
      (r : Result ℤ) (d c : Bool) (ms out : List Fields) (changed : Bool)
      → with_keep r d c ms ≡ ok (out, changed)
      → (k : ℤ) × (r ≡ ok k) × (trimmed k d c ms ≡ out)
  with_keep_cases (ok k) d c ms out changed h = (k, refl, ground arith)
  with_keep_cases type_error d c ms out changed h = absurd (ground arith)
  with_keep_cases value_error d c ms out changed h = absurd (ground arith)
  with_keep_cases overflow_error d c ms out changed h = absurd (ground arith)

  -- Whenever messages are trimmed, trimming the result again gives the same messages.
  pub trim_messages_idem :
      (ms out : List Fields) (changed : Bool)
      → trim_messages int_of_text ms params ≡ ok (out, changed)
      → (again : Bool) × (trim_messages int_of_text out params ≡ ok (out, again))
  unfolding trim_messages
  trim_messages_idem [] out changed h =
      let none_left : [] ≡ out = ground arith in
      (false, subst (λ o. trim_messages int_of_text o params ≡ ok (o, false)) none_left refl)
  trim_messages_idem (m ∷ ms) [] changed h = (false, refl)
  trim_messages_idem (m ∷ ms) (n ∷ ns) changed h =
      let (k, e, t) = with_keep_cases keep_of dedupe_of collapse_of (m ∷ ms) (n ∷ ns) changed h in
      let same : trimmed k dedupe_of collapse_of (n ∷ ns) ≡ n ∷ ns =
        subst (λ out. trimmed k dedupe_of collapse_of out ≡ out) t
          (trimmed_idem k dedupe_of collapse_of (m ∷ ms)) in
      (not (eq_messages (n ∷ ns) (n ∷ ns)), rw (e, same) refl)

  -- Trimmed messages are messages of the system and then at most as many others as the parameter
  -- `keep_last_turns` says, where that is positive.
  trim_messages_window :
      (ms out : List Fields) (changed : Bool) (k : ℕ)
      → trim_messages int_of_text ms params ≡ ok (out, changed)
      → get_or "keep_last_turns" (Value.int (pos 12)) params ≡ Value.int (pos (suc k))
      → (systems : List Fields) × (turns : List Fields) × (out ≡ systems ++ turns)
        × AllOf true systems
        × AllOf false turns
        × (length turns ≤ suc k)
  unfolding trim_messages
  trim_messages_window [] out changed k h p =
      let none_left : out ≡ [] = ground arith in ([], [], none_left, tt, tt, omega arith)
  trim_messages_window (m ∷ ms) out changed k h p =
      let (k', e, t) = with_keep_cases keep_of dedupe_of collapse_of (m ∷ ms) out changed h in
      let (systems, turns, parts, s, u, w) = trimmed_parts k' dedupe_of collapse_of (m ∷ ms) in
      let known : keep_of ≡ ok (pos (suc k)) = rw p (unfold int_of in refl) in
      let same : k' ≡ pos (suc k) = cc in
      let short : window (pos (suc k)) turns ≡ turns = subst (λ j. window j turns ≡ turns) same w in
      (
        systems,
        turns,
        sym t ∙ parts,
        s,
        u,
        omega (arith, ap (length {A = Fields}) short, window-length (suc k) turns),
      )
