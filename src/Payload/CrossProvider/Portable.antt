-- ===== src/Payload/CrossProvider/Portable.antt =====
-- When backend/app/proxy/routing_eligibility.py lets a request go to another provider.
use varsten.Prelude.{
  String, ◌≡◌, refl, ◌↔◌, ◌⊎◌, Bool, true, false, not, Option, none, some, arith, str_eq, eq_iff,
  if◌then◌else◌,
}
use mathlib.Core.Path.{subst}
use varsten.Prelude.Dict.{lookup}
use varsten.Payload.Json.{Value, Items, get, has_key, truthy, or_else, loop_items}
use varsten.Payload.Dialects.{ClientDialect, ParsedClientRequest}
use varsten.Engine.Classification.{text_or_empty}
use varsten.Payload.CrossProvider.{
  Answer, RoutingIneligibility, safe, unsafe, type_error, any_item, cross_provider_ineligibility,
  by_dialect, anthropic_ineligibility, gemini_native_ineligibility, openai_ineligibility,
  is_anthropic_server_tool, has_anthropic_server_tool, has_unmapped_parts, has_unmapped_gemini_part,
  openai_server_side_tool, find_key, any_dict, iter_dicts,
}
use varsten.Payload.CrossProvider.OpenAi.{
  OnlyClientTools, EmptyTypeFirst, OnlyTextParts, server_tool_empty, messages_text,
}
use varsten.Payload.CrossProvider.Nested.{HasDict, any_dict-HasDict}

-- Some item of the list passes the test.
abbrev pub AnyItem : (Value → Bool) → Items → Type 0
AnyItem test Items.nil = ⊥
AnyItem test (Items.cons x xs) = (test x ≡ true) ⊎ AnyItem test xs

abbrev pub MessagesPortable : ParsedClientRequest → Type 0
MessagesPortable r =
    (messages : Items) × (loop_items (get "messages" r.body) ≡ some messages)
    × OnlyTextParts messages

-- What a dialect needs in order to be translated.
abbrev pub IsPortable : ClientDialect → ParsedClientRequest → Type 0
IsPortable ClientDialect.anthropic r =
    (HasDict (has_key "cache_control") (Value.object r.body) → ⊥)
    × (text_or_empty (lookup "anthropic-beta" r.headers) ≡ "")
    × ((tools : Items) × (loop_items (get "tools" r.body) ≡ some tools)
        × (AnyItem is_anthropic_server_tool tools → ⊥))
IsPortable ClientDialect.gemini_native r =
    (truthy (get "safetySettings" r.body) ≡ false)
    × (HasDict has_unmapped_parts (or_else (get "contents" r.body) (Value.array Items.nil)) → ⊥)
IsPortable ClientDialect.openai r =
    ((tools : Items) × (loop_items (get "tools" r.body) ≡ some tools)
      × (OnlyClientTools tools ⊎ EmptyTypeFirst tools))
    × MessagesPortable r

false_iff : (b : Bool) (P : Type 0) → (b ≡ true) ↔ P → (b ≡ false) ↔ (P → ⊥)
false_iff true P h = (λ e. absurd (ground arith), λ f. absurd (f (h.0 refl)))
false_iff false P h = (λ e p. let t = h.1 p in cc, λ f. refl)

any_item-AnyItem : (test : Value → Bool) (xs : Items) → (any_item test xs ≡ true) ↔ AnyItem test xs
unfolding any_item
any_item-AnyItem test Items.nil = (λ h. absurd (ground arith), λ h. absurd h)
any_item-AnyItem test (Items.cons x xs) = ground (arith, any_item-AnyItem test xs)

-- A test that refuses, and what follows it.
guarded :
    (b : Bool) (u : RoutingIneligibility) (x : Answer)
    → ((if b then unsafe u else x) ≡ safe) ↔ ((b ≡ false) × (x ≡ safe))
guarded true u x = ground arith
guarded false u x = ground arith

-- A loop that may raise, and what is asked of its items.
after_loop :
    (o : Option Items) (next : Items → Answer) (P : Items → Type 0)
    → ((xs : Items) → (next xs ≡ safe) ↔ P xs)
    → (elim o as (λ x. Answer) [ none ↦ type_error | some xs ↦ next xs ] ≡ safe)
      ↔ ((xs : Items) × (o ≡ some xs) × P xs)
after_loop none next P h = (λ e. absurd (ground arith), λ (xs, e, p). absurd (ground arith))
after_loop (some ys) next P h = (
  λ e. (ys, refl, (h ys).0 e),
  λ (xs, e, p). let same : xs ≡ ys = cc in (h ys).1 (subst P same p),
)

not_empty : (s : String) → (not (str_eq s "") ≡ false) ↔ (s ≡ "")
not_empty s = ground (arith, eq_iff s "")

module _ (r : ParsedClientRequest) where
  tools_safe :
      (tools : Items) (u : RoutingIneligibility)
      → ((if has_anthropic_server_tool tools then unsafe u else safe) ≡ safe)
        ↔ (AnyItem is_anthropic_server_tool tools → ⊥)
  unfolding has_anthropic_server_tool
  tools_safe tools u =
      let g = guarded (any_item is_anthropic_server_tool tools) u safe in
      let n = false_iff _ _ (any_item-AnyItem is_anthropic_server_tool tools) in
      (λ h. n.0 (g.0 h).0, λ h. g.1 (n.1 h, refl))

  anthropic_safe :
      (by_dialect ClientDialect.anthropic r ≡ safe) ↔ IsPortable ClientDialect.anthropic r
  unfolding anthropic_ineligibility find_key
  anthropic_safe =
      let cache = any_dict-HasDict (has_key "cache_control") (Value.object r.body) in
      let first =
        guarded (any_dict (has_key "cache_control") (iter_dicts (Value.object r.body))) _ _ in
      let second =
        guarded (not (str_eq (text_or_empty (lookup "anthropic-beta" r.headers)) "")) _ _ in
      let third = after_loop (loop_items (get "tools" r.body)) _ _ (λ tools. tools_safe tools _) in
      let no_cache = false_iff _ _ cache in
      let no_beta = not_empty (text_or_empty (lookup "anthropic-beta" r.headers)) in
      (
        λ h.
            let (a, x) = first.0 h in
            let (b, y) = second.0 x in (no_cache.0 a, no_beta.0 b, third.0 y),
        λ (a, b, y). first.1 (no_cache.1 a, second.1 (no_beta.1 b, third.1 y)),
      )

  gemini_safe :
      (by_dialect ClientDialect.gemini_native r ≡ safe) ↔ IsPortable ClientDialect.gemini_native r
  unfolding gemini_native_ineligibility has_unmapped_gemini_part
  gemini_safe =
      let contents = or_else (get "contents" r.body) (Value.array Items.nil) in
      let parts = false_iff _ _ (any_dict-HasDict has_unmapped_parts contents) in
      let first = guarded (truthy (get "safetySettings" r.body)) _ _ in
      let second = guarded (any_dict has_unmapped_parts (iter_dicts contents)) _ safe in
      (
        λ h. let (a, x) = first.0 h in (a, parts.0 (second.0 x).0),
        λ h. first.1 (h.0, second.1 (parts.1 h.1, refl)),
      )

  openai_safe : (by_dialect ClientDialect.openai r ≡ safe) ↔ IsPortable ClientDialect.openai r
  unfolding openai_ineligibility
  openai_safe =
      let messages =
        after_loop (loop_items (get "messages" r.body)) _ _ (λ ms. messages_text ms _) in
      let tool = λ (tools : Items). text_or_empty (openai_server_side_tool tools) in
      let first = λ (tools : Items). guarded (not (str_eq (tool tools) "")) _ _ in
      let tools =
        after_loop (loop_items (get "tools" r.body)) _
          (λ ts. (OnlyClientTools ts ⊎ EmptyTypeFirst ts) × MessagesPortable r)
          (λ ts. (
            λ h.
                let (a, x) = (first ts).0 h in
                ((server_tool_empty ts).0 ((not_empty (tool ts)).0 a), messages.0 x),
            λ h.
                (first ts).1
                  ((not_empty (tool ts)).1 ((server_tool_empty ts).1 h.0), messages.1 h.1),
          )) in
      (
        λ h. let (ts, e, (a, m)) = tools.0 h in ((ts, e, a), m),
        λ ((ts, e, a), m). tools.1 (ts, e, (a, m)),
      )

portable : (d : ClientDialect) (r : ParsedClientRequest) → (by_dialect d r ≡ safe) ↔ IsPortable d r
portable ClientDialect.anthropic r = anthropic_safe r
portable ClientDialect.gemini_native r = gemini_safe r
portable ClientDialect.openai r = openai_safe r

-- A request may go to a provider exactly when that is the one it asks for, or: for Anthropic, no dict
-- at any depth of the body has `cache_control`, there is no beta header, and no item of `tools` has a
-- type that runs there; for Gemini, there are no safety settings, and no dict at any depth of
-- `contents` has a list of parts with one that has no counterpart; for OpenAI, every item of `tools`
-- that has a text as its type is a function, or the first that is not has an empty type, and every dict
-- in a list that is the content of an item of `messages` is of type text; and Python can go through
-- what stands under `tools` and under `messages`.
pub cross_provider_ineligibility-IsPortable :
    (r : ParsedClientRequest) (requested candidate : String)
    → (cross_provider_ineligibility r requested candidate ≡ safe)
      ↔ ((requested ≡ candidate) ⊎ IsPortable r.dialect r)
unfolding cross_provider_ineligibility
cross_provider_ineligibility-IsPortable r requested candidate =
    ground (arith, eq_iff requested candidate, portable r.dialect r)
