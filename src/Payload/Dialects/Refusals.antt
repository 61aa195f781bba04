-- ===== src/Payload/Dialects/Refusals.antt =====
-- Which calls the adapter of backend/app/proxy/client_dialects.py refuses, and how.
use varsten.Prelude.{
  String, ◌≡◌, refl, ◌≢◌, ◌↔◌, ◌⊎◌, inl, inr, [], arith, str_eq, eq_iff, if◌then◌else◌, Bool-cases,
}
use varsten.Prelude.Dict.{Dict}
use varsten.Payload.Json.{Fields}
use varsten.Payload.Facts.Formats.{HasUnhashableFormat, normalize_request_facts-none}
use varsten.Payload.Wire.{lower_headers, WireMethods, path_only}
use varsten.Payload.Dialects.{
  Attempt, accepted, other_shape, raised, Parsed, unsupported_path, unsupported_method, type_error,
  parse, parse_openai_compatible, parse_anthropic, parse_gemini_native, conclude, ◌or_parse◌,
}
use varsten.Payload.Dialects.Parsers.{IsBadBatch, IsSupported, none-IsSupported, parsers_raised}

all_other :
    (path q : String) (a b c : Attempt)
    → (conclude path (a or_parse b or_parse c) ≡ unsupported_path q)
      ↔ ((a ≡ other_shape) × (b ≡ other_shape) × (c ≡ other_shape) × (q ≡ path))
all_other path q other_shape other_shape other_shape = ground arith
all_other path q other_shape other_shape (accepted r) = ground arith
all_other path q other_shape other_shape raised = ground arith
all_other path q other_shape (accepted r) c = ground arith
all_other path q other_shape raised c = ground arith
all_other path q (accepted r) b c = ground arith
all_other path q raised b c = ground arith

first_raised :
    (path : String) (a b c : Attempt)
    → (conclude path (a or_parse b or_parse c) ≡ type_error) ↔ (
        (a ≡ raised)
        ⊎ ((a ≡ other_shape) × (b ≡ raised))
        ⊎ ((a ≡ other_shape) × (b ≡ other_shape) × (c ≡ raised)))
first_raised path other_shape other_shape other_shape = ground arith
first_raised path other_shape other_shape (accepted r) = ground arith
first_raised path other_shape other_shape raised = ground arith
first_raised path other_shape (accepted r) c = ground arith
first_raised path other_shape raised c = ground arith
first_raised path (accepted r) b c = ground arith
first_raised path raised b c = ground arith

conclude_method : (path m : String) (a : Attempt) → conclude path a ≢ unsupported_method m
conclude_method path m other_shape h = ground arith
conclude_method path m (accepted r) h = ground arith
conclude_method path m raised h = ground arith

-- The test of the method before the parsers.
by_method :
    (m p : String) (inner : Parsed) (S B : Type 0)
    → inner ≢ unsupported_method m
    → (inner ≡ unsupported_path p) ↔ S
    → (inner ≡ type_error) ↔ B
    → let outer = if str_eq m "POST" then inner else unsupported_method m in
      ((outer ≡ unsupported_method m) ↔ (m ≢ "POST"))
      × ((outer ≡ unsupported_path p) ↔ ((m ≡ "POST") × S))
      × ((outer ≡ type_error) ↔ ((m ≡ "POST") × B))
by_method m p inner S B never path_iff error_iff = elim (Bool-cases (str_eq m "POST")) [
  | inl e ↦
      let post = (eq_iff m "POST").0 e in
      rw e (
        (λ h. absurd (never h), λ h. absurd (h post)),
        (λ h. (post, path_iff.0 h), λ h. path_iff.1 h.1),
        (λ h. (post, error_iff.0 h), λ h. error_iff.1 h.1),
      )
  | inr e ↦
      let other : m ≢ "POST" = λ h. let t = (eq_iff m "POST").1 h in cc in
      rw e (
        (λ h q. absurd (other q), λ h. refl),
        (λ h. absurd (ground arith), λ h. absurd (other h.0)),
        (λ h. absurd (ground arith), λ h. absurd (other h.0)),
      )
]

-- A call is refused in three ways only: by its method exactly when that is not POST; else by its path
-- exactly when the cleaned path is none that a dialect has; else by a TypeError exactly when it creates
-- an Anthropic batch whose `requests` cannot be gone through, or when its path is supported and its
-- `response_format` is a dict whose `type` is a list or a dict.
pub parse-refusals :
    (py : WireMethods) (method path : String) (headers : Dict String) (body : Fields)
    → ((parse py method path headers body ≡ unsupported_method (py.upper method))
        ↔ (py.upper method ≢ "POST"))
      × ((parse py method path headers body ≡ unsupported_path (path_only py path))
          ↔ ((py.upper method ≡ "POST") × (IsSupported (path_only py path) → ⊥)))
      × ((parse py method path headers body ≡ type_error) ↔ (
          (py.upper method ≡ "POST")
          × (IsBadBatch (path_only py path) body
              ⊎ (IsSupported (path_only py path) × HasUnhashableFormat body))))
unfolding parse
parse-refusals py method path headers body =
    let m = py.upper method in
    let p = path_only py path in
    let hs = lower_headers py.text [] headers in
    let openai = parse_openai_compatible py m p hs body in
    let anthropic = parse_anthropic py m p hs body in
    let gemini = parse_gemini_native py m p hs body in
    let shapes = none-IsSupported py m p hs body in
    let others = all_other p p openai anthropic gemini in
    let first = first_raised p openai anthropic gemini in
    let parsers = parsers_raised py m p hs body in
    let facts = normalize_request_facts-none py.text body in
    by_method m p _ _ _ (conclude_method p m (openai or_parse anthropic or_parse gemini))
      (
        λ h. let o = others.0 h in shapes.0 (o.0, o.1, o.2),
        λ h. let o = shapes.1 h in others.1 (o.0, o.1, o.2, refl),
      )
      (
        λ h. elim (parsers.0 (first.0 h)) [
          | inl bad ↦ inl bad
          | inr (supported, f) ↦ inr (supported, facts.0 f)
        ],
        λ h. elim h [
          | inl bad ↦ first.1 (parsers.1 (inl bad))
          | inr (supported, f) ↦ first.1 (parsers.1 (inr (supported, facts.1 f)))
        ],
      )
