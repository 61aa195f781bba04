-- ===== src/Payload/Dialects/Shapes.antt =====
-- What the adapter of backend/app/proxy/client_dialects.py accepts, refuses and returns.
use mathlib.Core.Path.{subst}
use varsten.Prelude.{
  String, ◌≡◌, refl, ap, ◌∙◌, ◌⊎◌, inl, inr, Option, none, some, List, [], arith, str_eq, eq_iff,
  Bool-cases,
}
use varsten.Prelude.Dict.{Dict}
use varsten.Payload.Json.{Fields}
use varsten.Payload.Wire.{WireMethods, path_only, lower_headers, model_action}
use varsten.Payload.Facts.{normalize_request_facts}
use varsten.Payload.Dialects.{
  Attempt, accepted, other_shape, raised, ParsedClientRequest, request, parse, only_model, parsed,
  parse_openai_compatible, parse_anthropic, parse_gemini_native, parse_batch, parse_gemini_action,
  single_model_tuple, body_model, anthropic_batch_models, conclude, ◌or_parse◌,
  normalize_gemini_model,
}

-- The single model of the request, if it names exactly one, is its model; a model of the Gemini API
-- may be empty.
abbrev pub HasOwnModel : ParsedClientRequest → Type 0
HasOwnModel r = (r.model ≡ only_model r.models) ⊎ (r.model ≡ some "")

abbrev Accepted : (ParsedClientRequest → Type 0) → Attempt → Type 0
Accepted P other_shape = Unit {0}
Accepted P (accepted r) = P r
Accepted P raised = Unit {0}

module _ (py : WireMethods) (method path : String) (headers : Dict String) (body : Fields) where
  abbrev IsOwn : ParsedClientRequest → Type 0
  IsOwn r =
      (r.method ≡ method)
      × (r.path ≡ path)
      × (r.headers ≡ headers)
      × (r.body ≡ body)
      × (some r.request_facts ≡ normalize_request_facts py.text body)
      × HasOwnModel r

  single_HasOwnModel : (m : Option String) → (m ≡ only_model (single_model_tuple m)) ⊎ (m ≡ some "")
  unfolding single_model_tuple
  single_HasOwnModel none = inl refl
  single_HasOwnModel (some s) = elim (Bool-cases (str_eq s "")) [
    | inl e ↦ inr (ap some ((eq_iff s "").0 e))
    | inr e ↦ inl (rw e refl)
  ]

  openai-IsOwn : Accepted IsOwn (parse_openai_compatible py method path headers body)
  unfolding parse_openai_compatible
  openai-IsOwn = ground (arith, single_HasOwnModel (body_model body))

  batch-IsOwn :
      (models : Option (List String))
      → Accepted IsOwn (parse_batch py method path headers body models)
  unfolding parse_batch parsed
  batch-IsOwn none = tt
  batch-IsOwn (some models) = ground arith

  anthropic-IsOwn : Accepted IsOwn (parse_anthropic py method path headers body)
  unfolding parse_anthropic
  anthropic-IsOwn =
      ground
        (arith, single_HasOwnModel (body_model body), batch-IsOwn (anthropic_batch_models body))

  action-IsOwn :
      (m : Option (String × String))
      → Accepted IsOwn (parse_gemini_action py method path headers body m)
  unfolding parse_gemini_action
  action-IsOwn none = tt
  action-IsOwn (some (matched, action)) =
      ground (arith, single_HasOwnModel (normalize_gemini_model (some matched)))

  gemini-IsOwn : Accepted IsOwn (parse_gemini_native py method path headers body)
  unfolding parse_gemini_native
  gemini-IsOwn = ground (
    arith,
    single_HasOwnModel (normalize_gemini_model (body_model body)),
    action-IsOwn (model_action path),
  )

accepted_request :
    (P : ParsedClientRequest → Type 0) (path : String) (a b c : Attempt) (r : ParsedClientRequest)
    → Accepted P a
    → Accepted P b
    → Accepted P c
    → conclude path (a or_parse b or_parse c) ≡ request r
    → P r
accepted_request P path other_shape other_shape other_shape r p q s h = absurd (ground arith)
accepted_request P path other_shape other_shape (accepted x) r p q s h = subst P (ground arith) s
accepted_request P path other_shape other_shape raised r p q s h = absurd (ground arith)
accepted_request P path other_shape (accepted x) c r p q s h = subst P (ground arith) q
accepted_request P path other_shape raised c r p q s h = absurd (ground arith)
accepted_request P path (accepted x) b c r p q s h = subst P (ground arith) p
accepted_request P path raised b c r p q s h = absurd (ground arith)

-- A request that the adapter returns has the method POST, the cleaned path, the lowered headers, the
-- body and its facts; its model is the only one of its models, or none where they are several or
-- none, or it is empty.
parse-request :
    (py : WireMethods) (method path : String) (headers : Dict String) (body : Fields)
    (r : ParsedClientRequest)
    → parse py method path headers body ≡ request r
    → (r.method ≡ "POST")
      × (r.path ≡ path_only py path)
      × (r.headers ≡ lower_headers py.text [] headers)
      × (r.body ≡ body)
      × (some r.request_facts ≡ normalize_request_facts py.text body)
      × HasOwnModel r
unfolding parse
parse-request py method path headers body r h =
    let m = py.upper method in
    let p = path_only py path in
    let hs = lower_headers py.text [] headers in
    elim (Bool-cases (str_eq m "POST")) [
      | inl post ↦
          let own =
            accepted_request (IsOwn py m p hs body) p _ _ _ r (openai-IsOwn py m p hs body)
              (anthropic-IsOwn py m p hs body) (gemini-IsOwn py m p hs body) (rw post at h) in
          (own.0 ∙ (eq_iff m "POST").0 post, own.1, own.2, own.3, own.4, own.5)
      | inr other ↦ absurd (let h' = rw other at h in ground arith)
    ]
