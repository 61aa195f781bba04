-- ===== src/Payload/Dialects/Parsers.antt =====
-- When each parser of backend/app/proxy/client_dialects.py passes a call on.
use varsten.Prelude.{
  String, ◌≡◌, refl, ◌≢◌, ◌↔◌, ◌⊎◌, inl, inr, Bool, ◌||◌, Option, none, some, List, [], ◌∷◌, arith,
  str_eq, eq_iff, Bool-cases, Option-cases, In,
}
use varsten.Prelude.Dict.{Dict}
use varsten.Payload.Json.{Fields, get, truthy}
use varsten.Payload.Wire.{WireMethods, model_action, gemini_operation}
use varsten.Payload.Facts.{normalize_request_facts}
use varsten.Payload.Dialects.{
  ClientDialect, other_shape, raised, parsed, parse_openai_compatible, parse_anthropic,
  parse_gemini_native, parse_batch, parse_gemini_action, anthropic_batch_models, only_model,
}

abbrev pub openai_paths : List String
openai_paths =
    "/v1/chat/completions" ∷ "/v1beta/openai/chat/completions" ∷ "/v1/openai/chat/completions" ∷ []

abbrev pub anthropic_paths : List String
anthropic_paths = "/v1/messages" ∷ "/v1/messages/count_tokens" ∷ "/v1/messages/batches" ∷ []

abbrev pub gemini_batch_paths : List String
gemini_batch_paths = "/v1beta/batches" ∷ "/v1/batches" ∷ []

-- The path has the form of a call of a Gemini model, with an action that the adapter knows.
abbrev pub IsModelAction : String → Type 0
IsModelAction path =
    (model : String) × (action : String) × (operation : String) × (model_action path
      ≡ some (model, action))
    × (gemini_operation action ≡ some operation)

abbrev pub IsSupported : String → Type 0
IsSupported path =
    In path openai_paths ⊎ In path anthropic_paths ⊎ In path gemini_batch_paths ⊎ IsModelAction path

-- An Anthropic batch whose `requests` Python cannot go through.
abbrev pub IsBadBatch : String → Fields → Type 0
IsBadBatch path body = (path ≡ "/v1/messages/batches") × (anthropic_batch_models body ≡ none)

module _ (py : WireMethods) (method path : String) (headers : Dict String) (body : Fields) where
  -- The facts of the body raise a TypeError.
  abbrev NoFacts : Type 0
  NoFacts = normalize_request_facts py.text body ≡ none

  parsed_other :
      (d : ClientDialect) (op : String) (m : Option String) (ms : List String) (b : Bool)
      → (parsed py method path headers body d op m ms b ≢ other_shape)
        × ((parsed py method path headers body d op m ms b ≡ raised) ↔ NoFacts)
  unfolding parsed
  parsed_other d op m ms b = ground arith

  openai_other :
      (parse_openai_compatible py method path headers body ≡ other_shape)
      ↔ (In path openai_paths → ⊥)
  unfolding parse_openai_compatible
  openai_other = ground (
    arith,
    eq_iff path "/v1/chat/completions",
    eq_iff path "/v1beta/openai/chat/completions",
    eq_iff path "/v1/openai/chat/completions",
  )

  openai_other_or_raised :
      NoFacts
      → (parse_openai_compatible py method path headers body ≡ other_shape)
        ⊎ (parse_openai_compatible py method path headers body ≡ raised)
  unfolding parse_openai_compatible parsed
  openai_other_or_raised h = ground arith

  openai_raised :
      parse_openai_compatible py method path headers body ≡ raised → In path openai_paths × NoFacts
  unfolding parse_openai_compatible parsed
  openai_raised h = ground (
    arith,
    eq_iff path "/v1/chat/completions",
    eq_iff path "/v1beta/openai/chat/completions",
    eq_iff path "/v1/openai/chat/completions",
  )

  batch_other :
      (models : Option (List String))
      → (parse_batch py method path headers body models ≢ other_shape)
        × ((parse_batch py method path headers body models ≡ raised) ↔ ((models ≡ none) ⊎ NoFacts))
  unfolding parse_batch
  batch_other none = (λ h. absurd (ground arith), (λ h. inl refl, λ h. refl))
  batch_other (some models) =
      let p =
        parsed_other ClientDialect.anthropic "message_batch_create" (only_model models) models
          (truthy (get "stream" body)) in
      ground arith

  anthropic_other :
      (parse_anthropic py method path headers body ≡ other_shape) ↔ (In path anthropic_paths → ⊥)
  unfolding parse_anthropic
  anthropic_other = ground (
    arith,
    eq_iff path "/v1/messages",
    eq_iff path "/v1/messages/count_tokens",
    eq_iff path "/v1/messages/batches",
    (batch_other (anthropic_batch_models body)).0,
  )

  anthropic_other_or_raised :
      NoFacts
      → (parse_anthropic py method path headers body ≡ other_shape)
        ⊎ (parse_anthropic py method path headers body ≡ raised)
  unfolding parse_anthropic parsed
  anthropic_other_or_raised h = ground (arith, (batch_other (anthropic_batch_models body)).1)

  anthropic_raised :
      parse_anthropic py method path headers body ≡ raised
      → IsBadBatch path body ⊎ (In path anthropic_paths × NoFacts)
  unfolding parse_anthropic parsed
  anthropic_raised h = ground (
    arith,
    eq_iff path "/v1/messages",
    eq_iff path "/v1/messages/count_tokens",
    eq_iff path "/v1/messages/batches",
    (batch_other (anthropic_batch_models body)).1,
  )

  bad_batch-raised : IsBadBatch path body → parse_anthropic py method path headers body ≡ raised
  unfolding parse_anthropic
  bad_batch-raised h = ground (
    arith,
    eq_iff path "/v1/messages",
    eq_iff path "/v1/messages/count_tokens",
    eq_iff path "/v1/messages/batches",
    eq_iff "/v1/messages" "/v1/messages/batches",
    eq_iff "/v1/messages/count_tokens" "/v1/messages/batches",
    (batch_other (anthropic_batch_models body)).1,
  )

  -- The path does not name an action of the table.
  abbrev NoAction : Option (String × String) → Type 0
  NoAction m =
      (model action operation : String)
      → m ≡ some (model, action)
      → gemini_operation action ≢ some operation

  action_other :
      (m : Option (String × String))
      → (parse_gemini_action py method path headers body m ≡ other_shape) ↔ NoAction m
  unfolding parse_gemini_action
  action_other none = (λ h model action operation e. absurd (ground arith), λ h. refl)
  action_other (some (model, action)) = elim (Option-cases (gemini_operation action)) [
    | inl e ↦ (
      λ h x a o same known.
          let e' : gemini_operation a ≡ none = ground arith in absurd (ground arith),
      λ h. rw (e, parse_gemini_action) refl,
    )
    | inr (operation, e) ↦ (
      λ h. absurd (let h' = rw (e, parse_gemini_action) at h in ground arith),
      λ h. absurd (h model action operation refl e),
    )
  ]

  -- The path names an action of the table.
  abbrev HasAction : Option (String × String) → Type 0
  HasAction m =
      (model : String) × (action : String) × (operation : String) × (m ≡ some (model, action))
      × (gemini_operation action ≡ some operation)

  action_other_or_raised :
      (m : Option (String × String))
      → NoFacts
      → (parse_gemini_action py method path headers body m ≡ other_shape)
        ⊎ (parse_gemini_action py method path headers body m ≡ raised)
  unfolding parse_gemini_action parsed
  action_other_or_raised none h = inl refl
  action_other_or_raised (some (model, action)) h = ground arith

  action_raised :
      (m : Option (String × String))
      → parse_gemini_action py method path headers body m ≡ raised
      → HasAction m × NoFacts
  unfolding parse_gemini_action parsed
  action_raised none h = absurd (ground arith)
  action_raised (some (model, action)) h = elim (Option-cases (gemini_operation action)) [
    | inl e ↦ absurd (ground arith)
    | inr (operation, e) ↦ ((model, action, operation, refl, e), ground arith)
  ]

  gemini_other :
      (parse_gemini_native py method path headers body ≡ other_shape)
      ↔ ((In path gemini_batch_paths → ⊥) × NoAction (model_action path))
  unfolding parse_gemini_native
  gemini_other = ground (
    arith,
    eq_iff path "/v1beta/batches",
    eq_iff path "/v1/batches",
    action_other (model_action path),
  )

  gemini_other_or_raised :
      NoFacts
      → (parse_gemini_native py method path headers body ≡ other_shape)
        ⊎ (parse_gemini_native py method path headers body ≡ raised)
  unfolding parse_gemini_native parsed
  gemini_other_or_raised h = ground (arith, action_other_or_raised (model_action path) h)

  gemini_raised :
      parse_gemini_native py method path headers body ≡ raised
      → (In path gemini_batch_paths ⊎ IsModelAction path) × NoFacts
  unfolding parse_gemini_native parsed
  gemini_raised h = elim (Bool-cases (str_eq path "/v1beta/batches" || str_eq path "/v1/batches")) [
    | inl e ↦ ground (arith, eq_iff path "/v1beta/batches", eq_iff path "/v1/batches")
    | inr e ↦
        let (action, facts) = action_raised (model_action path) (rw e at h) in (inr action, facts)
  ]

  -- No parser takes a call exactly when its path is not supported.
  pub none-IsSupported :
      ((parse_openai_compatible py method path headers body ≡ other_shape)
        × (parse_anthropic py method path headers body ≡ other_shape)
        × (parse_gemini_native py method path headers body ≡ other_shape))
      ↔ (IsSupported path → ⊥)
  none-IsSupported = (
    λ h s. elim s [
      | inl x ↦ openai_other.0 h.0 x
      | inr (inl x) ↦ anthropic_other.0 h.1 x
      | inr (inr (inl x)) ↦ (gemini_other.0 h.2).0 x
      | inr (inr (inr x)) ↦ (gemini_other.0 h.2).1 x.0 x.1 x.2 x.3 x.4
    ],
    λ h. (
      openai_other.1 (λ x. h (inl x)),
      anthropic_other.1 (λ x. h (inr (inl x))),
      gemini_other.1 (λ x. h (inr (inr (inl x))), λ m a o e k. h (inr (inr (inr (m, a, o, e, k))))),
    ),
  )

  batch_path :
      path ≡ "/v1/messages/batches"
      → parse_openai_compatible py method path headers body ≡ other_shape
  batch_path e = openai_other.1 (λ x. ground (
    arith,
    eq_iff path "/v1/chat/completions",
    eq_iff "/v1/messages/batches" "/v1/chat/completions",
    eq_iff "/v1/messages/batches" "/v1beta/openai/chat/completions",
    eq_iff "/v1/messages/batches" "/v1/openai/chat/completions",
  ))

  -- A parser that is reached raises, exactly for a bad batch or for a supported path whose body has no
  -- facts.
  pub parsers_raised :
      ((parse_openai_compatible py method path headers body ≡ raised)
        ⊎ ((parse_openai_compatible py method path headers body ≡ other_shape)
            × (parse_anthropic py method path headers body ≡ raised))
        ⊎ ((parse_openai_compatible py method path headers body ≡ other_shape)
            × (parse_anthropic py method path headers body ≡ other_shape)
            × (parse_gemini_native py method path headers body ≡ raised)))
      ↔ (IsBadBatch path body ⊎ (IsSupported path × NoFacts))
  parsers_raised = (
    λ h. elim h [
      | inl x ↦ let (p, f) = openai_raised x in inr (inl p, f)
      | inr (inl (a, x)) ↦ elim (anthropic_raised x) [
        | inl bad ↦ inl bad
        | inr (p, f) ↦ inr (inr (inl p), f)
      ]
      | inr (inr (a, b, x)) ↦ let (p, f) = gemini_raised x in inr (inr (inr p), f)
    ],
    λ h. elim h [
      | inl bad ↦ inr (inl (batch_path bad.0, bad_batch-raised bad))
      | inr (supported, f) ↦ elim (openai_other_or_raised f) [
        | inr x ↦ inl x
        | inl a ↦ elim (anthropic_other_or_raised f) [
          | inr x ↦ inr (inl (a, x))
          | inl b ↦ elim (gemini_other_or_raised f) [
            | inr x ↦ inr (inr (a, b, x))
            | inl c ↦ absurd (none-IsSupported.0 (a, b, c) supported)
          ]
        ]
      ]
    ],
  )
