-- ===== src/Payload/CrossProvider/OpenAi.antt =====
-- What `_openai_server_side_tool` and `_has_unmapped_openai_content_part` of
-- backend/app/proxy/routing_eligibility.py find.
use varsten.Prelude.{
  String, ◌≡◌, refl, sym, ap, ◌∙◌, ◌≢◌, ◌↔◌, ◌⊎◌, inl, inr, Bool, true, false, not, Option, none,
  some, [], ◌∷◌, arith, str_eq, eq_iff, if◌then◌else◌, Bool-cases,
}
use mathlib.Core.Path.{subst}
use mathlib.Core.Option
use varsten.Payload.Facts.{in_set}
use varsten.Payload.Nesting.{InItems}
use varsten.Payload.Json.{Value, Items, Fields, get, get_in, text_in}
use varsten.Engine.Classification.{text_or_empty}
use varsten.Payload.CrossProvider.{
  Answer, RoutingIneligibility, safe, unsafe, type_error, openai_server_side_tool,
  has_unmapped_openai_content_part, has_unmapped_content, any_unless_raised,
  is_unmapped_openai_part, items_of_list,
}

-- The tool has no type that is a text, or it is a function.
abbrev pub IsClientTool : Value → Type 0
IsClientTool tool = (kind : String) → get_in "type" tool ≡ Value.text kind → kind ≡ "function"

abbrev pub OnlyClientTools : Items → Type 0
OnlyClientTools Items.nil = Unit {0}
OnlyClientTools (Items.cons tool tools) = IsClientTool tool × OnlyClientTools tools

-- The first tool that is none of the client's has an empty type: the code looks at no later one.
abbrev pub EmptyTypeFirst : Items → Type 0
EmptyTypeFirst Items.nil = ⊥
EmptyTypeFirst (Items.cons tool tools) =
    (get_in "type" tool ≡ Value.text "") ⊎ (IsClientTool tool × EmptyTypeFirst tools)

-- Every dict in the list of a message's content is of type text.
abbrev pub OnlyTextParts : Items → Type 0
OnlyTextParts messages =
    (message : Value) (parts : Items) (part : Fields)
    → InItems message messages
    → get_in "content" message ≡ Value.array parts
    → InItems (Value.object part) parts
    → get "type" part ≡ Value.text "text"

-- A type that is no text or is `function` is passed over, another one ends the search.
type_cases :
    (v : Value) (rest : Option String)
    → let found = elim v as (λ x. Option String) [
      | Value.text s ↦ if str_eq s "function" then rest else some s
      | _ ↦ rest
    ] in
      (((kind : String) → v ≡ Value.text kind → kind ≡ "function") × (found ≡ rest))
      ⊎ ((kind : String) × (v ≡ Value.text kind) × (kind ≢ "function") × (found ≡ some kind))
type_cases Value.null rest = inl (λ k e. absurd (ground arith), refl)
type_cases (Value.bool b) rest = inl (λ k e. absurd (ground arith), refl)
type_cases (Value.int n) rest = inl (λ k e. absurd (ground arith), refl)
type_cases (Value.float f) rest = inl (λ k e. absurd (ground arith), refl)
type_cases (Value.array xs) rest = inl (λ k e. absurd (ground arith), refl)
type_cases (Value.object fs) rest = inl (λ k e. absurd (ground arith), refl)
type_cases (Value.text s) rest = elim (Bool-cases (str_eq s "function")) [
  | inl t ↦ inl (λ k e. let f = (eq_iff s "function").0 t in ground arith, rw t refl)
  | inr f ↦
      inr (s, refl, λ e. absurd (let t = (eq_iff s "function").1 e in ground arith), rw f refl)
]

empty_type : ◌≢◌ {A = String} "" "function"
empty_type h = let t = (eq_iff "" "function").1 h in ground arith

pub server_tool_empty :
    (tools : Items)
    → (text_or_empty (openai_server_side_tool tools) ≡ "")
      ↔ (OnlyClientTools tools ⊎ EmptyTypeFirst tools)
unfolding openai_server_side_tool
server_tool_empty Items.nil = (λ h. inl tt, λ h. refl)
server_tool_empty (Items.cons tool tools) =
    let rest = server_tool_empty tools in
    elim (type_cases (get_in "type" tool) (openai_server_side_tool tools)) [
      | inl (client, e) ↦ (
        λ h. elim (rest.0 (ap text_or_empty (sym e) ∙ h)) [
          | inl only ↦ inl (client, only)
          | inr empty ↦ inr (inr (client, empty))
        ],
        λ h. elim h [
          | inl (own, only) ↦ ap text_or_empty e ∙ rest.1 (inl only)
          | inr (inl empty) ↦ absurd (empty_type (client "" empty))
          | inr (inr (own, empty)) ↦ ap text_or_empty e ∙ rest.1 (inr empty)
        ],
      )
      | inr (kind, e, other, found) ↦ (
        λ h. inr (inl (e ∙ ap Value.text (ap text_or_empty (sym found) ∙ h))),
        λ h. elim h [
          | inl (client, only) ↦ absurd (other (client kind e))
          | inr (inl empty) ↦ let same : kind ≡ "" = ground arith in ap text_or_empty found ∙ same
          | inr (inr (client, empty)) ↦ absurd (other (client kind e))
        ],
      )
    ]

test_first :
    (o rest : Option Bool)
    → (elim o as (λ x. Option Bool) [ none ↦ none | some b ↦ if b then some true else rest ]
        ≡ some false)
      ↔ ((o ≡ some false) × (rest ≡ some false))
test_first none rest = ground arith
test_first (some true) rest = ground arith
test_first (some false) rest = ground arith

unmapped_none :
    (test : Value → Option Bool) (xs : Items)
    → (any_unless_raised test xs ≡ some false) ↔ ((x : Value) → InItems x xs → test x ≡ some false)
unfolding any_unless_raised
unmapped_none test Items.nil = (λ h x i. absurd i, λ h. refl)
unmapped_none test (Items.cons x xs) =
    let first = test_first (test x) (any_unless_raised test xs) in
    let rest = unmapped_none test xs in
    (
      λ h y i. elim i [
        | inl same ↦ ap test same ∙ (first.0 h).0
        | inr later ↦ rest.0 (first.0 h).1 y later
      ],
      λ h. first.1 (h x (inl refl), rest.1 (λ y i. h y (inr i))),
    )

type-text :
    (v : Value) → (Option.map not (in_set ("text" ∷ []) v) ≡ some false) ↔ (v ≡ Value.text "text")
unfolding text_in
type-text Value.null = ground arith
type-text (Value.bool b) = ground arith
type-text (Value.int n) = ground arith
type-text (Value.float f) = ground arith
type-text (Value.text s) = ground (arith, eq_iff s "text")
type-text (Value.array xs) = ground arith
type-text (Value.object fs) = ground arith

part-text :
    (part : Value)
    → (is_unmapped_openai_part part ≡ some false)
      ↔ ((fs : Fields) → part ≡ Value.object fs → get "type" fs ≡ Value.text "text")
unfolding is_unmapped_openai_part
part-text Value.null = (λ h fs e. absurd (ground arith), λ h. refl)
part-text (Value.bool b) = (λ h fs e. absurd (ground arith), λ h. refl)
part-text (Value.int n) = (λ h fs e. absurd (ground arith), λ h. refl)
part-text (Value.float f) = (λ h fs e. absurd (ground arith), λ h. refl)
part-text (Value.text s) = (λ h fs e. absurd (ground arith), λ h. refl)
part-text (Value.array xs) = (λ h fs e. absurd (ground arith), λ h. refl)
part-text (Value.object gs) = (
  λ h fs e. ap (get_in "type") (sym e) ∙ (type-text (get "type" gs)).0 h,
  λ h. (type-text (get "type" gs)).1 (h gs refl),
)

listed :
    (x v : Value) → InItems x (items_of_list v) → (xs : Items) × (v ≡ Value.array xs) × InItems x xs
listed x (Value.array xs) i = (xs, refl, i)
listed x Value.null i = absurd i
listed x (Value.bool b) i = absurd i
listed x (Value.int n) i = absurd i
listed x (Value.float f) i = absurd i
listed x (Value.text s) i = absurd i
listed x (Value.object fs) i = absurd i

content-text :
    (message : Value)
    → (has_unmapped_content message ≡ some false) ↔ (
        (parts : Items) (part : Fields)
        → get_in "content" message ≡ Value.array parts
        → InItems (Value.object part) parts
        → get "type" part ≡ Value.text "text")
unfolding has_unmapped_content
content-text message =
    let content = get_in "content" message in
    let all = unmapped_none is_unmapped_openai_part (items_of_list content) in
    (
      λ h parts part e i.
          let j = subst (λ v. InItems (Value.object part) (items_of_list v)) (sym e) i in
          (part-text (Value.object part)).0 (all.0 h (Value.object part) j) part refl,
      λ h. all.1 (λ x i.
          let (parts, e, j) = listed x content i in
          (part-text x).1 (λ fs same. h parts fs e (subst (λ v. InItems v parts) same j))),
    )

after_test :
    (o : Option Bool) (u : RoutingIneligibility)
    → (elim o as (λ x. Answer) [ none ↦ type_error | some b ↦ if b then unsafe u else safe ] ≡ safe)
      ↔ (o ≡ some false)
after_test none u = ground arith
after_test (some true) u = ground arith
after_test (some false) u = ground arith

pub messages_text :
    (messages : Items) (u : RoutingIneligibility)
    → (elim (has_unmapped_openai_content_part messages) as (λ x. Answer) [
      | none ↦ type_error
      | some b ↦ if b then unsafe u else safe
    ]
        ≡ safe)
      ↔ OnlyTextParts messages
unfolding has_unmapped_openai_content_part
messages_text messages u =
    let test = after_test (any_unless_raised has_unmapped_content messages) u in
    let all = unmapped_none has_unmapped_content messages in
    (
      λ h message parts part i e j.
          (content-text message).0 (all.0 (test.0 h) message i) parts part e j,
      λ h. test.1 (
          all.1
            (λ message i. (content-text message).1 (λ parts part e j. h message parts part i e j))),
    )
