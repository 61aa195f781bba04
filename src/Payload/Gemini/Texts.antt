-- ===== src/Payload/Gemini/Texts.antt =====
-- What a Gemini client is sent of the texts of a stream.
use varsten.Prelude.{
  String, ◌≡◌, refl, sym, ap, ◌∙◌, ◌≢◌, Bool, true, false, not, ◌&&◌, ◌||◌, none, some, List, [],
  ◌∷◌, arith, str_eq, if◌then◌else◌, All,
}
use varsten.Payload.Stream.{ToolCall, Choice, Chunk, Completion, is_nil, or_else}
use varsten.Payload.Gemini.{
  Part, GeminiEvent, GeminiRenderer, new_gemini, GeminiOutput, text_event, send_content,
  gemini_choice, gemini_choices, gemini_push, gemini_tool_parts, final_calls, missing_content,
  or_empty_text, gemini_finish,
}
use mathlib.Core.List.{◌++◌}

abbrev pub if_any : String → List String
if_any s = if str_eq s "" then [] else s ∷ []

-- The texts of a chunk that are not empty.
abbrev pub contents_of : List Choice → List String
contents_of [] = []
contents_of (Choice.no_dict ∷ cs) = contents_of cs
contents_of (Choice.choice reason d ∷ cs) = if_any d.content ++ contents_of cs

abbrev pub contents : List Chunk → List String
contents [] = []
contents (c ∷ cs) = contents_of c.choices ++ contents cs

abbrev pub part_texts : List Part → List String
part_texts [] = []
part_texts (Part.text s ∷ ps) = if_any s ++ part_texts ps
part_texts (Part.function_call n a ∷ ps) = part_texts ps

-- The texts of events that are not empty.
abbrev pub texts : List GeminiEvent → List String
texts [] = []
texts (e ∷ es) = part_texts e.parts ++ texts es

append_assoc : {A : Type 0} (xs ys zs : List A) → (xs ++ ys) ++ zs ≡ xs ++ (ys ++ zs)
append_assoc [] ys zs = refl
append_assoc (x ∷ xs) ys zs = ap (λ l. x ∷ l) (append_assoc xs ys zs)

texts-append : (es fs : List GeminiEvent) → texts (es ++ fs) ≡ texts es ++ texts fs
texts-append [] fs = refl
texts-append (e ∷ es) fs =
    ap (λ l. part_texts e.parts ++ l) (texts-append es fs)
    ∙ sym (append_assoc (part_texts e.parts) (texts es) (texts fs))

abbrev pub IsUnfinished : List GeminiEvent → Type 0
IsUnfinished = All (λ (e : GeminiEvent). e.last ≡ none)

append-All :
    (es fs : List GeminiEvent) → IsUnfinished es → IsUnfinished fs → IsUnfinished (es ++ fs)
append-All [] fs h k = k
append-All (e ∷ es) fs (he, h) k = (he, append-All es fs h k)

-- The texts are sent, which the renderer knows, and the stream is not over.
abbrev pub IsSent : GeminiRenderer → GeminiOutput → List String → Type 0
IsSent g out xs =
    (texts out.1 ≡ xs)
    × (out.0.emitted_content ≡ (g.emitted_content || not (is_nil xs)))
    × (out.0.closed ≡ g.closed)
    × IsUnfinished out.1

or_append :
    (b : Bool) (xs ys : List String)
    → ((b || not (is_nil xs)) || not (is_nil ys)) ≡ (b || not (is_nil (xs ++ ys)))
or_append true xs ys = refl
or_append false [] ys = refl
or_append false (x ∷ xs) ys = refl

or_nothing : (b : Bool) → b ≡ (b || false)
or_nothing true = refl
or_nothing false = refl

or_true : (b : Bool) → true ≡ (b || true)
or_true true = refl
or_true false = refl

-- One generator after another.
then-IsSent :
    (g g1 g2 : GeminiRenderer) (es fs : List GeminiEvent) (xs ys : List String)
    → IsSent g (g1, es) xs
    → IsSent g1 (g2, fs) ys
    → IsSent g (g2, es ++ fs) (xs ++ ys)
then-IsSent g g1 g2 es fs xs ys (sent, known, still, unfinished)
      (sent2, known2, still2, unfinished2) =
    (
      texts-append es fs ∙ ap (λ l. l ++ texts fs) sent ∙ ap (λ l. xs ++ l) sent2,
      known2 ∙ ap (λ b. b || not (is_nil ys)) known ∙ or_append g.emitted_content xs ys,
      still2 ∙ still,
      append-All es fs unfinished unfinished2,
    )

send_content-IsSent : (s : String) (g : GeminiRenderer) → IsSent g (send_content s g) (if_any s)
send_content-IsSent s g = go (str_eq s "") refl
  where
    go :
        (b : Bool)
        → str_eq s "" ≡ b
        → IsSent g
            (if b then (g, []) else (record g { emitted_content = true }, text_event s g ∷ []))
            (if b then [] else s ∷ [])
    go true e = (refl, or_nothing g.emitted_content, refl, tt)
    go false e = (rw e refl, or_true g.emitted_content, refl, (refl, tt))

gemini_choices-IsSent :
    (cs : List Choice) (g : GeminiRenderer) → IsSent g (gemini_choices cs g) (contents_of cs)
unfolding gemini_choices gemini_choice
gemini_choices-IsSent [] g = (refl, or_nothing g.emitted_content, refl, tt)
gemini_choices-IsSent (Choice.no_dict ∷ cs) g = gemini_choices-IsSent cs g
gemini_choices-IsSent (Choice.choice reason d ∷ cs) g =
    let one = gemini_choice (Choice.choice reason d) g in
    let rest = gemini_choices cs one.0 in
    then-IsSent g one.0 rest.0 one.1 rest.1 (if_any d.content) (contents_of cs)
      (send_content-IsSent d.content (record g { finish_reason = or_else reason g.finish_reason }))
      (gemini_choices-IsSent cs one.0)

gemini_push-IsSent :
    (cs : List Chunk) (g : GeminiRenderer) → IsSent g (gemini_push cs g) (contents cs)
unfolding gemini_push
gemini_push-IsSent [] g = (refl, or_nothing g.emitted_content, refl, tt)
gemini_push-IsSent (c ∷ cs) g =
    let one = gemini_choices c.choices (record g { model = or_else c.model g.model }) in
    let rest = gemini_push cs one.0 in
    then-IsSent g one.0 rest.0 one.1 rest.1 (contents_of c.choices) (contents cs)
      (gemini_choices-IsSent c.choices (record g { model = or_else c.model g.model }))
      (gemini_push-IsSent cs one.0)

tool_parts-texts : (cs : List ToolCall) → part_texts (gemini_tool_parts cs) ≡ []
unfolding gemini_tool_parts
tool_parts-texts [] = refl
tool_parts-texts (c ∷ cs) = tool_parts-texts cs

part_texts-append : (ps qs : List Part) → part_texts (ps ++ qs) ≡ part_texts ps ++ part_texts qs
part_texts-append [] qs = refl
part_texts-append (Part.text s ∷ ps) qs =
    ap (λ l. if_any s ++ l) (part_texts-append ps qs)
    ∙ sym (append_assoc (if_any s) (part_texts ps) (part_texts qs))
part_texts-append (Part.function_call n a ∷ ps) qs = part_texts-append ps qs

or_empty_text-texts : (ps : List Part) → part_texts (or_empty_text ps) ≡ part_texts ps
or_empty_text-texts [] = refl
or_empty_text-texts (p ∷ ps) = refl

missing_content-texts :
    (c : Completion) (g : GeminiRenderer)
    → part_texts (missing_content c g) ≡ (if g.emitted_content then [] else if_any c.content)
missing_content-texts c g = go g.emitted_content (str_eq c.content "") refl
  where
    go :
        (b e : Bool)
        → str_eq c.content "" ≡ e
        → part_texts (if not b && not e then Part.text c.content ∷ [] else [])
          ≡ (if b then [] else if e then [] else c.content ∷ [])
    go true e h = refl
    go false true h = refl
    go false false h = rw h refl

append_nil : {A : Type 0} (xs : List A) → xs ++ [] ≡ xs
append_nil [] = refl
append_nil (x ∷ xs) = ap (λ l. x ∷ l) (append_nil xs)

final_texts :
    (c : Completion) (g : GeminiRenderer)
    → part_texts (or_empty_text (missing_content c g ++ gemini_tool_parts (final_calls c g)))
      ≡ (if g.emitted_content then [] else if_any c.content)
final_texts c g =
    let calls = gemini_tool_parts (final_calls c g) in
    or_empty_text-texts (missing_content c g ++ calls)
    ∙ part_texts-append (missing_content c g) calls
    ∙ ap (λ l. part_texts (missing_content c g) ++ l) (tool_parts-texts (final_calls c g))
    ∙ append_nil (part_texts (missing_content c g))
    ∙ missing_content-texts c g

none_or_some : {A : Type 0} (a : A) → some a ≢ none
none_or_some a h = ground arith

-- The last event is the one of the end, and closes the renderer.
abbrev pub IsLast : Completion → GeminiRenderer → GeminiOutput → Type 0
IsLast c g end =
    (texts end.1 ≡ (if g.emitted_content then [] else if_any c.content))
    × ((e : GeminiEvent) × (end.1 ≡ e ∷ []) × (e.last ≢ none))
    × (end.0.closed ≡ true)

pick-IsLast :
    (c : Completion) (g : GeminiRenderer) (b : Bool) (out out' : GeminiOutput)
    → b ≡ false
    → IsLast c g out'
    → IsLast c g (if b then out else out')
pick-IsLast c g true out out' e h = absurd (ground (arith, e))
pick-IsLast c g false out out' e h = h

gemini_finish-IsLast :
    (c : Completion) (g : GeminiRenderer) → g.closed ≡ false → IsLast c g (gemini_finish c g)
unfolding gemini_finish
gemini_finish-IsLast c g still =
    pick-IsLast c g g.closed _ _ still
      (append_nil _ ∙ final_texts c g, (_, refl, none_or_some _), refl)

either_texts :
    (xs ys : List String)
    → xs ++ (if not (is_nil xs) then [] else ys) ≡ (if is_nil xs then ys else xs)
either_texts [] ys = refl
either_texts (x ∷ xs) ys = append_nil (x ∷ xs)

-- Whatever chunks are pushed to a new Gemini renderer, the client is sent their texts in order, or the
-- completion's where they have none, by events that are not the last, and then exactly one that is, which
-- closes the renderer.
pub gemini-IsSent :
    (model : String) (cs : List Chunk) (c : Completion)
    → let out = gemini_push cs (new_gemini model) in
      let end = gemini_finish c out.0 in
      (texts (out.1 ++ end.1) ≡ (if is_nil (contents cs) then if_any c.content else contents cs))
      × IsUnfinished out.1
      × ((e : GeminiEvent) × (end.1 ≡ e ∷ []) × (e.last ≢ none))
      × (end.0.closed ≡ true)
unfolding gemini_finish
gemini-IsSent model cs c =
    let out = gemini_push cs (new_gemini model) in
    let (sent, known, still, unfinished) = gemini_push-IsSent cs (new_gemini model) in
    let end = gemini_finish-IsLast c out.0 still in
    (
      texts-append out.1 (gemini_finish c out.0).1
          ∙ ap (λ l. l ++ texts (gemini_finish c out.0).1) sent
          ∙ ap (λ l. contents cs ++ l) (end.0 ∙ ap (λ b. if b then [] else if_any c.content) known)
          ∙ either_texts (contents cs) (if_any c.content),
      unfinished,
      end.1,
      end.2,
    )
