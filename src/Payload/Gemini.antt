-- ===== src/Payload/Gemini.antt =====
-- The Gemini stream renderer of backend/app/proxy/client_transforms.py, on the chunks that Payload/Stream
-- has: each text is sent as it comes, and the tool calls at the end.
pub mod Texts
use varsten.Prelude.{
  ℕ, String, Bool, true, false, not, ◌&&◌, Option, none, some, List, [], ◌∷◌, str_eq, leb,
  if◌then◌else◌,
}
use varsten.Payload.Stream.{
  Usage, ToolCall, Fragment, Delta, Choice, Chunk, Completion, find, set_at, slot_of, or_else,
  is_nil, merge_tool_call_fragment,
}
use mathlib.Core.List.{◌++◌}

-- A part of `_gemini_sse`; the arguments of a call are the text of its object.
pub data Part : Type 0 where
  text : String → Part
  function_call : String → String → Part

-- The payload of `_gemini_sse`, with its finish reason and usage where it is the last.
pub record GeminiEvent : Type 0 where
  pub parts : List Part
  pub model : String
  pub last : Option (String × Usage)

-- `_GeminiClientStreamRenderer`, less its decoder.
pub record GeminiRenderer : Type 0 where
  pub model : String
  pub finish_reason : String
  pub emitted_content : Bool
  pub tool_call_slots : List (ℕ × ToolCall)
  pub closed : Bool

abbrev pub new_gemini : String → GeminiRenderer
new_gemini model = record {
  model = model;
  finish_reason = "stop";
  emitted_content = false;
  tool_call_slots = [];
  closed = false;
}

abbrev pub GeminiOutput : Type 0
GeminiOutput = GeminiRenderer × List GeminiEvent

-- The loop over the fragments.
unfoldable pub merge_fragments : List Fragment → List (ℕ × ToolCall) → List (ℕ × ToolCall)
merge_fragments [] slots = slots
merge_fragments (Fragment.no_dict ∷ fs) slots = merge_fragments fs slots
merge_fragments (Fragment.fragment k f ∷ fs) slots =
    merge_fragments fs (set_at k (merge_tool_call_fragment (slot_of (find k slots)) f) slots)

abbrev pub text_event : String → GeminiRenderer → GeminiEvent
text_event content g = record { parts = Part.text content ∷ []; model = g.model; last = none }

-- The content of a choice.
abbrev pub send_content : String → GeminiRenderer → GeminiOutput
send_content content g =
    if str_eq content ""
    then (g, [])
    else (record g { emitted_content = true }, text_event content g ∷ [])

abbrev pub with_fragments : List Fragment → GeminiRenderer → GeminiRenderer
with_fragments fs g = record g { tool_call_slots = merge_fragments fs g.tool_call_slots }

-- A round of the loop of `_handle_openai_payload`.
unfoldable pub gemini_choice : Choice → GeminiRenderer → GeminiOutput
gemini_choice Choice.no_dict g = (g, [])
gemini_choice (Choice.choice reason d) g =
    let (g', es) =
      send_content d.content (record g { finish_reason = or_else reason g.finish_reason }) in
    (with_fragments d.tool_calls g', es)

-- `_handle_openai_payload`
unfoldable pub gemini_choices : List Choice → GeminiRenderer → GeminiOutput
gemini_choices [] g = (g, [])
gemini_choices (c ∷ cs) g =
    let (g', es) = gemini_choice c g in let (g2, fs) = gemini_choices cs g' in (g2, es ++ fs)

-- `push`, for the payloads that the decoder yields.
unfoldable pub gemini_push : List Chunk → GeminiRenderer → GeminiOutput
gemini_push [] g = (g, [])
gemini_push (c ∷ cs) g =
    let (g', es) = gemini_choices c.choices (record g { model = or_else c.model g.model }) in
    let (g2, fs) = gemini_push cs g' in (g2, es ++ fs)

-- `_gemini_tool_parts`
unfoldable pub gemini_tool_parts : List ToolCall → List Part
gemini_tool_parts [] = []
gemini_tool_parts (c ∷ cs) = Part.function_call c.name c.arguments ∷ gemini_tool_parts cs

unfoldable pub insert_slot : ℕ × ToolCall → List (ℕ × ToolCall) → List (ℕ × ToolCall)
insert_slot e [] = e ∷ []
insert_slot e (f ∷ fs) = if leb e.0 f.0 then e ∷ f ∷ fs else f ∷ insert_slot e fs

-- The slots in the order of their indexes.
unfoldable pub sorted_slots : List (ℕ × ToolCall) → List (ℕ × ToolCall)
sorted_slots [] = []
sorted_slots (e ∷ es) = insert_slot e (sorted_slots es)

abbrev pub calls_of : List (ℕ × ToolCall) → List ToolCall
calls_of [] = []
calls_of ((k, c) ∷ es) = c ∷ calls_of es

-- `completion.tool_calls`, or else the merged slots.
abbrev pub final_calls : Completion → GeminiRenderer → List ToolCall
final_calls c g =
    if is_nil c.tool_calls then calls_of (sorted_slots g.tool_call_slots) else c.tool_calls

-- `_gemini_finish_reason`
unfoldable pub gemini_finish_reason : String → String
gemini_finish_reason reason =
    let stop = or_else reason "stop" in
    if str_eq stop "length"
    then "MAX_TOKENS"
    else if str_eq stop "content_filter"
    then "SAFETY"
    else "STOP"

abbrev pub missing_content : Completion → GeminiRenderer → List Part
missing_content c g =
    if not g.emitted_content && not (str_eq c.content "") then Part.text c.content ∷ [] else []

abbrev pub or_empty_text : List Part → List Part
or_empty_text [] = Part.text "" ∷ []
or_empty_text (p ∷ ps) = p ∷ ps

-- `finish`
unfoldable pub gemini_finish : Completion → GeminiRenderer → GeminiOutput
unfolding gemini_tool_parts gemini_finish_reason
gemini_finish c g =
    let model = or_else c.model g.model in
    if g.closed then (g, []) else (
      record g { closed = true; model = model },
      record {
        parts = or_empty_text (missing_content c g ++ gemini_tool_parts (final_calls c g));
        model = model;
        last = some (gemini_finish_reason (or_else c.finish_reason g.finish_reason), c.usage);
      }
          ∷ [],
    )
