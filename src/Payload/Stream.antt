-- ===== src/Payload/Stream.antt =====
-- The Anthropic stream renderer of backend/app/proxy/client_transforms.py: the events for a client of
-- that dialect, from the chunks of a stream in the OpenAI shape. What is falsy in a chunk is the empty
-- text, and an event is the data of its SSE lines, less the ids that are made from the clock.
pub mod Protocol
pub mod Finish
pub mod Blocks
pub mod Sound
pub mod Pushes
pub mod Message
use varsten.Prelude.{
  ℕ, ◌+◌, String, Bool, true, false, Option, none, some, List, [], ◌∷◌, str_eq, ◌==◌, if◌then◌else◌,
}
use Prim.Native.String.{◌++◌ as str_append}
use mathlib.Core.List.{◌++◌}

pub record Usage : Type 0 where
  pub input_tokens : ℕ
  pub provider_cached_input_tokens : ℕ
  pub output_tokens : ℕ

-- A tool call: a slot of `_empty_tool_call_slot`, or a call of a completion.
pub record ToolCall : Type 0 where
  pub id : String
  pub kind : String
  pub name : String
  pub arguments : String

-- An entry of `tool_calls`, which is skipped where it is no dict.
pub data Fragment : Type 0 where
  no_dict : Fragment
  fragment : ℕ → ToolCall → Fragment

pub record Delta : Type 0 where
  pub is_assistant : Bool
  pub content : String
  pub tool_calls : List Fragment

-- An entry of `choices`, with its finish reason.
pub data Choice : Type 0 where
  no_dict : Choice
  choice : String → Delta → Choice

pub record Chunk : Type 0 where
  pub model : String
  pub choices : List Choice

-- `CanonicalCompletion`
pub record Completion : Type 0 where
  pub model : String
  pub content : String
  pub tool_calls : List ToolCall
  pub finish_reason : String
  pub usage : Usage

pub data Event : Type 0 where
  message_start : String → Usage → Event
  text_start : ℕ → Event
  text_delta : ℕ → String → Event
  tool_start : ℕ → ToolCall → Event
  json_delta : ℕ → String → Event
  block_stop : ℕ → Event
  message_delta : String → ℕ → Event
  message_stop : Event

-- `_AnthropicClientStreamRenderer`, less its decoder. The order in its dicts of tools, and in its set,
-- is not used.
pub record Renderer : Type 0 where
  pub model : String
  pub message_started : Bool
  pub content_started : Bool
  pub text_block_index : Option ℕ
  pub next_block_index : ℕ
  pub tool_call_slots : List (ℕ × ToolCall)
  pub tool_block_indexes : List (ℕ × ℕ)
  pub open_tool_indexes : List ℕ
  pub finish_reason : String
  pub closed : Bool

abbrev pub new_renderer : String → Renderer
new_renderer model = record {
  model = model;
  message_started = false;
  content_started = false;
  text_block_index = none;
  next_block_index = 0;
  tool_call_slots = [];
  tool_block_indexes = [];
  open_tool_indexes = [];
  finish_reason = "stop";
  closed = false;
}

abbrev pub Output : Type 0
Output = Renderer × List Event

abbrev pub is_nil {ℓ} : {A : Type ℓ} → List A → Bool
is_nil [] = true
is_nil (x ∷ xs) = false

-- One generator after another.
unfoldable pub and_then : Output → (Renderer → Output) → Output
and_then (r, es) f = let (r', es') = f r in (r', es ++ es')

abbrev pub or_else : String → String → String
or_else s t = if str_eq s "" then t else s

abbrev pub no_usage : Usage
no_usage = record { input_tokens = 0; provider_cached_input_tokens = 0; output_tokens = 0 }

-- `_ensure_message_start`
unfoldable pub ensure_message_start : Usage → Renderer → Output
ensure_message_start usage r =
    if r.message_started
    then (r, [])
    else (record r { message_started = true }, message_start r.model usage ∷ [])

-- `_emit_text`, once the message has started.
unfoldable pub text_block : String → Renderer → Output
text_block text r = elim r.text_block_index [
  | some i ↦ (r, text_delta i text ∷ [])
  | none ↦
      let i = r.next_block_index in
      (
        record r { text_block_index = some i; next_block_index = i + 1; content_started = true },
        text_start i ∷ text_delta i text ∷ [],
      )
]

-- `_emit_text`
unfoldable pub emit_text : String → Renderer → Output
emit_text text r = and_then (ensure_message_start no_usage r) (text_block text)

-- `_close_text_block`
unfoldable pub close_text_block : Renderer → Output
close_text_block r = elim r.text_block_index [
  | none ↦ (r, [])
  | some i ↦ (record r { text_block_index = none }, block_stop i ∷ [])
]

unfoldable pub find {ℓ} : {A : Type ℓ} → ℕ → List (ℕ × A) → Option A
find k [] = none
find k ((j, a) ∷ d) = if j == k then some a else find k d

-- `d[k] = a`
unfoldable pub set_at {ℓ} : {A : Type ℓ} → ℕ → A → List (ℕ × A) → List (ℕ × A)
set_at k a [] = (k, a) ∷ []
set_at k a ((j, b) ∷ d) = if j == k then (k, a) ∷ d else (j, b) ∷ set_at k a d

abbrev pub empty_slot : ToolCall
empty_slot = record { id = ""; kind = "function"; name = ""; arguments = "" }

abbrev pub slot_of : Option ToolCall → ToolCall
slot_of none = empty_slot
slot_of (some s) = s

-- `_merge_tool_call_fragment`
unfoldable pub merge_tool_call_fragment : ToolCall → ToolCall → ToolCall
merge_tool_call_fragment slot f = record {
  id = or_else f.id slot.id;
  kind = or_else f.kind slot.kind;
  name = str_append slot.name f.name;
  arguments = str_append slot.arguments f.arguments;
}

abbrev pub arguments_event : ℕ → String → List Event
arguments_event i text = if str_eq text "" then [] else json_delta i text ∷ []

-- The block of a fragment, given the block of its tool, whose slot is merged.
abbrev pub tool_block : Option ℕ → ℕ → ToolCall → String → Renderer → Output
tool_block (some i) k slot text r = (r, arguments_event i text)
tool_block none k slot text r =
    let i = r.next_block_index in
    (
      record r {
        next_block_index = i + 1;
        tool_block_indexes = (k, i) ∷ r.tool_block_indexes;
        open_tool_indexes = k ∷ r.open_tool_indexes;
      },
      tool_start i slot ∷ arguments_event i text,
    )

-- One round of the loop of `_emit_tool_call_fragments`.
unfoldable pub emit_fragment : Fragment → Renderer → Output
emit_fragment no_dict r = (r, [])
emit_fragment (fragment k f) r =
    let slot = merge_tool_call_fragment (slot_of (find k r.tool_call_slots)) f in
    tool_block (find k r.tool_block_indexes) k slot f.arguments
      (record r { tool_call_slots = set_at k slot r.tool_call_slots })

unfoldable pub emit_fragments : List Fragment → Renderer → Output
emit_fragments [] r = (r, [])
emit_fragments (f ∷ fs) r = and_then (emit_fragment f r) (emit_fragments fs)

-- `_emit_tool_call_fragments`
unfoldable pub emit_tool_call_fragments : List Fragment → Renderer → Output
emit_tool_call_fragments fs r =
    and_then (and_then (ensure_message_start no_usage r) close_text_block) (emit_fragments fs)

abbrev pub silent : Renderer → Output
silent r = (r, [])

abbrev pub emit_content : String → Renderer → Output
emit_content text = if str_eq text "" then silent else emit_text text

abbrev pub emit_tools : List Fragment → Renderer → Output
emit_tools [] = silent
emit_tools (f ∷ fs) = emit_tool_call_fragments (f ∷ fs)

-- A round of the loop of `_handle_openai_payload`.
unfoldable pub handle_choice : Choice → Renderer → Output
handle_choice no_dict r = (r, [])
handle_choice (choice reason d) r =
    and_then
      (and_then
        ((if d.is_assistant then ensure_message_start no_usage else silent)
          (record r { finish_reason = or_else reason r.finish_reason }))
        (emit_content d.content))
      (emit_tools d.tool_calls)

-- `_handle_openai_payload`
unfoldable pub handle_choices : List Choice → Renderer → Output
handle_choices [] r = (r, [])
handle_choices (c ∷ cs) r = and_then (handle_choice c r) (handle_choices cs)

-- `push`, for the payloads that the decoder yields.
unfoldable pub push : List Chunk → Renderer → Output
push [] r = (r, [])
push (c ∷ cs) r =
    and_then (handle_choices c.choices (record r { model = or_else c.model r.model })) (push cs)
