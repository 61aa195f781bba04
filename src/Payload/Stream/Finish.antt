-- ===== src/Payload/Stream/Finish.antt =====
-- The end of a stream in backend/app/proxy/client_transforms.py: the blocks that are still open stop, and
-- the message does.
use varsten.Prelude.{
  ℕ, ◌+◌, String, true, not, Option, none, some, List, [], ◌∷◌, str_eq, leb, if◌then◌else◌,
}
use varsten.Payload.Stream.{
  ToolCall, Completion, Event, Renderer, Output, is_nil, and_then, or_else, ensure_message_start,
  close_text_block, find, silent, emit_content,
}

unfoldable pub insert_sorted : ℕ → List ℕ → List ℕ
insert_sorted x [] = x ∷ []
insert_sorted x (y ∷ ys) = if leb x y then x ∷ y ∷ ys else y ∷ insert_sorted x ys

-- `tool_block_indexes[idx]`, of an index that has a block.
abbrev pub index_of : Option ℕ → ℕ
index_of none = 0
index_of (some i) = i

-- The blocks of the open tools, sorted.
unfoldable pub sorted_blocks : List (ℕ × ℕ) → List ℕ → List ℕ
sorted_blocks blocks [] = []
sorted_blocks blocks (k ∷ ks) = insert_sorted (index_of (find k blocks)) (sorted_blocks blocks ks)

unfoldable pub stops : List ℕ → List Event
stops [] = []
stops (i ∷ is) = Event.block_stop i ∷ stops is

-- `_close_tool_blocks`
unfoldable pub close_tool_blocks : Renderer → Output
close_tool_blocks r = (
  record r { open_tool_indexes = [] },
  stops (sorted_blocks r.tool_block_indexes r.open_tool_indexes),
)

-- The loop over the completion's own tool calls, with `_anthropic_tool_call_events`.
unfoldable pub whole_calls : List ToolCall → Renderer → Output
whole_calls [] r = (r, [])
whole_calls (c ∷ cs) r =
    let i = r.next_block_index in
    and_then (record r { next_block_index = i + 1 }, Event.tool_start i c ∷ Event.block_stop i ∷ [])
      (whole_calls cs)

-- `_anthropic_stop_reason`
unfoldable pub anthropic_stop_reason : String → List ToolCall → String
anthropic_stop_reason reason calls =
    if not (is_nil calls)
    then "tool_use"
    else if str_eq (or_else reason "stop") "length"
    then "max_tokens"
    else "end_turn"

abbrev pub missing_text : Completion → Renderer → Output
missing_text c r = (if r.content_started then silent else emit_content c.content) r

abbrev pub missing_calls : Completion → Renderer → Output
missing_calls c r = (if is_nil r.tool_block_indexes then whole_calls c.tool_calls else silent) r

abbrev pub conclude : Completion → Renderer → Output
conclude c r = (
  r,
  Event.message_delta (anthropic_stop_reason (or_else c.finish_reason r.finish_reason) c.tool_calls)
        c.usage.output_tokens
      ∷ Event.message_stop
      ∷ [],
)

-- `_finish_stream`
unfoldable pub finish_stream : Completion → Renderer → Output
finish_stream c r =
    and_then
      (and_then
        (and_then
          (and_then
            (and_then
              (ensure_message_start c.usage
                (record r { closed = true; model = or_else c.model r.model }))
              (missing_text c))
            close_text_block)
          close_tool_blocks)
        (missing_calls c))
      (conclude c)

-- `finish`
unfoldable pub finish : Completion → Renderer → Output
finish c r = if r.closed then (r, []) else finish_stream c r
