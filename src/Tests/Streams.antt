-- ===== src/Tests/Streams.antt =====
-- Streams at concrete inputs.
use varsten.Payload.Gemini.{GeminiEvent, new_gemini, gemini_push, gemini_finish}
use varsten.Payload.Gemini.Texts.{texts, IsUnfinished, gemini-IsSent}
use varsten.Prelude.{ℕ, String, ◌≡◌, refl, ◌≢◌, Bool, true, false, none, some, List, [], ◌∷◌, ◌++◌}
use varsten.Payload.Stream.{
  ToolCall, Fragment, Delta, Choice, Chunk, Completion, Event, empty_slot, no_usage, new_renderer,
  and_then, push,
}
use varsten.Payload.Stream.Finish.{finish}
use varsten.Payload.Stream.Protocol.{accept, view_of}
use varsten.Payload.Stream.Message.{finished, render-IsMessage}

abbrev part : Bool → String → List Fragment → Chunk
part is_assistant content calls = record {
  model = "gpt-4o";
  choices =
      Choice.choice ""
        (record { is_assistant = is_assistant; content = content; tool_calls = calls })
      ∷ Choice.no_dict
      ∷ [];
}

abbrev call : ℕ → String → Fragment
call k text = Fragment.fragment k (record empty_slot { arguments = text })

abbrev chunks : List Chunk
chunks =
    part true "" []
    ∷ part false "Hi" []
    ∷ part false "" (call 1 "{" ∷ call 0 "" ∷ call 1 "}" ∷ [])
    ∷ part false "there" []
    ∷ []

abbrev completion : Completion
completion = record {
  model = "gpt-4o";
  content = "Hithere";
  tool_calls = [];
  finish_reason = "stop";
  usage = no_usage;
}

render-IsMessage_example :
    (n : ℕ) × (accept
        (and_then (push chunks (new_renderer "m")) (finish completion)).1
        (view_of (new_renderer "m"))
      ≡ some (finished n))
render-IsMessage_example = render-IsMessage "m" chunks completion

abbrev index_of_event : Event → List ℕ
index_of_event (Event.text_start i) = i ∷ []
index_of_event (Event.tool_start i c) = i ∷ []
index_of_event (Event.block_stop i) = i ∷ []
index_of_event e = []

abbrev indexes : List Event → List ℕ
indexes [] = []
indexes (e ∷ es) = index_of_event e ++ indexes es

blocks-started_and_stopped :
    indexes (and_then (push chunks (new_renderer "m")) (finish completion)).1
    ≡ 0 ∷ 0 ∷ 1 ∷ 2 ∷ 3 ∷ 3 ∷ 1 ∷ 2 ∷ []
unfolding and_then push finish varsten.Payload.Stream.handle_choices
    varsten.Payload.Stream.handle_choice varsten.Payload.Stream.ensure_message_start
    varsten.Payload.Stream.emit_text varsten.Payload.Stream.text_block
    varsten.Payload.Stream.emit_tool_call_fragments varsten.Payload.Stream.close_text_block
    varsten.Payload.Stream.emit_fragments varsten.Payload.Stream.emit_fragment
    varsten.Payload.Stream.find varsten.Payload.Stream.merge_tool_call_fragment
    varsten.Payload.Stream.set_at varsten.Payload.Stream.Finish.finish_stream
    varsten.Payload.Stream.Finish.close_tool_blocks varsten.Payload.Stream.Finish.sorted_blocks
    varsten.Payload.Stream.Finish.insert_sorted varsten.Payload.Stream.Finish.stops
    varsten.Payload.Stream.Finish.whole_calls
blocks-started_and_stopped = refl

gemini-IsSent_example :
    let out = gemini_push chunks (new_gemini "m") in
    let end = gemini_finish completion out.0 in
    (texts (out.1 ++ end.1) ≡ "Hi" ∷ "there" ∷ [])
    × IsUnfinished out.1
    × ((e : GeminiEvent) × (end.1 ≡ e ∷ []) × (e.last ≢ none))
    × (end.0.closed ≡ true)
gemini-IsSent_example = gemini-IsSent "m" chunks completion
