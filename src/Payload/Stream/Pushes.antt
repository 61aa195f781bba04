-- ===== src/Payload/Stream/Pushes.antt =====
-- The events of the pushed chunks follow the protocol.
use varsten.Prelude.{
  String, refl, inl, inr, Bool, true, false, List, [], ◌∷◌, str_eq, if◌then◌else◌, Bool-cases,
}
use varsten.Payload.Stream.{
  Fragment, Choice, Chunk, Renderer, Output, and_then, no_usage, ensure_message_start, emit_text,
  close_text_block, find, emit_fragment, emit_fragments, emit_tool_call_fragments, silent,
  emit_content, emit_tools, handle_choice, handle_choices, push, merge_tool_call_fragment, slot_of,
  set_at, or_else,
}
use varsten.Payload.Stream.Protocol.{accept}
use varsten.Payload.Stream.Sound.{
  IsSteady, IsSound, and_then-IsSound, weaken, silent-IsSound, ensure_message_start-IsSound,
  emit_text-IsSound, close_text_block-IsSound, tool_block-IsSound,
}

emit_fragment-IsSound :
    (f : Fragment) (r : Renderer) → IsSteady true r → IsSound true r (emit_fragment f r)
unfolding emit_fragment accept
emit_fragment-IsSound Fragment.no_dict r h = (h, refl, refl)
emit_fragment-IsSound (Fragment.fragment k f) r h =
    let slot = merge_tool_call_fragment (slot_of (find k r.tool_call_slots)) f in
    tool_block-IsSound k slot f.arguments
      (record r { tool_call_slots = set_at k slot r.tool_call_slots }) h

emit_fragments-IsSound :
    (fs : List Fragment) (r : Renderer) → IsSteady true r → IsSound true r (emit_fragments fs r)
unfolding emit_fragments accept
emit_fragments-IsSound [] r h = (h, refl, refl)
emit_fragments-IsSound (f ∷ fs) r h =
    and_then-IsSound true true r (emit_fragment f r) (emit_fragments fs)
      (emit_fragment-IsSound f r h) (emit_fragments-IsSound fs)

emit_tool_call_fragments-IsSound :
    (fs : List Fragment) (s : Bool) (r : Renderer)
    → IsSteady s r
    → IsSound true r (emit_tool_call_fragments fs r)
unfolding emit_tool_call_fragments
emit_tool_call_fragments-IsSound fs s r h =
    and_then-IsSound true true r (and_then (ensure_message_start no_usage r) close_text_block)
      (emit_fragments fs)
      (and_then-IsSound true true r (ensure_message_start no_usage r) close_text_block
        (ensure_message_start-IsSound no_usage s r h) close_text_block-IsSound)
      (emit_fragments-IsSound fs)

loosen : (r : Renderer) (out : Output) → IsSound true r out → IsSound false r out
loosen r out h = (weaken true out.0 h.0, h.1, h.2)

pub emit_content-IsSound :
    (s : Bool) (text : String) (r : Renderer) → IsSteady s r → IsSound s r (emit_content text r)
emit_content-IsSound true text r h = elim (Bool-cases (str_eq text "")) [
  | inl e ↦ rw e (silent-IsSound true r h)
  | inr e ↦ rw e (emit_text-IsSound text true r h)
]
emit_content-IsSound false text r h = elim (Bool-cases (str_eq text "")) [
  | inl e ↦ rw e (silent-IsSound false r h)
  | inr e ↦ rw e (loosen r (emit_text text r) (emit_text-IsSound text false r h))
]

emit_tools-IsSound :
    (fs : List Fragment) (r : Renderer) → IsSteady false r → IsSound false r (emit_tools fs r)
emit_tools-IsSound [] r h = silent-IsSound false r h
emit_tools-IsSound (f ∷ fs) r h =
    loosen r (emit_tool_call_fragments (f ∷ fs) r)
      (emit_tool_call_fragments-IsSound (f ∷ fs) false r h)

begin-IsSound :
    (b : Bool) (r : Renderer)
    → IsSteady false r
    → IsSound false r ((if b then ensure_message_start no_usage else silent) r)
begin-IsSound true r h =
    loosen r (ensure_message_start no_usage r) (ensure_message_start-IsSound no_usage false r h)
begin-IsSound false r h = silent-IsSound false r h

handle_choice-IsSound :
    (c : Choice) (r : Renderer) → IsSteady false r → IsSound false r (handle_choice c r)
unfolding handle_choice accept
handle_choice-IsSound Choice.no_dict r h = (h, refl, refl)
handle_choice-IsSound (Choice.choice reason d) r h =
    let start = (if d.is_assistant then ensure_message_start no_usage else silent) in
    let r' = record r { finish_reason = or_else reason r.finish_reason } in
    and_then-IsSound false false r (and_then (start r') (emit_content d.content))
      (emit_tools d.tool_calls)
      (and_then-IsSound false false r (start r') (emit_content d.content)
        (begin-IsSound d.is_assistant r' h) (emit_content-IsSound false d.content))
      (emit_tools-IsSound d.tool_calls)

handle_choices-IsSound :
    (cs : List Choice) (r : Renderer) → IsSteady false r → IsSound false r (handle_choices cs r)
unfolding handle_choices accept
handle_choices-IsSound [] r h = (h, refl, refl)
handle_choices-IsSound (c ∷ cs) r h =
    and_then-IsSound false false r (handle_choice c r) (handle_choices cs)
      (handle_choice-IsSound c r h) (handle_choices-IsSound cs)

pub push-IsSound : (cs : List Chunk) (r : Renderer) → IsSteady false r → IsSound false r (push cs r)
unfolding push accept
push-IsSound [] r h = (h, refl, refl)
push-IsSound (c ∷ cs) r h =
    let r' = record r { model = or_else c.model r.model } in
    and_then-IsSound false false r (handle_choices c.choices r') (push cs)
      (handle_choices-IsSound c.choices r' h) (push-IsSound cs)
