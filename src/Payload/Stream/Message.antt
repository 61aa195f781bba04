-- ===== src/Payload/Stream/Message.antt =====
-- The events of a whole stream are one message.
use varsten.Prelude.{
  ℕ, ◌+◌, String, ◌≡◌, refl, sym, ◌∙◌, inl, inr, Bool, true, false, none, some, List, [], ◌∷◌,
  arith, if◌then◌else◌, Option-cases,
}
use varsten.Payload.Stream.{
  ToolCall, Chunk, Completion, Renderer, new_renderer, Output, and_then, ensure_message_start,
  close_text_block, silent, is_nil, emit_content, push, or_else,
}
use varsten.Payload.Stream.Finish.{
  close_tool_blocks, sorted_blocks, whole_calls, missing_text, missing_calls, conclude,
  finish_stream, finish,
}
use varsten.Payload.Stream.Protocol.{Stage, View, take, accept, accept-append, view_of, blocks_of}
use varsten.Payload.Stream.Blocks.{between, accept-stops, count-sorted_blocks, keys_of}
use varsten.Payload.Stream.Sound.{
  pick-IsSound, IsSteady, IsSound, and_then-IsSound, silent-IsSound, ensure_message_start-IsSound,
  close_text_block-IsSound, eq_self,
}
use varsten.Payload.Stream.Pushes.{emit_content-IsSound, push-IsSound}

missing_text-IsSound :
    (c : Completion) (r : Renderer) → IsSteady true r → IsSound true r (missing_text c r)
missing_text-IsSound c r h =
    pick-IsSound true r.content_started r silent (emit_content c.content) (silent-IsSound true r h)
      (emit_content-IsSound true c.content r h)

close_text_block-none : (r : Renderer) → (close_text_block r).0.text_block_index ≡ none
unfolding close_text_block
close_text_block-none r = elim (Option-cases r.text_block_index) [
  | inl e ↦ rw e refl
  | inr (i, e) ↦ rw e refl
]

closing-IsSound :
    (c : Completion) (r : Renderer)
    → IsSteady false r
    → let r' = record r { closed = true; model = or_else c.model r.model } in
      IsSound true r'
        (and_then (and_then (ensure_message_start c.usage r') (missing_text c)) close_text_block)
closing-IsSound c r h =
    let r' = record r { closed = true; model = or_else c.model r.model } in
    and_then-IsSound true true r' (and_then (ensure_message_start c.usage r') (missing_text c))
      close_text_block
      (and_then-IsSound true true r' (ensure_message_start c.usage r') (missing_text c)
        (ensure_message_start-IsSound c.usage false r' h) (missing_text-IsSound c))
      close_text_block-IsSound

whole_calls-take :
    (cs : List ToolCall) (r : Renderer)
    → accept (whole_calls cs r).1 (between r.next_block_index [])
      ≡ some (between (whole_calls cs r).0.next_block_index [])
unfolding whole_calls and_then accept take
whole_calls-take [] r = refl
whole_calls-take (c ∷ cs) r =
    let i = r.next_block_index in
    let ih = whole_calls-take cs (record r { next_block_index = i + 1 }) in
    rw (eq_self i) (rw (eq_self i) ih)

missing_calls-take :
    (c : Completion) (r : Renderer)
    → accept (missing_calls c r).1 (between r.next_block_index [])
      ≡ some (between (missing_calls c r).0.next_block_index [])
unfolding accept
missing_calls-take c r = go (is_nil r.tool_block_indexes)
  where
    go :
        (b : Bool)
        → let out = (if b then whole_calls c.tool_calls else silent) r in
          accept out.1 (between r.next_block_index []) ≡ some (between out.0.next_block_index [])
    go true = whole_calls-take c.tool_calls r
    go false = refl

steady-view :
    (r : Renderer)
    → IsSteady true r
    → r.text_block_index ≡ none
    → view_of r ≡ between r.next_block_index (blocks_of r.tool_block_indexes)
steady-view r (ks, distinct, started) e = rw (started, e) refl

close_tool_blocks-take :
    (r : Renderer)
    → IsSteady true r
    → r.text_block_index ≡ none
    → accept (close_tool_blocks r).1 (view_of r) ≡ some (between r.next_block_index [])
unfolding close_tool_blocks
close_tool_blocks-take r (ks, distinct, started) e =
    let blocks = r.tool_block_indexes in
    rw (steady-view r (ks, distinct, started) e, ks)
      (accept-stops r.next_block_index (blocks_of blocks) (sorted_blocks blocks (keys_of blocks))
        (λ i. sym (count-sorted_blocks i blocks distinct)))

and_then-take :
    (m : Output) (f : Renderer → Output) (v w u : View)
    → accept m.1 v ≡ some w
    → accept (f m.0).1 w ≡ some u
    → accept (and_then m f).1 v ≡ some u
unfolding and_then
and_then-take (r, es) f v w u h k = accept-append es (f r).1 v w h ∙ k

-- What the client knows in the end.
abbrev pub finished : ℕ → View
finished n = record { stage = Stage.ended; next = n; text = none; tools = [] }

conclude-take :
    (c : Completion) (r : Renderer)
    → accept (conclude c r).1 (between r.next_block_index []) ≡ some (finished r.next_block_index)
unfolding accept take
conclude-take c r = refl

finish_stream-take :
    (c : Completion) (r : Renderer)
    → IsSteady false r
    → (n : ℕ) × (accept (finish_stream c r).1 (view_of r) ≡ some (finished n))
unfolding finish_stream and_then close_tool_blocks close_text_block
finish_stream-take c r h =
    let r' = record r { closed = true; model = or_else c.model r.model } in
    let m = and_then (ensure_message_start c.usage r') (missing_text c) in
    let out = and_then m close_text_block in
    let sound = closing-IsSound c r h in
    let t = out.0 in
    let none_open : t.text_block_index ≡ none = close_text_block-none m.0 in
    let closed_tools =
      and_then-take out close_tool_blocks (view_of r) (view_of t) (between t.next_block_index [])
        sound.2 (close_tool_blocks-take t sound.0 none_open) in
    let out4 = and_then out close_tool_blocks in
    let u = (missing_calls c out4.0).0 in
    let called =
      and_then-take out4 (missing_calls c) (view_of r) (between out4.0.next_block_index [])
        (between u.next_block_index []) closed_tools (missing_calls-take c out4.0) in
    (
      u.next_block_index,
      and_then-take (and_then out4 (missing_calls c)) (conclude c) (view_of r)
          (between u.next_block_index []) (finished u.next_block_index) called (conclude-take c u),
    )

finish-open :
    (c : Completion) (r : Renderer) (w : View)
    → r.closed ≡ false
    → accept (finish_stream c r).1 (view_of r) ≡ some w
    → accept (finish c r).1 (view_of r) ≡ some w
unfolding finish
finish-open c r w e h = go r.closed e
  where
    go :
        (b : Bool)
        → b ≡ false
        → accept (if b then (r, []) else finish_stream c r).1 (view_of r) ≡ some w
    go true e = absurd (ground (arith, e))
    go false e = h

-- Whatever chunks are pushed to a new renderer, they and the finish make one whole message: the client
-- can take every event in turn, and at the end the message has stopped with every block stopped.
pub render-IsMessage :
    (model : String) (cs : List Chunk) (c : Completion)
    → (n : ℕ) × (accept
          (and_then (push cs (new_renderer model)) (finish c)).1
          (view_of (new_renderer model))
        ≡ some (finished n))
unfolding finish
render-IsMessage model cs c =
    let out = push cs (new_renderer model) in
    let sound = push-IsSound cs (new_renderer model) (refl, tt, tt) in
    let done = finish_stream-take c out.0 sound.0 in
    (
      done.0,
      and_then-take out (finish c) (view_of (new_renderer model)) (view_of out.0) (finished done.0)
          sound.2 (finish-open c out.0 (finished done.0) sound.1 done.1),
    )
