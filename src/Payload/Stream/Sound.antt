-- ===== src/Payload/Stream/Sound.antt =====
-- The events of the renderer follow the protocol.
use varsten.Prelude.{
  ℕ, ◌+◌, ◌≤◌, String, ◌≡◌, refl, ap, ◌∙◌, inl, inr, Bool, true, false, Option, none, some, [], ◌∷◌,
  arith, str_eq, ◌==◌, if◌then◌else◌, Bool-cases,
}
use varsten.Payload.Stream.{
  Usage, ToolCall, Event, Renderer, Output, and_then, no_usage, ensure_message_start, text_block,
  emit_text, close_text_block, find, tool_block, silent, arguments_event,
}
use varsten.Payload.Stream.Protocol.{
  accept, accept-append, view_of, take, stage_of, Stage, count, blocks_of,
}
use varsten.Payload.Stream.Blocks.{keys_of, IsDistinct, find-In, ltb-true}

abbrev pub IsStarted : Bool → Renderer → Type 0
IsStarted true r = r.message_started ≡ true
IsStarted false r = Unit

-- The open tools are those that have a block, each has one, and the message has started where that is
-- asked.
abbrev pub IsSteady : Bool → Renderer → Type 0
IsSteady s r =
    (r.open_tool_indexes ≡ keys_of r.tool_block_indexes)
    × IsDistinct r.tool_block_indexes
    × IsStarted s r

-- The client takes the events and then knows what the renderer holds, which is closed as before.
abbrev pub IsSound : Bool → Renderer → Output → Type 0
IsSound s r out =
    IsSteady s out.0 × (out.0.closed ≡ r.closed) × (accept out.1 (view_of r) ≡ some (view_of out.0))

pub and_then-IsSound :
    (s t : Bool) (r : Renderer) (m : Output) (f : Renderer → Output)
    → IsSound s r m
    → ((r' : Renderer) → IsSteady s r' → IsSound t r' (f r'))
    → IsSound t r (and_then m f)
unfolding and_then
and_then-IsSound s t r (r1, es) f (steady, same, taken) h =
    let next = h r1 steady in
    (next.0, next.1 ∙ same, accept-append es (f r1).1 (view_of r) (view_of r1) taken ∙ next.2)

pub weaken : (s : Bool) (r : Renderer) → IsSteady s r → IsSteady false r
weaken s r h = (h.0, h.1, tt)

pub silent-IsSound : (s : Bool) (r : Renderer) → IsSteady s r → IsSound s r (silent r)
unfolding accept
silent-IsSound s r h = (h, refl, refl)

pub pick-IsSound :
    (s b : Bool) (r : Renderer) (f g : Renderer → Output)
    → IsSound s r (f r)
    → IsSound s r (g r)
    → IsSound s r ((if b then f else g) r)
pick-IsSound s true r f g h k = h
pick-IsSound s false r f g h k = k

pub ensure_message_start-IsSound :
    (usage : Usage) (s : Bool) (r : Renderer)
    → IsSteady s r
    → IsSound true r (ensure_message_start usage r)
unfolding ensure_message_start accept take
ensure_message_start-IsSound usage s r (ks, distinct, started) = go r.message_started refl
  where
    go :
        (b : Bool)
        → r.message_started ≡ b
        → IsSound true r (
            if b
            then (r, [])
            else (record r { message_started = true }, Event.message_start r.model usage ∷ []))
    go true e = ((ks, distinct, e), refl, refl)
    go false e = ((ks, distinct, refl), refl, rw e refl)

started-stage : (r : Renderer) → IsSteady true r → stage_of r.message_started ≡ Stage.running
started-stage r (ks, distinct, started) = ap stage_of started

pub eq_self : (n : ℕ) → (n == n) ≡ true
eq_self n = ground arith

text_block-IsSound :
    (text : String) (r : Renderer) → IsSteady true r → IsSound true r (text_block text r)
unfolding text_block accept take
text_block-IsSound text r h = go r.text_block_index refl
  where
    go :
        (o : Option ℕ)
        → r.text_block_index ≡ o
        → IsSound true r (elim o [
          | some i ↦ (r, Event.text_delta i text ∷ [])
          | none ↦
              let i = r.next_block_index in
              (
                record r {
                  text_block_index = some i;
                  next_block_index = i + 1;
                  content_started = true;
                },
                Event.text_start i ∷ Event.text_delta i text ∷ [],
              )
        ])
    go none e = (
      h,
      refl,
      rw (started-stage r h, e, eq_self r.next_block_index) (rw (eq_self r.next_block_index) refl),
    )
    go (some i) e = (h, refl, rw (started-stage r h, e, eq_self i) refl)

pub emit_text-IsSound :
    (text : String) (s : Bool) (r : Renderer) → IsSteady s r → IsSound true r (emit_text text r)
unfolding emit_text
emit_text-IsSound text s r h =
    and_then-IsSound true true r (ensure_message_start no_usage r) (text_block text)
      (ensure_message_start-IsSound no_usage s r h) (text_block-IsSound text)

pub close_text_block-IsSound :
    (r : Renderer) → IsSteady true r → IsSound true r (close_text_block r)
unfolding close_text_block accept take
close_text_block-IsSound r h = go r.text_block_index refl
  where
    go :
        (o : Option ℕ)
        → r.text_block_index ≡ o
        → IsSound true r (elim o [
          | none ↦ (r, [])
          | some i ↦ (record r { text_block_index = none }, Event.block_stop i ∷ [])
        ])
    go none e = (h, refl, refl)
    go (some i) e = (h, refl, rw (started-stage r h, e, eq_self i) refl)

-- A piece of an open tool's arguments.
arguments-IsSound :
    (i : ℕ) (text : String) (r : Renderer)
    → IsSteady true r
    → 1 ≤ count i (blocks_of r.tool_block_indexes)
    → IsSound true r (r, arguments_event i text)
unfolding accept take
arguments-IsSound i text r h k = (
  h,
  refl,
  elim (Bool-cases (str_eq text "")) [
    | inl e ↦ rw e refl
    | inr e ↦ rw (e, started-stage r h, ltb-true k) refl
  ],
)

pub tool_block-IsSound :
    (k : ℕ) (slot : ToolCall) (text : String) (r : Renderer)
    → IsSteady true r
    → IsSound true r (tool_block (find k r.tool_block_indexes) k slot text r)
unfolding accept take
tool_block-IsSound k slot text r h = go (find k r.tool_block_indexes) refl
  where
    go :
        (o : Option ℕ)
        → find k r.tool_block_indexes ≡ o
        → IsSound true r (tool_block o k slot text r)
    go (some i) e = arguments-IsSound i text r h (find-In k i r.tool_block_indexes e)
    go none e =
        let (ks, distinct, started) = h in
        let i = r.next_block_index in
        let r' : Renderer = record r {
          next_block_index = i + 1;
          tool_block_indexes = (k, i) ∷ r.tool_block_indexes;
          open_tool_indexes = k ∷ r.open_tool_indexes;
        } in
        let steady : IsSteady true r' = (ap (λ js. k ∷ js) ks, (e, distinct), started) in
        let one : 1 ≤ count i (i ∷ blocks_of r.tool_block_indexes) = rw (eq_self i) (omega arith) in
        let pieces = (arguments-IsSound i text r' steady one).2 in
        (steady, refl, rw (started-stage r h, eq_self i) (rw (started-stage r h) at pieces))
