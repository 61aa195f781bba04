-- ===== src/Payload/Stream/Protocol.antt =====
-- What a client of the Anthropic dialect takes as a message.
use varsten.Prelude.{
  ℕ, ◌+◌, ◌≡◌, inl, inr, Bool, true, false, ◌&&◌, Option, none, some, List, [], ◌∷◌, arith, ltb,
  ◌==◌, if◌then◌else◌, Option-cases,
}
use varsten.Payload.Stream.{Event, Renderer, is_nil}
use mathlib.Core.List.{◌++◌}

pub data Stage : Type 0 where
  before : Stage
  running : Stage
  told : Stage
  ended : Stage

-- What the client knows after some events: how far the message is, the next index of a block, and the
-- blocks that are open.
pub record View : Type 0 where
  pub stage : Stage
  pub next : ℕ
  pub text : Option ℕ
  pub tools : List ℕ

abbrev pub count : ℕ → List ℕ → ℕ
count i [] = 0
count i (j ∷ js) = (if i == j then 1 else 0) + count i js

unfoldable pub remove : ℕ → List ℕ → List ℕ
remove i [] = []
remove i (j ∷ js) = if i == j then js else j ∷ remove i js

abbrev pub is_text : ℕ → Option ℕ → Bool
is_text i none = false
is_text i (some j) = i == j

abbrev pub ensure : Bool → View → Option View
ensure b v = if b then some v else none

abbrev pub is_none : Option ℕ → Bool
is_none none = true
is_none (some i) = false

-- An event that the client can take: the message starts once and first; the indexes of the blocks are
-- consecutive, with at most one block of text open at a time; a piece goes to an open block of its kind;
-- only an open block stops; the message is told to end when no block is open, and then stops.
unfoldable pub take : Stage → Event → View → Option View
unfolding remove
take Stage.before (Event.message_start m u) v = some (record v { stage = Stage.running })
take Stage.running (Event.text_start i) v =
    ensure ((i == v.next) && is_none v.text) (record v { next = i + 1; text = some i })
take Stage.running (Event.text_delta i s) v = ensure (is_text i v.text) v
take Stage.running (Event.tool_start i c) v =
    ensure (i == v.next) (record v { next = i + 1; tools = i ∷ v.tools })
take Stage.running (Event.json_delta i s) v = ensure (ltb 0 (count i v.tools)) v
take Stage.running (Event.block_stop i) v =
    if is_text i v.text
    then some (record v { text = none })
    else ensure (ltb 0 (count i v.tools)) (record v { tools = remove i v.tools })
take Stage.running (Event.message_delta reason tokens) v =
    ensure (is_none v.text && is_nil v.tools) (record v { stage = Stage.told })
take Stage.told Event.message_stop v = some (record v { stage = Stage.ended })
take stage e v = none

abbrev pub or_none : Option View → (View → Option View) → Option View
or_none none f = none
or_none (some v) f = f v

-- The client after all of the events, where it can take each.
unfoldable pub accept : List Event → View → Option View
unfolding take
accept [] v = some v
accept (e ∷ es) v = or_none (take v.stage e v) (accept es)

pub accept-append :
    (es fs : List Event) (v w : View) → accept es v ≡ some w → accept (es ++ fs) v ≡ accept fs w
unfolding accept
accept-append [] fs v w h = ground arith
accept-append (e ∷ es) fs v w h = elim (Option-cases (take v.stage e v)) [
  | inl refused ↦ absurd (ground arith)
  | inr (u, taken) ↦ rw (taken, accept) (accept-append es fs u w (ground arith))
]

abbrev pub stage_of : Bool → Stage
stage_of true = Stage.running
stage_of false = Stage.before

abbrev pub blocks_of : List (ℕ × ℕ) → List ℕ
blocks_of [] = []
blocks_of ((k, i) ∷ d) = i ∷ blocks_of d

-- What the client knows of the renderer's events until the tools are closed.
abbrev pub view_of : Renderer → View
view_of r = record {
  stage = stage_of r.message_started;
  next = r.next_block_index;
  text = r.text_block_index;
  tools = blocks_of r.tool_block_indexes;
}
