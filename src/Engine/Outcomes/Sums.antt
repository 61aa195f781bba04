-- ===== src/Engine/Outcomes/Sums.antt =====
-- The two loops of `score_optimization_outcomes` of backend/app/engine/outcomes.py as sums over their rows.
use varsten.Prelude.{
  ℕ, String, ◌≡◌, refl, ap, ◌∙◌, Bool, true, false, ◌&&◌, Option, none, some, List, [], ◌∷◌, arith,
  str_eq, if◌then◌else◌,
}
use varsten.Prelude.Dict.{Dict, lookup, lookup-insert}
use varsten.Engine.Outcomes.{
  SegmentKey, SegmentStats, add_decision, add_feedback, DecisionRow, FeedbackRow, segment_key,
  Segments, eq_key, Evidence, counted, add_decisions, told, linked, add_feedbacks,
}
use varsten.Engine.Outcomes.Keys.{find_stats, find-update}

-- The decision is one of the segment's: it has an id, and its key is the segment's.
abbrev pub is_in : SegmentKey → Option SegmentKey → Option String → Bool
is_in k none id = false
is_in k (some key) none = false
is_in k (some key) (some id) = eq_key key k

-- The sum over the decisions with an applied optimization that are the segment's.
abbrev pub over_decisions :
    {A : Type 0} → SegmentKey → (A → DecisionRow → A) → A → List DecisionRow → A
over_decisions k add a [] = a
over_decisions k add a (r ∷ rs) =
    over_decisions k add
      (if r.optimization_applied && is_in k (segment_key r) r.decision_id then add a r else a) rs

abbrev pub relink :
    String
    → Option SegmentKey
    → Option String
    → ℕ
    → Option (SegmentKey × ℕ)
    → Option (SegmentKey × ℕ)
relink id none j w before = before
relink id (some key) none w before = before
relink id (some key) (some j) w before = if str_eq j id then some (key, w) else before

-- The key and the weight of the last decision with the id.
abbrev pub last_decision :
    String → Option (SegmentKey × ℕ) → List DecisionRow → Option (SegmentKey × ℕ)
last_decision id before [] = before
last_decision id before (r ∷ rs) =
    last_decision id
      (if r.optimization_applied
        then relink id (segment_key r) r.decision_id r.weight before
        else before)
      rs

abbrev pub hear :
    {A : Type 0} → SegmentKey → (A → String → ℕ → A) → String → A → Option (SegmentKey × ℕ) → A
hear k add outcome a none = a
hear k add outcome a (some (key, w)) = if eq_key key k then add a outcome w else a

abbrev pub link_of : (String → Option (SegmentKey × ℕ)) → Option String → Option (SegmentKey × ℕ)
link_of link none = none
link_of link (some id) = link id

-- The sum over the feedback whose decision is the segment's.
abbrev pub over_feedback :
    {A : Type 0}
    → (String → Option (SegmentKey × ℕ))
    → SegmentKey
    → (A → String → ℕ → A)
    → A
    → List FeedbackRow
    → A
over_feedback link k add a [] = a
over_feedback link k add a (f ∷ fs) =
    over_feedback link k add (hear k add f.outcome a (link_of link f.decision_id)) fs

-- A quantity of the statistics to which a decision and a reply each add.
module _ {A : Type 0} (k : SegmentKey) (get : SegmentStats → A) (by_decision : A → DecisionRow → A)
    (by_reply : A → String → ℕ → A)
    (decided : (r : DecisionRow) (s : SegmentStats)
      → get (add_decision r.savings r.quality_ok r.weight s) ≡ by_decision (get s) r)
    (replied : (outcome id : String) (w : ℕ) (s : SegmentStats)
      → get (add_feedback outcome id w s) ≡ by_reply (get s) outcome w) where
  counted_sum :
      (applied : Bool) (key : Option SegmentKey) (id : Option String) (r : DecisionRow)
      (e : Evidence)
      → get (find_stats k (if applied then counted key id r e else e).segments) ≡ (
          if applied && is_in k key id
          then by_decision (get (find_stats k e.segments)) r
          else get (find_stats k e.segments))
  counted_sum false key id r e = refl
  counted_sum true none id r e = refl
  counted_sum true (some key) none r e = refl
  counted_sum true (some key) (some id) r e =
      ap get (find-update k key (add_decision r.savings r.quality_ok r.weight) e.segments)
      ∙ pick (eq_key key k) (find_stats k e.segments)
    where
      pick :
          (b : Bool) (s : SegmentStats)
          → get (if b then add_decision r.savings r.quality_ok r.weight s else s)
            ≡ (if b then by_decision (get s) r else get s)
      pick true s = decided r s
      pick false s = refl

  pub decisions_sum :
      (rs : List DecisionRow) (e : Evidence)
      → get (find_stats k (add_decisions rs e).segments)
        ≡ over_decisions k by_decision (get (find_stats k e.segments)) rs
  unfolding add_decisions
  decisions_sum [] e = refl
  decisions_sum (r ∷ rs) e =
      decisions_sum rs
        (if r.optimization_applied then counted (segment_key r) r.decision_id r e else e)
      ∙ ap (λ a. over_decisions k by_decision a rs)
          (counted_sum r.optimization_applied (segment_key r) r.decision_id r e)

  told_sum :
      (found : Option (SegmentKey × ℕ)) (id outcome : String) (segments : Segments)
      → get (find_stats k (told found id outcome segments))
        ≡ hear k by_reply outcome (get (find_stats k segments)) found
  told_sum none id outcome segments = refl
  told_sum (some (key, w)) id outcome segments =
      ap get (find-update k key (add_feedback outcome id w) segments)
      ∙ pick (eq_key key k) (find_stats k segments)
    where
      pick :
          (b : Bool) (s : SegmentStats)
          → get (if b then add_feedback outcome id w s else s)
            ≡ (if b then by_reply (get s) outcome w else get s)
      pick true s = replied outcome id w s
      pick false s = refl

  linked_sum :
      (decisions : Dict (SegmentKey × ℕ)) (link : String → Option (SegmentKey × ℕ))
      (id : Option String) (outcome : String) (segments : Segments)
      → ((j : String) → lookup j decisions ≡ link j)
      → get (find_stats k (linked decisions id outcome segments))
        ≡ hear k by_reply outcome (get (find_stats k segments)) (link_of link id)
  linked_sum decisions link none outcome segments h = refl
  linked_sum decisions link (some id) outcome segments h =
      told_sum (lookup id decisions) id outcome segments
      ∙ ap (hear k by_reply outcome (get (find_stats k segments))) (h id)

  pub feedback_sum :
      (decisions : Dict (SegmentKey × ℕ)) (link : String → Option (SegmentKey × ℕ))
      (fs : List FeedbackRow) (segments : Segments)
      → ((j : String) → lookup j decisions ≡ link j)
      → get (find_stats k (add_feedbacks decisions fs segments))
        ≡ over_feedback link k by_reply (get (find_stats k segments)) fs
  unfolding add_feedbacks
  feedback_sum decisions link [] segments h = refl
  feedback_sum decisions link (f ∷ fs) segments h =
      feedback_sum decisions link fs (linked decisions f.decision_id f.outcome segments) h
      ∙ ap (λ a. over_feedback link k by_reply a fs)
          (linked_sum decisions link f.decision_id f.outcome segments h)

links_row :
    (j : String) (applied : Bool) (key : Option SegmentKey) (id : Option String) (r : DecisionRow)
    (e : Evidence)
    → lookup j (if applied then counted key id r e else e).decision_segments ≡ (
        if applied
        then relink j key id r.weight (lookup j e.decision_segments)
        else lookup j e.decision_segments)
links_row j false key id r e = refl
links_row j true none id r e = refl
links_row j true (some key) none r e = refl
links_row j true (some key) (some id) r e = lookup-insert id j (key, r.weight) e.decision_segments

pub links :
    (j : String) (rs : List DecisionRow) (e : Evidence)
    → lookup j (add_decisions rs e).decision_segments
      ≡ last_decision j (lookup j e.decision_segments) rs
unfolding add_decisions
links j [] e = refl
links j (r ∷ rs) e =
    links j rs (if r.optimization_applied then counted (segment_key r) r.decision_id r e else e)
    ∙ ap (λ b. last_decision j b rs)
        (links_row j r.optimization_applied (segment_key r) r.decision_id r e)

pub no_decisions :
    {A : Type 0} (k : SegmentKey) (a : A) (rs : List DecisionRow)
    → over_decisions k (λ x r. x) a rs ≡ a
no_decisions k a [] = refl
no_decisions k a (r ∷ rs) =
    ap (λ x. over_decisions k (λ y q. y) x rs) (either _ a) ∙ no_decisions k a rs
  where
    either : {A : Type 0} (b : Bool) (a : A) → (if b then a else a) ≡ a
    either true a = refl
    either false a = refl

pub no_feedback :
    {A : Type 0} (link : String → Option (SegmentKey × ℕ)) (k : SegmentKey) (a : A)
    (fs : List FeedbackRow)
    → over_feedback link k (λ x o w. x) a fs ≡ a
no_feedback link k a [] = refl
no_feedback link k a (f ∷ fs) =
    ap (λ x. over_feedback link k (λ y o w. y) x fs) (unheard (link_of link f.decision_id))
    ∙ no_feedback link k a fs
  where
    unheard : (found : Option (SegmentKey × ℕ)) → hear k (λ y o w. y) f.outcome a found ≡ a
    unheard none = refl
    unheard (some (key, w)) = ground arith
