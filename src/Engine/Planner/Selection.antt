-- ===== src/Engine/Planner/Selection.antt =====
-- What `select_action` selects.
use varsten.Prelude.{
  String, ◌≡◌, refl, inl, inr, Bool, true, false, Option, none, some, List, [], ◌∷◌, arith,
  if◌then◌else◌, Option-cases,
}
use varsten.Prelude.Dict.{Dict, lookup}
use varsten.Engine.Types.{
  CandidateStatus, CandidateOptimization, Mode, SelectedAction, selection_priority,
}
use varsten.Engine.Planner.{
  is_enforceable, is_shadow_only, by_lever, action_of, observe, select_shadow, select_from,
  select_action,
}

-- The first lever, in order, whose candidate passes the test, with the candidate.
abbrev pub first_where :
    (CandidateStatus → Bool)
    → Dict CandidateOptimization
    → List String
    → Option (String × CandidateOptimization)
first_where test d [] = none
first_where test d (lever ∷ levers) = elim (lookup lever d) [
  | none ↦ first_where test d levers
  | some c ↦ if test c.status then some (lever, c) else first_where test d levers
]

-- The shadow candidate at the end: the one at hand, or else the first of the levers.
abbrev pub shadow_of :
    Option CandidateOptimization
    → Dict CandidateOptimization
    → List String
    → Option CandidateOptimization
shadow_of (some s) d levers = some s
shadow_of none d levers = elim (first_where is_shadow_only d levers) [
  | none ↦ none
  | some (_, c) ↦ some c
]

-- Two passes over the levers: the first enforceable candidate, or else the first shadow one.
abbrev pub two_passes :
    Dict CandidateOptimization → Option CandidateOptimization → List String → SelectedAction
two_passes d shadow levers = elim (first_where is_enforceable d levers) [
  | some (lever, c) ↦ action_of Mode.enforce lever c
  | none ↦ select_shadow (shadow_of shadow d levers)
]

select_from-two_passes :
    (d : Dict CandidateOptimization) (shadow : Option CandidateOptimization) (levers : List String)
    → select_from d shadow levers ≡ two_passes d shadow levers
unfolding select_from
select_from-two_passes d none [] = refl
select_from-two_passes d (some s) [] = refl
select_from-two_passes d none (lever ∷ levers) = elim (Option-cases (lookup lever d)) [
  | inl e ↦ ground (arith, select_from-two_passes d none levers)
  | inr (c, e) ↦
      ground (arith, select_from-two_passes d none levers, select_from-two_passes d (some c) levers)
]
select_from-two_passes d (some s) (lever ∷ levers) =
    ground (arith, select_from-two_passes d (some s) levers)

-- The one loop of the planner selects what two passes over the levers in their priority do: nothing
-- where optimization is off; else the first lever whose candidate may be enforced; else the first
-- candidate that is only a shadow; else nothing.
pub select_action-two_passes :
    (candidates : List CandidateOptimization) (optimize_enabled : Bool)
    → select_action candidates optimize_enabled ≡ (
        if optimize_enabled
        then two_passes (by_lever candidates []) none selection_priority
        else observe "optimization_disabled")
unfolding select_action
select_action-two_passes candidates true =
    select_from-two_passes (by_lever candidates []) none selection_priority
select_action-two_passes candidates false = refl
