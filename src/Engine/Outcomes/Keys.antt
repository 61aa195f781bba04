-- ===== src/Engine/Outcomes/Keys.antt =====
-- The segments of backend/app/engine/outcomes.py by their keys.
use varsten.Prelude.{
  ◌≡◌, refl, sym, ap, ◌∙◌, ◌↔◌, inl, inr, Bool, true, ◌&&◌, [], ◌∷◌, arith, eq_iff, if◌then◌else◌,
  Bool-cases, str_eq_self,
}
use mathlib.Core.Path.{subst}
use varsten.Engine.Outcomes.{SegmentKey, SegmentStats, new_stats, Segments, eq_key, update_segment}

-- The statistics of a key, new ones if it has no segment.
abbrev pub find_stats : SegmentKey → Segments → SegmentStats
find_stats k [] = new_stats
find_stats k ((j, s) ∷ segments) = if eq_key j k then s else find_stats k segments

eight :
    {p0 p1 p2 p3 p4 p5 p6 p7 : Bool}
    → (p0 && p1 && p2 && p3 && p4 && p5 && p6 && p7) ≡ true
    → (p0 ≡ true)
      × (p1 ≡ true)
      × (p2 ≡ true)
      × (p3 ≡ true)
      × (p4 ≡ true)
      × (p5 ≡ true)
      × (p6 ≡ true)
      × (p7 ≡ true)
eight h = ground arith

all_eight :
    {p0 p1 p2 p3 p4 p5 p6 p7 : Bool}
    → p0 ≡ true
    → p1 ≡ true
    → p2 ≡ true
    → p3 ≡ true
    → p4 ≡ true
    → p5 ≡ true
    → p6 ≡ true
    → p7 ≡ true
    → (p0 && p1 && p2 && p3 && p4 && p5 && p6 && p7) ≡ true
all_eight h0 h1 h2 h3 h4 h5 h6 h7 = ground arith

eq_key_self : (a : SegmentKey) → eq_key a a ≡ true
eq_key_self a =
    all_eight (str_eq_self a.route_key) (str_eq_self a.task_type) (str_eq_self a.risk_level)
      (str_eq_self a.provider_requested) (str_eq_self a.model_requested)
      (str_eq_self a.provider_chosen) (str_eq_self a.model_chosen) (str_eq_self a.lever)

pub eq_key_iff : (a b : SegmentKey) → (eq_key a b ≡ true) ↔ (a ≡ b)
eq_key_iff a b = (
  λ h.
      let (p0, p1, p2, p3, p4, p5, p6, p7) = eight h in
      λ i. record {
        route_key = (eq_iff a.route_key b.route_key).0 p0 i;
        task_type = (eq_iff a.task_type b.task_type).0 p1 i;
        risk_level = (eq_iff a.risk_level b.risk_level).0 p2 i;
        provider_requested = (eq_iff a.provider_requested b.provider_requested).0 p3 i;
        model_requested = (eq_iff a.model_requested b.model_requested).0 p4 i;
        provider_chosen = (eq_iff a.provider_chosen b.provider_chosen).0 p5 i;
        model_chosen = (eq_iff a.model_chosen b.model_chosen).0 p6 i;
        lever = (eq_iff a.lever b.lever).0 p7 i;
      },
  λ e. subst (λ x. eq_key a x ≡ true) e (eq_key_self a),
)

pub find-update :
    (k key : SegmentKey) (f : SegmentStats → SegmentStats) (segments : Segments)
    → find_stats k (update_segment key f segments)
      ≡ (if eq_key key k then f (find_stats k segments) else find_stats k segments)
unfolding update_segment
find-update k key f [] = refl
find-update k key f ((j, s) ∷ segments) = elim (Bool-cases (eq_key j key)) [
  | inl e ↦
      let same : j ≡ key = (eq_key_iff j key).0 e in
      let both : eq_key j k ≡ eq_key key k = ap (λ x. eq_key x k) same in
      rw e (elim (Bool-cases (eq_key key k)) [
        | inl h ↦ rw h (rw (both ∙ h) refl)
        | inr h ↦ rw h (rw (both ∙ h) refl)
      ])
  | inr e ↦ rw e (elim (Bool-cases (eq_key j k)) [
    | inl h ↦ elim (Bool-cases (eq_key key k)) [
      | inl g ↦
          let same : j ≡ key = (eq_key_iff j k).0 h ∙ sym ((eq_key_iff key k).0 g) in
          let bad : eq_key j key ≡ true = (eq_key_iff j key).1 same in absurd (cc)
      | inr g ↦ rw h (rw g refl)
    ]
    | inr h ↦ rw h (find-update k key f segments)
  ])
]
