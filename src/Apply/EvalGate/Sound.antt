-- ===== src/Apply/EvalGate/Sound.antt =====
-- What clears the eval gate.
use varsten.Prelude.{
  ◌≤◌, String, ◌≡◌, ◌⊎◌, inl, inr, Bool, true, false, Option, none, some, List, [], ◌∷◌, arith,
  Option-cases, In,
}
use varsten.Apply.Records.{Recommendation, EvalRun, RunStatus, Verdict, is_gated, ok}
use varsten.Apply.EvalGate.{is_run_of, latest_run, assert_appliable}

-- The run is of the recommendation, stands among the runs, and no run of the recommendation is newer.
abbrev pub IsLatest : String → List EvalRun → EvalRun → Type 0
IsLatest rec runs run =
    In run runs
    × (is_run_of rec run ≡ true)
    × ((r : EvalRun) → In r runs → is_run_of rec r ≡ true → r.created_at ≤ run.created_at)

latest_run-none_head :
    (rec : String) (x : EvalRun) (runs : List EvalRun)
    → latest_run rec (x ∷ runs) ≡ none
    → is_run_of rec x ≡ false
unfolding latest_run
latest_run-none_head rec x runs e = ground arith

latest_run-none :
    (rec : String) (runs : List EvalRun) (r : EvalRun)
    → latest_run rec runs ≡ none
    → In r runs
    → is_run_of rec r ≡ false
unfolding latest_run
latest_run-none rec [] r e m = absurd m
latest_run-none rec (x ∷ runs) r e (inl p) = rw p (latest_run-none_head rec x runs e)
latest_run-none rec (x ∷ runs) r e (inr m) = ground (arith, latest_run-none rec runs r)

latest_run-some :
    (rec : String) (runs : List EvalRun) (run : EvalRun)
    → latest_run rec runs ≡ some run
    → In run runs × (is_run_of rec run ≡ true)
unfolding latest_run
latest_run-some rec [] run e = cc
latest_run-some rec (x ∷ runs) run e = elim (Option-cases (latest_run rec runs)) [
  | inl e' ↦ ground arith
  | inr (later, e') ↦ ground (arith, latest_run-some rec runs later e')
]

latest_run-head :
    (rec : String) (x : EvalRun) (runs : List EvalRun) (run : EvalRun)
    → latest_run rec (x ∷ runs) ≡ some run
    → is_run_of rec x ≡ true
    → x.created_at ≤ run.created_at
unfolding latest_run
latest_run-head rec x runs run e h = ground arith

latest_run-newest :
    (rec : String) (runs : List EvalRun) (run r : EvalRun)
    → latest_run rec runs ≡ some run
    → In r runs
    → is_run_of rec r ≡ true
    → r.created_at ≤ run.created_at
unfolding latest_run
latest_run-newest rec [] run r e m h = absurd m
latest_run-newest rec (x ∷ runs) run r e (inl p) h =
    let h' : is_run_of rec x ≡ true = rw p at h in rw p (latest_run-head rec x runs run e h')
latest_run-newest rec (x ∷ runs) run r e (inr m) h = elim (Option-cases (latest_run rec runs)) [
  | inl e' ↦ ground (arith, latest_run-none rec runs r e' m)
  | inr (later, e') ↦ ground (arith, latest_run-newest rec runs later r e' m h)
]

-- If a gated recommendation clears the gate, then on a run of its own that no run of it is newer than,
-- and that is completed with a verdict of safe, or of needs-human where a person applies it.
pub assert_appliable_sound :
    (runs : List EvalRun) (rec : Recommendation) (automated : Bool) (gating : Option EvalRun)
    → is_gated rec.lever ≡ true
    → assert_appliable runs rec automated ≡ ok gating
    → (run : EvalRun) × (gating ≡ some run)
      × IsLatest rec.id runs run
      × (run.status ≡ RunStatus.completed)
      × ((run.verdict ≡ some Verdict.safe)
          ⊎ ((run.verdict ≡ some Verdict.needs_human) × (automated ≡ false)))
unfolding assert_appliable
assert_appliable_sound runs rec automated gating gated e =
    elim (Option-cases (latest_run rec.id runs)) [
      | inl missing ↦ cc
      | inr (run, found) ↦
          let (there, mine) = latest_run-some rec.id runs run found in
          let newest = λ (r : EvalRun) (m : In r runs) (h : is_run_of rec.id r ≡ true).
            latest_run-newest rec.id runs run r found m h in
          (run, ground arith, (there, mine, newest), ground arith, ground arith)
    ]

-- A latest run of a gated recommendation that is completed with a verdict of safe, or of needs-human
-- where a person applies it, clears the gate, which hands that run on.
assert_appliable_complete :
    (runs : List EvalRun) (rec : Recommendation) (automated : Bool) (run : EvalRun)
    → is_gated rec.lever ≡ true
    → latest_run rec.id runs ≡ some run
    → run.status ≡ RunStatus.completed
    → (run.verdict ≡ some Verdict.safe)
      ⊎ ((run.verdict ≡ some Verdict.needs_human) × (automated ≡ false))
    → assert_appliable runs rec automated ≡ ok (some run)
unfolding assert_appliable
assert_appliable_complete runs rec automated run gated found done verdict = ground arith
