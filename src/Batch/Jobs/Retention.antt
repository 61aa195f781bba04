-- ===== src/Batch/Jobs/Retention.antt =====
-- How long the objects of a batch stay in the storage.
use varsten.Prelude.{
  ℕ, ◌+◌, String, ◌≡◌, refl, sym, ap, ◌∙◌, inl, inr, Bool, true, false, not, ◌&&◌, ◌||◌, Option,
  some, List, [], ◌∷◌, arith, if◌then◌else◌, Bool-cases,
}
use mathlib.Core.Path.{subst}
use mathlib.Core.List.{◌++◌}
use varsten.Batch.Usage.{BatchUsage, ModelPrice, OutputLine}
use varsten.Batch.Jobs.{
  Status, mapped_status, or_id, BatchJob, ProviderBatch, StorageKeys, is_settled, is_completed,
  is_set, polled, finalize_job, sync_job, is_due, keys_of, purge_expired_objects,
}

-- The sweep marks every due job, tries the keys of each in order, and counts them.
abbrev pub due_keys : ℕ → List BatchJob → List String
due_keys at [] = []
due_keys at (j ∷ js) = if is_due at j then keys_of j ++ due_keys at js else due_keys at js

abbrev pub due_count : ℕ → List BatchJob → ℕ
due_count at [] = 0
due_count at (j ∷ js) = (if is_due at j then 1 else 0) + due_count at js

purge_lem :
    (at : ℕ) (js : List BatchJob)
    → ((purge_expired_objects at js).1 ≡ due_keys at js)
      × ((purge_expired_objects at js).2 ≡ due_count at js)
unfolding purge_expired_objects
purge_lem at [] = (refl, refl)
purge_lem at (j ∷ js) =
    let (keys, count) = purge_lem at js in
    elim (Bool-cases (is_due at j)) [
      | inl e ↦ rw e (ap (λ ks. keys_of j ++ ks) keys, omega (arith, count))
      | inr e ↦ rw e (keys, omega (arith, count))
    ]

nothing_due : (at : ℕ) (js : List BatchJob) → due_keys at (purge_expired_objects at js).0 ≡ []
unfolding purge_expired_objects
nothing_due at [] = refl
nothing_due at (j ∷ js) = elim (Bool-cases (is_due at j)) [
  | inl e ↦ rw e (nothing_due at js)
  | inr e ↦ rw (e, e) (nothing_due at js)
]

none_counted : (at : ℕ) (js : List BatchJob) → due_count at (purge_expired_objects at js).0 ≡ 0
unfolding purge_expired_objects
none_counted at [] = refl
none_counted at (j ∷ js) = elim (Bool-cases (is_due at j)) [
  | inl e ↦ rw e (omega (arith, none_counted at js))
  | inr e ↦ rw (e, e) (omega (arith, none_counted at js))
]

-- The sweep tries the keys of exactly the due jobs and counts those; a second sweep at the same time
-- tries no key and counts no job.
purge_expired_objects_once :
    (at : ℕ) (js : List BatchJob)
    → ((purge_expired_objects at js).1 ≡ due_keys at js)
      × ((purge_expired_objects at js).2 ≡ due_count at js)
      × ((purge_expired_objects at (purge_expired_objects at js).0).1 ≡ [])
      × ((purge_expired_objects at (purge_expired_objects at js).0).2 ≡ 0)
purge_expired_objects_once at js =
    let first = purge_lem at js in
    let second = purge_lem at (purge_expired_objects at js).0 in
    (first.0, first.1, second.0 ∙ nothing_due at js, second.1 ∙ none_counted at js)

or_id-is_set : (a b : Option String) → is_set a ≡ true → is_set (or_id a b) ≡ true
or_id-is_set a b h = rw (h, h) refl

completes :
    (s : Option String) (d : Status)
    → s ≡ some "completed"
    → is_completed (mapped_status s d) ≡ true
unfolding mapped_status
completes s d e = rw e refl

both_pass :
    {A : Type 0} (a b c d : Bool) (x y z : A)
    → a ≡ false
    → b ≡ true
    → c ≡ true
    → d ≡ true
    → (if a || not b then x else if c && d then y else z) ≡ y
both_pass a b c d x y z h k l m = ground arith

sync_completed :
    (keys : StorageKeys) (prices : List ModelPrice) (j : BatchJob) (batch : ProviderBatch)
    (output : List OutputLine) (now : ℕ)
    → is_settled j.status ≡ false
    → is_set j.provider_batch_id ≡ true
    → batch.status ≡ some "completed"
    → is_set batch.output_file_id ≡ true
    → sync_job keys prices j batch output now ≡ finalize_job keys prices (polled j batch) output now
unfolding sync_job
sync_completed keys prices j batch output now s b c o =
    both_pass (is_settled j.status) (is_set j.provider_batch_id)
      (is_completed (polled j batch).status) (is_set (polled j batch).provider_output_file_id) _ _ _
      s b (unfold polled in completes batch.status j.status c)
      (unfold polled in or_id-is_set batch.output_file_id j.provider_output_file_id o)

purged_not_due : (at t : ℕ) (j : BatchJob) → j.objects_purged_at ≡ some t → is_due at j ≡ false
purged_not_due at t j p = ground arith

-- A job whose input was purged before the batch was complete is finalized with a new object for its
-- output, and no later sweep finds it due: the output is never deleted.
pub late_output_stays :
    (keys : StorageKeys) (prices : List ModelPrice) (j : BatchJob) (batch : ProviderBatch)
    (output : List OutputLine) (now purged_at : ℕ)
    → j.objects_purged_at ≡ some purged_at
    → is_settled j.status ≡ false
    → is_set j.provider_batch_id ≡ true
    → batch.status ≡ some "completed"
    → is_set batch.output_file_id ≡ true
    → let j' = (sync_job keys prices j batch output now).0 in
      (j'.output_storage_key ≡ some (keys.output_key j.project_id j.id))
      × ((at : ℕ) → is_due at j' ≡ false)
unfolding polled finalize_job
late_output_stays keys prices j batch output now purged_at p s b c o =
    subst
      (λ (out : BatchJob × List BatchUsage).
        (out.0.output_storage_key ≡ some (keys.output_key j.project_id j.id))
        × ((at : ℕ) → is_due at out.0 ≡ false))
      (sym (sync_completed keys prices j batch output now s b c o))
      (
        refl,
        λ at.
            purged_not_due at purged_at (finalize_job keys prices (polled j batch) output now).0 p,
      )
