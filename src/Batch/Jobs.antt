-- ===== src/Batch/Jobs.antt =====
-- The life of a batch job: backend/app/proxy/batch.py, backend/app/models/batch.py, and the guards of the
-- endpoint in backend/app/api/v1/batches.py that submits one.
pub mod Life
pub mod Retention
use varsten.Prelude.{
  ℕ, zero, suc, ◌+◌, String, Bool, true, false, not, ◌&&◌, ◌||◌, Option, none, some, List, [], ◌∷◌,
  str_eq, leb, ◌==◌, if◌then◌else◌,
}
use mathlib.Core.List.{◌++◌}
use varsten.Prelude.Int.{ℤ}
use varsten.Batch.Usage.{ModelPrice, OutputLine, BatchUsage, Totals, measure_and_record}

pub data Status : Type 0 where
  created : Status
  submitted : Status
  in_progress : Status
  completed : Status
  finalized : Status
  failed : Status
  cancelled : Status
  expired : Status

pub record BatchJob : Type 0 where
  pub id : String
  pub project_id : String
  pub endpoint : String
  pub completion_window : String
  pub status : Status
  pub input_storage_key : String
  pub output_storage_key : Option String
  pub provider_input_file_id : Option String
  pub provider_batch_id : Option String
  pub provider_output_file_id : Option String
  pub provider_error_file_id : Option String
  pub request_count : ℕ
  pub input_tokens : ℕ
  pub output_tokens : ℕ
  pub actual_cost_usd : Option ℕ
  pub naive_cost_usd : Option ℕ
  pub saved_usd : Option ℤ
  pub submitted_at : Option ℕ
  pub completed_at : Option ℕ
  pub expires_at : Option ℕ
  pub objects_purged_at : Option ℕ

-- `_STATUS_MAP.get(status, default)`
unfoldable pub mapped_status : Option String → Status → Status
mapped_status none default = default
mapped_status (some s) default =
    if str_eq s "validating"
      || str_eq s "in_progress"
      || str_eq s "finalizing"
      || str_eq s "cancelling"
    then Status.in_progress
    else if str_eq s "completed"
    then Status.completed
    else if str_eq s "failed"
    then Status.failed
    else if str_eq s "expired"
    then Status.expired
    else if str_eq s "cancelled"
    then Status.cancelled
    else default

-- `ACTIVE_STATUSES`
abbrev pub is_active : Status → Bool
is_active Status.created = false
is_active Status.submitted = true
is_active Status.in_progress = true
is_active Status.completed = true
is_active Status.finalized = false
is_active Status.failed = false
is_active Status.cancelled = false
is_active Status.expired = false

abbrev pub is_created : Status → Bool
is_created s = elim s [ Status.created ↦ true | _ ↦ false ]

-- `status in (STATUS_FINALIZED, STATUS_FAILED)`
abbrev pub is_settled : Status → Bool
is_settled s = elim s [ Status.finalized ↦ true | Status.failed ↦ true | _ ↦ false ]

abbrev pub is_completed : Status → Bool
is_completed s = elim s [ Status.completed ↦ true | _ ↦ false ]

abbrev pub is_set : Option String → Bool
is_set none = false
is_set (some s) = not (str_eq s "")

-- `a or b`, for ids.
abbrev pub or_id : Option String → Option String → Option String
or_id a b = if is_set a then a else b

-- What the provider says of a batch.
pub record ProviderBatch : Type 0 where
  pub id : Option String
  pub status : Option String
  pub output_file_id : Option String
  pub error_file_id : Option String
  pub total : ℕ

-- The storage keys of `_input_key` and `_output_key`.
pub record StorageKeys : Type 0 where
  pub input_key : String → String → String
  pub output_key : String → String → String

-- `stage_input_job`, for the id that the database gives.
unfoldable pub stage_input_job : StorageKeys → ℕ → String → String → String → String → ℕ → BatchJob
stage_input_job keys ttl id project_id endpoint completion_window now = record {
  id = id;
  project_id = project_id;
  endpoint = endpoint;
  completion_window = completion_window;
  status = Status.created;
  input_storage_key = keys.input_key project_id id;
  output_storage_key = none;
  provider_input_file_id = none;
  provider_batch_id = none;
  provider_output_file_id = none;
  provider_error_file_id = none;
  request_count = 0;
  input_tokens = 0;
  output_tokens = 0;
  actual_cost_usd = none;
  naive_cost_usd = none;
  saved_usd = none;
  submitted_at = none;
  completed_at = none;
  expires_at = some (now + ttl);
  objects_purged_at = none;
}

-- How a submission ends: with the job, a refusal of the endpoint, or the missing input.
pub data Submission : Type 0 where
  job : BatchJob → Submission
  not_performance : Submission
  lever_off : Submission
  already_submitted : Submission
  no_input : Submission

-- `submit_job`, with whether the input is stored, the id of the uploaded file and the new batch.
unfoldable pub submit_job : BatchJob → Bool → String → ProviderBatch → ℕ → Submission
unfolding mapped_status
submit_job j false file_id batch now = no_input
submit_job j true file_id batch now = job (record j {
  provider_input_file_id = some file_id;
  provider_batch_id = batch.id;
  status = mapped_status batch.status Status.submitted;
  submitted_at = some now;
})

-- `create_batch`
unfoldable pub create_batch :
    Bool → Bool → String → String → BatchJob → Bool → String → ProviderBatch → ℕ → Submission
unfolding submit_job
create_batch performance lever_on endpoint completion_window j stored file_id batch now =
    if not performance
    then not_performance
    else if not lever_on
    then lever_off
    else if not (is_created j.status)
    then already_submitted
    else submit_job (record j { endpoint = endpoint; completion_window = completion_window }) stored
        file_id batch now

-- `finalize_job` where nothing raises, with the output that is downloaded: the job and the new rows of
-- the ledger.
unfoldable pub finalize_job :
    StorageKeys → List ModelPrice → BatchJob → List OutputLine → ℕ → BatchJob × List BatchUsage
unfolding measure_and_record
finalize_job keys prices j output at =
    let (t, rows) = measure_and_record prices at output in
    (
      record j {
        output_storage_key = some (keys.output_key j.project_id j.id);
        request_count = if t.request_count == 0 then j.request_count else t.request_count;
        input_tokens = t.input_tokens;
        output_tokens = t.output_tokens;
        actual_cost_usd = t.actual_cost_usd;
        naive_cost_usd = t.naive_cost_usd;
        saved_usd = t.saved_usd;
        status = Status.finalized;
        completed_at = some at;
      },
      rows,
    )

-- Where `finalize_job` raises: before the first row is committed, with whether another commit of the
-- session keeps the new storage key; or after so many rows, each of which is committed on its own, the
-- first with the key.
pub data Failure : Type 0 where
  before_rows : Bool → Failure
  after_rows : ℕ → Failure

unfoldable pub first_rows : ℕ → List BatchUsage → List BatchUsage
first_rows n [] = []
first_rows zero (r ∷ rows) = []
first_rows (suc n) (r ∷ rows) = r ∷ first_rows n rows

-- What a `finalize_job` that raises leaves: the job, whose status stays, and the rows that are committed.
unfoldable pub finalize_failed :
    StorageKeys
    → List ModelPrice
    → BatchJob
    → List OutputLine
    → ℕ
    → Failure
    → BatchJob × List BatchUsage
unfolding measure_and_record first_rows
finalize_failed keys prices j output at (before_rows kept) = (
  if kept then record j { output_storage_key = some (keys.output_key j.project_id j.id) } else j,
  [],
)
finalize_failed keys prices j output at (after_rows n) = (
  record j { output_storage_key = some (keys.output_key j.project_id j.id) },
  first_rows (suc n) (measure_and_record prices at output).1,
)

-- The job after the poll and before it is finalized.
unfoldable pub polled : BatchJob → ProviderBatch → BatchJob
unfolding mapped_status
polled j batch = record j {
  status = mapped_status batch.status j.status;
  provider_output_file_id = or_id batch.output_file_id j.provider_output_file_id;
  provider_error_file_id = or_id batch.error_file_id j.provider_error_file_id;
  request_count = if batch.total == 0 then j.request_count else batch.total;
}

-- `sync_job`, with what the provider would answer and the output that it has.
unfoldable pub sync_job :
    StorageKeys
    → List ModelPrice
    → BatchJob
    → ProviderBatch
    → List OutputLine
    → ℕ
    → BatchJob × List BatchUsage
unfolding polled finalize_job
sync_job keys prices j batch output now =
    if is_settled j.status || not (is_set j.provider_batch_id)
    then (j, [])
    else if is_completed (polled j batch).status && is_set (polled j batch).provider_output_file_id
    then finalize_job keys prices (polled j batch) output now
    else (polled j batch, [])

-- `sync_job` where `finalize_job`, if it is reached, raises: the state of the poll is committed before.
unfoldable pub sync_failed :
    StorageKeys
    → List ModelPrice
    → BatchJob
    → ProviderBatch
    → List OutputLine
    → ℕ
    → Failure
    → BatchJob × List BatchUsage
unfolding polled finalize_failed
sync_failed keys prices j batch output now failure =
    if is_settled j.status || not (is_set j.provider_batch_id)
    then (j, [])
    else if is_completed (polled j batch).status && is_set (polled j batch).provider_output_file_id
    then finalize_failed keys prices (polled j batch) output now failure
    else (polled j batch, [])

-- A due job of `purge_expired_objects`.
abbrev pub is_due : ℕ → BatchJob → Bool
is_due at j = elim j.objects_purged_at [
  | some t ↦ false
  | none ↦ elim j.expires_at [ none ↦ false | some e ↦ leb e at ]
]

-- The keys whose objects are deleted for a job, whether or not the deletion succeeds.
abbrev pub keys_of : BatchJob → List String
keys_of j =
    let input =
      if str_eq j.input_storage_key "" || str_eq j.input_storage_key "pending"
      then []
      else j.input_storage_key ∷ [] in
    elim j.output_storage_key [
      | none ↦ input
      | some k ↦ if str_eq k "" || str_eq k "pending" then input else input ++ (k ∷ [])
    ]

-- `purge_expired_objects`: the jobs, the keys whose deletion is tried, and the number of jobs purged.
unfoldable pub purge_expired_objects : ℕ → List BatchJob → List BatchJob × List String × ℕ
purge_expired_objects at [] = ([], [], 0)
purge_expired_objects at (j ∷ js) =
    let (rest, keys, purged) = purge_expired_objects at js in
    if is_due at j
    then (record j { objects_purged_at = some at } ∷ rest, keys_of j ++ keys, purged + 1)
    else (j ∷ rest, keys, purged)
