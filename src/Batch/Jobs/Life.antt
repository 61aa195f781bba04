-- ===== src/Batch/Jobs/Life.antt =====
-- Histories of a batch job: what it is billed for, and when.
use varsten.Prelude.{
  ℕ, ◌+◌, ◌≤◌, String, ◌≡◌, ◌⊎◌, Bool, true, false, not, ◌||◌, some, List, [], ◌∷◌, if◌then◌else◌,
  length,
}
use mathlib.Core.List.{◌++◌}
use varsten.Batch.Usage.{ModelPrice, OutputLine, BatchUsage, Totals, measure_and_record}
use varsten.Batch.Jobs.{
  Status, BatchJob, ProviderBatch, StorageKeys, Submission, job, not_performance, lever_off,
  already_submitted, no_input, is_active, create_batch, sync_job, is_due, Failure, first_rows,
  sync_failed,
}

-- What happens to a job: a client submits it, a client or the poller syncs it, also so that finalizing
-- it raises, which the poller swallows and the next sync tries again; the sweep of the storage passes.
pub data Event : Type 0 where
  submits :
      (performance lever_on : Bool) (endpoint completion_window : String) (stored : Bool)
      (file_id : String) (batch : ProviderBatch) (now : ℕ)
      → Event
  syncs : List ModelPrice → ProviderBatch → List OutputLine → ℕ → Event
  polls : List ModelPrice → ProviderBatch → List OutputLine → ℕ → Event
  fails :
      (by_poller : Bool) → List ModelPrice → ProviderBatch → List OutputLine → ℕ → Failure → Event
  sweeps : ℕ → Event

-- The job after a submission, which a refusal leaves alone.
abbrev pub submitted_or : BatchJob → Submission → BatchJob
submitted_or j (job j') = j'
submitted_or j not_performance = j
submitted_or j lever_off = j
submitted_or j already_submitted = j
submitted_or j no_input = j

-- The job after an event, and the rows that the event adds to the ledger.
unfoldable pub happens : StorageKeys → Event → BatchJob → BatchJob × List BatchUsage
happens keys (submits performance lever_on endpoint window stored file_id batch now) j = (
  submitted_or j (create_batch performance lever_on endpoint window j stored file_id batch now),
  [],
)
happens keys (syncs prices batch output now) j = sync_job keys prices j batch output now
happens keys (polls prices batch output now) j =
    if is_active j.status then sync_job keys prices j batch output now else (j, [])
happens keys (fails by_poller prices batch output now failure) j =
    if not by_poller || is_active j.status
    then sync_failed keys prices j batch output now failure
    else (j, [])
happens keys (sweeps at) j =
    (if is_due at j then record j { objects_purged_at = some at } else j, [])

unfoldable pub history : StorageKeys → List Event → BatchJob → BatchJob × List BatchUsage
unfolding happens
history keys [] j = (j, [])
history keys (e ∷ es) j =
    let (j', rows) = happens keys e j in
    let (last, more) = history keys es j' in (last, rows ++ more)

abbrev pub is_finalized : Status → Bool
is_finalized s = elim s [ Status.finalized ↦ true | _ ↦ false ]

-- The job carries the totals of a measured output.
abbrev pub HasTotals : BatchJob → Totals → Type 0
HasTotals j t =
    (j.input_tokens ≡ t.input_tokens)
    × (j.output_tokens ≡ t.output_tokens)
    × (j.actual_cost_usd ≡ t.actual_cost_usd)
    × (j.naive_cost_usd ≡ t.naive_cost_usd)
    × (j.saved_usd ≡ t.saved_usd)

-- A call of `finalize_job` that raised after it had committed some rows of a measured output.
pub record Attempt : Type 0 where
  pub prices : List ModelPrice
  pub at : ℕ
  pub output : List OutputLine
  pub rows : ℕ

-- The rows that such calls have committed, one call after the other.
unfoldable pub committed : List Attempt → List BatchUsage
unfolding measure_and_record first_rows
committed [] = []
committed (a ∷ more) =
    first_rows a.rows (measure_and_record a.prices a.at a.output).1 ++ committed more

abbrev pub failures : List Event → ℕ
failures [] = 0
failures (fails by_poller prices batch output now failure ∷ es) = failures es + 1
failures (submits performance lever_on endpoint window stored file_id batch now ∷ es) = failures es
failures (syncs prices batch output now ∷ es) = failures es
failures (polls prices batch output now ∷ es) = failures es
failures (sweeps at ∷ es) = failures es

-- In the ledger are, for a job, the rows of at most so many failed attempts; and, once it is finalized,
-- after these the rows of one measured output.
abbrev pub IsBilled : ℕ → BatchJob → List BatchUsage → Type 0
IsBilled n j rows =
    (lost : List Attempt) × (length lost ≤ n)
    × (((is_finalized j.status ≡ false) × (rows ≡ committed lost))
        ⊎ ((is_finalized j.status ≡ true)
            × ((prices : List ModelPrice) × (at : ℕ) × (output : List OutputLine) × (rows
                  ≡ committed lost ++ (measure_and_record prices at output).1)
                × HasTotals j (measure_and_record prices at output).0)))

abbrev IsLive : BatchJob → Type 0
IsLive j = is_finalized j.status ≡ false

-- From a job that is not finalized on.
module _ (keys : StorageKeys) where
  -- A finalized job changes only when its objects are purged.
  abbrev IsSame : BatchJob → BatchJob → Type 0
  IsSame j k =
      (k.status ≡ j.status)
      × (k.input_tokens ≡ j.input_tokens)
      × (k.output_tokens ≡ j.output_tokens)
      × (k.actual_cost_usd ≡ j.actual_cost_usd)
      × (k.naive_cost_usd ≡ j.naive_cost_usd)
      × (k.saved_usd ≡ j.saved_usd)
