-- ===== src/Tests/Jobs.antt =====
-- Batch jobs at concrete inputs.
use varsten.Prelude.{ℕ, ◌≡◌, refl, true, false, none, some, List, [], ◌∷◌}
use varsten.Prelude.Int.{pos, ◌-ℤ◌}
use varsten.Batch.Usage.{
  ModelPrice, OutputLine, blank, no_json, row, BatchUsage, measure_and_record,
}
use varsten.Batch.Jobs.{Status, BatchJob, ProviderBatch, StorageKeys, sync_job, is_due, after_rows}
use varsten.Batch.Jobs.Life.{Event, submits, syncs, polls, fails, sweeps}
use varsten.Batch.Jobs.Retention.{late_output_stays}

abbrev price : ModelPrice
price = record {
  model_key = "gpt-4o";
  provider = "openai";
  effective_at = 5;
  input_cost_per_token = 10;
  output_cost_per_token = 40;
  input_cost_per_token_batch = some 5;
  output_cost_per_token_batch = some 20;
}

abbrev lines : List OutputLine
lines = row (some "gpt-4o") 3 2 ∷ blank ∷ no_json ∷ row none 9 9 ∷ row (some "other") 1 1 ∷ []

lines-saved : (measure_and_record (price ∷ []) 9 lines).0.saved_usd ≡ some (pos 55)
unfolding measure_and_record varsten.Batch.Usage.measure_model varsten.Batch.Usage.measure_priced
    varsten.Batch.Usage.latest_model_price varsten.Batch.Usage.price_usage
    varsten.Batch.Usage.add_usage ◌-ℤ◌
lines-saved = refl

abbrev storage : StorageKeys
storage = record { input_key = λ p j. "in"; output_key = λ p j. "out" }

abbrev staged : BatchJob
staged = record {
  id = "j";
  project_id = "p";
  endpoint = "/v1/chat/completions";
  completion_window = "24h";
  status = Status.created;
  input_storage_key = "in";
  output_storage_key = none;
  provider_input_file_id = none;
  provider_batch_id = none;
  provider_output_file_id = none;
  provider_error_file_id = none;
  request_count = 0;
  input_tokens = 0;
  output_tokens = 0;
  actual_cost_usd = none;
  naive_cost_usd = none;
  saved_usd = none;
  submitted_at = none;
  completed_at = none;
  expires_at = some 72;
  objects_purged_at = none;
}

abbrev done : ProviderBatch
done = record {
  id = some "b";
  status = some "completed";
  output_file_id = some "f";
  error_file_id = none;
  total = 2;
}

abbrev events : List Event
events =
    submits true true "/v1/chat/completions" "24h" true "f"
      (record done { status = some "validating" }) 1
    ∷ fails true (price ∷ []) done lines 8 (after_rows 0)
    ∷ polls (price ∷ []) done lines 9
    ∷ sweeps 80
    ∷ syncs (price ∷ []) done lines 99
    ∷ []

abbrev purged : BatchJob
purged = record staged {
  status = Status.in_progress;
  provider_batch_id = some "b";
  objects_purged_at = some 80;
}

late_output_stays_example :
    let j' = (sync_job storage (price ∷ []) purged done lines 90).0 in
    (j'.output_storage_key ≡ some "out") × ((at : ℕ) → is_due at j' ≡ false)
late_output_stays_example =
    late_output_stays storage (price ∷ []) purged done lines 90 80 refl refl refl refl refl
