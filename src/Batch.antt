-- ===== src/Batch.antt =====
-- backend/app/proxy/batch.py: what the output of a batch cost and saved, and the life of a batch job.
pub mod Usage
pub mod Jobs
