-- ===== src/JobSvc/Jobs.antt =====
-- services/job_svc/src/job_svc/services/jobs.py. `Values` has the guards and the assignments of the
-- statements, on one row; `Service` has the methods, over the jobs table. The other children hold
-- the proofs.
pub mod Values
pub mod Service
pub mod Conditions
pub mod Events
pub mod Guarded
pub mod Invariant
pub mod Budget
pub mod Batches
pub mod Operations
pub mod Reaping
pub mod Recovery
