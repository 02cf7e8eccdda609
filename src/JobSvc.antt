-- ===== src/JobSvc.antt =====
-- services/job_svc: the job queue, its poller and the runner of a job.
pub mod Models
pub mod Jobs
pub mod Orchestrator
pub mod Runner
pub mod Mappers
pub mod Servicer
pub mod Poller
pub mod Messages
pub mod Kinds
pub mod Answers
pub mod Samples
mod Tests
