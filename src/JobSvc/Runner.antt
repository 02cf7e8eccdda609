-- ===== src/JobSvc/Runner.antt =====
-- services/job_svc/src/job_svc/runner.py. `Plan` has the parser of the planner's reply, `World` what
-- the runner works on, and `Execute` the methods of `JobRunner`; the other children hold the proofs.
pub mod Plan
pub mod World
pub mod Execute
pub mod Calls
pub mod Keeps
pub mod Outcomes
pub mod Records
pub mod Approval
