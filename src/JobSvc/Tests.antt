-- ===== src/JobSvc/Tests.antt =====
-- The theorems about job_svc at concrete jobs, and tests of the definitions.
mod Service
mod Running
mod Messages
