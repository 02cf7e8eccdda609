-- ===== src/Aes.antt =====
-- services/agent_execution_service: tasks, the edge-side handles onto the jobs of job_svc.
pub mod Models
pub mod Progress
pub mod Tasks
pub mod Changes
pub mod Snapshots
pub mod Tenancy
pub mod Tools
pub mod Names
pub mod Agents
pub mod Links
pub mod Tests
pub mod Requests
pub mod JobClient
pub mod Refines
pub mod Mappers
pub mod Validators
pub mod Servicer
pub mod Malformed
pub mod Edge
