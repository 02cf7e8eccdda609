-- ===== src/Orchestrator.antt =====
-- services/orchestrator: the tools that an agent may call and how a run ends.
pub mod Workbench
pub mod Chat
pub mod Gate
pub mod ModelClient
pub mod Wire
pub mod Slugs
pub mod Tests
pub mod AgentsRepo
pub mod GroupChat
pub mod Team
pub mod Granted
pub mod Unapproved
pub mod Seats
pub mod Servicer
pub mod Precondition
