-- ===== src/Gateway.antt =====
-- services/gateway: what a request must satisfy before the model sees it, and the two providers.
pub mod Guardrails
pub mod Models
pub mod Zen
pub mod OpenAi
pub mod Servicer
pub mod Screening
pub mod Classes
pub mod Tests
