-- ===== src/McpSvc.antt =====
-- services/mcp_svc: the tool server, its catalog gate and its two handlers.
pub mod Handlers
pub mod Server
pub mod Bounds
pub mod Tests
pub mod Scoping
