-- ===== src/Acp.antt =====
-- The engine for the Agent Client Protocol: engine/acp.
pub mod Conn
pub mod Dispatch
pub mod Turn
pub mod Updates
