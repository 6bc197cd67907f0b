-- ===== src/Mcp.antt =====
-- The MCP server command, in cmd/agentrun-mcp: its session store and its input checks.
pub mod Store
pub mod Security
