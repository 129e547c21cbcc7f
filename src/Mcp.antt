-- ===== src/Mcp.antt =====
-- The MCP gateway: server configurations, public tool names, and the aggregator of upstream servers
-- (internal/mcpgateway).
pub mod Naming
pub mod Server
pub mod Aggregator
