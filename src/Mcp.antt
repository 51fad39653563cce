-- ===== src/Mcp.antt =====
-- mcp/: the HTTP routes, the MCP tools and the resource, which call the engines.
pub mod Dump
pub mod Rest
pub mod Tools
pub mod Agreement
pub mod Guard
pub mod Decisions
pub mod Lasting
pub mod Creations
pub mod Shapes
