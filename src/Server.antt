-- ===== src/Server.antt =====
-- server/app/mcp_server.py: the tools and what they share.
pub mod Env
pub mod Context
pub mod Scope
pub mod Render
pub mod Search
pub mod Write
pub mod Tools
pub mod Logic
pub mod Request
pub mod History
pub mod Board
pub mod Registry
pub mod App
