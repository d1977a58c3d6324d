-- ===== src/Mcp.antt =====
-- internal/mcp: what `locksmith mcp run` does with secret references, and its proxy to a remote server.
pub mod Secrets
pub mod Events
pub mod Transport
pub mod Proxy
