-- ===== src/Tunnel.antt =====
-- The two ends of a tunnel: internal/tunnel/tunnel.go, internal/stub/server.go and
-- internal/worker/proxy.go.
pub mod Pumps
pub mod Headers
pub mod Request
pub mod Stream
pub mod Stub
pub mod Proxy
pub mod Handshake
pub mod Exchange
