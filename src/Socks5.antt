-- ===== src/Socks5.antt =====
-- internal/socks5/protocol.go and udp.go: the SOCKS5 wire protocol, for clients and for upstreams.
pub mod Wire
pub mod Server
pub mod Client
pub mod Request
pub mod Labels
pub mod Udp
pub mod Pipe
mod Tests
