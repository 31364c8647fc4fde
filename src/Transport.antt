-- ===== src/Transport.antt =====
-- internal/transport: byte streams to the upstreams.
pub mod Stream
pub mod Exec
pub mod Command
pub mod Kubernetes
