-- ===== src/Balancer.antt =====
-- internal/balancer: the pool of upstreams with their slots, and the queue of requests that wait for
-- one (balancer.go, queue.go).
pub mod Pool
pub mod Queue
pub mod Reload
pub mod Session
pub mod Manager
pub mod Health
pub mod Frontend
mod Tests
