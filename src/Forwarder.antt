-- ===== src/Forwarder.antt =====
-- The forwarder, internal/forwarder: `Breaker` is the circuit breaker of one upstream.
pub mod Breaker
pub mod Upstreams
pub mod Tries
