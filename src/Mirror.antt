-- ===== src/Mirror.antt =====
-- The Cloudflare mirror, internal/mirror: `Serial` has the SOA serial comparison, `Build` and
-- `Zones` the making of a zone, `Poller` the cycle of polls.
pub mod Serial
pub mod Build
pub mod Zones
pub mod Poller
