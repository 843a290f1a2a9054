-- ===== src/Resolver.antt =====
-- The resolver of internal/resolver: a pure function of the snapshot, the mDNS view and a query.
pub mod Helpers
pub mod Zone
pub mod Scope
pub mod Local
pub mod Vhost
pub mod Reverse
pub mod Ddr
pub mod Dnssd
pub mod Resolve
pub mod Inherits
