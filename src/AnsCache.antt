-- ===== src/AnsCache.antt =====
-- The forward-path answer cache, internal/anscache/anscache.go: `Entry` has its data, `Ttl` the
-- functions on times to live, `Elements` the linked list, `Cache` the operations,
-- `Serving` what is served and for how long.
pub mod Entry
pub mod Ttl
pub mod Elements
pub mod Cache
pub mod Serving
