-- ===== src/Tests.antt =====
-- Runs of the modelled code on concrete inputs, and the theorems at such inputs.
mod Mirror
mod Forwarder
mod Upstreams
mod Zones
mod Mdns
mod AnsCache
mod Library
mod Resolver
mod Planes
mod Netmatch
mod Server
mod LogLimit
mod Ddns
mod Audit
mod Supervisor
