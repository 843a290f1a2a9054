-- ===== src/Lib.antt =====
-- A model of splitdns, a split-horizon DNS resolver for a trusted LAN, and proofs about it.
--
-- The program answers queries from immutable snapshots (internal/resolver), forwards the rest to
-- upstream resolvers (internal/forwarder) through an answer cache (internal/anscache), and keeps the
-- snapshots current by background workers (internal/mirror, internal/mdns, internal/vhost) under a
-- supervisor (internal/supervisor). internal/ddns alone writes to Cloudflare.
--
-- Which file models which part:
-- - Prelude and its children: shared names, Boolean tests, lists, and Go's clock (Prelude.Clock). An
--   instant is the number of nanoseconds since the zero time.Time; a duration is an integer.
-- - Dns: the fields of a DNS message that the code reads. The DNS library is not modelled.
-- - AnsCache: internal/anscache/anscache.go. Entry has Config, New's defaults, Key and KeyFor; Ttl has
--   cacheable, findSOA, decrementTTL, stampTTL and stripOPT; Elements has the container/list, by
--   pointers; Cache has Lookup, Store, StoreFail, put, Peek, Flush. Its state is the list, the map from
--   keys to list elements and the counters, and Refine relates it to a plain list of entries.
-- - Forwarder.Breaker: internal/forwarder/breaker.go: allow, record, status and what they call.
-- - Forwarder.Upstreams and Tries: internal/forwarder/forwarder.go: tryAll, Forward, ForwardTo and the
--   disabling of upstreams; what the network answers and what the clock reads are the parameter World.
-- - Mdns: internal/mdns/cache.go and trust.go: Hosts has Apply, ApplyService, ApplyInfo and Expire,
--   Trusted the store of signed announcements, View what the resolver reads.
-- - Mirror.Serial: internal/mirror/serial.go. Mirror.Build and Zones: BuildZone of
--   internal/mirror/mirror.go. Mirror.Poller: the cycle of internal/mirror/poller.go.
-- - Netmatch: internal/netmatch/netmatch.go: the sets, the access policy and the address filters; the
--   tests of net/netip on an address are written out from that package's documentation.
-- - Server: internal/server/server.go, over the cache of AnsCache: forwardCached, the rebind filter,
--   respond; Front has ServeDNS, with the resolver's outcomes as arguments. The forwarder's
--   answer is an argument; what is used of the DNS library is the parameter Wire, with the laws IsWire.
-- - LogLimit: internal/loglimit/loglimit.go; the map of seen messages is an association list.
-- - Ddns: internal/ddns. Plan has buildPlan and filterEligibleRecords' record type, Writer has New,
--   Reconcile, apply and the token bucket, Queue has Submit, Audit has audit.go. The record source's
--   answer and the success of each call to Cloudflare are arguments; the texts of addresses and the
--   hash are the parameters Texts and Format.
-- - Supervisor: internal/supervisor/supervisor.go: the turns of superviseWorker's loop, monitor over
--   what its select finds ready, and watchdogTick.
-- - Model: internal/model: what a query reads of the snapshot, the mDNS view and the records, and how a
--   record is handed to the DNS library, which is the parameter Library, with the laws IsLibrary.
-- - Resolver: internal/resolver: Helpers (helpers.go), Zone (zone.go), Dnssd (dnssd.go), and of
--   resolver.go: Scope and Local (mDNS hosts under a zone and on the local plane), Vhost, Reverse, Ddr
--   and Resolve, the decision. The chase of a CNAME chain has the fuel that its guard on the depth
--   leaves; Server.Leaks runs ServeDNS on top of it.
-- - Tests and its children: runs on concrete inputs, and each result at such an input.
--
-- Conventions. A method that changes its receiver returns the new record. A lock is left out, since
-- each modelled method holds it from its first read to its last write; the reading of the clock is an
-- argument; of the loops of the forwarder, one request at a time is modelled. uint32 arithmetic
-- wraps. Counters of 64 bits are numbers: they count events one by one and do not reach their bound;
-- those of the forwarder wrap. Maps are functions or association lists.
--
-- Fuel. The loop of advanceLocked takes as fuel the elapsed nanoseconds and one more, and answers none
-- if it runs out; record_outcome-IsValid shows that it does not when a bucket lasts at least a
-- nanosecond. The eviction loop of put takes the number of elements, and put-refines shows
-- that the list it leaves fits the capacity.
--
-- Not modelled: the clients and backend lists of the forwarder, the snapshots and cache files of
-- the mirror, the receiving of mDNS packets, the transfer of reverse zones, the reading of
-- virtual hosts and the query log, which the modelled parts meet as arguments or not at all;
-- listeners and sockets, HTTP, TLS, configuration files, process supervision by systemd,
-- diagnostics pages, logging, and the libraries under vendor.
pub mod Prelude
pub mod AnsCache
pub mod Mdns
pub mod Mirror
pub mod Netmatch
pub mod Server
pub mod LogLimit
pub mod Ddns
pub mod Supervisor
pub mod Dns
pub mod Model
pub mod Resolver
pub mod Forwarder
mod Tests
