-- ===== src/Resolver/Scope.antt =====
-- Which addresses of an mDNS host are served under a mirrored zone's name, and what such a name
-- inherits from the wildcard: `localScopeAddrs` and `mdnsZoneReply` of internal/resolver/resolver.go.
use splitdns.Prelude.{
  ℕ, Bool, true, false, ◌&&◌, ◌||◌, not, none, some, List, ◌++◌, if◌then◌else◌, ◌==◌, filter,
}
use splitdns.Netmatch.{
  Addr, invalid, v4, v6, unmap, no_zone, is_loopback, is_private, is_link_local_unicast,
  is_multicast, is_global_unicast,
}
use splitdns.Dns.{Name, Msg, type_any, rcode_success}
use splitdns.Model.{ModelRr, of_type, Zone}
use splitdns.Model.Render.{Library}
use splitdns.Resolver.Helpers.{authoritative_reply, append_matching, is_empty, set_negative_soa}
use splitdns.Resolver.Zone.{type_a, type_cname, type_aaaa, is_address, append_all}

-- `Addr.IsUnspecified`
unfoldable pub is_unspecified : Addr → Bool
is_unspecified invalid = false
is_unspecified (v4 n) = n == 0
is_unspecified (v6 n z) = n == 0 && no_zone z

-- `isServable`; the other tests of net/netip turn an IPv4-mapped address to IPv4 first
unfoldable pub is_servable : Addr → Bool
unfolding unmap is_loopback is_link_local_unicast is_multicast is_unspecified
is_servable ip =
    let u = unmap ip in
    not (is_loopback u)
    && (not (is_link_local_unicast u) && (not (is_multicast u) && not (is_unspecified ip)))

-- `Addr.Is6`
abbrev is_6 : Addr → Bool
is_6 (v6 _ _) = true
is_6 _ = false

-- `isLocalScope`
unfoldable pub is_local_scope : Addr → Bool
unfolding unmap is_servable is_private is_global_unicast
is_local_scope ip =
    if not (is_servable ip)
    then false
    else if is_private (unmap ip)
    then true
    else is_6 ip && is_global_unicast (unmap ip)

-- an announced record of a family whose address passes a test
unfoldable pub of_family : Library → ℕ → (Addr → Bool) → ModelRr → Bool
of_family lib qtype test r =
    if not (r.rtype == qtype)
    then false
    else elim (lib.parse_addr r.content) [ none ↦ false | some ip ↦ test ip ]

-- `preferLocal`, on one family
unfoldable pub prefer_local : Library → ℕ → List ModelRr → List ModelRr
unfolding is_servable is_local_scope of_family
prefer_local lib qtype recs =
    let loc = filter (of_family lib qtype (λ ip. is_servable ip && is_local_scope ip)) recs in
    let all = filter (of_family lib qtype is_servable) recs in
    if not (is_empty loc) then loc else all

-- `localScopeAddrs`
unfoldable pub local_scope_addrs : Library → List ModelRr → List ModelRr
unfolding prefer_local
local_scope_addrs lib recs = prefer_local lib type_a recs ++ prefer_local lib type_aaaa recs

abbrev pub type_svcb : ℕ
type_svcb = 64

abbrev pub type_https : ℕ
type_https = 65

-- CNAME, HTTPS and SVCB
abbrev pub is_binding : ℕ → Bool
is_binding t = t == type_cname || (t == type_https || t == type_svcb)

-- `overrideStripped`
unfoldable pub override_stripped : ℕ → Bool
override_stripped t = is_address t || is_binding t

-- `mdnsZoneReply`
unfoldable pub mdns_zone_reply : Library → Zone → Msg → Name → ℕ → List ModelRr → Msg
unfolding authoritative_reply append_matching append_all override_stripped of_type set_negative_soa
mdns_zone_reply lib zone req name qtype recs =
    let resp = authoritative_reply lib req in
    let filled =
      if is_address qtype
      then append_matching lib resp recs name qtype
      else if is_binding qtype
      then resp
      else append_matching lib resp (of_type qtype zone.wildcards) name qtype in
    if qtype == type_any
    then append_all lib (append_matching lib resp recs name type_any) override_stripped
        zone.wildcards name
    else if is_empty filled.answer
    then set_negative_soa lib filled zone.soa zone.apex rcode_success
    else filled
