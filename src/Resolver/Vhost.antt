-- ===== src/Resolver/Vhost.antt =====
-- The redirect to the reverse proxy of internal/resolver/resolver.go: virtual hosts, www and the apex.
use splitdns.Prelude.{
  ℕ, Bool, false, ◌&&◌, ◌||◌, not, Option, none, some, List, [], ◌∷◌, ◌++◌, if◌then◌else◌, ltb,
  ◌==◌,
}
use splitdns.Netmatch.{Addr, is_valid}
use splitdns.Dns.{Name, name_eq, Msg, Rr, type_any, rcode_success}
use splitdns.Model.{get, member, ByType, of_type, rrsets, Zone, Snapshot}
use splitdns.Model.Render.{Library}
use splitdns.Resolver.Helpers.{
  authoritative_reply, append_matching, addr_rr, is_empty, label_count, set_negative_soa,
}
use splitdns.Resolver.Zone.{type_a, type_aaaa, append_all}
use splitdns.Resolver.Scope.{is_binding, override_stripped}

abbrev pub vhost_ttl : ℕ
vhost_ttl = 60

abbrev pub www : Name
www = (b'w' ∷ b'w' ∷ b'w' ∷ [])

-- `isVHostCandidate`
unfoldable pub is_vhost_candidate : Snapshot → Name → Name → Bool
unfolding member name_eq label_count
is_vhost_candidate snap apex owner =
    if member apex snap.excluded
    then false
    else if not (is_valid snap.vhost_v4) && not (is_valid snap.vhost_v6)
    then false
    else if not (is_empty owner) && ltb 1 (label_count owner)
    then false
    else is_empty owner || (name_eq owner www || member owner snap.vhosts)

-- `vhostInherited`
unfoldable pub vhost_inherited : Option Zone → Name → ByType
unfolding get
vhost_inherited none owner = []
vhost_inherited (some zone) [] = rrsets (get [] zone.records)
vhost_inherited (some zone) (_ ∷ _) = zone.wildcards

-- the address record of the proxy; a nil record would be appended as nil, and is left out here
unfoldable pub proxy : Library → Name → ℕ → Addr → List Rr
unfolding addr_rr
proxy lib name qtype ip = elim (addr_rr lib name qtype (lib.show_addr ip) vhost_ttl) [
  | none ↦ []
  | some rr ↦ rr ∷ []
]

-- the end of `vhostReply`: NODATA
unfoldable pub vhost_nodata : Library → Msg → Option Zone → Msg
unfolding set_negative_soa
vhost_nodata lib resp none = resp
vhost_nodata lib resp (some zone) = set_negative_soa lib resp zone.soa zone.apex rcode_success

abbrev add : Msg → List Rr → Msg
add resp rrs = record resp { answer = resp.answer ++ rrs }

-- the functional ANY of `vhostReply`: the addresses of the proxy, then what is inherited
unfoldable pub vhost_any : Library → Snapshot → Msg → Name → ByType → Msg
unfolding proxy append_all override_stripped
vhost_any lib snap resp name inherited =
    let with4 =
      if is_valid snap.vhost_v4 then add resp (proxy lib name type_a snap.vhost_v4) else resp in
    let with6 =
      if is_valid snap.vhost_v6
      then add with4 (proxy lib name type_aaaa snap.vhost_v6)
      else with4 in
    append_all lib with6 override_stripped inherited name

-- `vhostReply`
unfoldable pub vhost_reply : Library → Snapshot → Msg → Name → Name → ℕ → Option Zone → Msg
unfolding authoritative_reply proxy vhost_nodata vhost_any vhost_inherited of_type append_matching
vhost_reply lib snap req name owner qtype zone =
    let resp = authoritative_reply lib req in
    let all = vhost_any lib snap resp name (vhost_inherited zone owner) in
    let rrs = of_type qtype (vhost_inherited zone owner) in
    if qtype == type_a
    then if is_valid snap.vhost_v4
      then add resp (proxy lib name type_a snap.vhost_v4)
      else vhost_nodata lib resp zone
    else if qtype == type_aaaa
    then if is_valid snap.vhost_v6
      then add resp (proxy lib name type_aaaa snap.vhost_v6)
      else vhost_nodata lib resp zone
    else if is_binding qtype
    then vhost_nodata lib resp zone
    else if qtype == type_any
    then if not (is_empty all.answer) then all else vhost_nodata lib all zone
    else if not (is_empty rrs)
    then append_matching lib resp rrs name qtype
    else vhost_nodata lib resp zone
