-- ===== src/Resolver/Resolve.antt =====
-- `Resolve` of internal/resolver/resolver.go: the precedence of the planes, and the decision to forward.
-- The snapshot and the view are not nil, as its contract has it.
pub mod Shielded
pub mod Public
pub mod Stays
pub mod Forwards
use splitdns.Prelude.{
  ℕ, Bool, true, false, ◌&&◌, ◌||◌, not, Option, none, some, List, [], ◌∷◌, ◌++◌, if◌then◌else◌,
  ltb, ◌==◌, length,
}
use splitdns.Dns.{Name, name_eq, to_lower, Question, Msg, type_any, rcode_name_error}
use splitdns.Model.{get, slice, member, ModelRr, Zone, DdrAdvert, Snapshot, MdnsView}
use splitdns.Model.Render.{Library}
use splitdns.Resolver.Helpers.{
  Outcome, answered, to_upstream, stubbed, authoritative_reply, err_reply, is_arpa, is_suffix_label,
  longest_suffix, longest_zone_suffix, relative_owner, append_matching, is_empty,
}
use splitdns.Resolver.Zone.{type_a, type_aaaa, is_address, is_some, exists_at, answer_authoritative}
use splitdns.Resolver.Scope.{local_scope_addrs, mdns_zone_reply}
use splitdns.Resolver.Local.{
  recover_local_host, local_host_addrs, fill_local_addrs, local_recovered_zone_reply,
  nxdomain_zone_soa, local_label,
}
use splitdns.Resolver.Vhost.{is_vhost_candidate, vhost_reply}
use splitdns.Resolver.Reverse.{answer_reverse}
use splitdns.Resolver.Ddr.{in_resolver_arpa, resolver_arpa, ddr_adn_reply, minimal_any}
use splitdns.Resolver.Dnssd.{answer_dnssd}

abbrev pub rcode_format_error : ℕ
rcode_format_error = 1

-- `answerStatic`; none where the name is not a static one
unfoldable pub answer_static : Library → Snapshot → Msg → Name → ℕ → Option Outcome
unfolding get authoritative_reply append_matching
answer_static lib snap req name qtype = elim (get name snap.static) [
  | none ↦ none
  | some recs ↦ some (answered (append_matching lib (authoritative_reply lib req) recs name qtype))
]

-- `stubMatch`: the targets of the longest stub zone that the name is in
unfoldable pub stub_match : Snapshot → Name → List Name
unfolding longest_suffix get
stub_match snap name =
    let best = longest_suffix name [] snap.stub_zones in
    if is_empty best then [] else slice (get best snap.stub_zones)

-- the end of `answerLocal`, with the addresses of a host
unfoldable pub answer_found :
    Library → Msg → Name → Name → ℕ → List ModelRr × List ModelRr × Bool → Outcome
unfolding fill_local_addrs
answer_found lib resp name host qtype (v4s, v6s, restricted) =
    let solicited = not restricted && (is_address qtype || qtype == type_any) in
    if is_empty v4s && is_empty v6s
    then record {
      msg = some (record resp { rcode = rcode_name_error });
      forward = false;
      stub = [];
      local_miss = solicited;
      local_label = if solicited then host else [];
    }
    else answered (fill_local_addrs lib resp name qtype v4s v6s)

-- the end of `answerLocal`, for a host
unfoldable pub answer_host : Library → Snapshot → MdnsView → Msg → Name → Name → ℕ → Outcome
unfolding local_host_addrs answer_found
answer_host lib snap view resp name host qtype =
    answer_found lib resp name host qtype (local_host_addrs lib snap view host false)

-- `answerLocal`
unfoldable pub answer_local : Library → Snapshot → MdnsView → Msg → Name → Name → ℕ → Outcome
unfolding authoritative_reply answer_dnssd recover_local_host answer_host
answer_local lib snap view req name label qtype =
    let resp = authoritative_reply lib req in
    elim (if snap.serve_dnssd then answer_dnssd view resp name label qtype else none) [
      | some m ↦ answered m
      | none ↦ elim ((recover_local_host snap name).0) [
        | none ↦ answered (record resp { rcode = rcode_name_error })
        | some host ↦ answer_host lib snap view resp name host qtype
      ]
    ]

-- steps 6c and 7 of `answerZoneOrVHost`, on a zone that is not nil
unfoldable pub recovered_or_zone :
    Library → Snapshot → MdnsView → Msg → Name → Name → ℕ → Zone → Msg
unfolding recover_local_host exists_at member local_recovered_zone_reply nxdomain_zone_soa
    answer_authoritative
recovered_or_zone lib snap view req name owner qtype zone =
    if (recover_local_host snap name).1
      && (not (exists_at zone owner) && not (member owner zone.ent))
    then elim ((recover_local_host snap name).0) [
      | some host ↦ local_recovered_zone_reply lib snap view req name host qtype zone
      | none ↦ nxdomain_zone_soa lib req zone
    ]
    else answer_authoritative lib req (some zone) name owner qtype

-- steps 6b, 6c and 7 of `answerZoneOrVHost`, on a zone that is not nil
unfoldable pub overlay_or_zone : Library → Snapshot → MdnsView → Msg → Name → Name → ℕ → Zone → Msg
unfolding exists_at member get local_scope_addrs mdns_zone_reply recovered_or_zone
overlay_or_zone lib snap view req name owner qtype zone =
    let local = local_scope_addrs lib (slice (get owner view.forward)) in
    if (not (exists_at zone owner) && not (member name snap.ddns_eligible)) && not (is_empty local)
    then mdns_zone_reply lib zone req name qtype local
    else recovered_or_zone lib snap view req name owner qtype zone

-- the pointer that a map of pointers holds; nil where there is none
abbrev pub pointer : {A : Type 0} → Option (Option A) → Option A
pointer none = none
pointer (some z) = z

-- `answerZoneOrVHost`
unfoldable pub answer_zone_or_vhost : Library → Snapshot → MdnsView → Msg → Name → Name → ℕ → Msg
unfolding get relative_owner is_vhost_candidate vhost_reply overlay_or_zone answer_authoritative
answer_zone_or_vhost lib snap view req name apex qtype =
    let owner = relative_owner name apex in
    let zone = pointer (get apex snap.zones) in
    if is_vhost_candidate snap apex owner
    then vhost_reply lib snap req name owner qtype zone
    else elim zone [
      | none ↦ answer_authoritative lib req none name owner qtype
      | some z ↦ overlay_or_zone lib snap view req name owner qtype z
    ]

-- steps 5 to 8 of `Resolve`: a stub zone, a mirrored zone, else the public resolvers
unfoldable pub resolve_public : Library → Snapshot → MdnsView → Msg → Name → ℕ → Outcome
unfolding stub_match longest_zone_suffix answer_zone_or_vhost minimal_any
resolve_public lib snap view req name qtype =
    let targets = stub_match snap name in
    let apex = longest_zone_suffix name snap.zones in
    if ltb 0 (length targets)
    then stubbed targets
    else if not (is_empty apex)
    then answered (answer_zone_or_vhost lib snap view req name apex qtype)
    else if qtype == type_any
    then answered (minimal_any lib req name)
    else to_upstream

-- steps 2 to 8 of `Resolve`
unfoldable pub resolve_planes : Library → Snapshot → MdnsView → Msg → Name → ℕ → Outcome
unfolding answer_static is_arpa answer_reverse local_label answer_local resolve_public
resolve_planes lib snap view req name qtype = elim (answer_static lib snap req name qtype) [
  | some out ↦ out
  | none ↦
      if is_arpa name
      then answer_reverse lib snap view req name qtype
      else elim (local_label snap name) [
        | some lbl ↦ answer_local lib snap view req name lbl qtype
        | none ↦ resolve_public lib snap view req name qtype
      ]
]

-- the name is that of the designated resolver
unfoldable pub is_adn : DdrAdvert → Name → Bool
unfolding name_eq
is_adn d name = not (is_empty d.adn) && name_eq name d.adn

-- step 1c of `Resolve`, and those after it
unfoldable pub resolve_adn : Library → Snapshot → MdnsView → Msg → Name → ℕ → Outcome
unfolding is_adn ddr_adn_reply resolve_planes
resolve_adn lib snap view req name qtype = elim snap.ddr [
  | none ↦ resolve_planes lib snap view req name qtype
  | some d ↦
      if is_adn d name
      then answered (ddr_adn_reply lib d req name qtype)
      else resolve_planes lib snap view req name qtype
]

-- `Resolve`, on the name in lower case and the type of the question
unfoldable pub resolve_name : Library → Snapshot → MdnsView → Msg → Name → ℕ → Outcome
unfolding in_resolver_arpa resolver_arpa resolve_adn
resolve_name lib snap view req name qtype =
    if in_resolver_arpa name
    then answered (resolver_arpa lib snap req name qtype)
    else resolve_adn lib snap view req name qtype

-- `Resolve`
unfoldable pub resolve : Library → Snapshot → MdnsView → Msg → Outcome
unfolding to_lower resolve_name
resolve lib snap view req = elim req.question [
  | q ∷ [] ↦ resolve_name lib snap view req (to_lower (lib.fqdn q.name)) q.qtype
  | _ ↦ answered (err_reply lib req rcode_format_error)
]
