-- ===== src/Resolver/Local.antt =====
-- The local plane of internal/resolver/resolver.go: a host that the mDNS view knows, under .local, the
-- local domain, or as a search-list artifact under a mirrored zone; and who may place its addresses.
pub mod Recovery
pub mod Trust
use splitdns.Prelude.{
  ℕ, zero, suc, Bool, true, false, ◌&&◌, ◌||◌, not, Option, none, some, List, [], ◌∷◌, ◌++◌,
  if◌then◌else◌, ltb, ◌==◌, any, filter,
}
use splitdns.Dns.{
  Name, name_eq, before_suffix, trim_suffix, Msg, type_any, rcode_success, rcode_name_error,
}
use splitdns.Model.{get, slice, member, ModelRr, Zone, Snapshot, MdnsView}
use splitdns.Model.Render.{Library}
use splitdns.Resolver.Helpers.{
  authoritative_reply, longest_zone_suffix, append_matching, is_empty, set_negative_soa, dots,
}
use splitdns.Resolver.Zone.{type_a, type_aaaa}
use splitdns.Resolver.Scope.{is_servable, is_local_scope}

-- `stripMember`: the name without the member, or none where it does not match; `m` is the member with
-- its dot, and what stands before ".m" keeps a dot at its end
unfoldable pub strip_member : Name → Name → Option Name
unfolding before_suffix
strip_member fqdn m = elim (before_suffix fqdn (b'.' ∷ m)) [
  | none ↦ none
  | some p ↦ some (p ++ (b'.' ∷ []))
]

-- `host + "."`
abbrev dotted : Name → Name
dotted n = n ++ (b'.' ∷ [])

abbrev pub local_text : Name
local_text = (b'l' ∷ b'o' ∷ b'c' ∷ b'a' ∷ b'l' ∷ [])

-- one pass of the loop of `recoverLocalHost`: what is left, and whether a local suffix was taken off;
-- none where nothing is
unfoldable pub strip_one : Snapshot → Name → Option (Name × Bool)
unfolding strip_member longest_zone_suffix trim_suffix
strip_one snap cur =
    let zone = longest_zone_suffix cur snap.zones in
    elim (strip_member cur (dotted local_text)) [
      | some h ↦ some (h, true)
      | none ↦
          elim (if is_empty snap.local_domain
            then none
            else strip_member cur (dotted snap.local_domain)) [
              | some h ↦ some (h, true)
              | none ↦
                  elim (if is_empty zone
                    then none
                    else strip_member cur (dotted (trim_suffix zone (b'.' ∷ [])))) [
                      | some h ↦ some (h, false)
                      | none ↦ none
                    ]
            ]
    ]

-- the loop of `recoverLocalHost`: what is left, whether a local suffix was among what was taken off,
-- and whether anything was
unfoldable pub strip_all : Snapshot → ℕ → Name → Bool → Bool → Name × Bool × Bool
unfolding strip_one
strip_all snap zero cur tainted stripped = (cur, tainted, stripped)
strip_all snap (suc passes) cur tainted stripped = elim (strip_one snap cur) [
  | none ↦ (cur, tainted, stripped)
  | some (h, local) ↦ strip_all snap passes h (tainted || local) true
]

-- `strings.HasPrefix` of an underscore
abbrev underscored : Name → Bool
underscored [] = false
underscored (c ∷ _) = c == b'_'

-- the tests of `recoverLocalHost` on the label that is left
unfoldable pub is_host_label : Snapshot → Name → Bool
unfolding name_eq dots
is_host_label snap label =
    if is_empty label || (ltb 0 (dots label) || underscored label)
    then false
    else if name_eq label local_text
        || (not (is_empty snap.local_domain) && name_eq label snap.local_domain)
    then false
    else true

-- `recoverLocalHost`: the host, if one is recovered, and whether the name is tainted
unfoldable pub recover_local_host : Snapshot → Name → Option Name × Bool
unfolding strip_all trim_suffix is_host_label
recover_local_host snap name =
    let (cur, tainted, stripped) = strip_all snap 8 name false false in
    let label = trim_suffix cur (b'.' ∷ []) in
    if not stripped
    then (none, false)
    else if is_host_label snap label
    then (some label, tainted)
    else (none, tainted)

-- `restrictedLabel`
unfoldable pub restricted_label : Snapshot → Name → Bool
unfolding name_eq member
restricted_label snap host =
    if name_eq host (b'w' ∷ b'w' ∷ b'w' ∷ []) || member host snap.vhosts
    then true
    else any (λ z. member (host ++ (b'.' ∷ z.0)) snap.ddns_eligible) snap.zones

-- an announced record of a family that may be served
unfoldable pub is_candidate : Library → ℕ → Bool → ModelRr → Bool
unfolding is_servable is_local_scope
is_candidate lib qtype local_scope_only r =
    if not (r.rtype == qtype) then false else elim (lib.parse_addr r.content) [
      | none ↦ false
      | some ip ↦ is_servable ip && not (local_scope_only && not (is_local_scope ip))
    ]

-- `localServeAddrs`
unfoldable pub local_serve_addrs : Library → MdnsView → Name → ℕ → Bool → Bool → List ModelRr
unfolding get is_candidate
local_serve_addrs lib view host qtype restricted local_scope_only =
    let found = filter (is_candidate lib qtype local_scope_only) (slice (get host view.forward)) in
    let trusted = filter (λ r. r.trusted) found in
    let self = filter (λ r. not r.trusted) found in
    if not (is_empty trusted) then trusted else if restricted then [] else self

-- `localHostAddrs`: A and AAAA records, and whether the name is restricted
unfoldable pub local_host_addrs :
    Library → Snapshot → MdnsView → Name → Bool → List ModelRr × List ModelRr × Bool
unfolding restricted_label local_serve_addrs
local_host_addrs lib snap view host local_scope_only =
    let restricted = restricted_label snap host in
    (
      local_serve_addrs lib view host type_a restricted local_scope_only,
      local_serve_addrs lib view host type_aaaa restricted local_scope_only,
      restricted,
    )

-- `fillLocalAddrs`
unfoldable pub fill_local_addrs : Library → Msg → Name → ℕ → List ModelRr → List ModelRr → Msg
unfolding append_matching
fill_local_addrs lib resp name qtype v4s v6s =
    if qtype == type_a
    then append_matching lib resp v4s name type_a
    else if qtype == type_aaaa
    then append_matching lib resp v6s name type_aaaa
    else if qtype == type_any
    then append_matching lib (append_matching lib resp v4s name type_a) v6s name type_aaaa
    else resp

-- `localRecoveredZoneReply`, with the addresses of the host
unfoldable pub recovered_reply :
    Library → Msg → Name → ℕ → Zone → List ModelRr × List ModelRr × Bool → Msg
unfolding authoritative_reply fill_local_addrs set_negative_soa
recovered_reply lib req name qtype zone (v4s, v6s, _) =
    let resp = authoritative_reply lib req in
    let filled = fill_local_addrs lib resp name qtype v4s v6s in
    if is_empty v4s && is_empty v6s
    then set_negative_soa lib resp zone.soa zone.apex rcode_name_error
    else if is_empty filled.answer
    then set_negative_soa lib filled zone.soa zone.apex rcode_success
    else filled

-- `localRecoveredZoneReply`: under a mirrored zone, addresses of the site only
unfoldable pub local_recovered_zone_reply :
    Library → Snapshot → MdnsView → Msg → Name → Name → ℕ → Zone → Msg
unfolding local_host_addrs recovered_reply
local_recovered_zone_reply lib snap view req name host qtype zone =
    recovered_reply lib req name qtype zone (local_host_addrs lib snap view host true)

-- `nxdomainZoneSOA`
unfoldable pub nxdomain_zone_soa : Library → Msg → Zone → Msg
unfolding authoritative_reply set_negative_soa
nxdomain_zone_soa lib req zone =
    set_negative_soa lib (authoritative_reply lib req) zone.soa zone.apex rcode_name_error

-- `localLabel`: the label under .local or the local domain
unfoldable pub local_label : Snapshot → Name → Option Name
unfolding before_suffix
local_label snap name =
    elim (before_suffix name (b'.' ∷ b'l' ∷ b'o' ∷ b'c' ∷ b'a' ∷ b'l' ∷ b'.' ∷ [])) [
      | some lbl ↦ some lbl
      | none ↦
          if is_empty snap.local_domain
          then none
          else before_suffix name (b'.' ∷ (snap.local_domain ++ (b'.' ∷ [])))
    ]
