-- ===== src/Resolver/Zone.antt =====
-- internal/resolver/zone.go: the authoritative answer from a mirrored zone: the exact owner, the
-- wildcard, the flattened addresses, the chain of CNAME records within the zone, and the negatives.
pub mod Wildcards
pub mod Negatives
pub mod Chain
use splitdns.Prelude.{
  ℕ, zero, suc, Bool, true, false, ◌&&◌, ◌||◌, not, Option, none, some, List, [], ◌∷◌, ◌++◌,
  if◌then◌else◌, ◌==◌,
}
use splitdns.Dns.{Name, Msg, Rr, type_any, rcode_success, rcode_server_failure, rcode_name_error}
use splitdns.Model.{get, member, ModelRr, ByType, of_type, Zone, rrsets}
use splitdns.Model.Render.{Library}
use splitdns.Resolver.Helpers.{
  authoritative_reply, is_suffix_label, relative_owner, matching, append_matching, is_empty,
  set_negative_soa,
}

abbrev pub type_a : ℕ
type_a = 1

abbrev pub type_cname : ℕ
type_cname = 5

abbrev pub type_aaaa : ℕ
type_aaaa = 28

abbrev pub is_address : ℕ → Bool
is_address qtype = qtype == type_a || qtype == type_aaaa

-- `maxCNAMEChain`
abbrev pub max_cname_chain : ℕ
max_cname_chain = 8

abbrev pub is_some : {A : Type 0} → Option A → Bool
is_some none = false
is_some (some _) = true

-- `targetOf`
unfoldable pub target_of : Library → ModelRr → Name
target_of lib r = if not (is_empty r.target) then lib.fqdn r.target else lib.fqdn r.content

-- the RRset of a type at an owner
unfoldable pub rrset : Zone → Name → ℕ → List ModelRr
unfolding get of_type
rrset zone owner qtype = of_type qtype (rrsets (get owner zone.records))

-- the flattened addresses of a type at an owner
unfoldable pub tunnel : Zone → Name → ℕ → List ModelRr
unfolding get of_type
tunnel zone owner qtype = of_type qtype (rrsets (get owner zone.tunnel_addr))

-- the owner has records of its own, or flattened addresses
unfoldable pub exists_at : Zone → Name → Bool
unfolding get
exists_at zone owner = is_some (get owner zone.records) || is_some (get owner zone.tunnel_addr)

-- what `chaseCNAME` appends; the fuel is what is left up to its guard on `depth`
unfoldable pub chase : Library → Zone → Name → Name → ℕ → ℕ → List Rr
unfolding rrset tunnel target_of matching is_suffix_label relative_owner
chase lib zone owner name qtype zero = []
chase lib zone owner name qtype (suc fuel) = elim (rrset zone owner type_cname) [
  | [] ↦ []
  | c ∷ cn ↦
      let target = target_of lib c in
      let t_owner = relative_owner target zone.apex in
      let link = matching lib (c ∷ cn) name type_cname in
      let onward = chase lib zone t_owner target qtype fuel in
      if not (is_suffix_label target zone.apex)
      then link
      else if not (is_empty (rrset zone t_owner qtype))
      then link ++ matching lib (rrset zone t_owner qtype) target qtype
      else if is_address qtype && not (is_empty (tunnel zone t_owner qtype))
      then link ++ matching lib (tunnel zone t_owner qtype) target qtype
      else if not (is_empty (rrset zone t_owner type_cname))
      then link ++ onward
      else link
]

-- `chaseCNAME` at depth 0
unfoldable pub chase_cname : Library → Msg → Zone → Name → Name → ℕ → Msg
unfolding chase
chase_cname lib resp zone owner name qtype = record resp {
  answer = resp.answer ++ chase lib zone owner name qtype (suc max_cname_chain);
}

-- the loop over a map of RRsets that appends all but those of some types
unfoldable pub append_all : Library → Msg → (ℕ → Bool) → ByType → Name → Msg
unfolding append_matching
append_all lib resp skip [] name = resp
append_all lib resp skip ((t, rrs) ∷ rest) name =
    append_all lib (if skip t then resp else append_matching lib resp rrs name t) skip rest name

abbrev pub keep_all : ℕ → Bool
keep_all _ = false

-- `*`, the owner of the wildcard
abbrev star : Name
star = b'*' ∷ []

-- `wildcardOrNX`
unfoldable pub wildcard_or_nx : Library → Msg → Zone → Name → ℕ → Msg
unfolding get of_type tunnel append_matching append_all set_negative_soa
wildcard_or_nx lib resp zone name qtype =
    let wt = rrsets (get star zone.tunnel_addr) in
    let wc = zone.wildcards in
    if qtype == type_any
    then if is_empty wc && is_empty wt
      then set_negative_soa lib resp zone.soa zone.apex rcode_name_error
      else append_all lib (append_all lib resp (λ t. t == type_cname && not (is_empty wt)) wc name)
          keep_all wt name
    else if is_address qtype && not (is_empty (of_type qtype wt))
    then append_matching lib resp (of_type qtype wt) name qtype
    else if not (is_empty (of_type qtype wc))
    then append_matching lib resp (of_type qtype wc) name qtype
    else if not (is_empty wc) || not (is_empty wt)
    then set_negative_soa lib resp zone.soa zone.apex rcode_success
    else set_negative_soa lib resp zone.soa zone.apex rcode_name_error

-- the end of the three cases that look for one type: NODATA at an owner that exists, else the wildcard
unfoldable pub absent : Library → Msg → Zone → Name → Name → ℕ → Msg
unfolding exists_at member set_negative_soa wildcard_or_nx
absent lib resp zone name owner qtype =
    if exists_at zone owner || member owner zone.ent
    then set_negative_soa lib resp zone.soa zone.apex rcode_success
    else wildcard_or_nx lib resp zone name qtype

-- the `switch` of `answerAuthoritative`
unfoldable pub answer_in_zone : Library → Msg → Zone → Name → Name → ℕ → Msg
unfolding rrset tunnel exists_at append_matching append_all chase_cname absent
answer_in_zone lib resp zone name owner qtype =
    let records = rrset zone owner qtype in
    let cn = rrset zone owner type_cname in
    if qtype == type_cname
    then if not (is_empty cn)
      then append_matching lib resp cn name type_cname
      else absent lib resp zone name owner qtype
    else if is_address qtype
    then if not (is_empty records)
      then append_matching lib resp records name qtype
      else if not (is_empty (tunnel zone owner qtype))
      then append_matching lib resp (tunnel zone owner qtype) name qtype
      else if not (is_empty cn)
      then chase_cname lib resp zone owner name qtype
      else absent lib resp zone name owner qtype
    else if qtype == type_any && exists_at zone owner
    then append_all lib
        (append_all lib resp (λ t. t == type_cname && is_some (get owner zone.tunnel_addr))
          (rrsets (get owner zone.records)) name)
        keep_all (rrsets (get owner zone.tunnel_addr)) name
    else if not (is_empty records)
    then append_matching lib resp records name qtype
    else if not (is_empty owner) && not (is_empty cn)
    then chase_cname lib resp zone owner name qtype
    else absent lib resp zone name owner qtype

-- `answerAuthoritative`
unfoldable pub answer_authoritative : Library → Msg → Option Zone → Name → Name → ℕ → Msg
unfolding authoritative_reply answer_in_zone
answer_authoritative lib req none name owner qtype = record (authoritative_reply lib req) {
  rcode = rcode_server_failure;
}
answer_authoritative lib req (some zone) name owner qtype =
    answer_in_zone lib (authoritative_reply lib req) zone name owner qtype
