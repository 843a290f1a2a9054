-- ===== src/Resolver/Helpers.antt =====
-- internal/resolver/helpers.go: the skeleton of an answer, the matching of names to zones, and the
-- negatives with the SOA record of their zone.
pub mod Suffix
pub mod Negative
use splitdns.Prelude.{
  ℕ, suc, ◌+◌, Bool, true, false, ◌&&◌, ◌||◌, not, Option, none, some, List, [], ◌∷◌, ◌++◌, length,
  if◌then◌else◌, ltb, leb, ◌==◌,
}
use splitdns.Dns.{Name, name_eq, has_suffix, trim_suffix, Msg, Rr, type_any, class_inet}
use splitdns.Model.{ModelRr, RevZone}
use splitdns.Model.Render.{Library, to_miekg, fields, parse_uint}

-- `Outcome`: the decision on a query
pub record Outcome : Type 0 where
  pub msg : Option Msg
  pub forward : Bool
  pub stub : List Name
  pub local_miss : Bool
  pub local_label : Name

-- an answer, and the other two modes
abbrev pub answered : Msg → Outcome
answered m = record {
  msg = some m;
  forward = false;
  stub = [];
  local_miss = false;
  local_label = [];
}

abbrev pub to_upstream : Outcome
to_upstream = record { msg = none; forward = true; stub = []; local_miss = false; local_label = [] }

abbrev pub stubbed : List Name → Outcome
stubbed targets = record {
  msg = none;
  forward = false;
  stub = targets;
  local_miss = false;
  local_label = [];
}

-- `reply`
unfoldable pub reply : Library → Msg → Msg
reply lib req = record (lib.set_reply req) { recursion_available = true }

-- `reply`, then `resp.Authoritative = true`
unfoldable pub authoritative_reply : Library → Msg → Msg
unfolding reply
authoritative_reply lib req = record (reply lib req) { authoritative = true }

-- `errReply`
abbrev pub err_reply : Library → Msg → ℕ → Msg
err_reply lib req rcode = lib.set_rcode req rcode

-- `isArpa`
unfoldable pub is_arpa : Name → Bool
unfolding has_suffix
is_arpa name =
    has_suffix name (
      b'.' ∷ b'i' ∷ b'n' ∷ b'-' ∷ b'a' ∷ b'd' ∷ b'd' ∷ b'r' ∷ b'.' ∷ b'a' ∷ b'r' ∷ b'p' ∷ b'a'
      ∷ b'.' ∷ [])
    || has_suffix name (b'.' ∷ b'i' ∷ b'p' ∷ b'6' ∷ b'.' ∷ b'a' ∷ b'r' ∷ b'p' ∷ b'a' ∷ b'.' ∷ [])

-- `isSuffixLabel`
unfoldable pub is_suffix_label : Name → Name → Bool
unfolding name_eq has_suffix
is_suffix_label name apex = if name_eq name apex then true else has_suffix name (b'.' ∷ apex)

-- the loop over the keys of a map of zones, with the best so far
unfoldable pub longest_suffix : {A : Type 0} → Name → Name → List (Name × A) → Name
unfolding is_suffix_label
longest_suffix name best [] = best
longest_suffix name best ((apex, z) ∷ rest) =
    longest_suffix name
      (if is_suffix_label name apex && ltb (length best) (length apex) then apex else best) rest

-- `longestZoneSuffix`
unfoldable pub longest_zone_suffix : {A : Type 0} → Name → List (Name × A) → Name
unfolding longest_suffix
longest_zone_suffix name zones = longest_suffix name [] zones

-- the loop of `longestReverseZone`, with the best so far and its length
unfoldable pub longest_reverse : Name → Option RevZone → ℕ → List (Name × RevZone) → Option RevZone
unfolding is_suffix_label
longest_reverse name best best_len [] = best
longest_reverse name best best_len ((apex, z) ∷ rest) =
    let better = is_suffix_label name apex && ltb best_len (length apex) in
    longest_reverse name (if better then some z else best)
      (if better then length apex else best_len) rest

-- `longestReverseZone`
unfoldable pub longest_reverse_zone : Name → List (Name × RevZone) → Option RevZone
unfolding longest_reverse
longest_reverse_zone name rz = longest_reverse name none 0 rz

-- `relativeOwner`
unfoldable pub relative_owner : Name → Name → Name
unfolding name_eq trim_suffix
relative_owner name apex =
    if name_eq name apex then [] else trim_suffix (trim_suffix name apex) (b'.' ∷ [])

-- `strings.Count` of dots
unfoldable pub dots : Name → ℕ
dots [] = 0
dots (c ∷ cs) = if c == b'.' then suc (dots cs) else dots cs

-- `labelCount`
unfoldable pub label_count : Name → ℕ
unfolding dots
label_count [] = 0
label_count (c ∷ cs) = dots (c ∷ cs) + 1

-- `toRR`; none for nil
unfoldable pub to_rr : Library → ModelRr → Name → Option Rr
unfolding to_miekg
to_rr lib r name = to_miekg lib (record r { name = lib.fqdn name })

-- what `appendMatching` appends
unfoldable pub matching : Library → List ModelRr → Name → ℕ → List Rr
unfolding to_rr
matching lib [] name qtype = []
matching lib (r ∷ recs) name qtype =
    let rest = matching lib recs name qtype in
    if not (qtype == type_any) && not (r.rtype == qtype)
    then rest
    else elim (to_rr lib r name) [ none ↦ rest | some rr ↦ rr ∷ rest ]

abbrev pub is_empty {ℓ} : {A : Type ℓ} → List A → Bool
is_empty [] = true
is_empty (_ ∷ _) = false

-- `appendMatching`, the message
unfoldable pub append_matching : Library → Msg → List ModelRr → Name → ℕ → Msg
unfolding matching
append_matching lib resp recs name qtype = record resp {
  answer = resp.answer ++ matching lib recs name qtype;
}

-- `appendMatching`, whether anything matched
unfoldable pub any_matching : Library → List ModelRr → Name → ℕ → Bool
unfolding matching
any_matching lib recs name qtype = not (is_empty (matching lib recs name qtype))

-- `addrRR`; none for nil
unfoldable pub addr_rr : Library → Name → ℕ → Name → ℕ → Option Rr
unfolding to_miekg
addr_rr lib name qtype content ttl = to_miekg lib (record {
  name = lib.fqdn name;
  rtype = qtype;
  ttl = ttl;
  class = class_inet;
  content = content;
  priority = 0;
  weight = 0;
  port = 0;
  target = [];
  trusted = false;
})

abbrev last_field : List Name → Name
last_field [] = []
last_field (f ∷ []) = f
last_field (_ ∷ g ∷ fs) = last_field (g ∷ fs)

-- `soaMinimum`; 0 for a text that has none
unfoldable pub soa_minimum : ModelRr → ℕ
unfolding fields parse_uint
soa_minimum soa =
    let fs = fields soa.content in
    if ltb (length fs) 7 then 0 else elim (parse_uint 32 (last_field fs)) [ none ↦ 0 | some n ↦ n ]

-- the TTL of a negative
unfoldable pub negative_ttl : ModelRr → ℕ
unfolding soa_minimum
negative_ttl soa = let m = soa_minimum soa in if ltb 0 m && ltb m soa.ttl then m else soa.ttl

-- the AUTHORITY section that a negative adds
unfoldable pub negative_ns : Library → ModelRr → Name → List Rr
unfolding negative_ttl to_miekg
negative_ns lib soa apex =
    if is_empty soa.content && is_empty soa.target
    then []
    else elim (to_miekg lib (record soa { name = lib.fqdn apex; ttl = negative_ttl soa })) [
      | none ↦ []
      | some rr ↦ rr ∷ []
    ]

-- `setNegativeSOA`
unfoldable pub set_negative_soa : Library → Msg → ModelRr → Name → ℕ → Msg
unfolding negative_ns
set_negative_soa lib resp soa apex rcode = record resp {
  rcode = rcode;
  ns = resp.ns ++ negative_ns lib soa apex;
}
