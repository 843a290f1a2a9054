-- ===== src/AnsCache/Ttl.antt =====
-- Times to live in internal/anscache/anscache.go: what may be cached and for how long, and how a
-- served copy is stamped. A record's TTL is a `uint32`, whose arithmetic wraps; copying a message
-- (`Msg.Copy`) gives an equal value.
pub mod Bounds
pub mod Cached
pub mod Served
use splitdns.Prelude.{
  ℕ, zero, suc, ◌+◌, ◌-◌, ◌*◌, ◌/◌, ◌%◌, ◌≤◌, ◌<◌, ◌≡◌, refl, Bool, true, false, ◌&&◌, ◌||◌, Option,
  none, some, List, [], ◌∷◌, ◌++◌, map, if◌then◌else◌, ltb, leb, ◌==◌, ℤ, pos, negsuc, ltb_ℤ, ◌≤ℤ◌,
  ◌<ℤ◌, Duration, second, seconds, arith, any, length,
}
use splitdns.Dns.{
  Name, Header, Body, Rr, Question, Msg, type_any, rcode_success, rcode_name_error, name_eq,
  to_lower, has_suffix,
}
use splitdns.AnsCache.Entry.{Config, Kind, kind_positive, kind_negative}

abbrev pub u32_mod : ℕ
u32_mod = 4294967296

-- `clamp`
unfoldable pub clamp : Duration → Duration → Duration → Duration
clamp d lo hi = if ltb_ℤ d lo then lo else if ltb_ℤ hi d then hi else d

-- the loop of `minTTL`
unfoldable pub min_from : ℕ → List Rr → ℕ
min_from m [] = m
min_from m (rr ∷ rrs) = min_from (if ltb rr.hdr.ttl m then rr.hdr.ttl else m) rrs

-- `minTTL`, which starts at `^uint32(0)`
unfoldable pub min_ttl : List Rr → Duration
unfolding min_from
min_ttl rrs = seconds (min_from 4294967295 rrs)

-- The owner and the two times of an SOA record.
pub record Soa : Type 0 where
  pub name : Name
  pub ttl : ℕ
  pub minttl : ℕ

-- `rr.(*dns.SOA)`
abbrev pub as_soa : Header → Body → Option Soa
as_soa h (Body.soa m) = some (record { name = h.name; ttl = h.ttl; minttl = m })
as_soa h _ = none

-- `soaTTL`
unfoldable pub soa_ttl : Soa → Duration
soa_ttl s = seconds (if ltb s.ttl s.minttl then s.ttl else s.minttl)

abbrev pub dot : ℕ
dot = b'.'

-- the test of `findSOA`: the owner is the root, the name or a parent of it
unfoldable pub in_bailiwick : Name → Name → Bool
unfolding name_eq to_lower has_suffix
in_bailiwick owner qname =
    let o = to_lower owner in
    let qn = to_lower qname in name_eq o (dot ∷ []) || (name_eq qn o || has_suffix qn (dot ∷ o))

-- `findSOA`
unfoldable pub find_soa : List Rr → Name → Option Soa
find_soa [] qname = none
find_soa (rr ∷ rrs) qname = elim (as_soa rr.hdr rr.body) [
  | none ↦ find_soa rrs qname
  | some s ↦ if in_bailiwick s.name qname then some s else find_soa rrs qname
]

-- `answersType`
unfoldable pub answers_type : List Rr → ℕ → Bool
answers_type rrs qtype = any (λ (rr : Rr). rr.hdr.rrtype == qtype) rrs

negative : Config → Msg → Question → Option (Duration × Kind)
unfolding find_soa soa_ttl clamp
negative cfg resp q = elim (find_soa resp.ns q.name) [
  | none ↦ none
  | some soa ↦ some (clamp (soa_ttl soa) cfg.neg_min_ttl cfg.neg_max_ttl, kind_negative)
]

-- `cacheable` behind its tests on the message's shape
unfoldable pub cacheable_question : Config → Msg → List Question → Option (Duration × Kind)
unfolding negative answers_type min_ttl
cacheable_question cfg resp (q ∷ []) =
    if q.qtype == type_any
    then none
    else if resp.rcode == rcode_success
    then (if answers_type resp.answer q.qtype
        then some (clamp (min_ttl resp.answer) cfg.min_ttl cfg.max_ttl, kind_positive)
        else negative cfg resp q)
    else if resp.rcode == rcode_name_error
    then negative cfg resp q
    else none
cacheable_question cfg resp _ = none

-- `cacheable`; the response is nil or a message
unfoldable pub cacheable : Config → Option Msg → Option (Duration × Kind)
unfolding cacheable_question
cacheable cfg none = none
cacheable cfg (some resp) =
    if resp.truncated then none else cacheable_question cfg resp resp.question

-- `uint32(d / time.Second)`: the quotient rounds towards 0 and the conversion wraps.
abbrev pub whole_seconds : Duration → ℕ
whole_seconds (pos n) = (n / second) % u32_mod
whole_seconds (negsuc n) = (u32_mod - (suc n / second) % u32_mod) % u32_mod

-- the body of `adjust`
unfoldable pub age_ttl : ℕ → ℕ → ℕ
age_ttl rem ttl = if ltb ((rem + 1) % u32_mod) ttl then (ttl + u32_mod - rem) % u32_mod else 1

abbrev pub with_ttl : ℕ → Rr → Rr
with_ttl t rr = record rr { hdr = record (rr.hdr) { ttl = t } }

abbrev pub on_sections : (Rr → Rr) → Msg → Msg
on_sections g m = record m { answer = map g m.answer; ns = map g m.ns; extra = map g m.extra }

-- `decrementTTL`
unfoldable pub decrement_ttl : Duration → Msg → Msg
unfolding age_ttl
decrement_ttl age m = on_sections (λ rr. with_ttl (age_ttl (whole_seconds age) rr.hdr.ttl) rr) m

-- `stampTTL`
unfoldable pub stamp_ttl : Duration → Msg → Msg
stamp_ttl ttl m = on_sections (with_ttl (whole_seconds ttl)) m

is_opt : Body → Bool
is_opt Body.opt = true
is_opt _ = false

kept : List Rr → List Rr
unfolding is_opt
kept [] = []
kept (rr ∷ rrs) = if is_opt rr.body then kept rrs else rr ∷ kept rrs

-- `stripOPT`
unfoldable pub strip_opt : Msg → Msg
unfolding kept
strip_opt m = record m { extra = kept m.extra }
