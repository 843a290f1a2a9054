-- ===== src/Tests/AnsCache.antt =====
-- internal/anscache on concrete inputs.
use splitdns.Prelude.{◌≡◌, ◌⊎◌, refl, false, none, some, [], ◌∷◌, ◌≤ℤ◌, seconds, All, arith}
use splitdns.Dns.{Name, Msg, Rr, Body}
use splitdns.AnsCache.Entry.{
  defaults, Key, key_eq, key_for, key_of, Entry, kind_positive, kind_negative, miss, fresh, stale,
}
use splitdns.AnsCache.Ttl.{cacheable, strip_opt, in_bailiwick}
use splitdns.AnsCache.Ttl.Bounds.{IsSane}
use splitdns.AnsCache.Ttl.Cached.{positive_bounds}
use splitdns.AnsCache.Ttl.Served.{FitsTtl}
use splitdns.AnsCache.Elements
use splitdns.AnsCache.Elements.{view}
use splitdns.AnsCache.Cache.{Cache, new, lookup, put, store}
use splitdns.AnsCache.Cache.Validity.{IsValid, new-IsValid, put-IsValid}
use splitdns.AnsCache.Cache.Refine.{spec_lookup, spec_put, put-refines, lookup-refines, shown}
use splitdns.AnsCache.Serving.{lookup-Backed, Backed}

-- "a." and "b.a."
abbrev zone_a : Name
zone_a = b'a' ∷ b'.' ∷ []

abbrev host_b : Name
host_b = b'B' ∷ b'.' ∷ b'a' ∷ b'.' ∷ []

abbrev key_b : Key
key_b = record { name = b'b' ∷ b'.' ∷ b'a' ∷ b'.' ∷ []; qtype = 1; qclass = 1; dnssec_ok = false }

abbrev answer_a : Msg
answer_a = record {
  id = 77;
  truncated = false;
  authoritative = false;
  recursion_available = false;
  rcode = 0;
  question = record { name = host_b; qtype = 1; qclass = 1 } ∷ [];
  answer =
      record {
        hdr = record { name = host_b; rrtype = 1; ttl = 60 };
        body = Body.other (10 ∷ 0 ∷ 0 ∷ 1 ∷ []);
      }
      ∷ [];
  ns = [];
  extra = record { hdr = record { name = b'.' ∷ []; rrtype = 41; ttl = 0 }; body = Body.opt } ∷ [];
}

abbrev no_such_name : Msg
no_such_name = record answer_a {
  rcode = 3;
  answer = [];
  ns = record { hdr = record { name = zone_a; rrtype = 6; ttl = 900 }; body = Body.soa 300 } ∷ [];
}

abbrev empty : Cache
empty = new defaults

abbrev other_entry : Entry
other_entry = record {
  key = record key_b { qtype = 28 };
  msg = some answer_a;
  inserted_at = 0;
  ttl = seconds 60;
  kind = kind_positive;
  hits = 0;
}

abbrev one : Cache
one = put empty other_entry

one-IsValid : IsValid one
one-IsValid = (put-IsValid empty other_entry (new-IsValid defaults)).0

-- stored at 0 for 60 seconds, and asked for later: fresh, stale, gone
runs :
    ((lookup (store empty key_b (some answer_a) 0) key_b 25_000_000_000).2 ≡ fresh)
    × ((lookup (store empty key_b (some answer_a) 0) key_b 90_000_000_000).2 ≡ stale)
    × ((lookup (store empty key_b (some answer_a) 0) key_b 90_000_000_000_000).2 ≡ miss)
    × (cacheable defaults (some no_such_name) ≡ some (seconds 300, kind_negative))
unfolding lookup store put new cacheable in_bailiwick strip_opt key_eq
runs = (refl, refl, refl, refl)

keys_fold : key_for (λ _. none) answer_a ≡ some key_b
unfolding key_for key_of
keys_fold = refl

lookup-refines_example : shown (lookup one key_b 5) ≡ spec_lookup one.cfg (view one.ll) key_b 5
lookup-refines_example = lookup-refines one key_b 5 one-IsValid

put-refines_example :
    view (put one (record other_entry { key = key_b })).ll
    ≡ spec_put one.cfg (view one.ll) (record other_entry { key = key_b })
put-refines_example = put-refines one (record other_entry { key = key_b }) one-IsValid

lookup-Backed_example :
    let r = lookup one other_entry.key 5 in
    (r.2 ≡ miss) × (r.1 ≡ none)
    ⊎ ((e : Entry) × (Elements.lookup other_entry.key (view one.ll) ≡ some e)
        × Backed one.cfg e r.2 r.1 5)
lookup-Backed_example = lookup-Backed one other_entry.key 5 one-IsValid

defaults-IsSane : IsSane defaults
defaults-IsSane = omega arith

positive_bounds_example :
    (defaults.min_ttl ≤ℤ seconds 60)
    × (seconds 60 ≤ℤ defaults.max_ttl)
    × All
        (λ (rr : Rr). (seconds 60 ≤ℤ seconds rr.hdr.ttl) ⊎ (seconds 60 ≡ defaults.min_ttl))
        answer_a.answer
unfolding cacheable
positive_bounds_example = positive_bounds defaults answer_a (seconds 60) defaults-IsSane refl

answer_a-FitsTtl : FitsTtl answer_a
answer_a-FitsTtl = omega arith
