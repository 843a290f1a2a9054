-- ===== src/Tests/Server.antt =====
-- The forward path of internal/server/server.go on concrete queries.
use splitdns.Prelude.{ℕ, ◌≡◌, ◌↔◌, refl, true, false, none, some, [], ◌∷◌, take, seconds}
use splitdns.Netmatch.{v4, is_forward_blocked, Access, prefix4}
use splitdns.Dns.{Name, Msg, Rr, Body}
use splitdns.Resolver.Helpers.{Outcome, to_upstream}
use splitdns.AnsCache.Entry.{defaults, Key, key_for, key_of, key_eq, kind_positive, miss, stale}
use splitdns.AnsCache.Ttl.{cacheable, stamp_ttl, strip_opt}
use splitdns.AnsCache.Cache.{Cache, new, lookup, store, put}
use splitdns.Server.{Wire, Query, query_key, under_allow, apply_rebind_filter, blocked}
use splitdns.Server.Rebind.{under_allow_iff, UnderAny}

-- a library that truncates to two records
abbrev wire : Wire
wire = record {
  edns = λ m. none;
  set_edns0 = λ n d m. m;
  truncate = λ n m. record m { answer = take 2 m.answer };
  set_rcode = λ req rcode. record req { rcode = rcode; answer = []; ns = []; extra = [] };
}

-- "a.b." and "b."
abbrev name : Name
name = b'a' ∷ b'.' ∷ b'b' ∷ b'.' ∷ []

abbrev suffix : Name
suffix = b'B' ∷ b'.' ∷ []

abbrev host : ℕ → Rr
host ip = record {
  hdr = record { name = name; rrtype = 1; ttl = 60 };
  body = Body.host4 (some (v4 ip));
}

abbrev request : Msg
request = record {
  id = 9;
  truncated = false;
  authoritative = false;
  recursion_available = false;
  rcode = 0;
  question = record { name = name; qtype = 1; qclass = 1 } ∷ [];
  answer = [];
  ns = [];
  extra = [];
}

-- 10.0.0.1 and 9.9.9.9
abbrev response : Msg
response = record request { id = 4; answer = host 0x0a000001 ∷ host 0x09090909 ∷ [] }

abbrev query : Query
query = record { wire = wire; has_forwarder = true; allow = []; tcp = false; req = request }

abbrev key : Key
key = record { name = name; qtype = 1; qclass = 1; dnssec_ok = false }

abbrev empty : Cache
empty = new defaults

abbrev filled : Cache
filled = store empty key (some response) 0

filtered : apply_rebind_filter [] response ≡ record response { answer = host 0x09090909 ∷ [] }
unfolding apply_rebind_filter blocked is_forward_blocked
filtered = refl

exempted : apply_rebind_filter (suffix ∷ []) response ≡ response
unfolding apply_rebind_filter
exempted = refl

look_alike : under_allow (b'x' ∷ b'b' ∷ b'.' ∷ []) (suffix ∷ []) ≡ false
unfolding under_allow
look_alike = refl

has_key : query_key query ≡ some key
unfolding query_key key_for key_of
has_key = refl

misses : (lookup empty key 5).2 ≡ miss
unfolding lookup new
misses = refl

kept : cacheable empty.cfg (some response) ≡ some (seconds 60, kind_positive)
unfolding cacheable new
kept = refl

-- the stored answer, as it is served stale
abbrev old : Msg
old = stamp_ttl (seconds 30) (record response { id = 0 })

old_message : (lookup filled key 90_000_000_000).1 ≡ some old
unfolding lookup store put new cacheable strip_opt key_eq
old_message = refl

old_result : (lookup filled key 90_000_000_000).2 ≡ stale
unfolding lookup store put new cacheable strip_opt key_eq
old_result = refl

under_allow_iff_example : (under_allow name (suffix ∷ []) ≡ true) ↔ UnderAny name (suffix ∷ [])
under_allow_iff_example = under_allow_iff name (suffix ∷ [])

-- a client that may ask, and one that may not
abbrev access : Access
access = record { allow = some (prefix4 0x0a000000 8 ∷ []); refuse = none }

-- the resolver forwards the query
abbrev to_public : Outcome
to_public = to_upstream
