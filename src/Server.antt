-- ===== src/Server.antt =====
-- The forward path of internal/server/server.go: what the server answers to a query that the resolver
-- does not answer itself. The operations of the DNS library are a parameter, `Wire`. What the
-- forwarder answers is an argument: none stands for an error or for nil.
pub mod Rebind
pub mod Serve
pub mod Repeats
pub mod Front
pub mod Leaks
use splitdns.Prelude.{
  ℕ, ◌≤◌, ◌≡◌, Bool, true, false, not, ◌||◌, Option, none, some, List, [], ◌∷◌, ◌++◌, if◌then◌else◌,
  ltb, leb, ◌==◌, filter, any, take, Instant,
}
use mathlib.Core.Option
use splitdns.Netmatch.{Addr, is_forward_blocked, unmap}
use splitdns.Dns.{
  Name, Body, Rr, Question, Msg, rcode_success, rcode_name_error, rcode_server_failure, name_eq,
  to_lower, has_suffix,
}
use splitdns.AnsCache.Entry.{Key, key_for, Result, miss, fresh, stale, fail}
use splitdns.AnsCache.Ttl.{dot, strip_opt}
use splitdns.AnsCache.Cache.{Cache, lookup, store, store_fail, note_stale_served}

-- What is used of the DNS library: `IsEdns0` with the DO bit and the size of the record, `SetEdns0`,
-- `Truncate` and `new(dns.Msg).SetRcode`.
pub record Wire : Type 0 where
  pub edns : Msg → Option (Bool × ℕ)
  pub set_edns0 : ℕ → Bool → Msg → Msg
  pub truncate : ℕ → Msg → Msg
  pub set_rcode : Msg → ℕ → Msg

-- What the documentation of these says of the question and the answer section.
pub record IsWire (w : Wire) : Type 0 where
  pub question_set_edns0 : (n : ℕ) (d : Bool) (m : Msg) → (w.set_edns0 n d m).question ≡ m.question
  pub answer_set_edns0 : (n : ℕ) (d : Bool) (m : Msg) → (w.set_edns0 n d m).answer ≡ m.answer
  pub question_truncate : (n : ℕ) (m : Msg) → (w.truncate n m).question ≡ m.question
  pub answer_truncate : (n : ℕ) (m : Msg) → (k : ℕ) × ((w.truncate n m).answer ≡ take k m.answer)
  pub answer_set_rcode : (req : Msg) (rcode : ℕ) → (w.set_rcode req rcode).answer ≡ []

-- `underAllow`
unfoldable pub under_allow : Name → List Name → Bool
unfolding to_lower name_eq has_suffix
under_allow name [] = false
under_allow name (sfx ∷ sfxs) =
    let s = to_lower sfx in
    let rest = under_allow name sfxs in
    if name_eq name s || has_suffix name (dot ∷ s) then true else rest

-- `netipFrom` and the test on its result
blocked_addr : Option Addr → Bool
unfolding is_forward_blocked unmap
blocked_addr none = false
blocked_addr (some ip) = is_forward_blocked (unmap ip)

-- the type switch of `applyRebindFilter`: the record is dropped
unfoldable pub blocked : Body → Bool
unfolding blocked_addr
blocked (Body.host4 ip) = blocked_addr ip
blocked (Body.host6 ip) = blocked_addr ip
blocked _ = false

-- the test of `applyRebindFilter` on the name of the response's question
unfoldable pub exempt : List Name → List Question → Bool
unfolding under_allow to_lower
exempt allow [] = false
exempt allow (q ∷ qs) = under_allow (to_lower q.name) allow

-- `applyRebindFilter`
unfoldable pub apply_rebind_filter : List Name → Msg → Msg
unfolding exempt
apply_rebind_filter allow resp =
    if exempt allow resp.question
    then resp
    else record resp { answer = filter (λ (rr : Rr). not (blocked rr.body)) resp.answer }

abbrev pub server_udp_size : ℕ
server_udp_size = 1232

-- `respond`'s size for an answer over UDP
unfoldable pub udp_size : Option (Bool × ℕ) → ℕ
udp_size none = 512
udp_size (some (d, cs)) =
    if leb 512 cs then (if ltb server_udp_size cs then server_udp_size else cs) else 512

-- `respond` up to the truncation
unfoldable pub stamp : Wire → Option (Bool × ℕ) → Msg → Msg
unfolding strip_opt
stamp w none m = strip_opt m
stamp w (some (d, cs)) m = w.set_edns0 server_udp_size d (strip_opt m)

-- `respond`: the message that is written
unfoldable pub respond : Wire → Bool → Msg → Msg → Msg
unfolding stamp udp_size
respond w tcp req m =
    let stamped = stamp w (w.edns req) m in
    if tcp then stamped else w.truncate (udp_size (w.edns req)) stamped

-- `refuse`
unfoldable pub refuse : Wire → Bool → Msg → ℕ → Msg
unfolding respond
refuse w tcp req rcode = respond w tcp req (w.set_rcode req rcode)

-- `serveForwarded`
unfoldable pub serve_forwarded : Wire → Bool → List Name → Msg → Msg → Msg
unfolding respond apply_rebind_filter
serve_forwarded w tcp allow req resp =
    respond w tcp req (apply_rebind_filter allow (record resp { id = req.id }))

-- `cacheableRcode`
unfoldable pub cacheable_rcode : ℕ → Bool
cacheable_rcode rcode = rcode == rcode_success || rcode == rcode_name_error

-- `qlog.Decision`, of which `forwardCached` sets three
pub data Decision : Type 0 where
  cache_hit served_stale forwarded : Decision

-- The cache afterwards, the decision and rcode for the query log, and the message that is written.
pub record Served : Type 0 where
  pub cache : Option Cache
  pub decision : Decision
  pub rcode : ℕ
  pub reply : Msg

-- the server's configuration, the snapshot's suffixes and the request
pub record Query : Type 0 where
  pub wire : Wire
  pub has_forwarder : Bool
  pub allow : List Name
  pub tcp : Bool
  pub req : Msg

abbrev pub give : Query → Option Cache → Decision → Msg → Served
give q c d resp = record {
  cache = c;
  decision = d;
  rcode = resp.rcode;
  reply = serve_forwarded q.wire q.tcp q.allow q.req resp;
}

abbrev pub give_up : Query → Option Cache → Served
give_up q c = record {
  cache = c;
  decision = forwarded;
  rcode = rcode_server_failure;
  reply = refuse q.wire q.tcp q.req rcode_server_failure;
}

-- the live answer is used
abbrev pub is_good : Option Msg → Bool
is_good none = false
is_good (some resp) = cacheable_rcode resp.rcode

abbrev pub on_cache : (Key → Cache → Cache) → Option (Key × Cache) → Option Cache
on_cache f none = none
on_cache f (some (k, c)) = some (f k c)

-- `forwardCached` after the upstream failed; `unused` is the cache where the query has no key
unfoldable pub failed : Query → Option Cache → Option (Key × Cache) → Option Msg → Instant → Served
failed q unused (some (k, c)) none now = give_up q (some (store_fail c k now))
failed q unused none none now = give_up q unused
failed q unused (some (k, c)) (some m) now = give q (some (note_stale_served c)) served_stale m
failed q unused none (some m) now = give q unused served_stale m

-- `forwardCached` from the call of `Forward`
unfoldable pub live :
    Query → Option Cache → Option (Key × Cache) → Option Msg → Option Msg → Instant → Served
unfolding failed cacheable_rcode
live q unused kc stale_msg none now = failed q unused kc stale_msg now
live q unused kc stale_msg (some resp) now =
    if cacheable_rcode resp.rcode
    then give q (elim kc [ none ↦ unused | some (k, c) ↦ some (store c k (some resp) now) ])
        forwarded resp
    else failed q unused kc stale_msg now

-- `forwardCached` from the result of `Lookup`; none is a nil message that is read
unfoldable pub on_lookup :
    Query → Key → Cache → Option Msg → Result → Option Msg → Instant → Option Served
unfolding live
on_lookup q k c msg fresh up now = Option.map (give q (some c) cache_hit) msg
on_lookup q k c msg fail up now = some (give_up q (some c))
on_lookup q k c msg stale up now = some (live q none (some (k, c)) msg up now)
on_lookup q k c msg miss up now = some (live q none (some (k, c)) none up now)

-- `KeyFor` of the request
unfoldable pub query_key : Query → Option Key
unfolding key_for
query_key q = key_for (λ m. Option.map (λ (o : Bool × ℕ). o.0) (q.wire.edns m)) q.req

-- the key, if there is a cache
abbrev pub keyed : Query → Option Cache → Option (Key × Cache)
keyed q none = none
keyed q (some c) = Option.map (λ k. (k, c)) (query_key q)

-- `forwardCached`: the cache, what the forwarder would answer, and the times of `Lookup` and of
-- what the cache is told afterwards
unfoldable pub forward_cached :
    Query → Option Cache → Option Msg → Instant → Instant → Option Served
unfolding on_lookup query_key live
forward_cached q cache up t0 t1 =
    if not q.has_forwarder then some (give_up q cache) else elim (keyed q cache) [
      | none ↦ some (live q cache none none up t1)
      | some (k, c) ↦ let r = lookup c k t0 in on_lookup q k r.0 r.1 r.2 up t1
    ]
