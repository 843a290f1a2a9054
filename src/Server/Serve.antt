-- ===== src/Server/Serve.antt =====
-- What `forwardCached` of internal/server/server.go answers, in each case of the cache and of the upstream.
use splitdns.Prelude.{inl, inr, Option, none, some, Bool-cases, Option-cases, Instant}
use splitdns.Dns.{Msg}
use splitdns.AnsCache.Entry.{Key, Result, miss, fresh, stale, fail}
use splitdns.AnsCache.Cache.{Cache}
use splitdns.Server.{
  IsWire, Query, Served, failed, live, on_lookup, keyed, forward_cached, cacheable_rcode,
}
use splitdns.Server.Rebind.{Unblocked, serve_forwarded-Unblocked, refuse-Unblocked}

failed-Unblocked :
    (q : Query)
    → IsWire q.wire
    → (unused : Option Cache) (kc : Option (Key × Cache)) (m : Option Msg) (now : Instant)
    → Unblocked q.allow (failed q unused kc m now).reply
unfolding failed
failed-Unblocked q l unused (some (k, c)) none now = refuse-Unblocked q.wire l q.tcp q.allow q.req _
failed-Unblocked q l unused none none now = refuse-Unblocked q.wire l q.tcp q.allow q.req _
failed-Unblocked q l unused (some (k, c)) (some m) now =
    serve_forwarded-Unblocked q.wire l q.tcp q.allow q.req m
failed-Unblocked q l unused none (some m) now =
    serve_forwarded-Unblocked q.wire l q.tcp q.allow q.req m

live-Unblocked :
    (q : Query)
    → IsWire q.wire
    → (unused : Option Cache) (kc : Option (Key × Cache)) (m up : Option Msg) (now : Instant)
    → Unblocked q.allow (live q unused kc m up now).reply
unfolding live
live-Unblocked q l unused kc m none now = failed-Unblocked q l unused kc m now
live-Unblocked q l unused kc m (some resp) now = elim (Bool-cases (cacheable_rcode resp.rcode)) [
  | inl e ↦ rw e (serve_forwarded-Unblocked q.wire l q.tcp q.allow q.req resp)
  | inr e ↦ rw e (failed-Unblocked q l unused kc m now)
]

-- a property of a result, if there is one
abbrev pub Every : (Served → Type 0) → Option Served → Type 0
Every P none = Unit
Every P (some r) = P r

on_lookup-Unblocked :
    (q : Query)
    → IsWire q.wire
    → (k : Key) (c : Cache) (m : Option Msg) (r : Result) (up : Option Msg) (now : Instant)
    → Every (λ s. Unblocked q.allow s.reply) (on_lookup q k c m r up now)
unfolding on_lookup
on_lookup-Unblocked q l k c none fresh up now = tt
on_lookup-Unblocked q l k c (some m) fresh up now =
    serve_forwarded-Unblocked q.wire l q.tcp q.allow q.req m
on_lookup-Unblocked q l k c m fail up now = refuse-Unblocked q.wire l q.tcp q.allow q.req _
on_lookup-Unblocked q l k c m stale up now = live-Unblocked q l none (some (k, c)) m up now
on_lookup-Unblocked q l k c m miss up now = live-Unblocked q l none (some (k, c)) none up now

-- Whatever the cache holds and the upstream answers, no blocked address is in the answer section of what
-- `forwardCached` writes, unless the name of the written message's question is exempt: fresh, stale
-- and live answers alike.
pub forward_cached-Unblocked :
    (q : Query)
    → IsWire q.wire
    → (cache : Option Cache) (up : Option Msg) (t0 t1 : Instant)
    → Every (λ s. Unblocked q.allow s.reply) (forward_cached q cache up t0 t1)
unfolding forward_cached
forward_cached-Unblocked q l cache up t0 t1 = elim (Bool-cases q.has_forwarder) [
  | inl e ↦ elim (Option-cases (keyed q cache)) [
    | inl n ↦ rw (e, n) (live-Unblocked q l cache none none up t1)
    | inr ((k, c), n) ↦ rw (e, n) (on_lookup-Unblocked q l k _ _ _ up t1)
  ]
  | inr e ↦ rw e (refuse-Unblocked q.wire l q.tcp q.allow q.req _)
]
