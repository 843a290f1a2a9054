-- ===== src/Server/Repeats.antt =====
-- Queries after one another in internal/server/server.go: what the answer cache changes for the second.
use splitdns.Prelude.{
  ◌≡◌, ◌⊎◌, ◌≤◌, inl, inr, refl, ap, ◌∙◌, true, false, Option, none, some, arith, Bool-cases,
  Instant, Duration, since, ltb_ℤ, ℤ, ◌<ℤ◌,
}
use splitdns.Dns.{Msg}
use splitdns.AnsCache.Entry.{Key, miss, stale, fail, Kind}
use splitdns.AnsCache.Ttl.{cacheable, decrement_ttl, strip_opt}
use splitdns.AnsCache.Cache.{Cache, lookup, store, store_fail, note_stale_served}
use splitdns.AnsCache.Cache.Validity.{IsValid, lookup-IsValid}
use splitdns.AnsCache.Serving.{store-lookup, store_fail-lookup}
use splitdns.Server.{
  query_key, Query, Served, cache_hit, served_stale, forwarded, give, give_up, failed, live,
  on_lookup, forward_cached, cacheable_rcode, is_good,
}

bad_live :
    (q : Query) (kc : Option (Key × Cache)) (m up : Option Msg) (now : Instant)
    → is_good up ≡ false
    → live q none kc m up now ≡ failed q none kc m now
unfolding live
bad_live q kc m none now h = refl
bad_live q kc m (some resp) now h = rw h refl

-- the result when the cache is asked
asked :
    (q : Query) (c : Cache) (k : Key) (up : Option Msg) (t0 t1 : Instant)
    → q.has_forwarder ≡ true
    → query_key q ≡ some k
    → forward_cached q (some c) up t0 t1
      ≡ on_lookup q k (lookup c k t0).0 (lookup c k t0).1 (lookup c k t0).2 up t1
unfolding forward_cached
asked q c k up t0 t1 h e = rw (h, e) refl

-- the answer SERVFAIL, with a cache
abbrev pub servfail : Query → Cache → Served
servfail q c = give_up q (some c)

lt→ltb_ℤ : (a b : ℤ) → a <ℤ b → ltb_ℤ a b ≡ true
lt→ltb_ℤ a b h = ground arith

-- A query that the cache cannot answer, sent to an upstream that does not answer it either, gets
-- SERVFAIL; and so does the same query again for as long as `FailTTL`, whatever the upstream would
-- answer by then.
pub failure_repeats :
    (q : Query) (c : Cache) (k : Key) (up : Option Msg) (t0 t1 : Instant)
    → IsValid c
    → 1 ≤ c.cfg.max_entries
    → q.has_forwarder ≡ true
    → query_key q ≡ some k
    → (lookup c k t0).2 ≡ miss
    → is_good up ≡ false
    → let c1 = store_fail (lookup c k t0).0 k t1 in
      (forward_cached q (some c) up t0 t1 ≡ some (servfail q c1))
      × ((later : Option Msg) (t2 t3 : Instant)
          → since t2 t1 <ℤ c.cfg.fail_ttl
          → forward_cached q (some c1) later t2 t3 ≡ some (servfail q (lookup c1 k t2).0))
unfolding on_lookup failed
failure_repeats q c k up t0 t1 v h f e l b =
    let c0 = (lookup c k t0).0 in
    let (v0, same) = lookup-IsValid c k t0 v in
    (
      asked q c k up t0 t1 f e
          ∙ rw (l, on_lookup) (ap some (bad_live q (some (k, c0)) none up t1 b)),
      λ later t2 t3 soon.
          let fits : 1 ≤ c0.cfg.max_entries = rw same h in
          let now : ltb_ℤ (since t2 t1) c0.cfg.fail_ttl ≡ true =
            rw same (lt→ltb_ℤ (since t2 t1) c.cfg.fail_ttl soon) in
          let again = store_fail-lookup c0 k t1 t2 v0 fits in
          let r : (lookup (store_fail c0 k t1) k t2).2 ≡ fail = again.1 ∙ rw now refl in
          asked q (store_fail c0 k t1) k later t2 t3 f e ∙ rw (r, on_lookup) refl,
    )

-- A query that the cache cannot answer and the upstream answers with what may be cached gets that
-- answer; the same query again, within the time that the answer is kept, gets the kept answer, with the
-- age taken off its TTLs, whatever the upstream would answer by then.
pub answer_repeats :
    (q : Query) (c : Cache) (k : Key) (resp : Msg) (ttl : Duration) (knd : Kind) (t0 t1 : Instant)
    → IsValid c
    → 1 ≤ c.cfg.max_entries
    → q.has_forwarder ≡ true
    → query_key q ≡ some k
    → (lookup c k t0).2 ≡ miss
    → cacheable_rcode resp.rcode ≡ true
    → cacheable c.cfg (some resp) ≡ some (ttl, knd)
    → let c1 = store (lookup c k t0).0 k (some resp) t1 in
      (forward_cached q (some c) (some resp) t0 t1 ≡ some (give q (some c1) forwarded resp))
      × ((later : Option Msg) (t2 t3 : Instant)
          → since t2 t1 <ℤ ttl
          → forward_cached q (some c1) later t2 t3
            ≡ some (
                give q
                  (some (lookup c1 k t2).0)
                  cache_hit
                  (decrement_ttl (since t2 t1) (record (strip_opt resp) { id = 0 }))))
unfolding on_lookup live
answer_repeats q c k resp ttl knd t0 t1 v h f e l g kept =
    let c0 = (lookup c k t0).0 in
    let (v0, same) = lookup-IsValid c k t0 v in
    (
      asked q c k (some resp) t0 t1 f e ∙ rw (l, on_lookup, live) (rw g refl),
      λ later t2 t3 soon.
          let fits : 1 ≤ c0.cfg.max_entries = rw same h in
          let kept0 : cacheable c0.cfg (some resp) ≡ some (ttl, knd) = rw same kept in
          let r = store-lookup c0 k resp ttl knd t1 t2 v0 fits kept0 soon in
          asked q (store c0 k (some resp) t1) k later t2 t3 f e ∙ (λ i.
            on_lookup q k (lookup (store c0 k (some resp) t1) k t2).0 (r.0 i) (r.1 i) later t3),
    )

-- An expired answer that may be served stale is not served while the upstream answers, and is served
-- whenever it does not: no SERVFAIL is answered, and no failure is cached.
pub stale_fallback :
    (q : Query) (c : Cache) (k : Key) (old : Msg) (up : Option Msg) (t0 t1 : Instant)
    → q.has_forwarder ≡ true
    → query_key q ≡ some k
    → (lookup c k t0).1 ≡ some old
    → (lookup c k t0).2 ≡ stale
    → let c0 = (lookup c k t0).0 in
      ((resp : Msg) × (up ≡ some resp)
        × (cacheable_rcode resp.rcode ≡ true)
        × (forward_cached q (some c) up t0 t1
            ≡ some (give q (some (store c0 k (some resp) t1)) forwarded resp)))
      ⊎ ((is_good up ≡ false)
          × (forward_cached q (some c) up t0 t1
              ≡ some (give q (some (note_stale_served c0)) served_stale old)))
unfolding on_lookup live failed
stale_fallback q c k old none t0 t1 f e l r =
    inr (
      refl,
      asked q c k none t0 t1 f e ∙ (λ i. on_lookup q k (lookup c k t0).0 (l i) (r i) none t1),
    )
stale_fallback q c k old (some resp) t0 t1 f e l r =
    elim (Bool-cases (cacheable_rcode resp.rcode)) [
      | inl g ↦ inl (
        resp,
        refl,
        g,
        asked q c k (some resp) t0 t1 f e
            ∙ (λ i. on_lookup q k (lookup c k t0).0 (l i) (r i) (some resp) t1)
            ∙ rw (g, live) refl,
      )
      | inr g ↦ inr (
        g,
        asked q c k (some resp) t0 t1 f e
            ∙ (λ i. on_lookup q k (lookup c k t0).0 (l i) (r i) (some resp) t1)
            ∙ rw (g, live) refl,
      )
    ]
