-- ===== src/AnsCache/Serving.antt =====
-- What the cache of internal/anscache/anscache.go serves after what was stored, and for how long.
use splitdns.Prelude.{
  suc, ◌-◌, ◌≤◌, ◌≡◌, refl, sym, ◌∙◌, ap, Bool, true, false, ◌&&◌, Option, none, some, List, ◌∷◌,
  if◌then◌else◌, ltb_ℤ, ltb_ℤ→lt, ltb_ℤ→le, ◌+ℤ◌, ◌≤ℤ◌, ◌<ℤ◌, Instant, Duration, since, arith,
  Bool-cases, Option-cases, inl, inr, ◌⊎◌,
}
use mathlib.Core.Option
use mathlib.Core.Path.{subst}
use splitdns.Dns.{Msg}
use splitdns.AnsCache.Entry.{
  Config, Key, key_eq_refl, Entry, Kind, kind_fail, Result, miss, fresh, stale, fail,
}
use splitdns.AnsCache.Ttl.{cacheable, decrement_ttl, stamp_ttl, strip_opt}
use splitdns.AnsCache.Ttl.Cached.{cacheable-CachedAs}
use splitdns.AnsCache.Elements.{view}
use splitdns.AnsCache.Elements
use splitdns.AnsCache.Cache.{Cache, hit, is_fail, lookup, put, store, store_fail}
use splitdns.AnsCache.Cache.Validity.{IsValid, put-IsValid}
use splitdns.AnsCache.Cache.Refine.{
  spec_entry, spec_lookup, spec_put, put-refines, lookup-refines, shown,
}

-- An entry that was just put is the one that a lookup of its key reads.
put-lookup :
    (c : Cache) (e : Entry) (now : Instant)
    → IsValid c
    → 1 ≤ c.cfg.max_entries
    → (es : List Entry) × (shown (lookup (put c e) e.key now) ≡ spec_entry c.cfg es e now)
unfolding spec_put spec_lookup
put-lookup c e now v h =
    let es = spec_put c.cfg (view c.ll) e in
    let (w, q) = put-IsValid c e v in
    (
      es,
      lookup-refines (put c e) e.key now w
          ∙ rw (q, put-refines c e v) (rw (found (view c.ll), spec_lookup)),
    )
  where
    found : (l : List Entry) → Elements.lookup e.key (spec_put c.cfg l e) ≡ some e
    found l =
        let m : c.cfg.max_entries ≡ suc (c.cfg.max_entries - 1) = omega arith in
        rw m (unfold Elements.lookup in rw (key_eq_refl e.key))

cached_kind :
    (cfg : Config) (resp : Msg) (ttl : Duration) (knd : Kind)
    → cacheable cfg (some resp) ≡ some (ttl, knd)
    → is_fail knd ≡ false
cached_kind cfg resp ttl knd h = elim ((cacheable-CachedAs cfg resp ttl knd h).source) [
  | inl (k, p) ↦ rw k
  | inr (k, n) ↦ rw k
]

served :
    (cfg : Config) (es : List Entry) (e : Entry) (now : Instant)
    → is_fail e.kind ≡ false
    → ltb_ℤ (since now e.inserted_at) e.ttl ≡ true
    → spec_entry cfg es e now ≡ (
      hit e ∷ Elements.remove e.key es,
      Option.map (decrement_ttl (since now e.inserted_at)) e.msg,
      fresh,
    )
unfolding spec_entry
served cfg es e now a b = rw (a, b, spec_entry)

failed :
    (cfg : Config) (es : List Entry) (e : Entry) (now : Instant)
    → is_fail e.kind ≡ true
    → ((spec_entry cfg es e now).1 ≡ none)
      × ((spec_entry cfg es e now).2
          ≡ (if ltb_ℤ (since now e.inserted_at) e.ttl then fail else miss))
unfolding spec_entry
failed cfg es e now a = elim (Bool-cases (ltb_ℤ (since now e.inserted_at) e.ttl)) [
  | inl b ↦ rw (a, b, spec_entry) (refl, refl)
  | inr b ↦ rw (a, b, spec_entry) (refl, refl)
]

pub store-lookup :
    (c : Cache) (k : Key) (resp : Msg) (ttl : Duration) (knd : Kind) (t now : Instant)
    → IsValid c
    → 1 ≤ c.cfg.max_entries
    → cacheable c.cfg (some resp) ≡ some (ttl, knd)
    → since now t <ℤ ttl
    → ((lookup (store c k (some resp) t) k now).1
        ≡ some (decrement_ttl (since now t) (record (strip_opt resp) { id = 0 })))
      × ((lookup (store c k (some resp) t) k now).2 ≡ fresh)
unfolding store
store-lookup c k resp ttl knd t now v h ok live =
    let e : Entry = record {
      key = k;
      msg = some (record (strip_opt resp) { id = 0 });
      inserted_at = t;
      ttl = ttl;
      kind = knd;
      hits = 0;
    } in
    let (es, q) = put-lookup c e now v h in
    let a : is_fail knd ≡ false = cached_kind c.cfg resp ttl knd ok in
    let b : ltb_ℤ (since now t) ttl ≡ true = ground arith in
    let r = q ∙ served c.cfg es e now a b in
    rw (ok, store)
      (
        ap (λ (x : List Entry × Option Msg × Result). x.1) r,
        ap (λ (x : List Entry × Option Msg × Result). x.2) r,
      )

-- A failure that was stored is answered as a failure, with no message, until `FailTTL` has passed, and is
-- a miss from then on: it is never served stale.
pub store_fail-lookup :
    (c : Cache) (k : Key) (t now : Instant)
    → IsValid c
    → 1 ≤ c.cfg.max_entries
    → ((lookup (store_fail c k t) k now).1 ≡ none)
      × ((lookup (store_fail c k t) k now).2
          ≡ (if ltb_ℤ (since now t) c.cfg.fail_ttl then fail else miss))
unfolding store_fail
store_fail-lookup c k t now v h =
    let e : Entry = record {
      key = k;
      msg = none;
      inserted_at = t;
      ttl = c.cfg.fail_ttl;
      kind = kind_fail;
      hits = 0;
    } in
    let (es, q) = put-lookup c e now v h in
    let r = failed c.cfg es e now refl in
    (
      ap (λ (x : List Entry × Option Msg × Result). x.1) q ∙ r.0,
      ap (λ (x : List Entry × Option Msg × Result). x.2) q ∙ r.1,
    )

and_true : (a b : Bool) → (a && b) ≡ true → (a ≡ true) × (b ≡ true)
and_true a b h = ground arith

-- What stands behind a result of `Lookup` at time `now`.
pub record Backed (cfg : Config) (e : Entry) (r : Result) (m : Option Msg) (now : Instant)
    : Type 0 where
  pub is_fresh :
      r ≡ fresh
      → (is_fail e.kind ≡ false)
        × (since now e.inserted_at <ℤ e.ttl)
        × (m ≡ Option.map (decrement_ttl (since now e.inserted_at)) e.msg)
  pub is_stale :
      r ≡ stale
      → (is_fail e.kind ≡ false)
        × (cfg.serve_stale ≡ true)
        × (e.ttl ≤ℤ since now e.inserted_at)
        × (since now e.inserted_at <ℤ e.ttl +ℤ cfg.stale_max_age)
        × (m ≡ Option.map (stamp_ttl cfg.stale_ttl) e.msg)
  pub is_failed :
      r ≡ fail → (is_fail e.kind ≡ true) × (since now e.inserted_at <ℤ e.ttl) × (m ≡ none)
  pub is_missed : r ≡ miss → m ≡ none

spec_entry-Backed :
    (cfg : Config) (es : List Entry) (e : Entry) (now : Instant)
    → Backed cfg e (spec_entry cfg es e now).2 (spec_entry cfg es e now).1 now
unfolding spec_entry
spec_entry-Backed cfg es e now =
    let age = since now e.inserted_at in
    elim (Bool-cases (is_fail e.kind)) [
      | inl a ↦ elim (Bool-cases (ltb_ℤ age e.ttl)) [
        | inl b ↦
            rw (a, b, spec_entry)
              (record {
                is_fresh = λ x. absurd (cc x);
                is_stale = λ x. absurd (cc x);
                is_failed = λ x. (a, ltb_ℤ→lt age e.ttl b, refl);
                is_missed = λ x. refl;
              })
        | inr b ↦
            rw (a, b, spec_entry)
              (record {
                is_fresh = λ x. absurd (cc x);
                is_stale = λ x. absurd (cc x);
                is_failed = λ x. absurd (cc x);
                is_missed = λ x. refl;
              })
      ]
      | inr a ↦ elim (Bool-cases (ltb_ℤ age e.ttl)) [
        | inl b ↦
            rw (a, b, spec_entry)
              (record {
                is_fresh = λ x. (a, ltb_ℤ→lt age e.ttl b, refl);
                is_stale = λ x. absurd (cc x);
                is_failed = λ x. absurd (cc x);
                is_missed = λ x. absurd (cc x);
              })
        | inr b ↦ elim (Bool-cases (cfg.serve_stale && ltb_ℤ age (e.ttl +ℤ cfg.stale_max_age))) [
          | inl d ↦
              let (s, l) = and_true cfg.serve_stale (ltb_ℤ age (e.ttl +ℤ cfg.stale_max_age)) d in
              rw (a, b, d, spec_entry)
                (record {
                  is_fresh = λ x. absurd (cc x);
                  is_stale = λ x. (
                    a,
                    s,
                    ltb_ℤ→le age e.ttl b,
                    ltb_ℤ→lt age (e.ttl +ℤ cfg.stale_max_age) l,
                    refl,
                  );
                  is_failed = λ x. absurd (cc x);
                  is_missed = λ x. absurd (cc x);
                })
          | inr d ↦
              rw (a, b, d, spec_entry)
                (record {
                  is_fresh = λ x. absurd (cc x);
                  is_stale = λ x. absurd (cc x);
                  is_failed = λ x. absurd (cc x);
                  is_missed = λ x. refl;
                })
        ]
      ]
    ]

-- Every result of `Lookup` on a valid cache but a miss comes from an entry that the cache holds for the
-- key: fresh answers and failures only before its time is over, stale answers only from the end of
-- its time until `StaleMaxAge` later, if serving stale answers is on, and never from a failure.
pub lookup-Backed :
    (c : Cache) (k : Key) (now : Instant)
    → IsValid c
    → let r = lookup c k now in
      (r.2 ≡ miss) × (r.1 ≡ none)
      ⊎ ((e : Entry) × (Elements.lookup k (view c.ll) ≡ some e) × Backed c.cfg e r.2 r.1 now)
unfolding spec_lookup
lookup-Backed c k now v = elim (Option-cases (Elements.lookup k (view c.ll))) [
  | inl n ↦
      let q : shown (lookup c k now) ≡ (view c.ll, none, miss) =
        lookup-refines c k now v ∙ rw (n, spec_lookup) in
      inl (
        ap (λ (x : List Entry × Option Msg × Result). x.2) q,
        ap (λ (x : List Entry × Option Msg × Result). x.1) q,
      )
  | inr (e, n) ↦
      let q : shown (lookup c k now) ≡ spec_entry c.cfg (view c.ll) e now =
        lookup-refines c k now v ∙ rw (n, spec_lookup) in
      inr (
        e,
        n,
        subst (λ (x : List Entry × Option Msg × Result). Backed c.cfg e x.2 x.1 now) (sym q)
            (spec_entry-Backed c.cfg (view c.ll) e now),
      )
]
