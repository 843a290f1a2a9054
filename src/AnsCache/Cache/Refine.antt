-- ===== src/AnsCache/Cache/Refine.antt =====
-- The answer cache of internal/anscache/anscache.go refines a plain list of entries, most recently
-- used first, with no pointers and no map.
use splitdns.Prelude.{
  ◌+◌, ◌≡◌, refl, sym, ◌∙◌, ap, ◌&&◌, Option, none, some, List, ◌∷◌, if◌then◌else◌, ltb_ℤ, ◌+ℤ◌,
  Instant, since, length, take, map-take, arith, Bool-cases, inl, inr,
}
use mathlib.Core.Option
use splitdns.Dns.{Msg}
use splitdns.AnsCache.Entry.{Config, Key, Entry, Result, miss, fresh, stale, fail}
use splitdns.AnsCache.Ttl.{decrement_ttl, stamp_ttl}
use splitdns.AnsCache.Elements.{Element, value_of, unlink, find_id, view}
use splitdns.AnsCache.Elements
use splitdns.AnsCache.Elements.Laws.{view-unlink, lookup-view, absent-view}
use splitdns.AnsCache.Cache.{
  Cache, hit, is_fail, lookup_entry, lookup, insert, put, use_element, note_miss, note_hit,
  note_fail_hit, move_to_front,
}
use splitdns.AnsCache.Cache.Linked.{
  IsLinked, evict-Evicted, use_element_ll, move_to_front_lem, insert_ll,
}
use splitdns.AnsCache.Cache.Validity.{IsValid, Found, map-cases, insert-IsLinked}

-- `Lookup` on a list of entries: what becomes of the list, the message and the result.
unfoldable pub spec_entry : Config → List Entry → Entry → Instant → List Entry × Option Msg × Result
spec_entry cfg es e now =
    let age = since now e.inserted_at in
    let others = Elements.remove e.key es in
    if is_fail e.kind
    then (if ltb_ℤ age e.ttl then (hit e ∷ others, none, fail) else (others, none, miss))
    else if ltb_ℤ age e.ttl
    then (hit e ∷ others, Option.map (decrement_ttl age) e.msg, fresh)
    else if cfg.serve_stale && ltb_ℤ age (e.ttl +ℤ cfg.stale_max_age)
    then (e ∷ others, Option.map (stamp_ttl cfg.stale_ttl) e.msg, stale)
    else (others, none, miss)

unfoldable pub spec_lookup : Config → List Entry → Key → Instant → List Entry × Option Msg × Result
unfolding spec_entry
spec_lookup cfg es k now = elim (Elements.lookup k es) [
  | none ↦ (es, none, miss)
  | some e ↦ spec_entry cfg es e now
]

-- `put` on a list of entries: in front, without the old entry of its key, and cut to the capacity.
unfoldable pub spec_put : Config → List Entry → Entry → List Entry
spec_put cfg es e = take cfg.max_entries (e ∷ Elements.remove e.key es)

-- What a lookup shows of a cache.
abbrev pub shown : Cache × Option Msg × Result → List Entry × Option Msg × Result
shown r = (view r.0.ll, r.1, r.2)

insert-view :
    (c : Cache) (e : Entry)
    → IsLinked c.ll c.m c.next
    → view (insert c e).ll ≡ e ∷ Elements.remove e.key (view c.ll)
unfolding insert
insert-view c e v = elim (map-cases c e.key v) [
  | inl n ↦ rw (n, insert) (ap (◌∷◌ e) (sym (absent-view c.ll e.key (sym (v.agrees e.key) ∙ n)).1))
  | inr f ↦
      rw (f.in_map, insert)
        (rw (insert_ll f.id e f.entry c.ll f.value)
          (ap (◌∷◌ e) (view-unlink f.id c.ll e.key v.ids (sym (v.agrees e.key) ∙ f.in_map))))
]

-- `put` on a valid cache does to its list of entries what the plain list does: the new entry is in
-- front, an old entry of the same key is gone, and what does not fit is dropped at the end, least
-- recently used first.
pub put-refines :
    (c : Cache) (e : Entry) → IsValid c → view (put c e).ll ≡ spec_put c.cfg (view c.ll) e
unfolding put spec_put
put-refines c e v =
    let (l, q) = insert-IsLinked c e v.linked in
    let d = insert c e in
    let d' = record d { stats = record (d.stats) { inserts = d.stats.inserts + 1 } } in
    let r = evict-Evicted (length d'.ll) d' l (omega arith) in
    ap view r.ll
    ∙ map-take (λ (p : Element). p.1) d'.cfg.max_entries d'.ll
    ∙ ap (take d'.cfg.max_entries) (insert-view c e v.linked)
    ∙ ap (λ (x : Config). take x.max_entries (e ∷ Elements.remove e.key (view c.ll))) q

lookup_entry-refines :
    (c : Cache) (k : Key) (now : Instant) (f : Found c k)
    → IsValid c
    → shown (lookup_entry c f.id f.entry now) ≡ spec_entry c.cfg (view c.ll) f.entry now
unfolding lookup_entry spec_entry note_miss note_hit note_fail_hit
lookup_entry-refines c k now f v =
    let e = f.entry in
    let age = since now e.inserted_at in
    let at : find_id e.key c.ll ≡ some f.id = rw f.key (sym (v.linked.agrees k) ∙ f.in_map) in
    let others = view-unlink f.id c.ll e.key v.linked.ids at in
    let used : view (use_element f.id c).ll ≡ hit e ∷ Elements.remove e.key (view c.ll) =
      ap view (use_element_ll f.id e c f.value) ∙ ap (◌∷◌ (hit e)) others in
    let moved : view (move_to_front f.id c.ll) ≡ e ∷ Elements.remove e.key (view c.ll) =
      ap view (move_to_front_lem f.id e c.ll f.value) ∙ ap (◌∷◌ e) others in
    elim (Bool-cases (is_fail e.kind)) [
      | inl a ↦ elim (Bool-cases (ltb_ℤ age e.ttl)) [
        | inl b ↦ rw (a, b, lookup_entry, spec_entry) (λ i. (used i, none, fail))
        | inr b ↦ rw (a, b, lookup_entry, spec_entry) (λ i. (others i, none, miss))
      ]
      | inr a ↦ elim (Bool-cases (ltb_ℤ age e.ttl)) [
        | inl b ↦
            rw (a, b, lookup_entry, spec_entry)
              (λ i. (used i, Option.map (decrement_ttl age) e.msg, fresh))
        | inr b ↦
            elim (Bool-cases (c.cfg.serve_stale && ltb_ℤ age (e.ttl +ℤ c.cfg.stale_max_age))) [
              | inl d ↦
                  rw (a, b, d, lookup_entry, spec_entry)
                    (λ i. (moved i, Option.map (stamp_ttl c.cfg.stale_ttl) e.msg, stale))
              | inr d ↦ rw (a, b, d, lookup_entry, spec_entry) (λ i. (others i, none, miss))
            ]
      ]
    ]

-- `Lookup` on a valid cache returns the message and the result of the plain list, and leaves its list
-- of entries as the plain list is left: a hit is moved to the front, an entry past its time is gone.
pub lookup-refines :
    (c : Cache) (k : Key) (now : Instant)
    → IsValid c
    → shown (lookup c k now) ≡ spec_lookup c.cfg (view c.ll) k now
unfolding lookup spec_lookup
lookup-refines c k now v = elim (map-cases c k v.linked) [
  | inl n ↦
      let a = absent-view c.ll k (sym (v.linked.agrees k) ∙ n) in
      rw (n, lookup) (rw (a.0, spec_lookup) (unfold note_miss in refl))
  | inr f ↦
      let q = lookup-view f.id c.ll k v.linked.ids (sym (v.linked.agrees k) ∙ f.in_map) ∙ f.value in
      rw (f.in_map, lookup) (rw (f.value) (rw (q, spec_lookup) (lookup_entry-refines c k now f v)))
]
