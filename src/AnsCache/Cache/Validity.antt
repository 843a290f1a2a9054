-- ===== src/AnsCache/Cache/Validity.antt =====
-- The invariant that ties the list and the map of internal/anscache/anscache.go together, kept by
-- every operation.
use splitdns.Prelude.{
  ℕ, ◌+◌, ◌≤◌, ◌≡◌, refl, sym, ◌∙◌, ap, ◌&&◌, none, some, ◌∷◌, ltb_ℤ, ◌+ℤ◌, Instant, since, length,
  length-take-le, arith, Bool-cases, Option-cases, inl, inr, ◌⊎◌,
}
use splitdns.AnsCache.Entry.{Config, Key, Entry}
use splitdns.AnsCache.Elements.{value_of, unlink, move_to_front, find_id}
use splitdns.AnsCache.Elements.Laws.{find-value, length-unlink, length-unlink-le}
use splitdns.AnsCache.Cache.{
  Cache, remove_el, note_miss, note_hit, note_fail_hit, hit, is_fail, use_element, lookup_entry,
  lookup, insert, put, new,
}
use splitdns.AnsCache.Cache.Linked.{
  IsLinked, front-IsLinked, remove_el-IsLinked, push-IsLinked, use_element_ll, move_to_front_lem,
  insert_ll, evict-Evicted,
}

-- The state of a cache between two operations.
pub record IsValid (c : Cache) : Type 0 where
  pub linked : IsLinked c.ll c.m c.next
  pub bounded : length c.ll ≤ c.cfg.max_entries

-- The entry that the map has for a key.
pub record Found (c : Cache) (k : Key) : Type 0 where
  pub id : ℕ
  pub entry : Entry
  pub in_map : c.m k ≡ some id
  pub value : value_of id c.ll ≡ some entry
  pub key : entry.key ≡ k

-- A key is in the map exactly with the element that holds it.
pub map-cases : (c : Cache) (k : Key) → IsLinked c.ll c.m c.next → (c.m k ≡ none) ⊎ Found c k
map-cases c k v = elim (Option-cases (c.m k)) [
  | inl e ↦ inl e
  | inr (i, e) ↦
      let (f, w, q) = find-value k i c.ll v.ids (sym (v.agrees k) ∙ e) in
      inr (record { id = i; entry = f; in_map = e; value = w; key = q })
]

pub insert-IsLinked :
    (c : Cache) (e : Entry)
    → IsLinked c.ll c.m c.next
    → IsLinked (insert c e).ll (insert c e).m (insert c e).next × ((insert c e).cfg ≡ c.cfg)
unfolding insert
insert-IsLinked c e v = elim (map-cases c e.key v) [
  | inl n ↦ rw (n, insert) (push-IsLinked e v n, refl)
  | inr f ↦
      rw (f.in_map, insert)
        (rw (insert_ll f.id e f.entry c.ll f.value)
          (front-IsLinked f.id e e v (sym (v.agrees e.key) ∙ f.in_map) refl, refl))
]

-- `put` keeps the invariant and the configuration: never more than `MaxEntries` entries, and the map
-- and the list hold the same ones.
pub put-IsValid : (c : Cache) (e : Entry) → IsValid c → IsValid (put c e) × ((put c e).cfg ≡ c.cfg)
unfolding put
put-IsValid c e v =
    let (l, q) = insert-IsLinked c e v.linked in
    let d = insert c e in
    let d' = record d { stats = record (d.stats) { inserts = d.stats.inserts + 1 } } in
    let r = evict-Evicted (length d'.ll) d' l (omega arith) in
    (
      record {
        linked = r.linked;
        bounded = omega (
          arith,
          ap length r.ll,
          length-take-le d'.cfg.max_entries d'.ll,
          ap (λ (x : Config). x.max_entries) r.cfg,
        );
      },
      r.cfg ∙ q,
    )

-- `IsValid` and the configuration over the operations that a lookup is made of.
abbrev Keeps : Cache → Cache → Type 0
Keeps c d = IsValid d × (d.cfg ≡ c.cfg)

moved-Keeps :
    (c d : Cache) (k : Key) (f : Found c k) (e : Entry)
    → IsValid c
    → d.ll ≡ (f.id, e) ∷ unlink f.id c.ll
    → e.key ≡ k
    → d.m ≡ c.m
    → d.next ≡ c.next
    → d.cfg ≡ c.cfg
    → Keeps c d
moved-Keeps c d k f e v ll q m n g =
    let h = sym (v.linked.agrees k) ∙ f.in_map in
    let h' : find_id f.entry.key c.ll ≡ some f.id = rw f.key h in
    (
      record {
        linked = rw (ll, m, n) (front-IsLinked f.id e f.entry v.linked h' (q ∙ sym f.key));
        bounded = omega (
          arith,
          ap length ll,
          length-unlink f.id f.entry c.ll f.value,
          v.bounded,
          ap (λ (x : Config). x.max_entries) g,
        );
      },
      g,
    )

use-Keeps : (c : Cache) (k : Key) (f : Found c k) → IsValid c → Keeps c (use_element f.id c)
use-Keeps c k f v =
    moved-Keeps c (use_element f.id c) k f (hit f.entry) v (use_element_ll f.id f.entry c f.value)
      f.key (unfold use_element in refl) (unfold use_element in refl) (unfold use_element in refl)

stale-Keeps :
    (c : Cache) (k : Key) (f : Found c k)
    → IsValid c
    → Keeps c (record c { ll = move_to_front f.id c.ll })
stale-Keeps c k f v =
    moved-Keeps c (record c { ll = move_to_front f.id c.ll }) k f f.entry v
      (move_to_front_lem f.id f.entry c.ll f.value) f.key refl refl refl

drop-Keeps :
    (c : Cache) (k : Key) (f : Found c k) → IsValid c → Keeps c (remove_el (f.id, f.entry) c)
unfolding remove_el
drop-Keeps c k f v = (
  record {
    linked = remove_el-IsLinked f.id f.entry v.linked f.value;
    bounded = omega (arith, length-unlink-le f.id c.ll, v.bounded);
  },
  refl,
)

miss-Keeps : (c d : Cache) → Keeps c d → Keeps c (note_miss d)
unfolding note_miss
miss-Keeps c d h = (record { linked = h.0.linked; bounded = h.0.bounded }, h.1)

hit-Keeps : (c d : Cache) → Keeps c d → Keeps c (note_hit d) × Keeps c (note_fail_hit d)
unfolding note_hit note_fail_hit
hit-Keeps c d h = (
  (record { linked = h.0.linked; bounded = h.0.bounded }, h.1),
  (record { linked = h.0.linked; bounded = h.0.bounded }, h.1),
)

lookup_entry-Keeps :
    (c : Cache) (k : Key) (now : Instant) (f : Found c k)
    → IsValid c
    → Keeps c (lookup_entry c f.id f.entry now).0
unfolding lookup_entry
lookup_entry-Keeps c k now f v =
    let age = since now f.entry.inserted_at in
    let dropped = miss-Keeps c (remove_el (f.id, f.entry) c) (drop-Keeps c k f v) in
    let used = hit-Keeps c (use_element f.id c) (use-Keeps c k f v) in
    elim (Bool-cases (is_fail f.entry.kind)) [
      | inl a ↦ elim (Bool-cases (ltb_ℤ age f.entry.ttl)) [
        | inl b ↦ rw (a, b, lookup_entry) used.1
        | inr b ↦ rw (a, b, lookup_entry) dropped
      ]
      | inr a ↦ elim (Bool-cases (ltb_ℤ age f.entry.ttl)) [
        | inl b ↦ rw (a, b, lookup_entry) used.0
        | inr b ↦
            elim (Bool-cases
              (c.cfg.serve_stale && ltb_ℤ age (f.entry.ttl +ℤ c.cfg.stale_max_age))) [
                | inl d ↦ rw (a, b, d, lookup_entry) (stale-Keeps c k f v)
                | inr d ↦ rw (a, b, d, lookup_entry) dropped
              ]
      ]
    ]

-- `Lookup` keeps the invariant and the configuration.
pub lookup-IsValid :
    (c : Cache) (k : Key) (now : Instant)
    → IsValid c
    → IsValid (lookup c k now).0 × ((lookup c k now).0.cfg ≡ c.cfg)
unfolding lookup
lookup-IsValid c k now v = elim (map-cases c k v.linked) [
  | inl n ↦ rw (n, lookup) (miss-Keeps c c (v, refl))
  | inr f ↦ rw (f.in_map, lookup) (rw f.value (lookup_entry-Keeps c k now f v))
]

-- A new cache is valid, whatever the configuration.
pub new-IsValid : (cfg : Config) → IsValid (new cfg)
unfolding new find_id value_of
new-IsValid cfg = record {
  linked = record { agrees = λ k. refl; ids = tt; keys = tt; unused = λ n l. refl };
  bounded = omega arith;
}
