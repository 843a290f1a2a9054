-- ===== src/AnsCache/Cache.antt =====
-- The operations of internal/anscache/anscache.go. The state is the linked list, the map from keys
-- to list elements and the counters; `next` is the pointer of the next element made. The reading of
-- `c.now()` is the argument `now`. Counters are `uint64` and do not reach 2^64.
pub mod Linked
pub mod Validity
pub mod Refine
use splitdns.Prelude.{
  ℕ, zero, suc, ◌+◌, Bool, true, false, ◌&&◌, Option, none, some, List, [], ◌∷◌, if◌then◌else◌, ltb,
  ◌==◌, ltb_ℤ, leb_ℤ, ◌+ℤ◌, Instant, Duration, since, length,
}
use mathlib.Core.Option
use splitdns.Dns.{Msg}
use splitdns.AnsCache.Entry.{
  Config, normalize, Key, key_eq, Result, miss, fresh, stale, fail, Kind, kind_positive,
  kind_negative, kind_fail, Entry, Stats, no_stats,
}
use splitdns.AnsCache.Ttl.{cacheable, decrement_ttl, stamp_ttl, strip_opt}
use splitdns.AnsCache.Elements.{Element, value_of, unlink, move_to_front, update_value, back}

-- `Cache`, without its clock and its lock
pub record Cache : Type 0 where
  pub cfg : Config
  pub ll : List Element
  pub m : Key → Option ℕ
  pub stats : Stats
  pub next : ℕ

-- `New`
unfoldable pub new : Config → Cache
unfolding normalize
new cfg = record { cfg = normalize cfg; ll = []; m = λ _. none; stats = no_stats; next = 0 }

-- `m[k] = el` and `delete(m, k)`
unfoldable pub assign : Key → Option ℕ → (Key → Option ℕ) → Key → Option ℕ
assign k v m j = if key_eq k j then v else m j

-- `removeEl`
unfoldable pub remove_el : Element → Cache → Cache
unfolding assign unlink
remove_el el c = record c { m = assign (el.1).key none c.m; ll = unlink el.0 c.ll }

unfoldable pub note_miss : Cache → Cache
note_miss c = record c { stats = record (c.stats) { misses = c.stats.misses + 1 } }

-- `e.hits++`
abbrev pub hit : Entry → Entry
hit e = record e { hits = e.hits + 1 }

abbrev pub is_fail : Kind → Bool
is_fail kind_fail = true
is_fail _ = false

unfoldable pub note_fail_hit : Cache → Cache
note_fail_hit c = record c { stats = record (c.stats) { fail_hits = c.stats.fail_hits + 1 } }

unfoldable pub note_hit : Cache → Cache
note_hit c = record c { stats = record (c.stats) { hits = c.stats.hits + 1 } }

-- `c.ll.MoveToFront(el); e.hits++`
unfoldable pub use_element : ℕ → Cache → Cache
unfolding move_to_front update_value
use_element i c = record c { ll = update_value i hit (move_to_front i c.ll) }

-- `Lookup` behind the two reads of the map and of the element
unfoldable pub lookup_entry : Cache → ℕ → Entry → Instant → Cache × Option Msg × Result
unfolding use_element remove_el note_miss note_hit note_fail_hit move_to_front decrement_ttl
    stamp_ttl
lookup_entry c i e now =
    let age = since now e.inserted_at in
    if is_fail e.kind
    then (if ltb_ℤ age e.ttl
        then (note_fail_hit (use_element i c), none, fail)
        else (note_miss (remove_el (i, e) c), none, miss))
    else if ltb_ℤ age e.ttl
    then (note_hit (use_element i c), Option.map (decrement_ttl age) e.msg, fresh)
    else if c.cfg.serve_stale && ltb_ℤ age (e.ttl +ℤ c.cfg.stale_max_age)
    then (
      record c { ll = move_to_front i c.ll },
      Option.map (stamp_ttl c.cfg.stale_ttl) e.msg,
      stale,
    )
    else (note_miss (remove_el (i, e) c), none, miss)

-- `Lookup`; the map holds pointers of linked elements only (`IsValid`), so the middle case is void
unfoldable pub lookup : Cache → Key → Instant → Cache × Option Msg × Result
unfolding lookup_entry value_of
lookup c k now = elim (c.m k) [
  | none ↦ (note_miss c, none, miss)
  | some i ↦ elim (value_of i c.ll) [
    | none ↦ (note_miss c, none, miss)
    | some e ↦ lookup_entry c i e now
  ]
]

-- `NoteStaleServed`
unfoldable pub note_stale_served : Cache → Cache
note_stale_served c = record c {
  stats = record (c.stats) { stale_serves = c.stats.stale_serves + 1 };
}

-- the body of the loop at the end of `put`
unfoldable pub evict_one : Element → Cache → Cache
unfolding remove_el
evict_one el c =
    let d = remove_el el c in
    record d { stats = record (d.stats) { evictions = d.stats.evictions + 1 } }

-- the loop at the end of `put`
unfoldable pub evict : ℕ → Cache → Cache
unfolding evict_one
evict zero c = c
evict (suc fuel) c = elim (ltb c.cfg.max_entries (length c.ll)) [
  | false ↦ c
  | true ↦ elim (back c.ll) [ none ↦ c | some el ↦ evict fuel (evict_one el c) ]
]

-- the branches at the head of `put`
unfoldable pub insert : Cache → Entry → Cache
unfolding assign update_value move_to_front
insert c e = elim (c.m e.key) [
  | some i ↦ record c { ll = move_to_front i (update_value i (λ _. e) c.ll) }
  | none ↦ record c {
    ll = (c.next, e) ∷ c.ll;
    m = assign e.key (some c.next) c.m;
    next = c.next + 1;
  }
]

-- `put`; each round of the loop removes an element, so there are at most as many as elements
unfoldable pub put : Cache → Entry → Cache
unfolding insert evict
put c e =
    let d = insert c e in
    let d' = record d { stats = record (d.stats) { inserts = d.stats.inserts + 1 } } in
    evict (length d'.ll) d'

-- `Store`
unfoldable pub store : Cache → Key → Option Msg → Instant → Cache
store c k none now = c
store c k (some resp) now = elim (cacheable c.cfg (some resp)) [
  | none ↦ c
  | some (ttl, knd) ↦ put c (record {
    key = k;
    msg = some (record (strip_opt resp) { id = 0 });
    inserted_at = now;
    ttl = ttl;
    kind = knd;
    hits = 0;
  })
]

-- `StoreFail`
unfoldable pub store_fail : Cache → Key → Instant → Cache
store_fail c k now = put c (record {
  key = k;
  msg = none;
  inserted_at = now;
  ttl = c.cfg.fail_ttl;
  kind = kind_fail;
  hits = 0;
})

peek_entry : Entry → Instant → Option Msg
peek_entry e now =
    if is_fail e.kind then none else if leb_ℤ e.ttl (since now e.inserted_at) then none else e.msg

-- `Peek`; `none` stands for `(nil, false)`
unfoldable pub peek : Cache → Key → Instant → Option Msg
unfolding peek_entry value_of
peek c k now = elim (c.m k) [
  | none ↦ none
  | some i ↦ elim (value_of i c.ll) [ none ↦ none | some e ↦ peek_entry e now ]
]

-- `Flush`
unfoldable pub flush : Cache → Cache
flush c = record c { ll = []; m = λ _. none; stats = no_stats }

-- the two live fields of what `Stats` returns
unfoldable pub occupancy : Cache → ℕ × ℕ
occupancy c = (length c.ll, c.cfg.max_entries)
