-- ===== src/AnsCache/Cache/Linked.antt =====
-- How the list and the map of internal/anscache/anscache.go hang together, through each change of
-- the two.
use splitdns.Prelude.{
  ℕ, zero, suc, ◌+◌, ◌-◌, ◌≤◌, ◌<◌, ◌≡◌, refl, sym, ◌∙◌, ap, Option, none, some, List, [], ◌∷◌, ltb,
  length, take, take-take, take_of_length-le, arith, Bool-cases, inl, inr,
}
use splitdns.AnsCache.Entry.{Key, key_eq_refl, Entry}
use splitdns.AnsCache.Elements.{
  Element, value_of, unlink, move_to_front, update_value, back, find_id, DistinctIds, DistinctKeys,
}
use splitdns.AnsCache.Elements.Laws.{
  value-unlink-none, unlink-DistinctIds, unlink-DistinctKeys, value-unlink_self, find-value,
  find-unlink, unlink-update, value-update, length-unlink, find-front, back-some, back-value,
  unlink-back,
}
use splitdns.AnsCache.Cache.{Cache, assign, hit, use_element, evict, evict_one}

-- What the list and the map owe each other, whatever the number of entries.
pub record IsLinked (ll : List Element) (m : Key → Option ℕ) (next : ℕ) : Type 0 where
  pub agrees : (k : Key) → m k ≡ find_id k ll
  pub ids : DistinctIds ll
  pub keys : DistinctKeys ll
  pub unused : (n : ℕ) → next ≤ n → value_of n ll ≡ none

-- An element moved to the front with an entry of its key.
pub front-IsLinked :
    {ll : List Element} {m : Key → Option ℕ} {next : ℕ} (i : ℕ) (e f : Entry)
    → IsLinked ll m next
    → find_id f.key ll ≡ some i
    → e.key ≡ f.key
    → IsLinked ((i, e) ∷ unlink i ll) m next
unfolding value_of
front-IsLinked {ll} {m} {next} i e f v h q =
    let (g, w, p) = find-value f.key i ll v.ids h in
    record {
      agrees = λ k. v.agrees k ∙ sym (find-front k i e f ll v.keys v.ids h q);
      ids = (value-unlink_self i ll v.ids, unlink-DistinctIds i ll v.ids);
      keys = (
        find-unlink e.key i g ll v.keys w ∙ rw (p, ← q) (rw (key_eq_refl e.key)),
        unlink-DistinctKeys i ll v.keys,
      );
      unused = λ n l. ground (arith, v.unused n l, value-unlink-none n i ll, w);
    }

pub remove_el-IsLinked :
    {ll : List Element} {m : Key → Option ℕ} {next : ℕ} (i : ℕ) (e : Entry)
    → IsLinked ll m next
    → value_of i ll ≡ some e
    → IsLinked (unlink i ll) (assign e.key none m) next
unfolding assign
remove_el-IsLinked {ll} {m} {next} i e v w = record {
  agrees = λ k. rw (v.agrees k) (sym (find-unlink k i e ll v.keys w));
  ids = unlink-DistinctIds i ll v.ids;
  keys = unlink-DistinctKeys i ll v.keys;
  unused = λ n l. value-unlink-none n i ll (v.unused n l);
}

pub push-IsLinked :
    {ll : List Element} {m : Key → Option ℕ} {next : ℕ} (e : Entry)
    → IsLinked ll m next
    → m e.key ≡ none
    → IsLinked ((next, e) ∷ ll) (assign e.key (some next) m) (next + 1)
unfolding assign find_id value_of
push-IsLinked {ll} {m} {next} e v h = record {
  agrees = λ k. rw (v.agrees k);
  ids = (v.unused next (omega arith), v.ids);
  keys = (sym (v.agrees e.key) ∙ h, v.keys);
  unused = λ n l. ground (arith, v.unused n (omega arith));
}

-- What the operations that use the element of a key do to the list.
pub use_element_ll :
    (i : ℕ) (e : Entry) (c : Cache)
    → value_of i c.ll ≡ some e
    → (use_element i c).ll ≡ (i, hit e) ∷ unlink i c.ll
unfolding use_element
use_element_ll i e c w = rw (w, move_to_front, update_value) (ground arith)

pub move_to_front_lem :
    (i : ℕ) (e : Entry) (l : List Element)
    → value_of i l ≡ some e
    → move_to_front i l ≡ (i, e) ∷ unlink i l
unfolding move_to_front
move_to_front_lem i e l w = rw (w, move_to_front)

pub insert_ll :
    (i : ℕ) (e f : Entry) (l : List Element)
    → value_of i l ≡ some f
    → move_to_front i (update_value i (λ _. e) l) ≡ (i, e) ∷ unlink i l
insert_ll i e f l w =
    move_to_front_lem i e (update_value i (λ _. e) l) (value-update i (λ _. e) f l w)
    ∙ ap (λ r. (i, e) ∷ r) (unlink-update i (λ _. e) l)

-- The loop of `put` leaves the first `MaxEntries` elements.
pub record Evicted (c d : Cache) : Type 0 where
  pub linked : IsLinked d.ll d.m d.next
  pub ll : d.ll ≡ take c.cfg.max_entries c.ll
  pub cfg : d.cfg ≡ c.cfg

back_of : (l : List Element) → 0 < length l → (x : Element) × (back l ≡ some x)
back_of [] h = absurd (omega arith)
back_of (x ∷ l) h = back-some x l

pub evict-Evicted :
    (fuel : ℕ) (c : Cache)
    → IsLinked c.ll c.m c.next
    → length c.ll ≤ fuel
    → Evicted c (evict fuel c)
unfolding evict
evict-Evicted zero c v h = record {
  linked = v;
  ll = sym (take_of_length-le c.cfg.max_entries c.ll (omega arith));
  cfg = refl;
}
evict-Evicted (suc fuel) c v h = elim (Bool-cases (ltb c.cfg.max_entries (length c.ll))) [
  | inl over ↦
      let (x, b) = back_of c.ll (ground arith) in
      let w = back-value x c.ll b v.ids in
      let n = length c.ll - 1 in
      let more : c.cfg.max_entries < length c.ll = ground arith in
      let u = unlink-back x n c.ll b v.ids (omega arith) in
      let r =
        evict-Evicted fuel (evict_one x c) (remove_el-IsLinked x.0 x.1 v w)
          (omega (arith, length-unlink x.0 x.1 c.ll w)) in
      rw (over, b, evict)
        (record {
          linked = r.linked;
          ll =
              r.ll
              ∙ ap (take c.cfg.max_entries) u
              ∙ take-take c.cfg.max_entries n c.ll (omega arith);
          cfg = r.cfg;
        })
  | inr fits ↦
      rw (fits, evict)
        (record {
          linked = v;
          ll = sym (take_of_length-le c.cfg.max_entries c.ll (ground arith));
          cfg = refl;
        })
]
