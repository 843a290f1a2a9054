-- ===== src/AnsCache/Elements.antt =====
-- The `container/list` of internal/anscache/anscache.go, as far as the cache uses it. A pointer to a
-- list element is a number, and the list holds each element's pointer with its value, front first.
pub mod Laws
use splitdns.Prelude.{
  ℕ, zero, suc, ◌+◌, ◌≤◌, ◌<◌, ◌≡◌, refl, sym, ◌∙◌, ap, Bool, true, false, Option, none, some, List,
  [], ◌∷◌, map, if◌then◌else◌, ◌==◌, length, take, arith, Bool-cases, inl, inr,
}
use splitdns.AnsCache.Entry.{Key, Entry, key_eq, key_eq_iff, key_eq_refl}

abbrev pub Element : Type 0
Element = ℕ × Entry

-- `el.Value`
unfoldable pub value_of : ℕ → List Element → Option Entry
value_of i [] = none
value_of i ((j, e) ∷ l) = if j == i then some e else value_of i l

-- `ll.Remove(el)`
unfoldable pub unlink : ℕ → List Element → List Element
unlink i [] = []
unlink i ((j, e) ∷ l) = if j == i then l else (j, e) ∷ unlink i l

-- `ll.MoveToFront(el)`, which does nothing to an element of no list
unfoldable pub move_to_front : ℕ → List Element → List Element
unfolding value_of unlink
move_to_front i l = elim (value_of i l) [ none ↦ l | some e ↦ (i, e) ∷ unlink i l ]

-- a write through the pointer
unfoldable pub update_value : ℕ → (Entry → Entry) → List Element → List Element
update_value i g [] = []
update_value i g ((j, e) ∷ l) = if j == i then (j, g e) ∷ l else (j, e) ∷ update_value i g l

-- `ll.Back()`
unfoldable pub back : List Element → Option Element
back [] = none
back (x ∷ []) = some x
back (x ∷ y ∷ l) = back (y ∷ l)

-- the pointer of the first element that holds an entry of the key
unfoldable pub find_id : Key → List Element → Option ℕ
find_id k [] = none
find_id k ((i, e) ∷ l) = if key_eq e.key k then some i else find_id k l

-- the entries in their order: what the list stands for
abbrev pub view : List Element → List Entry
view = map (λ (p : Element). p.1)

-- the same list as an association list: the first entry of a key, and the list without it
unfoldable pub lookup : Key → List Entry → Option Entry
lookup k [] = none
lookup k (e ∷ l) = if key_eq e.key k then some e else lookup k l

unfoldable pub remove : Key → List Entry → List Entry
remove k [] = []
remove k (e ∷ l) = if key_eq e.key k then l else e ∷ remove k l

-- No pointer stands twice.
abbrev pub DistinctIds : List Element → Type 0
DistinctIds [] = Unit
DistinctIds ((i, e) ∷ l) = (value_of i l ≡ none) × DistinctIds l

-- No key stands twice.
abbrev pub DistinctKeys : List Element → Type 0
DistinctKeys [] = Unit
DistinctKeys ((i, e) ∷ l) = (find_id e.key l ≡ none) × DistinctKeys l
