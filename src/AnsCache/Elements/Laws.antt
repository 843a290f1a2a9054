-- ===== src/AnsCache/Elements/Laws.antt =====
-- Laws of the linked list of internal/anscache/anscache.go and of its reading as an association list.
use splitdns.Prelude.{
  ℕ, zero, suc, ◌+◌, ◌≤◌, ◌≡◌, refl, sym, ◌∙◌, ap, true, false, none, some, List, [], ◌∷◌,
  if◌then◌else◌, ◌==◌, length, take, arith, Bool-cases, inl, inr,
}
use splitdns.AnsCache.Entry.{Key, Entry, key_eq, key_eq_iff, key_eq_refl}
use splitdns.AnsCache.Elements.{
  Element, value_of, unlink, update_value, back, find_id, view, lookup, remove, DistinctIds,
  DistinctKeys,
}

pub value-unlink-none :
    (i j : ℕ) (l : List Element) → value_of i l ≡ none → value_of i (unlink j l) ≡ none
unfolding value_of unlink
value-unlink-none i j [] h = refl
value-unlink-none i j ((k, e) ∷ l) h = ground (arith, value-unlink-none i j l)

pub find-unlink-none :
    (k : Key) (j : ℕ) (l : List Element) → find_id k l ≡ none → find_id k (unlink j l) ≡ none
unfolding find_id unlink
find-unlink-none k j [] h = refl
find-unlink-none k j ((i, e) ∷ l) h = ground (arith, find-unlink-none k j l)

pub unlink-DistinctIds : (j : ℕ) (l : List Element) → DistinctIds l → DistinctIds (unlink j l)
unfolding unlink
unlink-DistinctIds j [] h = h
unlink-DistinctIds j ((i, e) ∷ l) h =
    elim (i == j) as (λ b. DistinctIds (if b then l else (i, e) ∷ unlink j l)) [
      | true ↦ h.1
      | false ↦ (value-unlink-none i j l h.0, unlink-DistinctIds j l h.1)
    ]

pub unlink-DistinctKeys : (j : ℕ) (l : List Element) → DistinctKeys l → DistinctKeys (unlink j l)
unfolding unlink
unlink-DistinctKeys j [] h = h
unlink-DistinctKeys j ((i, e) ∷ l) h =
    elim (i == j) as (λ b. DistinctKeys (if b then l else (i, e) ∷ unlink j l)) [
      | true ↦ h.1
      | false ↦ (find-unlink-none e.key j l h.0, unlink-DistinctKeys j l h.1)
    ]

pub unlink_absent : (i : ℕ) (l : List Element) → value_of i l ≡ none → unlink i l ≡ l
unfolding value_of unlink
unlink_absent i [] h = refl
unlink_absent i ((j, e) ∷ l) h = ground (arith, unlink_absent i l)

pub value-unlink_self : (i : ℕ) (l : List Element) → DistinctIds l → value_of i (unlink i l) ≡ none
unfolding value_of unlink
value-unlink_self i [] h = refl
value-unlink_self i ((j, e) ∷ l) h = ground (arith, value-unlink_self i l h.1)

-- Looking up a key and following the pointer finds an entry with that key.
pub find-value :
    (k : Key) (i : ℕ) (l : List Element)
    → DistinctIds l
    → find_id k l ≡ some i
    → (e : Entry) × (value_of i l ≡ some e) × (e.key ≡ k)
unfolding find_id value_of
find-value k i [] d h = cc
find-value k i ((j, e) ∷ l) d h = elim (Bool-cases (key_eq e.key k)) [
  | inl here ↦ (e, ground arith, (key_eq_iff e.key k).0 here)
  | inr there ↦
      let rest : find_id k l ≡ some i = ground arith in
      let (f, v, q) = find-value k i l d.1 rest in (f, ground arith, q)
]

find_id-eq : (j k : Key) (l : List Element) → key_eq j k ≡ true → find_id j l ≡ find_id k l
find_id-eq j k l h = ap (λ x. find_id x l) ((key_eq_iff j k).0 h)

-- The key of an element that is linked is found.
find-value_ne :
    (i : ℕ) (e : Entry) (l : List Element) → value_of i l ≡ some e → find_id e.key l ≡ none → ⊥
unfolding find_id value_of
find-value_ne i e [] h n = cc
find-value_ne i e ((j, f) ∷ l) h n = elim (Bool-cases (j == i)) [
  | inl here ↦ ground (arith, key_eq_refl e.key)
  | inr there ↦ find-value_ne i e l (ground arith) (ground arith)
]

-- Removing the element of a key hides that key and no other.
pub find-unlink :
    (k : Key) (i : ℕ) (e : Entry) (l : List Element)
    → DistinctKeys l
    → value_of i l ≡ some e
    → find_id k (unlink i l) ≡ (if key_eq e.key k then none else find_id k l)
unfolding find_id unlink value_of
find-unlink k i e [] d h = cc
find-unlink k i e ((j, f) ∷ l) d h = elim (Bool-cases (j == i)) [
  | inl here ↦
      let q : some f ≡ some e = rw (here, value_of) at h in
      rw (here, unlink) (ground (arith, d.0, find_id-eq f.key k l))
  | inr there ↦
      let v : value_of i l ≡ some e = rw (there, value_of) at h in
      rw (there, unlink)
        (ground (
          arith,
          find-unlink k i e l d.1 v,
          d.0,
          find-value_ne i e l v,
          find_id-eq f.key e.key l,
          key_eq_iff e.key k,
          key_eq_iff f.key k,
          key_eq_refl k,
        ))
]

-- The pointer of a key that is not there is in no element, and removing by it removes the entry.
pub view-unlink :
    (i : ℕ) (l : List Element) (k : Key)
    → DistinctIds l
    → find_id k l ≡ some i
    → view (unlink i l) ≡ remove k (view l)
unfolding find_id unlink value_of remove
view-unlink i [] k d h = cc
view-unlink i ((j, e) ∷ l) k d h = elim (Bool-cases (key_eq e.key k)) [
  | inl here ↦ ground arith
  | inr there ↦
      let rest : find_id k l ≡ some i = ground arith in
      let (f, v, q) = find-value k i l d.1 rest in ground (arith, view-unlink i l k d.1 rest)
]

pub lookup-view :
    (i : ℕ) (l : List Element) (k : Key)
    → DistinctIds l
    → find_id k l ≡ some i
    → lookup k (view l) ≡ value_of i l
unfolding find_id value_of lookup
lookup-view i [] k d h = cc
lookup-view i ((j, e) ∷ l) k d h = elim (Bool-cases (key_eq e.key k)) [
  | inl here ↦ ground arith
  | inr there ↦
      let rest : find_id k l ≡ some i = ground arith in
      let (f, v, q) = find-value k i l d.1 rest in ground (arith, lookup-view i l k d.1 rest)
]

pub absent-view :
    (l : List Element) (k : Key)
    → find_id k l ≡ none
    → (lookup k (view l) ≡ none) × (remove k (view l) ≡ view l)
unfolding find_id lookup remove
absent-view [] k h = (refl, refl)
absent-view ((j, e) ∷ l) k h = ground (arith, absent-view l k)

pub unlink-update :
    (i : ℕ) (g : Entry → Entry) (l : List Element) → unlink i (update_value i g l) ≡ unlink i l
unfolding unlink update_value
unlink-update i g [] = refl
unlink-update i g ((j, e) ∷ l) = ground (arith, unlink-update i g l)

pub value-update :
    (i : ℕ) (g : Entry → Entry) (e : Entry) (l : List Element)
    → value_of i l ≡ some e
    → value_of i (update_value i g l) ≡ some (g e)
unfolding value_of update_value
value-update i g e [] h = cc
value-update i g e ((j, f) ∷ l) h = elim (Bool-cases (j == i)) [
  | inl here ↦ let q : f ≡ e = ground arith in rw (here, update_value) (rw (here, value_of, q))
  | inr there ↦
      let v : value_of i l ≡ some e = ground arith in
      rw (there, update_value) (rw (there, value_of) (value-update i g e l v))
]

pub length-unlink :
    (i : ℕ) (e : Entry) (l : List Element)
    → value_of i l ≡ some e
    → length (unlink i l) + 1 ≡ length l
unfolding value_of unlink
length-unlink i e [] h = cc
length-unlink i e ((j, f) ∷ l) h = ground (arith, length-unlink i e l)

pub length-unlink-le : (i : ℕ) (l : List Element) → length (unlink i l) ≤ length l
unfolding unlink
length-unlink-le i [] = omega arith
length-unlink-le i ((j, f) ∷ l) = ground (arith, length-unlink-le i l)

-- Where the key is found at `i` and nowhere else, putting the element of `i` in front with an entry of
-- the same key changes no lookup.
pub find-front :
    (k : Key) (i : ℕ) (e f : Entry) (l : List Element)
    → DistinctKeys l
    → DistinctIds l
    → find_id f.key l ≡ some i
    → e.key ≡ f.key
    → find_id k ((i, e) ∷ unlink i l) ≡ find_id k l
unfolding find_id
find-front k i e f l dk di h q =
    let (g, v, p) = find-value f.key i l di h in
    elim (Bool-cases (key_eq e.key k)) [
      | inl here ↦
          let s : k ≡ f.key = sym ((key_eq_iff e.key k).0 here) ∙ q in
          rw (find_id, here) (rw s (sym h))
      | inr there ↦
          let t : key_eq g.key k ≡ false = rw (p, ← q) there in
          rw (find_id, there) (find-unlink k i g l dk v ∙ (rw t))
    ]

-- The last element, the list without it, and the first `n` elements of a list of `n + 1`.
pub back-some : (x : Element) (l : List Element) → (y : Element) × (back (x ∷ l) ≡ some y)
unfolding back
back-some x [] = (x, refl)
back-some x (y ∷ l) = back-some y l

pub back-value :
    (x : Element) (l : List Element) → back l ≡ some x → DistinctIds l → value_of x.0 l ≡ some x.1
unfolding back value_of
back-value x [] h d = cc
back-value x (y ∷ []) h d = ground arith
back-value x (y ∷ z ∷ l) h d = ground (arith, back-value x (z ∷ l) h d.1)

pub unlink-back :
    (x : Element) (n : ℕ) (l : List Element)
    → back l ≡ some x
    → DistinctIds l
    → length l ≡ suc n
    → unlink x.0 l ≡ take n l
unfolding back value_of unlink
unlink-back x n [] h d e = cc
unlink-back x zero (y ∷ []) h d e = ground arith
unlink-back x (suc n) (y ∷ []) h d e = absurd (omega arith)
unlink-back x zero (y ∷ z ∷ l) h d e = absurd (omega arith)
unlink-back x (suc n) (y ∷ z ∷ l) h d e =
    ground (arith, back-value x (z ∷ l) h d.1, unlink-back x n (z ∷ l) h d.1 (omega arith))
