-- ===== src/LogLimit/Seen.antt =====
-- The map of internal/loglimit/loglimit.go: reads after writes, and its size.
use splitdns.Prelude.{
  suc, ◌+◌, ◌≤◌, ◌≡◌, inl, inr, refl, ap, Bool, true, false, some, [], ◌∷◌, filter, length, arith,
  Bool-cases, some-injective,
}
use splitdns.Dns.{Name, name_eq, name_eq_iff}
use splitdns.LogLimit.{Entry, Seen, find, set}

pub name_eq_refl : (k : Name) → name_eq k k ≡ true
name_eq_refl k = (name_eq_iff k k).1 refl

pub find-set_same : (k : Name) (e : Entry) (l : Seen) → find k (set k e l) ≡ some e
unfolding find set
find-set_same k e [] = rw (name_eq_refl k) refl
find-set_same k e ((j, f) ∷ l) = elim (Bool-cases (name_eq k j)) [
  | inl h ↦ rw h (rw (name_eq_refl k) refl)
  | inr h ↦ rw h (rw h (find-set_same k e l))
]

pub find-set_other :
    (k j : Name) (e : Entry) (l : Seen) → name_eq k j ≡ false → find k (set j e l) ≡ find k l
unfolding find set
find-set_other k j e [] n = rw n refl
find-set_other k j e ((i, f) ∷ l) n = elim (Bool-cases (name_eq j i)) [
  | inl h ↦
      let same : j ≡ i = (name_eq_iff j i).0 h in
      let m : name_eq k i ≡ false = rw same at n in rw h (rw (n, m) refl)
  | inr h ↦ elim (Bool-cases (name_eq k i)) [
    | inl g ↦ rw h (rw g refl)
    | inr g ↦ rw h (rw g (find-set_other k j e l n))
  ]
]

pub length-set_new : (k : Name) (e : Entry) (l : Seen) → length (set k e l) ≤ 1 + length l
unfolding set
length-set_new k e [] = omega arith
length-set_new k e ((j, f) ∷ l) = elim (Bool-cases (name_eq k j)) [
  | inl h ↦ rw h (omega arith)
  | inr h ↦ let rest = length-set_new k e l in rw h (omega arith)
]

pub length-set_old :
    (k : Name) (e f : Entry) (l : Seen) → find k l ≡ some f → length (set k e l) ≡ length l
unfolding set find
length-set_old k e f [] h = absurd (cc h)
length-set_old k e f ((j, g) ∷ l) h = elim (Bool-cases (name_eq k j)) [
  | inl n ↦ rw n refl
  | inr n ↦ let rest : find k l ≡ some f = rw n at h in rw n (ap suc (length-set_old k e f l rest))
]

pub find-filter :
    (p : Name × Entry → Bool) (k : Name) (e : Entry) (l : Seen)
    → find k l ≡ some e
    → p (k, e) ≡ true
    → find k (filter p l) ≡ some e
unfolding find
find-filter p k e [] h g = absurd (cc h)
find-filter p k e ((j, f) ∷ l) h g = elim (Bool-cases (name_eq k j)) [
  | inl n ↦
      let same : k ≡ j = (name_eq_iff k j).0 n in
      let it : some f ≡ some e = rw n at h in
      let q : f ≡ e = some-injective f e it in let b : p (j, f) ≡ true = cc in rw b (rw n it)
  | inr n ↦
      let rest : find k l ≡ some e = rw n at h in
      elim (Bool-cases (p (j, f))) [
        | inl b ↦ rw b (rw n (find-filter p k e l rest g))
        | inr b ↦ rw b (find-filter p k e l rest g)
      ]
]
