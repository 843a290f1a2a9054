-- ===== src/Mdns/Maps.antt =====
-- The sizes and keys of the maps of internal/mdns/cache.go, behind a write, a deletion and an eviction.
use splitdns.Prelude.{
  ℕ, suc, ◌+◌, ◌≤◌, ◌<◌, ◌≡◌, ◌⊎◌, refl, ap, ◌∙◌, false, ◌||◌, some, List, [], ◌∷◌, if◌then◌else◌,
  ltb, length, Instant, arith, Bool-cases, inl, inr, if_elim,
}
use splitdns.Dns.{Name, name_eq, name_eq_iff}
use splitdns.Model.{get, put}
use splitdns.Resolver.Helpers.Suffix.{IsKey}
use splitdns.Mdns.{erase, is_nil, oldest, evict_oldest}

module _ {A : Type 0} where
  -- no entry has an empty name
  abbrev pub IsNamed : List (Name × A) → Type 0
  IsNamed [] = Unit
  IsNamed ((n, _) ∷ rest) = (is_nil n ≡ false) × IsNamed rest

  pub length-put-le : (k : Name) (a : A) (m : List (Name × A)) → length (put k a m) ≤ length m + 1
  unfolding put
  length-put-le k a [] = omega arith
  length-put-le k a ((n, b) ∷ rest) = elim (Bool-cases (name_eq k n)) [
    | inl e ↦ rw (e, put) (omega arith)
    | inr e ↦ rw (e, put) (omega (arith, length-put-le k a rest))
  ]

  pub length-put-found :
      (k : Name) (a b : A) (m : List (Name × A)) → get k m ≡ some b → length (put k a m) ≡ length m
  unfolding put get
  length-put-found k a b [] h = absurd (cc h)
  length-put-found k a b ((n, c) ∷ rest) h = elim (Bool-cases (name_eq k n)) [
    | inl e ↦ rw (e, put) refl
    | inr e ↦
        let later = length-put-found k a b rest (rw (e, get) at h) in
        rw (e, put) (omega (arith, later))
  ]

  pub put-IsNamed :
      (k : Name) (a : A) (m : List (Name × A)) → is_nil k ≡ false → IsNamed m → IsNamed (put k a m)
  unfolding put
  put-IsNamed k a [] h m = (h, tt)
  put-IsNamed k a ((n, b) ∷ rest) h (l, ls) = elim (Bool-cases (name_eq k n)) [
    | inl e ↦ rw (e, put) (l, ls)
    | inr e ↦ rw (e, put) (l, put-IsNamed k a rest h ls)
  ]

  pub length-erase-le : (k : Name) (m : List (Name × A)) → length (erase k m) ≤ length m
  unfolding erase
  length-erase-le k [] = omega arith
  length-erase-le k ((n, b) ∷ rest) =
      let later = length-erase-le k rest in
      if_elim (λ (l : List (Name × A)). length l ≤ suc (length rest)) (name_eq k n)
        (λ _. omega (arith, later)) (λ _. omega (arith, later))

  pub length-erase-lt : (k : Name) (m : List (Name × A)) → IsKey k m → length (erase k m) < length m
  unfolding erase
  length-erase-lt k [] h = absurd h
  length-erase-lt k ((n, b) ∷ rest) (inl e) =
      rw ((name_eq_iff k n).1 e, erase) (omega (arith, length-erase-le k rest))
  length-erase-lt k ((n, b) ∷ rest) (inr h) =
      let later = length-erase-lt k rest h in
      if_elim (λ (l : List (Name × A)). length l < suc (length rest)) (name_eq k n)
        (λ _. omega (arith, later)) (λ _. omega (arith, later))

  pub erase-IsNamed : (k : Name) (m : List (Name × A)) → IsNamed m → IsNamed (erase k m)
  unfolding erase
  erase-IsNamed k [] h = tt
  erase-IsNamed k ((n, b) ∷ rest) (l, ls) =
      let later = erase-IsNamed k rest ls in
      if_elim IsNamed (name_eq k n) (λ _. later) (λ _. (l, later))

  oldest-IsKey :
      (time : A → Instant) (v : Name) (t : Instant) (m : List (Name × A))
      → (oldest time v t m ≡ v) ⊎ IsKey (oldest time v t m) m
  unfolding oldest
  oldest-IsKey time v t [] = inl refl
  oldest-IsKey time v t ((h, e) ∷ rest) =
      let older = is_nil v || ltb (time e) t in
      let v' = if older then h else v in
      let t' = if older then time e else t in
      elim (oldest-IsKey time v' t' rest) [
        | inr key ↦ inr (inr key)
        | inl same ↦ elim (Bool-cases older) [
          | inl o ↦ inr (inl (same ∙ ap (λ b. if b then h else v) o))
          | inr o ↦ inl (same ∙ ap (λ b. if b then h else v) o)
        ]
      ]

  IsKey-IsNamed : (k : Name) (m : List (Name × A)) → IsNamed m → IsKey k m → is_nil k ≡ false
  IsKey-IsNamed k [] named key = absurd key
  IsKey-IsNamed k ((n, a) ∷ rest) (l, ls) (inl e) = ap is_nil e ∙ l
  IsKey-IsNamed k ((n, a) ∷ rest) (l, ls) (inr key) = IsKey-IsNamed k rest ls key

  oldest_found :
      (time : A → Instant) (m : List (Name × A)) → 0 < length m → IsKey (oldest time [] 0 m) m
  unfolding oldest
  oldest_found time [] some_of = absurd (omega (arith, some_of))
  oldest_found time ((h, e) ∷ rest) some_of = elim (oldest-IsKey time h (time e) rest) [
    | inl same ↦ inl same
    | inr key ↦ inr key
  ]

  -- An eviction makes room, where no name is empty.
  pub length-evict_oldest-lt :
      (time : A → Instant) (m : List (Name × A))
      → IsNamed m
      → 0 < length m
      → (length (evict_oldest time m).0 < length m) × IsNamed (evict_oldest time m).0
  unfolding evict_oldest
  length-evict_oldest-lt time m named some_of =
      let victim = oldest time [] 0 m in
      let key = oldest_found time m some_of in
      rw (IsKey-IsNamed victim m named key, evict_oldest)
        (length-erase-lt victim m key, erase-IsNamed victim m named)

-- a map of at most so many entries, none of them with an empty name
abbrev pub Fits : {A : Type 0} → ℕ → List (Name × A) → Type 0
Fits cap m = (length m ≤ cap) × IsNamed m

pub put-Fits :
    {A : Type 0} (cap : ℕ) (k : Name) (a : A) (m : List (Name × A))
    → is_nil k ≡ false
    → length m < cap
    → IsNamed m
    → Fits cap (put k a m)
put-Fits cap k a m named room names =
    (omega (arith, length-put-le k a m, room), put-IsNamed k a m named names)

pub put_found-Fits :
    {A : Type 0} (cap : ℕ) (k : Name) (a b : A) (m : List (Name × A))
    → is_nil k ≡ false
    → get k m ≡ some b
    → Fits cap m
    → Fits cap (put k a m)
put_found-Fits cap k a b m named found (le, names) =
    (omega (arith, length-put-found k a b m found, le), put-IsNamed k a m named names)

-- Room is made for one more entry.
pub evict-Fits :
    {A : Type 0} (time : A → Instant) (cap : ℕ) (m : List (Name × A))
    → 0 < cap
    → Fits cap m
    → cap ≤ length m
    → (length (evict_oldest time m).0 < cap) × IsNamed (evict_oldest time m).0
evict-Fits time cap m some_of (le, names) full =
    let (lt, names') = length-evict_oldest-lt time m names (omega (arith, some_of, full)) in
    (omega (arith, lt, le), names')
