-- ===== src/Resolver/Helpers/Suffix.antt =====
-- The zone that a name belongs to: `isSuffixLabel` and `longestZoneSuffix` of
-- internal/resolver/helpers.go, against what a label-aligned suffix is.
use splitdns.Prelude.{
  ℕ, ◌≤◌, ◌≡◌, ◌⊎◌, ◌↔◌, refl, ap, sym, ◌∙◌, inl, inr, true, ◌&&◌, List, [], ◌∷◌, ◌++◌, length,
  length-append, ltb, arith, Bool-cases, none, some, ◌≢◌,
}
use mathlib.Core.List.{append_assoc}
use splitdns.Dns.{Name, name_eq, name_eq_iff, has_suffix, has_suffix-append, has_suffix→append}
use splitdns.Model.{RevZone}
use splitdns.Resolver.Helpers.{
  is_suffix_label, longest_suffix, longest_zone_suffix, longest_reverse,
}

-- The apex is the name, or what follows a dot of it.
abbrev pub IsUnder : Name → Name → Type 0
IsUnder name apex = (name ≡ apex) ⊎ ((p : Name) × (name ≡ p ++ (b'.' ∷ apex)))

pub is_suffix_label_iff :
    (name apex : Name) → (is_suffix_label name apex ≡ true) ↔ IsUnder name apex
unfolding is_suffix_label
is_suffix_label_iff name apex = (
  λ h. elim (Bool-cases (name_eq name apex)) [
    | inl e ↦ inl ((name_eq_iff name apex).0 e)
    | inr e ↦
        let rest : has_suffix name (b'.' ∷ apex) ≡ true = rw e at h in
        inr (has_suffix→append name (b'.' ∷ apex) rest)
  ],
  λ h. elim h [
    | inl e ↦ rw ((name_eq_iff name apex).1 e) refl
    | inr (p, e) ↦ elim (Bool-cases (name_eq name apex)) [
      | inl s ↦ rw s refl
      | inr s ↦ rw (s, e) (has_suffix-append p (b'.' ∷ apex))
    ]
  ],
)

-- Two suffixes of a name that are as long are equal.
pub suffixes_equal : (p q a b : Name) → p ++ a ≡ q ++ b → length a ≡ length b → a ≡ b
suffixes_equal [] [] a b e l = e
suffixes_equal [] (d ∷ q) a b e l =
    let n : length a ≡ length (d ∷ q ++ b) = ap (λ x. length x) e in
    absurd (omega (arith, n, l, length-append q b))
suffixes_equal (c ∷ p) [] a b e l =
    let n : length (c ∷ p ++ a) ≡ length b = ap (λ x. length x) e in
    absurd (omega (arith, n, l, length-append p a))
suffixes_equal (c ∷ p) (d ∷ q) a b e l = suffixes_equal p q a b (cc e) l

under_prefix : (name apex : Name) → IsUnder name apex → (p : Name) × (name ≡ p ++ apex)
under_prefix name apex (inl e) = ([], e)
under_prefix name apex (inr (p, e)) = (p ++ (b'.' ∷ []), e ∙ sym (append_assoc p (b'.' ∷ []) apex))

empty_of_length-zero : (a : Name) → length a ≤ 0 → [] ≡ a
empty_of_length-zero [] h = refl
empty_of_length-zero (c ∷ cs) h = absurd (omega (arith, h))

-- the keys of a map
abbrev pub IsKey : {A : Type 0} → Name → List (Name × A) → Type 0
IsKey k [] = ⊥
IsKey k ((n, a) ∷ rest) = (k ≡ n) ⊎ IsKey k rest

module _ {A : Type 0} (name : Name) where
  longest-found :
      (zones : List (Name × A)) (best r : Name)
      → longest_suffix name best zones ≡ r
      → (r ≡ best) ⊎ (IsKey r zones × IsUnder name r)
  unfolding longest_suffix
  longest-found [] best r h = inl (sym h)
  longest-found ((apex, z) ∷ zones) best r h =
      elim (Bool-cases (is_suffix_label name apex && ltb (length best) (length apex))) [
        | inl e ↦
            let next : longest_suffix name apex zones ≡ r = rw e at h in
            elim (longest-found zones apex r next) [
              | inl s ↦ inr (inl s, rw s ((is_suffix_label_iff name apex).0 (ground (arith, e))))
              | inr (k, u) ↦ inr (inr k, u)
            ]
        | inr e ↦
            let next : longest_suffix name best zones ≡ r = rw e at h in
            elim (longest-found zones best r next) [ inl s ↦ inl s | inr (k, u) ↦ inr (inr k, u) ]
      ]

  longest-grows :
      (zones : List (Name × A)) (best : Name)
      → length best ≤ length (longest_suffix name best zones)
  unfolding longest_suffix
  longest-grows [] best = omega arith
  longest-grows ((apex, z) ∷ zones) best =
      elim (Bool-cases (is_suffix_label name apex && ltb (length best) (length apex))) [
        | inl e ↦
            let here : ltb (length best) (length apex) ≡ true = ground (arith, e) in
            let more = longest-grows zones apex in rw e (ground (arith, here, more))
        | inr e ↦ rw e (longest-grows zones best)
      ]

  longest-covers :
      (zones : List (Name × A)) (best apex : Name)
      → IsKey apex zones
      → IsUnder name apex
      → length apex ≤ length (longest_suffix name best zones)
  unfolding longest_suffix
  longest-covers ((k, z) ∷ zones) best apex (inr later) under =
      longest-covers zones _ apex later under
  longest-covers ((k, z) ∷ zones) best apex (inl e) under =
      let suffix : is_suffix_label name k ≡ true =
        (is_suffix_label_iff name k).1 (rw (sym e) under) in
      elim (Bool-cases (ltb (length best) (length k))) [
        | inl l ↦ rw (suffix, l, e) (longest-grows zones k)
        | inr l ↦ let more = longest-grows zones best in rw (suffix, l, e) (ground (arith, l, more))
      ]
  longest-covers [] best apex key under = absurd key

  -- The zone of a name is its longest one, in whatever order the map is ranged over: it is the apex of
  -- the map that the name is or lies under at the boundary of a label, and that no other such apex
  -- is longer than; and it is empty where there is no such apex.
  pub longest_zone_suffix_lem :
      (zones : List (Name × A))
      → ((apex : Name)
          → IsKey apex zones
          → IsUnder name apex
          → ((other : Name) → IsKey other zones → IsUnder name other → length other ≤ length apex)
          → longest_zone_suffix name zones ≡ apex)
        × (((other : Name) → IsKey other zones → IsUnder name other → ⊥)
            → longest_zone_suffix name zones ≡ [])
  unfolding longest_zone_suffix
  longest_zone_suffix_lem zones = (
    λ apex key under longest. elim (longest-found zones [] (longest_suffix name [] zones) refl) [
      | inl none_found ↦
          let short = longest-covers zones [] apex key under in
          none_found ∙ empty_of_length-zero apex (rw none_found at short)
      | inr (k, u) ↦
          let le = longest _ k u in
          let ge = longest-covers zones [] apex key under in
          let (p, e) = under_prefix name _ u in
          let (q, f) = under_prefix name apex under in
          suffixes_equal p q _ apex (sym e ∙ f) (omega (arith, le, ge))
    ],
    λ nothing. elim (longest-found zones [] (longest_suffix name [] zones) refl) [
      | inl e ↦ e
      | inr (k, u) ↦ absurd (nothing _ k u)
    ],
  )

  -- No zone is found exactly when the name is under none, the map having no empty key.
  pub longest_suffix-none_iff :
      (zones : List (Name × A))
      → (IsKey [] zones → ⊥)
      → (longest_suffix name [] zones ≡ [])
        ↔ ((other : Name) → IsKey other zones → IsUnder name other → ⊥)
  longest_suffix-none_iff zones no_empty = (
    λ e other key under.
        let short = longest-covers zones [] other key under in
        let empty = empty_of_length-zero other (rw e at short) in no_empty (rw (sym empty) at key),
    λ nothing. elim (longest-found zones [] (longest_suffix name [] zones) refl) [
      | inl e ↦ e
      | inr (k, u) ↦ absurd (nothing _ k u)
    ],
  )

module _ (name : Name) where
  reverse-found :
      (zones : List (Name × RevZone)) (best : RevZone) (n : ℕ)
      → longest_reverse name (some best) n zones ≢ none
  unfolding longest_reverse
  reverse-found [] best n h = cc h
  reverse-found ((apex, z) ∷ zones) best n h =
      elim (Bool-cases (is_suffix_label name apex && ltb n (length apex))) [
        | inl e ↦ reverse-found zones z (length apex) (rw e at h)
        | inr e ↦ reverse-found zones best n (rw e at h)
      ]

  -- No reverse zone is found exactly when the name is under none, the map having no empty key.
  pub longest_reverse-none_iff :
      (zones : List (Name × RevZone))
      → (IsKey [] zones → ⊥)
      → (longest_reverse name none 0 zones ≡ none)
        ↔ ((other : Name) → IsKey other zones → IsUnder name other → ⊥)
  unfolding longest_reverse
  longest_reverse-none_iff [] no_empty = (λ h other key under. absurd key, λ h. refl)
  longest_reverse-none_iff (([], z) ∷ zones) no_empty = absurd (no_empty (inl refl))
  longest_reverse-none_iff ((c ∷ apex, z) ∷ zones) no_empty =
      let pos : ltb 0 (length (c ∷ apex)) ≡ true = ground arith in
      elim (Bool-cases (is_suffix_label name (c ∷ apex))) [
        | inl e ↦ (
          λ h. absurd (reverse-found zones z (length (c ∷ apex)) (rw (e, pos) at h)),
          λ nothing.
              absurd (nothing (c ∷ apex) (inl refl) ((is_suffix_label_iff name (c ∷ apex)).0 e)),
        )
        | inr e ↦
            let rest = longest_reverse-none_iff zones (λ k. no_empty (inr k)) in
            (
              λ h other key under. elim key [
                | inl s ↦
                    let yes = (is_suffix_label_iff name (c ∷ apex)).1 (rw s at under) in
                    absurd (cc (yes, e))
                | inr k ↦ rest.0 (rw e at h) other k under
              ],
              λ nothing. rw e (rest.1 (λ other k under. nothing other (inr k) under)),
            )
      ]
