-- ===== src/Mirror/Zones/Interior.antt =====
-- Which owners `deriveENT` of internal/mirror/mirror.go takes for empty non-terminals.
use splitdns.Prelude.{
  ℕ, ◌≡◌, ◌⊎◌, ◌↔◌, refl, sym, ap, false, ◌&&◌, not, Option, none, some, List, [], ◌∷◌, ◌++◌, ◌==◌,
  arith, Bool-cases, inl, inr,
}
use splitdns.Dns.{Name}
use splitdns.Model.{get, ByType, Zone}
use splitdns.Resolver.Zone.{is_some}
use splitdns.Resolver.Helpers.Suffix.{IsKey}
use splitdns.Mirror.Zones.{ancestors, is_nil, mark, mark_all, derive_ent}

-- an element of a list of names
abbrev pub IsIn : Name → List Name → Type 0
IsIn n [] = ⊥
IsIn n (m ∷ ms) = (n ≡ m) ⊎ IsIn n ms

-- a name under another one
abbrev pub IsAbove : Name → Name → Type 0
IsAbove anc owner = (p : Name) × (owner ≡ p ++ (b'.' ∷ anc))

nil_ne : (p anc : Name) → [] ≡ p ++ (b'.' ∷ anc) → ⊥
nil_ne [] anc e = cc e
nil_ne (c ∷ p) anc e = cc e

IsAbove-cases :
    (c : ℕ) (cs anc p : Name)
    → c ∷ cs ≡ p ++ (b'.' ∷ anc)
    → ((c ≡ b'.') × (cs ≡ anc)) ⊎ IsAbove anc cs
IsAbove-cases c cs anc [] e = inl (cc e, cc e)
IsAbove-cases c cs anc (d ∷ p) e = inr (p, cc e)

ancestors_iff : (owner anc : Name) → IsIn anc (ancestors owner) ↔ IsAbove anc owner
unfolding ancestors
ancestors_iff [] anc = (λ h. absurd h, λ (p, e). nil_ne p anc e)
ancestors_iff (c ∷ cs) anc =
    let later = ancestors_iff cs anc in
    elim (Bool-cases (c == b'.')) [
      | inl d ↦
          let dot : c ≡ b'.' = ground (arith, d) in
          rw (d, ancestors)
            (
              λ h. elim h [
                | inl e ↦ ([], cc (dot, e))
                | inr r ↦ let (p, q) = later.0 r in (c ∷ p, ap (◌∷◌ c) q)
              ],
              λ (p, e). elim (IsAbove-cases c cs anc p e) [
                | inl (_, q) ↦ inl (sym q)
                | inr a ↦ inr (later.1 a)
              ],
            )
      | inr d ↦
          rw (d, ancestors)
            (
              λ r. let (p, q) = later.0 r in (c ∷ p, ap (◌∷◌ c) q),
              λ (p, e). elim (IsAbove-cases c cs anc p e) [
                | inl (q, _) ↦ absurd (ground (arith, q, d))
                | inr a ↦ later.1 a
              ],
            )
    ]

-- what may be marked: not empty, and without records of its own
abbrev pub IsInner : List (Name × ByType) → Name → Type 0
IsInner records anc = (is_nil anc ≡ false) × (get anc records ≡ none)

none_of_is_some : {A : Type 0} (o : Option A) → is_some o ≡ false → o ≡ none
none_of_is_some none h = refl
none_of_is_some (some a) h = absurd (cc h)

module _ (records : List (Name × ByType)) where
  mark_iff :
      (ent ancs : List Name) (n : Name)
      → IsIn n (mark records ent ancs) ↔ (IsIn n ent ⊎ (IsIn n ancs × IsInner records n))
  unfolding mark
  mark_iff ent [] n = (inl, λ h. elim h [ inl i ↦ i | inr (b, _) ↦ absurd b ])
  mark_iff ent (anc ∷ ancs) n =
      elim (Bool-cases (not (is_nil anc) && not (is_some (get anc records)))) [
        | inl y ↦
            let later = mark_iff (anc ∷ ent) ancs n in
            let full : is_nil anc ≡ false = ground (arith, y) in
            let bare : get anc records ≡ none =
              none_of_is_some (get anc records) (ground (arith, y)) in
            rw (y, mark)
              (
                λ h. elim (later.0 h) [
                  | inl (inl e) ↦ inr (inl e, rw e (full, bare))
                  | inl (inr i) ↦ inl i
                  | inr (i, k) ↦ inr (inr i, k)
                ],
                λ h. later.1 (elim h [
                  | inl i ↦ inl (inr i)
                  | inr (inl e, k) ↦ inl (inl e)
                  | inr (inr i, k) ↦ inr (i, k)
                ]),
              )
        | inr o ↦
            let later = mark_iff ent ancs n in
            rw (o, mark)
              (
                λ h. elim (later.0 h) [ inl i ↦ inl i | inr (i, k) ↦ inr (inr i, k) ],
                λ h. later.1 (elim h [
                  | inl i ↦ inl i
                  | inr (inl e, (k, g)) ↦ absurd (
                      let k' : is_nil anc ≡ false = rw e at k in
                      let g' : is_some (get anc records) ≡ false = ap is_some (rw e at g) in
                      ground (arith, o, k', g'))
                  | inr (inr i, k) ↦ inr (i, k)
                ]),
              )
      ]

  mark_all_iff :
      (ent : List Name) (owners : List (Name × ByType)) (n : Name)
      → IsIn n (mark_all records ent owners)
        ↔ (IsIn n ent ⊎ ((owner : Name) × IsKey owner owners × IsAbove n owner × IsInner records n))
  unfolding mark_all
  mark_all_iff ent [] n = (inl, λ h. elim h [ inl i ↦ i | inr (_, k, _, _) ↦ absurd k ])
  mark_all_iff ent ((owner, m) ∷ rest) n =
      let later = mark_all_iff (mark records ent (ancestors owner)) rest n in
      let here = mark_iff ent (ancestors owner) n in
      let above = ancestors_iff owner n in
      (
        λ h. elim (later.0 h) [
          | inl i ↦ elim (here.0 i) [
            | inl j ↦ inl j
            | inr (j, k) ↦ inr (owner, inl refl, above.0 j, k)
          ]
          | inr (o, k, a, i) ↦ inr (o, inr k, a, i)
        ],
        λ h. later.1 (elim h [
          | inl i ↦ inl (here.1 (inl i))
          | inr (o, inl e, a, i) ↦ inl (here.1 (inr (above.1 (rw e at a), i)))
          | inr (o, inr k, a, i) ↦ inr (o, k, a, i)
        ]),
      )

-- An owner is an empty non-terminal of a zone, none being marked before, exactly when it is not empty,
-- has no records of its own, and is what follows a dot of some owner that has.
pub derive_ent_iff :
    (z : Zone) (n : Name)
    → z.ent ≡ []
    → IsIn n (derive_ent z).ent
      ↔ ((owner : Name) × IsKey owner z.records × IsAbove n owner × IsInner z.records n)
unfolding derive_ent
derive_ent_iff z n empty =
    let marked = mark_all_iff z.records z.ent z.records n in
    (λ h. elim (marked.0 h) [ inl i ↦ absurd (rw empty at i) | inr x ↦ x ], λ x. marked.1 (inr x))
