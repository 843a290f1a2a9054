-- ===== src/Resolver/Resolve/Public.antt =====
-- What a public resolver may be asked, against the tests of `Resolve` on a name.
use splitdns.Prelude.{
  ℕ, ◌≡◌, ◌≢◌, ◌⊎◌, ◌↔◌, refl, inl, inr, true, false, none, some, List, [], ◌∷◌, ◌++◌, ltb, length,
  arith, Bool-cases, Option-cases,
}
use splitdns.Dns.{Name, name_eq_iff, before_suffix, before_suffix-none_iff, Question, type_any}
use splitdns.Model.{get, Snapshot, DdrAdvert}
use splitdns.Resolver.Helpers.{is_arpa, is_suffix_label, is_empty}
use splitdns.Resolver.Helpers.Suffix.{IsUnder, IsKey, is_suffix_label_iff}
use splitdns.Resolver.Ddr.{in_resolver_arpa}
use splitdns.Resolver.Local.{local_label}
use splitdns.Resolver.Resolve.{stub_match, is_adn}

-- resolver.arpa.
abbrev pub special : Name
special =
    b'r' ∷ b'e' ∷ b's' ∷ b'o' ∷ b'l' ∷ b'v' ∷ b'e' ∷ b'r' ∷ b'.' ∷ b'a' ∷ b'r' ∷ b'p' ∷ b'a' ∷ b'.'
    ∷ []

-- The name ends in .local., or in the local domain, if there is one.
abbrev pub IsLocal : Snapshot → Name → Type 0
IsLocal snap name =
    ((p : Name) × (name ≡ p ++ (b'.' ∷ b'l' ∷ b'o' ∷ b'c' ∷ b'a' ∷ b'l' ∷ b'.' ∷ [])))
    ⊎ ((snap.local_domain ≢ [])
        × ((p : Name) × (name ≡ p ++ (b'.' ∷ (snap.local_domain ++ (b'.' ∷ []))))))

-- What may be asked of a public resolver, of a name that is none of the special ones.
abbrev pub IsOutside : Snapshot → Name → ℕ → Type 0
IsOutside snap name qtype =
    ((is_arpa name ≡ true) × ((other : Name) → IsKey other snap.reverse_z → IsUnder name other → ⊥))
    ⊎ ((is_arpa name ≡ false)
        × (IsLocal snap name → ⊥)
        × (stub_match snap name ≡ [])
        × ((other : Name) → IsKey other snap.zones → IsUnder name other → ⊥)
        × (qtype ≢ type_any))

-- What may be asked of a public resolver: the name is not in resolver.arpa, is not the designated
-- resolver's and is not static; and either it is a reverse name under no configured reverse zone, or
-- it is neither a reverse name nor a local one, in no stub zone, under no mirrored zone, and not
-- asked for ANY.
abbrev pub IsPublic : Snapshot → Name → ℕ → Type 0
IsPublic snap name qtype =
    (IsUnder name special → ⊥)
    × ((d : DdrAdvert) → snap.ddr ≡ some d → d.adn ≢ [] → name ≢ d.adn)
    × (get name snap.static ≡ none)
    × IsOutside snap name qtype

pub empty_cases : {A : Type 0} (n : List A) → (n ≡ []) ⊎ (n ≢ [])
empty_cases [] = inl refl
empty_cases (c ∷ cs) = inr cc

pub is_empty_of_ne : {A : Type 0} (n : List A) → n ≢ [] → is_empty n ≡ false
is_empty_of_ne [] h = absurd (h refl)
is_empty_of_ne (c ∷ cs) h = refl

pub pos_of_ne : {A : Type 0} (n : List A) → n ≢ [] → ltb 0 (length n) ≡ true
pos_of_ne [] h = absurd (h refl)
pos_of_ne (c ∷ cs) h = ground arith

pub in_resolver_arpa_iff :
    (name : Name) → (in_resolver_arpa name ≡ false) ↔ (IsUnder name special → ⊥)
unfolding in_resolver_arpa is_suffix_label
in_resolver_arpa_iff name =
    let iff = is_suffix_label_iff name special in
    (
      λ h u. cc (iff.1 u, h),
      λ no. elim (Bool-cases (in_resolver_arpa name)) [ inl y ↦ absurd (no (iff.0 y)) | inr n ↦ n ],
    )

pub local_label-none_iff :
    (snap : Snapshot) (name : Name) → (local_label snap name ≡ none) ↔ (IsLocal snap name → ⊥)
unfolding local_label
local_label-none_iff snap name =
    let local = before_suffix-none_iff name (b'.' ∷ b'l' ∷ b'o' ∷ b'c' ∷ b'a' ∷ b'l' ∷ b'.' ∷ []) in
    let domain = before_suffix-none_iff name (b'.' ∷ (snap.local_domain ++ (b'.' ∷ []))) in
    (
      λ h.
          elim (Option-cases
            (before_suffix name (b'.' ∷ b'l' ∷ b'o' ∷ b'c' ∷ b'a' ∷ b'l' ∷ b'.' ∷ []))) [
              | inl n ↦ λ l. elim l [
                | inl (p, e) ↦ local.0 n p e
                | inr (some_domain, (p, e)) ↦
                    domain.0
                      (rw (n, is_empty_of_ne snap.local_domain some_domain, local_label) at h) p e
              ]
              | inr (q, n) ↦ absurd (cc (rw (n, local_label) at h))
            ],
      λ no.
          rw (local.1 (λ p e. no (inl (p, e))), local_label)
            (elim (empty_cases snap.local_domain) [
              | inl e ↦ rw e refl
              | inr e ↦
                  rw (is_empty_of_ne snap.local_domain e) (domain.1 (λ p f. no (inr (e, (p, f)))))
            ]),
    )

pub is_adn_iff :
    (d : DdrAdvert) (name : Name) → (is_adn d name ≡ true) ↔ ((d.adn ≢ []) × (name ≡ d.adn))
unfolding is_adn
is_adn_iff d name =
    let same = name_eq_iff name d.adn in
    elim (empty_cases d.adn) [
      | inl e ↦ (λ h. absurd (cc (rw (e, is_adn) at h)), λ (ne, _). absurd (ne e))
      | inr e ↦ (
        λ h. (e, same.0 (rw (is_empty_of_ne _ e, is_adn) at h)),
        λ (_, s). rw (is_empty_of_ne _ e, is_adn) (same.1 s),
      )
    ]

-- the questions of a query: one, none, or more
pub question-cases :
    (qs : List Question)
    → ((q : Question) × (qs ≡ q ∷ []))
      ⊎ ((qs ≡ [])
          ⊎ ((q : Question) × (r : Question) × (rest : List Question) × (qs ≡ q ∷ r ∷ rest)))
question-cases [] = inr (inl refl)
question-cases (q ∷ []) = inl (q, refl)
question-cases (q ∷ r ∷ rest) = inr (inr (q, r, rest, refl))
