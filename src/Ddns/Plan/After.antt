-- ===== src/Ddns/Plan/After.antt =====
-- The contents of a host's records once the plan of internal/ddns/ddns.go is carried out.
use splitdns.Prelude.{
  ◌≡◌, refl, sym, ap, ◌∙◌, Bool, true, false, not, ◌||◌, List, [], ◌∷◌, ◌++◌, map, filter, arith,
  Bool-cases, inl, inr,
}
use splitdns.Dns.{Name, name_eq, name_eq_iff}
use splitdns.Netmatch.{Addr}
use splitdns.Ddns.Plan.{Texts, Record, Plan, holds, outdated, norm_addr, contents, build_plan}
use splitdns.Ddns.Plan.Converges.{touched, written, kept, build_plan-contents}
use splitdns.Ddns.Plan.Families.{build_plan-touched}

abbrev pub ids : List Record → List Name
ids records = map (λ (r : Record). r.record_id) records

-- no two of the records have the same identifier
abbrev pub IsDistinct : List Record → Type 0
IsDistinct [] = Unit
IsDistinct (r ∷ rs) = (holds (ids rs) r.record_id ≡ false) × IsDistinct rs

-- the records that the plan neither edits nor deletes, by their identifiers
abbrev pub untouched : Plan → List Record → List Record
untouched p records = filter (λ (r : Record). not (holds (ids (touched p)) r.record_id)) records

-- The contents of the records afterwards: those that the plan leaves alone, and what it writes into
-- the records that it edits and creates.
abbrev pub after : Texts → Plan → List Record → List Name
after tx p records = contents tx (untouched p records) ++ map tx.show (written p)

holds-concat : (s : Name) (xs ys : List Name) → holds (xs ++ ys) s ≡ (holds xs s || holds ys s)
holds-concat s [] ys = refl
holds-concat s (x ∷ xs) ys = elim (Bool-cases (name_eq s x)) [
  | inl h ↦ rw h refl
  | inr h ↦ rw h (holds-concat s xs ys)
]

name_eq_comm : (a b : Name) → name_eq a b ≡ false → name_eq b a ≡ false
name_eq_comm a b differ = elim (Bool-cases (name_eq b a)) [
  | inl e ↦ absurd (cc ((name_eq_iff a b).1 (sym ((name_eq_iff b a).0 e)), differ))
  | inr e ↦ e
]

-- A record that is not among some records is not among those of them that pass a test.
holds-filter :
    (p : Record → Bool) (k : Name) (records : List Record)
    → holds (ids records) k ≡ false
    → holds (ids (filter p records)) k ≡ false
holds-filter p k [] fresh = refl
holds-filter p k (r ∷ rs) fresh =
    let apart : name_eq k r.record_id ≡ false = ground (arith, fresh) in
    let later = holds-filter p k rs (ground (arith, fresh)) in
    elim (Bool-cases (p r)) [ inl y ↦ rw y (rw apart later) | inr n ↦ rw n later ]

-- An identifier that none of the records has makes no difference for them.
filter-fresh :
    (k : Name) (set : List Name) (records : List Record)
    → holds (ids records) k ≡ false
    → filter (λ (r : Record). not (holds (k ∷ set) r.record_id)) records
      ≡ filter (λ (r : Record). not (holds set r.record_id)) records
filter-fresh k set [] fresh = refl
filter-fresh k set (r ∷ rs) fresh =
    let apart : name_eq r.record_id k ≡ false =
      name_eq_comm k r.record_id (ground (arith, fresh)) in
    let later = filter-fresh k set rs (ground (arith, fresh)) in
    rw apart (elim (Bool-cases (holds set r.record_id)) [
      | inl y ↦ rw y later
      | inr n ↦ rw n (ap (◌∷◌ r) later)
    ])

-- Taken by their identifiers, the records that fail a test leave those that pass it.
filter-ids :
    (good : Record → Bool) (records : List Record)
    → IsDistinct records
    → filter
        (λ (r : Record). not (holds (ids (filter (λ x. not (good x)) records)) r.record_id))
        records
      ≡ filter good records
filter-ids good [] distinct = refl
filter-ids good (r ∷ rs) (fresh, distinct) =
    let bad : List Record = filter (λ x. not (good x)) rs in
    let later = filter-ids good rs distinct in
    elim (Bool-cases (good r)) [
      | inl y ↦
          let gone : holds (ids bad) r.record_id ≡ false =
            holds-filter (λ x. not (good x)) r.record_id rs fresh in
          let same : filter (λ x. not (good x)) (r ∷ rs) ≡ bad = rw y refl in
          ap (λ set. filter (λ (x : Record). not (holds (ids set) x.record_id)) (r ∷ rs)) same
          ∙ rw gone (rw y (ap (◌∷◌ r) later))
      | inr n ↦
          let self : name_eq r.record_id r.record_id ≡ true =
            (name_eq_iff r.record_id r.record_id).1 refl in
          let same : filter (λ x. not (good x)) (r ∷ rs) ≡ r ∷ bad = rw n refl in
          ap (λ set. filter (λ (x : Record). not (holds (ids set) x.record_id)) (r ∷ rs)) same
          ∙ rw self (filter-fresh r.record_id (ids bad) rs fresh ∙ (later ∙ rw n refl))
    ]

module _ (tx : Texts) (first : Record) (records : List Record) (desired : List Addr) where
  untouched-build_plan :
      IsDistinct (first ∷ records)
      → untouched (build_plan tx first records desired) (first ∷ records)
        ≡ kept tx desired (first ∷ records)
  unfolding outdated
  untouched-build_plan distinct =
      (λ i.
        filter
          (λ (r : Record). not (
            build_plan-touched tx (λ (x : Record). x.record_id) first records desired r.record_id
              i))
          (first ∷ records))
      ∙ filter-ids (λ (r : Record). holds (map tx.show desired) (norm_addr tx r.content))
          (first ∷ records) distinct

  -- Once the plan is carried out, the contents of a host's records, as addresses are written, are those
  -- of the announced addresses, no more and no fewer: the contents of the records that it neither
  -- edits nor deletes, and the addresses that it writes into the others or creates records for. No
  -- two of the records have the same identifier.
  pub after-build_plan :
      (s : Name)
      → IsDistinct (first ∷ records)
      → holds (after tx (build_plan tx first records desired) (first ∷ records)) s
        ≡ holds (map tx.show desired) s
  after-build_plan s distinct =
      let p = build_plan tx first records desired in
      holds-concat s (contents tx (untouched p (first ∷ records))) (map tx.show (written p))
      ∙ rw (untouched-build_plan distinct) (build_plan-contents tx first records desired s)
