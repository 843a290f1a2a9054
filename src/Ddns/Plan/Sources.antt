-- ===== src/Ddns/Plan/Sources.antt =====
-- Where the records and addresses of a plan of internal/ddns/ddns.go come from.
use splitdns.Prelude.{
  ◌≡◌, refl, Bool, true, false, not, List, [], ◌∷◌, map, All, All-filter, Bool-cases, inl, inr,
}
use splitdns.Dns.{Name}
use splitdns.Netmatch.{Addr}
use splitdns.Ddns.Plan.{
  Texts, Record, EditOp, CreateOp, Plan, holds, pair_up, added, outdated, norm_addr, contents,
  plan_family, build_plan, is_family, is_record_family, name_lt,
}
use splitdns.Ddns.Plan.Families.{All-sort, All-append}

module _ (P : Record → Type 0) (Q : Addr → Type 0) where
  added-All :
      (tx : Texts) (cur seen : List Name) (l : List Addr) → All Q l → All Q (added tx cur seen l)
  unfolding added
  added-All tx cur seen [] h = h
  added-All tx cur seen (a ∷ l) h = elim (Bool-cases (holds seen (tx.show a))) [
    | inl u ↦ rw u (added-All tx cur seen l h.1)
    | inr u ↦ elim (Bool-cases (holds cur (tx.show a))) [
      | inl v ↦ rw (u, v) (added-All tx cur (tx.show a ∷ seen) l h.1)
      | inr v ↦ rw (u, v) (h.0, added-All tx cur (tx.show a ∷ seen) l h.1)
    ]
  ]

  -- What a plan is made of: its records have `P`, its addresses `Q`, and what it creates has the zone
  -- and the name of a record.
  pub record From (first : Record) (p : Plan) : Type 0 where
    pub edits : All (λ (e : EditOp). P e.rec × Q e.addr) p.edits
    pub creates :
        All
          (λ (c : CreateOp). Q c.addr × (c.zone_id ≡ first.zone_id) × (c.name ≡ first.name))
          p.creates
    pub deletes : All P p.deletes

  pair_up-From :
      (first : Record) (add : List Addr) (del : List Record)
      → All Q add
      → All P del
      → From first (pair_up first.zone_id first.name add del)
  unfolding pair_up
  pair_up-From first [] del q p = record { edits = tt; creates = tt; deletes = p }
  pair_up-From first (a ∷ l) [] q p =
      let rest = pair_up-From first l [] q.1 p in
      record {
        edits = rest.edits;
        creates = ((q.0, refl, refl), rest.creates);
        deletes = rest.deletes;
      }
  pair_up-From first (a ∷ l) (r ∷ rs) q p =
      let rest = pair_up-From first l rs q.1 p.1 in
      record { edits = ((p.0, q.0), rest.edits); creates = rest.creates; deletes = rest.deletes }

  family-From :
      (tx : Texts) (first : Record) (add : List Addr) (del : List Record) (fam : Bool)
      → All Q add
      → All P del
      → From first (plan_family tx first add del fam)
  unfolding plan_family
  family-From tx first add del fam q p =
      pair_up-From first _ _
        (All-sort Q (λ a b. name_lt (tx.show a) (tx.show b)) _ (All-filter Q (is_family fam) add q))
        (All-sort P (λ (r s : Record). name_lt r.content s.content) _
          (All-filter P (is_record_family fam) del p))

  pub build_plan-From :
      (tx : Texts) (first : Record) (records : List Record) (desired : List Addr)
      → All P (first ∷ records)
      → All Q desired
      → From first (build_plan tx first records desired)
  unfolding build_plan outdated
  build_plan-From tx first records desired p q =
      let all = first ∷ records in
      let add = added tx (contents tx all) [] desired in
      let del = outdated tx (map tx.show desired) all in
      let qs = added-All tx (contents tx all) [] desired q in
      let ps =
        All-filter P (λ (r : Record). not (holds (map tx.show desired) (norm_addr tx r.content)))
          all p in
      let f = family-From tx first add del false qs ps in
      let g = family-From tx first add del true qs ps in
      record {
        edits = All-append _ (plan_family tx first add del false).edits _ f.edits g.edits;
        creates = All-append _ (plan_family tx first add del false).creates _ f.creates g.creates;
        deletes = All-append _ (plan_family tx first add del false).deletes _ f.deletes g.deletes;
      }
