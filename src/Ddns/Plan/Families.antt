-- ===== src/Ddns/Plan/Families.antt =====
-- The plan of internal/ddns/ddns.go touches each outdated record once, within its address family.
use splitdns.Prelude.{
  ◌==◌, ◌≡◌, sym, ◌∙◌, ap, Bool, true, false, ◌||◌, List, [], ◌∷◌, ◌++◌, map, filter, All, arith,
  Bool-cases, inl, inr,
}
use mathlib.Core.List.{map-append}
use splitdns.Dns.{Name}
use splitdns.Netmatch.{Addr}
use splitdns.Ddns.Plan.{
  Texts, Record, EditOp, Plan, holds, insert_by, sort_by, pair_up, added, outdated, contents,
  plan_family, build_plan, is_family, is_record_family, is6, type_aaaa, join, name_lt,
}
use splitdns.Ddns.Plan.Lists.{holds-append, holds-sort, holds-split}
use splitdns.Ddns.Plan.Converges.{touched, pair_up-all, or_swap}

module _ {A : Type 0} (P : A → Type 0) where
  All-insert : (lt : A → A → Bool) (x : A) (l : List A) → P x → All P l → All P (insert_by lt x l)
  unfolding insert_by
  All-insert lt x [] p h = (p, tt)
  All-insert lt x (y ∷ l) p h = elim (Bool-cases (lt y x)) [
    | inl b ↦ rw b (h.0, All-insert lt x l p h.1)
    | inr b ↦ rw b (p, h)
  ]

  pub All-sort : (lt : A → A → Bool) (l : List A) → All P l → All P (sort_by lt l)
  unfolding sort_by
  All-sort lt [] h = h
  All-sort lt (x ∷ l) h = All-insert lt x (sort_by lt l) h.0 (All-sort lt l h.1)

  pub All-append : (xs ys : List A) → All P xs → All P ys → All P (xs ++ ys)
  All-append [] ys h g = g
  All-append (x ∷ xs) ys h g = (h.0, All-append xs ys h.1 g)

pub All-passes : {A : Type 0} → (p : A → Bool) (l : List A) → All (λ x. p x ≡ true) (filter p l)
All-passes p [] = tt
All-passes p (x ∷ l) = elim (Bool-cases (p x)) [
  | inl b ↦ rw b (b, All-passes p l)
  | inr b ↦ rw b (All-passes p l)
]

-- the address of an edit has the family of its record
abbrev pub SameFamily : EditOp → Type 0
SameFamily e = is6 e.addr ≡ (e.rec.rtype == type_aaaa)

pair_up-SameFamily :
    (z n : Name) (fam : Bool) (add : List Addr) (del : List Record)
    → All (λ a. is_family fam a ≡ true) add
    → All (λ r. is_record_family fam r ≡ true) del
    → All SameFamily (pair_up z n add del).edits
unfolding pair_up
pair_up-SameFamily z n fam [] del h g = tt
pair_up-SameFamily z n fam (a ∷ l) [] h g = pair_up-SameFamily z n fam l [] h.1 g
pair_up-SameFamily z n true (a ∷ l) (r ∷ rs) h g =
    (h.0 ∙ sym g.0, pair_up-SameFamily z n true l rs h.1 g.1)
pair_up-SameFamily z n false (a ∷ l) (r ∷ rs) h g =
    (ground (arith, h.0, g.0), pair_up-SameFamily z n false l rs h.1 g.1)

family-SameFamily :
    (tx : Texts) (first : Record) (add : List Addr) (del : List Record) (fam : Bool)
    → All SameFamily (plan_family tx first add del fam).edits
unfolding plan_family
family-SameFamily tx first add del fam =
    pair_up-SameFamily first.zone_id first.name fam _ _
      (All-sort (λ a. is_family fam a ≡ true) (λ a b. name_lt (tx.show a) (tx.show b)) _
        (All-passes (is_family fam) add))
      (All-sort (λ r. is_record_family fam r ≡ true) (λ (r s : Record). name_lt r.content s.content)
        _ (All-passes (is_record_family fam) del))

-- An address is only written into a record of its own family: an A record stays an A record.
pub build_plan-SameFamily :
    (tx : Texts) (first : Record) (records : List Record) (desired : List Addr)
    → All SameFamily (build_plan tx first records desired).edits
unfolding build_plan
build_plan-SameFamily tx first records desired =
    let add = added tx (contents tx (first ∷ records)) [] desired in
    let del = outdated tx (map tx.show desired) (first ∷ records) in
    All-append SameFamily (plan_family tx first add del false).edits
      (plan_family tx first add del true).edits (family-SameFamily tx first add del false)
      (family-SameFamily tx first add del true)

touched-join :
    (f : Record → Name) (s : Name) (p q : Plan)
    → holds (map f (touched (join p q))) s
      ≡ (holds (map f (touched p)) s || holds (map f (touched q)) s)
touched-join f s p q =
    holds-append f s (map (λ (e : EditOp). e.rec) (p.edits ++ q.edits)) (p.deletes ++ q.deletes)
    ∙ rw
        (
          map-append (λ (e : EditOp). e.rec) p.edits q.edits,
          holds-append f s (map (λ (e : EditOp). e.rec) p.edits)
              (map (λ (e : EditOp). e.rec) q.edits),
          holds-append f s p.deletes q.deletes,
          holds-append f s (map (λ (e : EditOp). e.rec) p.edits) p.deletes,
          holds-append f s (map (λ (e : EditOp). e.rec) q.edits) q.deletes,
        )
        (or_swap (holds (map f (map (λ (e : EditOp). e.rec) p.edits)) s)
          (holds (map f (map (λ (e : EditOp). e.rec) q.edits)) s) (holds (map f p.deletes) s)
          (holds (map f q.deletes) s))

family-touched :
    (tx : Texts) (f : Record → Name) (s : Name) (first : Record) (add : List Addr)
    (del : List Record) (fam : Bool)
    → holds (map f (touched (plan_family tx first add del fam))) s
      ≡ holds (map f (filter (is_record_family fam) del)) s
unfolding plan_family
family-touched tx f s first add del fam =
    ap (λ l. holds (map f l) s) (pair_up-all first.zone_id first.name _ _).1
    ∙ holds-sort f s (λ (r t : Record). name_lt r.content t.content)
        (filter (is_record_family fam) del)

-- The plan edits or deletes exactly the records whose address is not announced: told by their identifiers,
-- or by any other text that belongs to a record.
pub build_plan-touched :
    (tx : Texts) (f : Record → Name) (first : Record) (records : List Record) (desired : List Addr)
    (s : Name)
    → holds (map f (touched (build_plan tx first records desired))) s
      ≡ holds (map f (outdated tx (map tx.show desired) (first ∷ records))) s
unfolding build_plan
build_plan-touched tx f first records desired s =
    let add = added tx (contents tx (first ∷ records)) [] desired in
    let del = outdated tx (map tx.show desired) (first ∷ records) in
    touched-join f s (plan_family tx first add del false) (plan_family tx first add del true)
    ∙ rw (family-touched tx f s first add del false, family-touched tx f s first add del true)
        (holds-split f s (λ (r : Record). r.rtype == type_aaaa) del)
