-- ===== src/Ddns/Plan/Converges.antt =====
-- The plan of internal/ddns/ddns.go brings a host's records to the announced addresses.
use splitdns.Prelude.{
  ◌≡◌, refl, ◌∙◌, ap, Bool, true, false, not, ◌&&◌, ◌||◌, List, [], ◌∷◌, ◌++◌, map, filter, arith,
  Bool-cases, inl, inr,
}
use mathlib.Core.List.{map-append}
use splitdns.Dns.{Name, name_eq, name_eq_iff}
use splitdns.Netmatch.{Addr}
use splitdns.Ddns.Plan.{
  Texts, Record, EditOp, CreateOp, Plan, holds, pair_up, added, outdated, norm_addr, contents,
  plan_family, build_plan, is_family, is6, join, name_lt,
}
use splitdns.Ddns.Plan.Lists.{holds-append, holds-sort, holds-split}

abbrev pub edit_addrs : Plan → List Addr
edit_addrs p = map (λ (e : EditOp). e.addr) p.edits

abbrev pub create_addrs : Plan → List Addr
create_addrs p = map (λ (c : CreateOp). c.addr) p.creates

-- the addresses that the plan writes
abbrev pub written : Plan → List Addr
written p = edit_addrs p ++ create_addrs p

-- the records that the plan takes away or rewrites
abbrev pub touched : Plan → List Record
touched p = map (λ (e : EditOp). e.rec) p.edits ++ p.deletes

-- Without records to reuse, each address is created.
pair_up-creates :
    (z n : Name) (add : List Addr)
    → ((pair_up z n add []).edits ≡ [])
      × (create_addrs (pair_up z n add []) ≡ add)
      × ((pair_up z n add []).deletes ≡ [])
unfolding pair_up
pair_up-creates z n [] = (refl, refl, refl)
pair_up-creates z n (a ∷ l) =
    let rest = pair_up-creates z n l in (rest.0, ap (◌∷◌ a) rest.1, rest.2)

-- Pairing writes all the added addresses and touches all the outdated records, once each.
pub pair_up-all :
    (z n : Name) (add : List Addr) (del : List Record)
    → (written (pair_up z n add del) ≡ add) × (touched (pair_up z n add del) ≡ del)
unfolding pair_up
pair_up-all z n [] del = (refl, refl)
pair_up-all z n (a ∷ l) [] =
    let all = pair_up-creates z n l in rw (all.0, all.2) (ap (◌∷◌ a) all.1, refl)
pair_up-all z n (a ∷ l) (r ∷ rs) =
    let rest = pair_up-all z n l rs in (ap (◌∷◌ a) rest.0, ap (◌∷◌ r) rest.1)

added-holds :
    (tx : Texts) (s : Name) (cur seen : List Name) (l : List Addr)
    → holds (map tx.show (added tx cur seen l)) s
      ≡ (holds (map tx.show l) s && (not (holds seen s) && not (holds cur s)))
unfolding added
added-holds tx s cur seen [] = refl
added-holds tx s cur seen (a ∷ l) =
    let t = tx.show a in
    let rest = added-holds tx s cur seen l in
    let more = added-holds tx s cur (t ∷ seen) l in
    elim (Bool-cases (name_eq s t)) [
      | inl e ↦
          let same : s ≡ t = (name_eq_iff s t).0 e in
          let b : holds seen s ≡ holds seen t = ap (holds seen) same in
          let c : holds cur s ≡ holds cur t = ap (holds cur) same in
          elim (Bool-cases (holds seen t)) [
            | inl u ↦ rw (u, e) (ground (arith, rest, b, u))
            | inr u ↦ elim (Bool-cases (holds cur t)) [
              | inl v ↦ rw (u, v, e) (ground (arith, more, b, c, u, v, e))
              | inr v ↦ rw (u, v, e) (ground (arith, b, c, u, v))
            ]
          ]
      | inr e ↦ elim (Bool-cases (holds seen t)) [
        | inl u ↦ rw (u, e) rest
        | inr u ↦ elim (Bool-cases (holds cur t)) [
          | inl v ↦ rw (u, v, e) (more ∙ rw e refl)
          | inr v ↦ rw (u, v, e) (more ∙ rw e refl)
        ]
      ]
    ]

pub or_swap : (a b c d : Bool) → ((a || b) || (c || d)) ≡ ((a || c) || (b || d))
or_swap a b c d = ground arith

written-join :
    (tx : Texts) (s : Name) (p q : Plan)
    → holds (map tx.show (written (join p q))) s
      ≡ (holds (map tx.show (written p)) s || holds (map tx.show (written q)) s)
written-join tx s p q =
    let sh = tx.show in
    holds-append sh s (edit_addrs (join p q)) (create_addrs (join p q))
    ∙ rw
        (
          map-append (λ (e : EditOp). e.addr) p.edits q.edits,
          map-append (λ (c : CreateOp). c.addr) p.creates q.creates,
          holds-append sh s (edit_addrs p) (edit_addrs q),
          holds-append sh s (create_addrs p) (create_addrs q),
          holds-append sh s (edit_addrs p) (create_addrs p),
          holds-append sh s (edit_addrs q) (create_addrs q),
        )
        (or_swap (holds (map sh (edit_addrs p)) s) (holds (map sh (edit_addrs q)) s)
          (holds (map sh (create_addrs p)) s) (holds (map sh (create_addrs q)) s))

family-written :
    (tx : Texts) (s : Name) (first : Record) (add : List Addr) (del : List Record) (fam : Bool)
    → holds (map tx.show (written (plan_family tx first add del fam))) s
      ≡ holds (map tx.show (filter (is_family fam) add)) s
unfolding plan_family
family-written tx s first add del fam =
    let lt : Addr → Addr → Bool = λ a b. name_lt (tx.show a) (tx.show b) in
    ap (λ l. holds (map tx.show l) s) (pair_up-all first.zone_id first.name _ _).0
    ∙ holds-sort tx.show s lt (filter (is_family fam) add)

-- the records that have an announced address
abbrev pub kept : Texts → List Addr → List Record → List Record
kept tx desired records =
    filter (λ (r : Record). holds (map tx.show desired) (norm_addr tx r.content)) records

kept-holds :
    (tx : Texts) (s : Name) (set : List Name) (records : List Record)
    → holds (contents tx (filter (λ (r : Record). holds set (norm_addr tx r.content)) records)) s
      ≡ (holds (contents tx records) s && holds set s)
kept-holds tx s set [] = refl
kept-holds tx s set (r ∷ rs) =
    let t = norm_addr tx r.content in
    let rest = kept-holds tx s set rs in
    elim (Bool-cases (name_eq s t)) [
      | inl e ↦
          let same : holds set s ≡ holds set t = ap (holds set) ((name_eq_iff s t).0 e) in
          elim (Bool-cases (holds set t)) [
            | inl u ↦ rw (u, e) (ground (arith, same, u))
            | inr u ↦ rw (u, e) (ground (arith, rest, same, u))
          ]
      | inr e ↦ elim (Bool-cases (holds set t)) [
        | inl u ↦ rw u (rw e rest)
        | inr u ↦ rw u (rw e rest)
      ]
    ]

union : (a b : Bool) → ((a && b) || (b && (true && not a))) ≡ b
union a b = ground arith

-- The contents of the records that have an announced address, and the addresses that the plan writes,
-- are together the announced addresses.
pub build_plan-contents :
    (tx : Texts) (first : Record) (records : List Record) (desired : List Addr) (s : Name)
    → let p = build_plan tx first records desired in
      (holds (contents tx (kept tx desired (first ∷ records))) s
        || holds (map tx.show (written p)) s)
      ≡ holds (map tx.show desired) s
unfolding build_plan
build_plan-contents tx first records desired s =
    let all = first ∷ records in
    let add = added tx (contents tx all) [] desired in
    let del = outdated tx (map tx.show desired) all in
    let w : holds (map tx.show (written (build_plan tx first records desired))) s
        ≡ (holds (map tx.show desired) s && (true && not (holds (contents tx all) s))) =
      written-join tx s (plan_family tx first add del false) (plan_family tx first add del true)
      ∙ rw (family-written tx s first add del false, family-written tx s first add del true)
          (holds-split tx.show s is6 add)
      ∙ added-holds tx s (contents tx all) [] desired in
    rw (w, kept-holds tx s (map tx.show desired) all)
      (union (holds (contents tx all) s) (holds (map tx.show desired) s))
