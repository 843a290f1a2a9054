-- ===== src/Ddns/Plan.antt =====
-- The plan of edits in internal/ddns/ddns.go: what brings the records of a host to the announced
-- addresses. `Texts` has the two operations of `net/netip` on the text of an address. `sort.Slice`
-- is insertion by the order of strings; it may order records of the same content otherwise.
pub mod Lists
pub mod Converges
pub mod Families
pub mod After
pub mod Sources
use splitdns.Prelude.{
  ℕ, ◌≡◌, Bool, true, false, not, ◌&&◌, ◌||◌, Option, none, some, List, [], ◌∷◌, ◌++◌, map,
  if◌then◌else◌, ltb, leb, ◌==◌, filter, any,
}
use splitdns.Netmatch.{Addr, invalid, v4, v6, unmap}
use splitdns.Dns.{Name, name_eq, to_lower}

-- `Addr.String`, `ParseAddr` after `TrimSpace`, and `TrimSpace`
pub record Texts : Type 0 where
  pub show : Addr → Name
  pub parse : Name → Option Addr
  pub trim : Name → Name

abbrev pub type_a : ℕ
type_a = 1

abbrev pub type_aaaa : ℕ
type_aaaa = 28

-- the fields of `model.RR` that the writer reads
pub record Record : Type 0 where
  pub name : Name
  pub rtype : ℕ
  pub content : Name
  pub zone_id : Name
  pub record_id : Name
  pub proxied : Bool

-- `editOp`
pub record EditOp : Type 0 where
  pub rec : Record
  pub addr : Addr

-- `createOp`
pub record CreateOp : Type 0 where
  pub zone_id : Name
  pub name : Name
  pub addr : Addr

-- `plan`
pub record Plan : Type 0 where
  pub edits : List EditOp
  pub creates : List CreateOp
  pub deletes : List Record

-- `Addr.Is6`
abbrev pub is6 : Addr → Bool
is6 invalid = false
is6 (v4 n) = false
is6 (v6 n z) = true

-- `typeOf`, on addresses that are valid
unfoldable pub type_of : Addr → ℕ
type_of a = if is6 a then type_aaaa else type_a

-- `normAddr`
unfoldable pub norm_addr : Texts → Name → Name
unfolding unmap
norm_addr tx s = elim (tx.parse s) [ none ↦ s | some a ↦ tx.show (unmap a) ]

-- a set of strings holds a string
abbrev pub holds : List Name → Name → Bool
holds set s = any (λ t. name_eq s t) set

-- the loop over `desired`: the addresses to add, without repetition; `seen` is `desiredSet`
unfoldable pub added : Texts → List Name → List Name → List Addr → List Addr
unfolding name_eq
added tx cur seen [] = []
added tx cur seen (a ∷ l) =
    let s = tx.show a in
    let rest = added tx cur seen l in
    let more = added tx cur (s ∷ seen) l in
    if holds seen s then rest else if holds cur s then more else a ∷ more

-- the records that are not desired
unfoldable pub outdated : Texts → List Name → List Record → List Record
unfolding name_eq norm_addr
outdated tx desired_set records =
    filter (λ (r : Record). not (holds desired_set (norm_addr tx r.content))) records

-- Go's `<` on strings
unfoldable pub name_lt : Name → Name → Bool
name_lt [] [] = false
name_lt [] (d ∷ ds) = true
name_lt (c ∷ cs) [] = false
name_lt (c ∷ cs) (d ∷ ds) =
    let rest = name_lt cs ds in if ltb c d then true else if c == d then rest else false

module _ {A : Type 0} where
  insert_by : (A → A → Bool) → A → List A → List A
  insert_by lt x [] = x ∷ []
  insert_by lt x (y ∷ l) = let rest = insert_by lt x l in if lt y x then y ∷ rest else x ∷ y ∷ l

  -- `sort.Slice`
  unfoldable pub sort_by : (A → A → Bool) → List A → List A
  unfolding insert_by
  sort_by lt [] = []
  sort_by lt (x ∷ l) = insert_by lt x (sort_by lt l)

-- The three loops over a family: the first of the added addresses go into the first of the outdated
-- records, what is left is created or deleted.
unfoldable pub pair_up : Name → Name → List Addr → List Record → Plan
pair_up zone_id name [] deleted = record { edits = []; creates = []; deletes = deleted }
pair_up zone_id name (a ∷ l) [] =
    let p = pair_up zone_id name l [] in
    record p { creates = record { zone_id = zone_id; name = name; addr = a } ∷ p.creates }
pair_up zone_id name (a ∷ l) (r ∷ rs) =
    let p = pair_up zone_id name l rs in record p { edits = record { rec = r; addr = a } ∷ p.edits }

abbrev pub is_family : Bool → Addr → Bool
is_family true a = is6 a
is_family false a = not (is6 a)

abbrev pub is_record_family : Bool → Record → Bool
is_record_family true r = r.rtype == type_aaaa
is_record_family false r = not (r.rtype == type_aaaa)

-- a turn of the loop over the families
unfoldable pub plan_family : Texts → Record → List Addr → List Record → Bool → Plan
unfolding sort_by name_lt pair_up
plan_family tx first add del fam =
    pair_up first.zone_id first.name
      (sort_by (λ a b. name_lt (tx.show a) (tx.show b)) (filter (is_family fam) add))
      (sort_by (λ (r s : Record). name_lt r.content s.content) (filter (is_record_family fam) del))

abbrev pub join : Plan → Plan → Plan
join p q = record {
  edits = p.edits ++ q.edits;
  creates = p.creates ++ q.creates;
  deletes = p.deletes ++ q.deletes;
}

abbrev pub contents : Texts → List Record → List Name
contents tx records = map (λ (r : Record). norm_addr tx r.content) records

-- `buildPlan` for the records `first ∷ records`: the code reads the first one
unfoldable pub build_plan : Texts → Record → List Record → List Addr → Plan
unfolding added outdated plan_family norm_addr
build_plan tx first records desired =
    let add = added tx (contents tx (first ∷ records)) [] desired in
    let del = outdated tx (map tx.show desired) (first ∷ records) in
    join (plan_family tx first add del false) (plan_family tx first add del true)

-- `plan.empty`
unfoldable pub is_empty : Plan → Bool
is_empty p = elim p.edits [
  | _ ∷ _ ↦ false
  | [] ↦ elim p.creates [ _ ∷ _ ↦ false | [] ↦ elim p.deletes [ [] ↦ true | _ ∷ _ ↦ false ] ]
]
